-- ===== src/Nat/Wire/Burst.antt =====
-- A burst of NAT/NWT_actualPkts/main.c.
use mathlib.Core.List.{append_assoc, append-nil}
use dpdk_code.Base.{
  ℕ, ◌+◌, ◌≤◌, ◌≡◌, refl, sym, ◌∙◌, false, Option, none, some, List, [], ◌∷◌, ◌++◌, or_same, ◌==◌,
  map, arith, length, is_some-eq_some, Bool-cases, inl, inr, Option-cases,
}
use dpdk_code.Nat.Timed.{
  Services, ServiceLaws, State, NatKey, find_or_create, create_mapping, refresh_timer,
}
use dpdk_code.Nat.Timed.Invariant.{IsValid}
use dpdk_code.Nat.Timed.Packets.{Admits, find_or_create-Kept}
use dpdk_code.Nat.Wire.{Frame, Running, frame_key, keep_flow, rx_frame, rx_frames}
use dpdk_code.Parsing.{be16_at, ether_type_ipv4}
use dpdk_code.Parsing.Reads.{be16_at_inside, is_some-be32_at}

-- A frame that holds the fields of its key.
frame_key_inside : (d : List ℕ) → 38 ≤ length d → (k : NatKey) × (frame_key d ≡ some k)
unfolding frame_key
frame_key_inside d h = is_some-eq_some (frame_key d) (
    ground
      (arith, is_some-be32_at d 26, is_some-be32_at d 30, be16_at_inside d 34, be16_at_inside d 36))

module _ {T C : Type 0} (sv : Services T C) (slack : ℕ) where
  -- The frame has an Ethernet header, and an IPv4 frame also the fields of its key; its timer is
  -- armed in time, and its flow, if it is new, finds memory, room and a free port.
  abbrev pub FrameReady : State T C → Frame → Type 0
  FrameReady s f =
      (14 ≤ length f.bytes)
      × (be16_at f.bytes 12 ≡ some ether_type_ipv4
          → (38 ≤ length f.bytes)
            × (f.at ≤ s.global_last_pkt + slack)
            × ((k : NatKey) → frame_key f.bytes ≡ some k → Admits sv s f.mem k))

  abbrev pub AllReady : Running T C → List Frame → Type 0
  AllReady r [] = Unit
  AllReady r (f ∷ fs) =
      FrameReady r.nat f × ((r' : Running T C) → rx_frame sv r f ≡ some r' → AllReady r' fs)

module _ {T C : Type 0} (sv : Services T C) (laws : ServiceLaws sv) (slack : ℕ) where
  -- Flows that the table has are still there.
  abbrev pub Grows : T → T → Type 0
  Grows t t' =
      (k : NatKey) (p : ℕ) → sv.table.hash.lookup t k ≡ some p → sv.table.hash.lookup t' k ≡ some p

  add-Grows :
      (t : T) (key : NatKey) (p : ℕ)
      → sv.table.hash.lookup t key ≡ none
      → Grows t (or_same (sv.table.hash.add t key p) t)
  add-Grows t key p miss = λ k q found. elim (Option-cases (sv.table.hash.add t key p)) [
    | inl full ↦ ground arith
    | inr (t', added) ↦ ground (arith, laws.table.hash.lookup-add_ne t t' key k p added)
  ]

  find_or_create-Grows :
      (s s' : State T C) (mem : Option ℕ) (key : NatKey) (p : ℕ)
      → find_or_create sv s mem key ≡ some (p, s')
      → Grows s.nat_table s'.nat_table
  unfolding find_or_create create_mapping
  find_or_create-Grows s s' mem key p ran =
      elim (Option-cases (sv.table.hash.lookup s.nat_table key)) [
        | inl miss ↦ elim (Option-cases mem) [
          | inl null ↦ absurd (ground arith)
          | inr (q, given) ↦
              let grown = add-Grows s.nat_table key q miss in
              λ k r found. ground (arith, grown k r found)
        ]
        | inr (q, hit) ↦ λ k r found. ground arith
      ]

  -- The flow of an IPv4 frame is in the table.
  abbrev pub HasFlow : T → Frame → Type 0
  HasFlow t f =
      be16_at f.bytes 12 ≡ some ether_type_ipv4
      → (k : NatKey) × (p : ℕ) × (frame_key f.bytes ≡ some k) × (sv.table.hash.lookup t k ≡ some p)

  abbrev pub HasFlows : T → List Frame → Type 0
  HasFlows t [] = Unit
  HasFlows t (f ∷ fs) = HasFlow t f × HasFlows t fs

  HasFlow-Grows : (t t' : T) (f : Frame) → Grows t t' → HasFlow t f → HasFlow t' f
  HasFlow-Grows t t' f grows has =
      λ ipv4. let (k, p, keyed, found) = has ipv4 in (k, p, keyed, grows k p found)

  -- What one frame, and a burst, does.
  pub record Received (r r' : Running T C) (fs : List Frame) : Type 0 where
    pub valid : IsValid sv slack r'.nat
    pub last : r'.nat.global_last_pkt ≡ r.nat.global_last_pkt
    pub flag : r'.nat.table_cleared ≡ r.nat.table_cleared
    pub hz : r'.nat.hz ≡ r.nat.hz
    pub freed : r'.freed ≡ r.freed ++ map (λ (f : Frame). f.mbuf) fs
    pub grows : Grows r.nat.nat_table r'.nat.nat_table
    pub flows : HasFlows r'.nat.nat_table fs

  find_or_create-hz :
      (s s' : State T C) (mem : Option ℕ) (key : NatKey) (p : ℕ)
      → find_or_create sv s mem key ≡ some (p, s')
      → s'.hz ≡ s.hz
  unfolding find_or_create create_mapping
  find_or_create-hz s s' mem key p ran =
      elim (Option-cases (sv.table.hash.lookup s.nat_table key)) [
        | inl miss ↦ elim (Option-cases mem) [
          | inl null ↦ absurd (ground arith)
          | inr (q, given) ↦ ground arith
        ]
        | inr (q, hit) ↦ ground arith
      ]

  ipv4_frame-Received :
      (r : Running T C) (f : Frame)
      → IsValid sv slack r.nat
      → r.nat.table_cleared ≡ 0
      → FrameReady sv slack r.nat f
      → be16_at f.bytes 12 ≡ some ether_type_ipv4
      → (r' : Running T C) × (rx_frame sv r f ≡ some r') × Received r r' (f ∷ [])
  unfolding rx_frame keep_flow refresh_timer
  ipv4_frame-Received r f v flag (fits, more) ipv4 =
      let (long, prompt, admits) = more ipv4 in
      let (key, keyed) = frame_key_inside f.bytes long in
      let (p, s', e, ran, live, kept) =
        find_or_create-Kept sv laws slack r.nat r.nat.global_last_pkt f.at f.mem key v refl flag
          prompt (admits key keyed) in
      (
        record { nat = refresh_timer sv s' f.at p; freed = r.freed ++ (f.mbuf ∷ []) },
        ground (arith, ran, keyed, live),
        record {
          valid = kept.valid;
          last = kept.last;
          flag = ground (arith, kept.flag);
          hz = find_or_create-hz r.nat s' f.mem key p ran;
          freed = refl;
          grows = find_or_create-Grows r.nat s' f.mem key p ran;
          flows = (
            λ h. (
              key,
              kept.place,
              keyed,
              ground (arith, kept.keyed, kept.valid.linked.stored kept.place e kept.live),
            ),
            tt,
          );
        },
      )

  other_frame-Received :
      (r : Running T C) (f : Frame) (ether_type : ℕ)
      → IsValid sv slack r.nat
      → be16_at f.bytes 12 ≡ some ether_type
      → (ether_type == ether_type_ipv4) ≡ false
      → (r' : Running T C) × (rx_frame sv r f ≡ some r') × Received r r' (f ∷ [])
  unfolding rx_frame
  other_frame-Received r f ether_type v read other = (
    record r { freed = r.freed ++ (f.mbuf ∷ []) },
    ground (arith, read, other),
    record {
      valid = v;
      last = refl;
      flag = refl;
      hz = refl;
      freed = refl;
      grows = λ k p found. found;
      flows = (λ ipv4. absurd (ground (arith, read, other)), tt);
    },
  )

  rx_frame-Received :
      (r : Running T C) (f : Frame)
      → IsValid sv slack r.nat
      → r.nat.table_cleared ≡ 0
      → FrameReady sv slack r.nat f
      → (r' : Running T C) × (rx_frame sv r f ≡ some r') × Received r r' (f ∷ [])
  rx_frame-Received r f v flag ready =
      let (ether_type, read) =
        is_some-eq_some (be16_at f.bytes 12) (ground (arith, be16_at_inside f.bytes 12, ready.0)) in
      elim (Bool-cases (ether_type == ether_type_ipv4)) [
        | inl ipv4 ↦ ipv4_frame-Received r f v flag ready (ground (arith, read, ipv4))
        | inr other ↦ other_frame-Received r f ether_type v read other
      ]

  pub rx_frames-Received :
      (fs : List Frame) (r : Running T C)
      → IsValid sv slack r.nat
      → r.nat.table_cleared ≡ 0
      → AllReady sv slack r fs
      → (r' : Running T C) × (rx_frames sv r fs ≡ some r') × Received r r' fs
  unfolding rx_frames
  rx_frames-Received [] r v flag ready = (
    r,
    refl,
    record {
      valid = v;
      last = refl;
      flag = refl;
      hz = refl;
      freed = sym (append-nil r.freed);
      grows = λ k p found. found;
      flows = tt;
    },
  )
  rx_frames-Received (f ∷ fs) r v flag ready =
      let (r1, ran, x) = rx_frame-Received r f v flag ready.0 in
      let (r', rest, y) = rx_frames-Received fs r1 x.valid (x.flag ∙ flag) (ready.1 r1 ran) in
      (
        r',
        rw ran rest,
        record {
          valid = y.valid;
          last = y.last ∙ x.last;
          flag = y.flag ∙ x.flag;
          hz = y.hz ∙ x.hz;
          freed = y.freed ∙ simp (x.freed, append_assoc) refl;
          grows = λ k p found. y.grows k p (x.grows k p found);
          flows = (HasFlow-Grows r1.nat.nat_table r'.nat.nat_table f y.grows x.flows.0, y.flows);
        },
      )
