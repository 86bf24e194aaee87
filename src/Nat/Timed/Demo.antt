-- ===== src/Nat/Timed/Demo.antt =====
-- The test traffic of main in NAT/Nat_with_TIMER/nwt.c, and what is left when it has been quiet.
pub mod Expire
mod Examples
use dpdk_code.Base.{
  ap, ◌≢◌, ◌%◌, ℕ, ◌+◌, ◌*◌, ◌^◌, ◌≤◌, ◌<◌, ◌≡◌, refl, sym, ◌∙◌, Option, none, some, List, [], ◌∷◌,
  ◌>>=◌, inl, inr, arith, Option-cases, true, if◌then◌else◌, leb, Bool-cases, ◌==◌,
}
use dpdk_code.Dpdk.Timers.{is_due}
use dpdk_code.Dpdk.Iterate.{search_from, full_fuel}
use dpdk_code.Nat.Timed.{
  Services, ServiceLaws, State, Packet, NatKey, Entry, public_ip, nat_key, process_packet,
  timer_manage, egress, ingress, find_or_create, create_mapping, refresh_timer, is_target, seen,
}
use dpdk_code.Nat.Timed.Invariant.{IsValid}
use dpdk_code.Nat.Timed.Packets.{Admits, Kept, process_packet_egress, seen-IsValid}
use dpdk_code.Nat.Timed.Expiry.{timer_manage-Expired}

abbrev pub p1 : Packet
p1 = record {
  src_ip = 0xC0A80001;
  dst_ip = 0x08080808;
  src_port = 1111;
  dst_port = 80;
  proto = 6;
  is_ingress = 0;
}

abbrev pub p2 : Packet
p2 = record {
  src_ip = 0xC0A80002;
  dst_ip = 0x08080808;
  src_port = 2222;
  dst_port = 80;
  proto = 6;
  is_ingress = 0;
}

-- When a packet is seen and its timer armed, what rte_malloc would return, and what the stack held.
pub record Call : Type 0 where
  pub now : ℕ
  pub at : ℕ
  pub mem : Option ℕ
  pub stack : ℕ

module _ {T C : Type 0} (sv : Services T C) where
  -- process_packet rewrites the packet that it is given: the caller has the rewritten one.
  abbrev pub call : State T C → Call → Packet → Option (State T C × Packet)
  call s c pkt = process_packet sv s c.now c.at c.mem c.stack pkt

  -- The third call is given the first packet again, as the first call has left it.
  unfoldable pub main_traffic : State T C → Call → Call → Call → Option (State T C)
  main_traffic s c1 c2 c3 = do
    (s1, out1) ← call s c1 p1
    (s2, out2) ← call s1 c2 p2
    (s3, out3) ← call s2 c3 out1
    some s3

module _ {T C : Type 0} (sv : Services T C) (laws : ServiceLaws sv) (slack : ℕ) where
  hz-find_or_create :
      (s s' : State T C) (mem : Option ℕ) (key : NatKey) (p : ℕ)
      → find_or_create sv s mem key ≡ some (p, s')
      → s'.hz ≡ s.hz
  unfolding find_or_create create_mapping
  hz-find_or_create s s' none key p h = ground arith
  hz-find_or_create s s' (some a) key p h = ground arith

  hz-process_packet :
      (s s' : State T C) (now at : ℕ) (mem : Option ℕ) (stack : ℕ) (pkt out : Packet)
      → pkt.is_ingress ≡ 0
      → process_packet sv s now at mem stack pkt ≡ some (s', out)
      → s'.hz ≡ s.hz
  unfolding process_packet egress refresh_timer
  hz-process_packet s s' now at mem stack pkt out outward h =
      let key = nat_key stack pkt in
      elim (Option-cases (find_or_create sv (seen s now) mem key)) [
        | inl failed ↦ absurd (ground arith)
        | inr (found, kept) ↦ elim (Option-cases (found.1.heap found.0)) [
          | inl missing ↦ absurd (ground arith)
          | inr (e, live) ↦
              ground (arith, hz-find_or_create (seen s now) found.1 mem key found.0 kept)
        ]
      ]

  -- When the last packet was five seconds and `slack` ago, every timer is due.
  pub quiet_expires :
      (s : State T C) (t : ℕ)
      → IsValid sv slack s
      → s.global_last_pkt + slack + 5 * s.hz ≤ t
      → (s' : State T C) × (timer_manage sv s t ≡ some s')
        × ((q : ℕ) → s'.heap q ≡ none)
        × ((k : NatKey) → sv.table.hash.lookup s'.nat_table k ≡ none)
  quiet_expires s t v quiet =
      let (s', ran, w, gone, globals) = timer_manage-Expired sv laws slack s t v in
      let empty : (q : ℕ) → s'.heap q ≡ none = λ q.
        elim (Option-cases (sv.timer.deadline s.timers q)) [
          | inl stopped ↦ ground (arith, v.armed q, gone q)
          | inr (d, at) ↦
              let late : d ≤ t = omega (arith, v.soon q d at) in ground (arith, v.armed q, gone q)
        ] in
      (
        s',
        ran,
        empty,
        λ k. elim (Option-cases (sv.table.hash.lookup s'.nat_table k)) [
          | inl missing ↦ missing
          | inr (p, found) ↦
              let (e, live, keyed) = w.linked.live k p found in absurd (ground (arith, empty p))
        ],
      )

  -- Time does not run backwards, the timer is armed within `slack`, and a new flow finds memory,
  -- room and a free port.
  abbrev pub Fits : State T C → Call → Packet → Type 0
  Fits s c pkt =
      (s.global_last_pkt ≤ c.now) × (c.at ≤ c.now + slack) × Admits sv s c.mem (nat_key c.stack pkt)

  find_or_create-ne :
      (s s' : State T C) (mem : Option ℕ) (key : NatKey) (p q : ℕ) (e : Entry)
      → IsValid sv slack s
      → (sv.table.hash.lookup s.nat_table key ≡ none → (r : ℕ) × (mem ≡ some r) × (s.heap r ≡ none))
      → s.heap p ≡ some e
      → e.key ≢ key
      → find_or_create sv s mem key ≡ some (q, s')
      → (p ≢ q)
        × (s'.heap p ≡ some e)
        × (sv.timer.deadline s'.timers p ≡ sv.timer.deadline s.timers p)
  unfolding find_or_create create_mapping
  find_or_create-ne s s' mem key p q e v room live other h =
      elim (Option-cases (sv.table.hash.lookup s.nat_table key)) [
        | inl miss ↦
            let (r, given, unused) = room miss in
            let apart : p ≢ r = λ same. absurd (ground arith) in
            ground (arith, laws.timer.deadline-init_ne s.timers r p apart)
        | inr (r, hit) ↦
            let (f, live', keyed) = v.linked.live key r hit in
            let apart : p ≢ r = λ same. other (ground arith) in ground arith
      ]

  -- A call with a packet of another flow leaves an entry and its timer.
  pub call-ne :
      (s s' : State T C) (c : Call) (pkt out : Packet) (p : ℕ) (e : Entry)
      → IsValid sv slack s
      → Fits s c pkt
      → pkt.is_ingress ≡ 0
      → s.heap p ≡ some e
      → e.key ≢ nat_key c.stack pkt
      → call sv s c pkt ≡ some (s', out)
      → (s'.heap p ≡ some e) × (sv.timer.deadline s'.timers p ≡ sv.timer.deadline s.timers p)
  unfolding process_packet egress refresh_timer
  call-ne s s' c pkt out p e v (later, prompt, room) outward live other h =
      let key = nat_key c.stack pkt in
      let t = seen s c.now in
      elim (Option-cases (find_or_create sv t c.mem key)) [
        | inl failed ↦ absurd (ground arith)
        | inr (found, kept) ↦
            let (apart, heap, timer) =
              find_or_create-ne t found.1 c.mem key p found.0 e
                (seen-IsValid sv laws slack s c.now later v)
                (λ miss. let (r, given, x) = room miss in (r, given, x.unused)) live other kept in
            elim (Option-cases (found.1.heap found.0)) [
              | inl missing ↦ absurd (ground arith)
              | inr (f, live') ↦
                  let ticks = 5 * found.1.hz % 2 ^ 64 in
                  ground (
                    arith,
                    heap,
                    timer,
                    laws.timer.deadline-reset_ne found.1.timers c.at ticks found.0 p apart,
                  )
            ]
      ]

  pub call_lem :
      (s : State T C) (c : Call) (pkt : Packet)
      → IsValid sv slack s
      → Fits s c pkt
      → pkt.is_ingress ≡ 0
      → (s' : State T C) × (out : Packet) × (e : Entry) × (call sv s c pkt ≡ some (s', out))
        × (out ≡ record pkt { src_ip = public_ip; src_port = e.public_port })
        × Kept sv slack c.now c.at (nat_key c.stack pkt) s' e
        × (s'.hz ≡ s.hz)
  call_lem s c pkt v (later, prompt, room) outward =
      let (s', out, e, ran, leaves, kept) =
        process_packet_egress sv laws slack s c.now c.at c.mem c.stack pkt v later prompt room
          outward in
      (
        s',
        out,
        e,
        ran,
        ground (arith, leaves, kept.valid.entries kept.place e kept.live),
        kept,
        hz-process_packet s s' c.now c.at c.mem c.stack pkt out outward ran,
      )
