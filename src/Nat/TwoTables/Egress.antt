-- ===== src/Nat/TwoTables/Egress.antt =====
-- process_egress: its two branches as equations, and the invariant.
use dpdk_code.Base.{
  ℕ, ◌+◌, ◌*◌, ◌%◌, ◌^◌, ◌≡◌, Option, none, some, arith, ℕ_discrete, is_some, update, ◌≢◌,
  Option-cases, inl, inr, sym, ◌∙◌,
}
use dpdk_code.Nat.Linked.{Linked-add}
use dpdk_code.Nat.TwoTables.{
  Services, ServiceLaws, State, RevKey, Block, Entry, Packet, public_ip, fwd_key, new_entry,
  refresh_timer, create_mapping, find_or_create, process_egress,
}
use dpdk_code.Nat.TwoTables.Invariant.{FwdKey-discrete, RevKey-discrete, IsValid}

abbrev pub next_key : {F R T : Type 0} → State F R T → ℕ → RevKey
next_key s pad = record { public_ip = public_ip; public_port = s.next_port; pad = pad }

-- What a new flow needs: memory at an unused address and room in both tables.
pub record Slot {F R T : Type 0} (sv : Services F R T) (s : State F R T) (pkt : Packet) (b : Block)
    : Type 0 where
  pub fwd' : F
  pub rev' : R
  pub unused : s.heap b.address ≡ none
  pub fwd_added : sv.fwd.add s.fwd_table (fwd_key pkt) b.address ≡ some fwd'
  pub rev_added : sv.rev.add s.rev_table (next_key s b.pad) b.address ≡ some rev'

-- And that no live flow has the public port that comes next.
pub record Room {F R T : Type 0} (sv : Services F R T) (s : State F R T) (pkt : Packet) (b : Block)
    : Type 0 where
  pub slot : Slot sv s pkt b
  pub port_free : (q : ℕ) (e : Entry) → s.heap q ≡ some e → e.public_port ≢ s.next_port

module _ {F R T : Type 0} (sv : Services F R T) (laws : ServiceLaws sv) where
  pub refresh-IsValid :
      (s : State F R T) (now p : ℕ) (e : Entry)
      → s.heap p ≡ some e
      → IsValid sv s
      → IsValid sv (refresh_timer sv s now p)
  unfolding refresh_timer
  refresh-IsValid s now p e live v = record {
    fwd = v.fwd;
    rev = v.rev;
    entries = v.entries;
    ports = v.ports;
    armed = λ q. elim (ℕ_discrete q p) [
      | yes h ↦ rw (h, laws.timer.deadline-reset_self, live)
      | no h ↦ rw (laws.timer.deadline-reset_ne s.timers now (5 * s.hz % 2 ^ 64) p q h) (v.armed q)
    ];
  }

  pub process_egress_hit :
      (s : State F R T) (now : ℕ) (mem : Option Block) (pkt : Packet) (p : ℕ) (e : Entry)
      → sv.fwd.lookup s.fwd_table (fwd_key pkt) ≡ some p
      → s.heap p ≡ some e
      → process_egress sv s now mem pkt
        ≡ some (
          refresh_timer sv s now p,
          record pkt { src_ip = e.public_ip; src_port = e.public_port },
        )
  unfolding process_egress find_or_create
  process_egress_hit s now mem pkt p e hit live = ground (arith, hit, live)

  -- The state after a miss: the new entry in memory and in both tables, its timer armed.
  abbrev pub created :
      (s : State F R T) (now : ℕ) (pkt : Packet) (b : Block) → Slot sv s pkt b → State F R T
  created s now pkt b slot = record s {
    fwd_table = slot.fwd';
    rev_table = slot.rev';
    next_port = (s.next_port + 1) % 2 ^ 16;
    heap = update s.heap b.address (some (new_entry sv s b.pad (fwd_key pkt) pkt));
    timers = sv.timer.reset (sv.timer.init s.timers b.address) now (5 * s.hz % 2 ^ 64) b.address;
  }

  pub process_egress_miss :
      (s : State F R T) (now : ℕ) (pkt : Packet) (b : Block) (slot : Slot sv s pkt b)
      → sv.fwd.lookup s.fwd_table (fwd_key pkt) ≡ none
      → process_egress sv s now (some b) pkt
        ≡ some (created s now pkt b slot, record pkt { src_ip = public_ip; src_port = s.next_port })
  unfolding process_egress find_or_create create_mapping
  process_egress_miss s now pkt b slot miss = ground arith

  created-armed :
      (s : State F R T) (now : ℕ) (pkt : Packet) (b : Block) (slot : Slot sv s pkt b) (q : ℕ)
      → IsValid sv s
      → is_some (sv.timer.deadline (created s now pkt b slot).timers q)
        ≡ is_some ((created s now pkt b slot).heap q)
  created-armed s now pkt b slot q v =
      let p = b.address in
      let fresh = sv.timer.init s.timers p in
      let ticks = 5 * s.hz % 2 ^ 64 in
      elim (ℕ_discrete q p) [
        | yes h ↦ ground (arith, laws.timer.deadline-reset_self fresh now ticks p)
        | no h ↦ ground (
          arith,
          laws.timer.deadline-reset_ne fresh now ticks p q h,
          laws.timer.deadline-init_ne s.timers p q h,
          v.armed q,
        )
      ]

  next_key_free :
      (s : State F R T) (pkt : Packet) (b : Block)
      → Room sv s pkt b
      → IsValid sv s
      → sv.rev.lookup s.rev_table (next_key s b.pad) ≡ none
  next_key_free s pkt b room v =
      elim (Option-cases (sv.rev.lookup s.rev_table (next_key s b.pad))) [
        | inl free ↦ free
        | inr (p, taken) ↦
            let (e, live, keyed) = v.rev.live (next_key s b.pad) p taken in
            absurd (room.port_free p e live (ground (arith, v.entries p e live)))
      ]

  pub created-IsValid :
      (s : State F R T) (now : ℕ) (pkt : Packet) (b : Block) (room : Room sv s pkt b)
      → sv.fwd.lookup s.fwd_table (fwd_key pkt) ≡ none
      → IsValid sv s
      → IsValid sv (created s now pkt b room.slot)
  created-IsValid s now pkt b room miss v =
      let p = b.address in
      let entry = new_entry sv s b.pad (fwd_key pkt) pkt in
      record {
        fwd =
            Linked-add FwdKey-discrete sv.fwd laws.fwd _ s.fwd_table s.heap p entry v.fwd
              room.slot.fwd' room.slot.unused miss room.slot.fwd_added;
        rev =
            Linked-add RevKey-discrete sv.rev laws.rev _ s.rev_table s.heap p entry v.rev
              room.slot.rev' room.slot.unused (next_key_free s pkt b room v) room.slot.rev_added;
        entries = λ q e live. elim (ℕ_discrete q p) [
          | yes h ↦ ground arith
          | no h ↦ v.entries q e (ground arith)
        ];
        ports = λ q r e f live live' same. elim (ℕ_discrete q p) [
          | yes h ↦ elim (ℕ_discrete r p) [
            | yes g ↦ h ∙ sym g
            | no g ↦ absurd (room.port_free r f (ground arith) (ground arith))
          ]
          | no h ↦ elim (ℕ_discrete r p) [
            | yes g ↦ absurd (room.port_free q e (ground arith) (ground arith))
            | no g ↦ v.ports q r e f (ground arith) (ground arith) same
          ]
        ];
        armed = λ q. created-armed s now pkt b room.slot q v;
      }
