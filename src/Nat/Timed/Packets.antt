-- ===== src/Nat/Timed/Packets.antt =====
-- process_packet of NAT/Nat_with_TIMER/nwt.c, outgoing.
use dpdk_code.Base.{
  ℕ, ◌+◌, ◌*◌, ◌%◌, ◌^◌, ◌≤◌, ◌≡◌, ◌≢◌, refl, Option, none, some, arith, ℕ_discrete, update,
  Option-cases, inl, inr,
}
use dpdk_code.Nat.Linked.{Linked-add}
use dpdk_code.Nat.Timed.{
  Services, ServiceLaws, State, NatKey, Entry, Packet, nat_key, new_entry, refresh_timer,
  create_mapping, find_or_create, egress, seen, process_packet,
}
use dpdk_code.Nat.Timed.Invariant.{NatKey-discrete, IsValid}

-- What a new flow needs: unused memory, room in the table, and a public port that no entry has.
pub record Room {T C : Type 0} (sv : Services T C) (s : State T C) (key : NatKey) (p : ℕ)
    : Type 0 where
  pub table' : T
  pub unused : s.heap p ≡ none
  pub added : sv.table.hash.add s.nat_table key p ≡ some table'
  pub port_free : (q : ℕ) (e : Entry) → s.heap q ≡ some e → e.public_port ≢ s.next_port

abbrev pub Admits : {T C : Type 0} → Services T C → State T C → Option ℕ → NatKey → Type 0
Admits sv s mem key =
    sv.table.hash.lookup s.nat_table key ≡ none → (p : ℕ) × (mem ≡ some p) × Room sv s key p

-- A packet with this key was seen at `now`: its entry is live and its timer armed anew at `at`.
pub record Kept {T C : Type 0} (sv : Services T C) (slack : ℕ) (now at : ℕ) (key : NatKey)
    (s' : State T C) (e : Entry) : Type 0 where
  pub place : ℕ
  pub live : s'.heap place ≡ some e
  pub keyed : e.key ≡ key
  pub armed : sv.timer.deadline s'.timers place ≡ some (at + 5 * s'.hz % 2 ^ 64)
  pub last : s'.global_last_pkt ≡ now
  pub flag : s'.table_cleared ≡ 0
  pub valid : IsValid sv slack s'

module _ {T C : Type 0} (sv : Services T C) (laws : ServiceLaws sv) (slack : ℕ) where
  pub seen-IsValid :
      (s : State T C) (now : ℕ)
      → s.global_last_pkt ≤ now
      → IsValid sv slack s
      → IsValid sv slack (seen s now)
  seen-IsValid s now later v = record {
    linked = v.linked;
    entries = v.entries;
    ports = v.ports;
    armed = v.armed;
    soon = λ p d at. omega (arith, v.soon p d at);
  }

  pub refresh-IsValid :
      (s : State T C) (at p : ℕ) (e : Entry)
      → s.heap p ≡ some e
      → at ≤ s.global_last_pkt + slack
      → IsValid sv slack s
      → IsValid sv slack (refresh_timer sv s at p)
  unfolding refresh_timer
  refresh-IsValid s at p e live prompt v =
      let ticks = 5 * s.hz % 2 ^ 64 in
      record {
        linked = v.linked;
        entries = v.entries;
        ports = v.ports;
        armed = λ q. elim (ℕ_discrete q p) [
          | yes h ↦ rw (h, laws.timer.deadline-reset_self, live)
          | no h ↦ rw (laws.timer.deadline-reset_ne s.timers at ticks p q h) (v.armed q)
        ];
        soon = λ q d due. elim (ℕ_discrete q p) [
          | yes h ↦ ground (arith, laws.timer.deadline-reset_self s.timers at ticks p)
          | no h ↦ v.soon q d (ground (arith, laws.timer.deadline-reset_ne s.timers at ticks p q h))
        ];
      }

  -- The state of a new flow before its timer is armed.
  abbrev pub created : (s : State T C) (at : ℕ) (key : NatKey) (p : ℕ) → Room sv s key p → State T C
  created s at key p room = record s {
    nat_table = room.table';
    next_port = (s.next_port + 1) % 2 ^ 16;
    heap = update s.heap p (some (new_entry s.next_port key));
    timers = sv.timer.reset (sv.timer.init s.timers p) at (5 * s.hz % 2 ^ 64) p;
  }

  created-IsValid :
      (s : State T C) (at : ℕ) (key : NatKey) (p : ℕ) (room : Room sv s key p)
      → sv.table.hash.lookup s.nat_table key ≡ none
      → at ≤ s.global_last_pkt + slack
      → IsValid sv slack s
      → IsValid sv slack (created s at key p room)
  created-IsValid s at key p room miss prompt v =
      let entry = new_entry s.next_port key in
      let ticks = 5 * s.hz % 2 ^ 64 in
      let fresh = sv.timer.init s.timers p in
      record {
        linked =
            Linked-add NatKey-discrete sv.table.hash laws.table.hash _ s.nat_table s.heap p entry
              v.linked room.table' room.unused miss room.added;
        entries = λ q e live. elim (ℕ_discrete q p) [
          | yes h ↦ ground arith
          | no h ↦ v.entries q e (ground arith)
        ];
        ports = λ q r e f live live' same.
            ground (arith, v.ports q r e f, room.port_free q e, room.port_free r f);
        armed = λ q. elim (ℕ_discrete q p) [
          | yes h ↦ ground (arith, laws.timer.deadline-reset_self fresh at ticks p)
          | no h ↦ ground (
            arith,
            laws.timer.deadline-reset_ne fresh at ticks p q h,
            laws.timer.deadline-init_ne s.timers p q h,
            v.armed q,
          )
        ];
        soon = λ q d due. elim (ℕ_discrete q p) [
          | yes h ↦ ground (arith, laws.timer.deadline-reset_self fresh at ticks p)
          | no h ↦ v.soon q d (
              ground (
                arith,
                laws.timer.deadline-reset_ne fresh at ticks p q h,
                laws.timer.deadline-init_ne s.timers p q h,
              ))
        ];
      }

  -- What find_or_create and refresh_timer do together, for a packet that was just seen.
  pub find_or_create-Kept :
      (s : State T C) (now at : ℕ) (mem : Option ℕ) (key : NatKey)
      → IsValid sv slack s
      → s.global_last_pkt ≡ now
      → s.table_cleared ≡ 0
      → at ≤ now + slack
      → Admits sv s mem key
      → (p : ℕ) × (s' : State T C) × (e : Entry) × (find_or_create sv s mem key ≡ some (p, s'))
        × (s'.heap p ≡ some e)
        × Kept sv slack now at key (refresh_timer sv s' at p) e
  unfolding find_or_create create_mapping refresh_timer
  find_or_create-Kept s now at mem key v last flag prompt room =
      let ticks = 5 * s.hz % 2 ^ 64 in
      elim (Option-cases (sv.table.hash.lookup s.nat_table key)) [
        | inl miss ↦
            let (p, given, r) = room miss in
            (
              p,
              record s {
                nat_table = r.table';
                next_port = (s.next_port + 1) % 2 ^ 16;
                heap = update s.heap p (some (new_entry s.next_port key));
                timers = sv.timer.init s.timers p;
              },
              new_entry s.next_port key,
              ground (arith, r.added),
              ground arith,
              record {
                place = p;
                live = ground arith;
                keyed = refl;
                armed = laws.timer.deadline-reset_self (sv.timer.init s.timers p) at ticks p;
                last = last;
                flag = flag;
                valid = created-IsValid s at key p r miss (omega arith) v;
              },
            )
        | inr (p, hit) ↦
            let (e, live, keyed) = v.linked.live key p hit in
            (
              p,
              s,
              e,
              rw (hit, find_or_create),
              live,
              record {
                place = p;
                live = live;
                keyed = keyed;
                armed = laws.timer.deadline-reset_self s.timers at ticks p;
                last = last;
                flag = flag;
                valid = refresh-IsValid s at p e live (omega arith) v;
              },
            )
      ]

  pub process_packet_egress :
      (s : State T C) (now at : ℕ) (mem : Option ℕ) (stack : ℕ) (pkt : Packet)
      → IsValid sv slack s
      → s.global_last_pkt ≤ now
      → at ≤ now + slack
      → Admits sv s mem (nat_key stack pkt)
      → pkt.is_ingress ≡ 0
      → (s' : State T C) × (out : Packet) × (e : Entry) × (process_packet sv s now at mem stack pkt
          ≡ some (s', out))
        × (out ≡ record pkt { src_ip = e.public_ip; src_port = e.public_port })
        × Kept sv slack now at (nat_key stack pkt) s' e
  unfolding process_packet egress refresh_timer
  process_packet_egress s now at mem stack pkt v later prompt room outward =
      let (p, s', e, ran, live, kept) =
        find_or_create-Kept (seen s now) now at mem (nat_key stack pkt) (seen-IsValid s now later v)
          refl refl prompt
          (λ miss.
            let (p, given, r) = room miss in
            (
              p,
              given,
              record {
                table' = r.table';
                unused = r.unused;
                added = r.added;
                port_free = r.port_free;
              },
            )) in
      (
        refresh_timer sv s' at p,
        record pkt { src_ip = e.public_ip; src_port = e.public_port },
        e,
        ground (arith, ran, live),
        refl,
        kept,
      )
