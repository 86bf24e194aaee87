-- ===== src/Nat/Timed/Examples.antt =====
-- NAT/Nat_with_TIMER/nwt.c on a table with room for two keys, at 1000 ticks a second.
use dpdk_code.Base.{
  ℕ, ◌≡◌, ◌≢◌, ◌⊎◌, refl, Option, none, some, List, [], ◌∷◌, arith, ℕ_discrete, update,
  if◌then◌else◌, some_unique, subst, elem,
}
use dpdk_code.Dpdk.Iterate.{search_from}
use dpdk_code.Dpdk.Timers.{is_due}
use dpdk_code.Dpdk.Models.Table.{put}
use dpdk_code.Dpdk.Models.Slots.{slots, slots_laws, index_in, walk}
use dpdk_code.Dpdk.Models.Clock.{Clock, clock, clock_laws, due_below}
use dpdk_code.Nat.Timed.{
  Services, ServiceLaws, State, Entry, NatKey, Packet, nat_key, new_entry, public_ip, seen,
  refresh_timer, create_mapping, find_or_create, egress, ingress, process_packet, flow_timeout_cb,
  run_callbacks, timer_manage, free_from, clear_table, check_global_idle, idle_round,
}
use dpdk_code.Nat.Timed.Invariant.{NatKey-discrete, IsValid}
use dpdk_code.Nat.Timed.Packets.{Admits, Kept, process_packet_egress}
use dpdk_code.Nat.Timed.Answers.{
  reply, process_packet_exact, Leaves, ByEntry, process_packet_round_trip,
}
use dpdk_code.Nat.Timed.Idle.{idle_round_exact}
use dpdk_code.Nat.Timed.Dangling.{idle_clear_dangles}
use dpdk_code.Nat.Timed.Run.{Event, packet, idle, step, run, Ready, AllReady, history-IsValid}

program : Unit {0}
unfolding refresh_timer create_mapping find_or_create egress ingress process_packet flow_timeout_cb
    run_callbacks timer_manage free_from clear_table check_global_idle idle_round search_from put
    index_in walk due_below NatKey-discrete ℕ_discrete elem
program = tt

abbrev pkt : Packet
pkt = record {
  src_ip = 0xC0A80001;
  dst_ip = 0x08080808;
  src_port = 1111;
  dst_port = 80;
  proto = 6;
  is_ingress = 0;
}

abbrev keys : List NatKey
keys = nat_key 1 pkt ∷ nat_key 0 pkt ∷ []

abbrev sv : Services (NatKey → Option ℕ) Clock
sv = record { table = slots NatKey-discrete keys; timer = clock }

laws : ServiceLaws sv
laws = record { table = slots_laws NatKey-discrete keys; timer = clock_laws }

abbrev St : Type 0
St = State (NatKey → Option ℕ) Clock

abbrev start : St
start = record {
  nat_table = λ k. none;
  next_port = 10000;
  hz = 1000;
  global_last_pkt = 50;
  table_cleared = 0;
  heap = λ p. none;
  timers = record { bound = 0; times = λ p. none };
}

start-IsValid : IsValid sv 10 start
start-IsValid = record {
  linked = record {
    live = λ k p found. absurd (ground arith);
    stored = λ p e at. absurd (ground arith);
  };
  entries = λ p e at. absurd (ground arith);
  ports = λ p q e f at at' port. absurd (ground arith);
  armed = λ p. ground arith;
  soon = λ p d at. absurd (ground arith);
}

start-Admits : Admits sv start (some 7) (nat_key 0 pkt)
unfolding program
start-Admits miss = (
  7,
  refl,
  record { table' = _; unused = refl; added = refl; port_free = λ q e at. absurd (ground arith) },
)

after-Kept :
    (s' : St) × (out : Packet) × (e : Entry) × (process_packet sv start 100 105 (some 7) 0 pkt
      ≡ some (s', out))
    × (out ≡ record pkt { src_ip = e.public_ip; src_port = e.public_port })
    × Kept sv 10 100 105 (nat_key 0 pkt) s' e
after-Kept =
    process_packet_egress sv laws 10 start 100 105 (some 7) 0 pkt start-IsValid (omega arith)
      (omega arith) start-Admits refl

abbrev entry : Entry
entry = new_entry 10000 (nat_key 0 pkt)

abbrev after : St
after = record start {
  nat_table = put NatKey-discrete (λ k. none) (nat_key 0 pkt) (some 7);
  next_port = 10001;
  global_last_pkt = 100;
  heap = update (λ p. none) 7 (some entry);
  timers = clock.reset (clock.init start.timers 7) 105 5000 7;
}

abbrev out : Packet
out = record pkt { src_ip = public_ip; src_port = 10000 }

after_run : process_packet sv start 100 105 (some 7) 0 pkt ≡ some (after, out)
unfolding program
after_run = refl

after-IsValid : IsValid sv 10 after
after-IsValid =
    let (s', o, e, ran, leaves, kept) = after-Kept in
    subst (λ (r : St × Packet). IsValid sv 10 r.0) (some_unique ran after_run) kept.valid

process_packet_round_trip_example :
    (s'' : St) × (process_packet sv after 200 210 none 0 (reply out) ≡ some (s'', reply pkt))
    × IsValid sv 10 s''
process_packet_round_trip_example =
    process_packet_round_trip sv laws 10 start after 100 105 200 210 (some 7) none 0 0 pkt out
      start-IsValid (omega arith) (omega arith) start-Admits refl after_run (omega arith)
      (omega arith)

abbrev stray : Packet
stray = record (reply out) { dst_port = 10001 }

process_packet_exact_example :
    ((stray.is_ingress ≡ 0) × Leaves sv laws 10 after 200 205 none 0 stray)
    ⊎ ((stray.is_ingress ≢ 0)
        × ByEntry sv laws 10
            (seen after 200)
            205
            stray
            (process_packet sv after 200 205 none 0 stray))
process_packet_exact_example =
    process_packet_exact sv laws 10 after 200 205 none 0 stray after-IsValid (omega arith)
      (omega arith) (λ e. absurd (ground arith))

idle_round_exact_example :
    (s' : St) × (idle_round sv after 12000 12001 ≡ some s')
    × IsValid sv 10 s'
    × ((q : ℕ)
        → s'.heap q ≡ (if is_due (clock.deadline after.timers q) 12000 then none else after.heap q))
    × ((p : ℕ) (e : Entry)
        → after.heap p ≡ some e
        → sv.table.hash.lookup s'.nat_table e.key
          ≡ (if is_due (clock.deadline after.timers p) 12000 then none else some p))
idle_round_exact_example =
    idle_round_exact sv laws 10 after 12000 12001 after-IsValid (omega arith) (omega arith)
      (omega arith) (omega arith)

-- The timers were managed before 5105, idleness is checked after 10100.
idle_clear_dangles_example :
    (s' : St) × (check_global_idle sv after 10200 ≡ some s') × (timer_manage sv s' 10300 ≡ none)
unfolding program
idle_clear_dangles_example =
    idle_clear_dangles sv laws 10 after 10200 10300 7 entry after-IsValid refl refl refl

abbrev history : List Event
history = packet 100 105 (some 7) 0 pkt ∷ idle 6000 6001 ∷ []

first_step : step sv 10 start (packet 100 105 (some 7) 0 pkt) ≡ some after
unfolding step
first_step = rw after_run

round-Ready : Ready sv 10 after (idle 6000 6001)
round-Ready = (omega arith, omega arith, omega arith, omega arith)

history_ready : AllReady sv 10 start history
history_ready = (
  (omega arith, omega arith, λ e. start-Admits),
  λ s1 ran1. (
    subst (λ (s : St). Ready sv 10 s (idle 6000 6001)) (some_unique first_step ran1) round-Ready,
    λ s2 ran2. tt,
  ),
)

history-IsValid_example : (s' : St) × (run sv 10 start history ≡ some s') × IsValid sv 10 s'
history-IsValid_example = history-IsValid sv laws 10 history start start-IsValid history_ready
