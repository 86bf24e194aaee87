-- ===== src/Nat/Timed/Demo/Examples.antt =====
-- The test traffic of NAT/Nat_with_TIMER/nwt.c with 1000 ticks in a second and its sleeps.
use dpdk_code.Base.{
  ℕ, ◌≡◌, refl, Option, none, some, List, [], ◌∷◌, arith, ℕ_discrete, update, some_unique, subst,
  sym, elem,
}
use dpdk_code.Dpdk.Models.Table.{put}
use dpdk_code.Dpdk.Models.Slots.{slots, slots_laws, index_in, walk}
use dpdk_code.Dpdk.Models.Clock.{Clock, clock, clock_laws}
use dpdk_code.Nat.Timed.{
  Services, ServiceLaws, State, Packet, public_ip, NatKey, nat_key, new_entry, refresh_timer,
  create_mapping, find_or_create, egress, process_packet, timer_manage,
}
use dpdk_code.Nat.Timed.Invariant.{NatKey-discrete, IsValid}
use dpdk_code.Nat.Timed.Demo.{p1, p2, Call, call, main_traffic, Fits}
use dpdk_code.Nat.Timed.Demo.Expire.{Apart, demo_flows_expire}

program : Unit {0}
unfolding refresh_timer create_mapping find_or_create egress process_packet put index_in walk
    NatKey-discrete ℕ_discrete elem
program = tt

abbrev out1 : Packet
out1 = record p1 { src_ip = public_ip; src_port = 10000 }

abbrev out2 : Packet
out2 = record p2 { src_ip = public_ip; src_port = 10001 }

abbrev keys : List NatKey
keys = nat_key 0 p1 ∷ nat_key 0 p2 ∷ nat_key 0 out1 ∷ []

abbrev sv : Services (NatKey → Option ℕ) Clock
sv = record { table = slots NatKey-discrete keys; timer = clock }

laws : ServiceLaws sv
laws = record { table = slots_laws NatKey-discrete keys; timer = clock_laws }

abbrev St : Type 0
St = State (NatKey → Option ℕ) Clock

abbrev start : St
start = record {
  nat_table = λ k. none;
  next_port = 10000;
  hz = 1000;
  global_last_pkt = 50;
  table_cleared = 0;
  heap = λ p. none;
  timers = record { bound = 0; times = λ p. none };
}

start-IsValid : IsValid sv 10 start
start-IsValid = record {
  linked = record {
    live = λ k p found. absurd (ground arith);
    stored = λ p e at. absurd (ground arith);
  };
  entries = λ p e at. absurd (ground arith);
  ports = λ p q e f at at' port. absurd (ground arith);
  armed = λ p. ground arith;
  soon = λ p d at. absurd (ground arith);
}

abbrev c1 : Call
c1 = record { now = 100; at = 105; mem = some 7; stack = 0 }

abbrev c2 : Call
c2 = record { now = 2100; at = 2105; mem = some 8; stack = 0 }

abbrev c3 : Call
c3 = record { now = 4100; at = 4105; mem = some 9; stack = 0 }

abbrev s1 : St
s1 = record start {
  nat_table = put NatKey-discrete (λ k. none) (nat_key 0 p1) (some 7);
  next_port = 10001;
  global_last_pkt = 100;
  heap = update (λ p. none) 7 (some (new_entry 10000 (nat_key 0 p1)));
  timers = clock.reset (clock.init start.timers 7) 105 5000 7;
}

abbrev s2 : St
s2 = record s1 {
  nat_table = put NatKey-discrete s1.nat_table (nat_key 0 p2) (some 8);
  next_port = 10002;
  global_last_pkt = 2100;
  heap = update s1.heap 8 (some (new_entry 10001 (nat_key 0 p2)));
  timers = clock.reset (clock.init s1.timers 8) 2105 5000 8;
}

first_run : call sv start c1 p1 ≡ some (s1, out1)
unfolding program
first_run = refl

second_run : call sv s1 c2 p2 ≡ some (s2, out2)
unfolding program
second_run = refl

first-Fits : Fits sv laws 10 start c1 p1
unfolding program
first-Fits = (
  omega arith,
  omega arith,
  λ miss. (
    7,
    refl,
    record { table' = _; unused = refl; added = refl; port_free = λ q e at. absurd (ground arith) },
  ),
)

second-Fits : Fits sv laws 10 s1 c2 p2
unfolding program
second-Fits = (
  omega arith,
  omega arith,
  λ miss. (
    8,
    refl,
    record { table' = _; unused = refl; added = refl; port_free = λ q e at. ground arith },
  ),
)

third-Fits : Fits sv laws 10 s2 c3 out1
unfolding program
third-Fits = (
  omega arith,
  omega arith,
  λ miss. (
    9,
    refl,
    record { table' = _; unused = refl; added = refl; port_free = λ q e at. ground arith },
  ),
)

demo_flows_expire_example :
    (s3 s' : St) × (main_traffic sv start c1 c2 c3 ≡ some s3)
    × Apart sv laws 10 c1 c3 1000 s3
    × (timer_manage sv s3 10100 ≡ some s')
    × ((q : ℕ) → s'.heap q ≡ none)
    × ((k : NatKey) → sv.table.hash.lookup s'.nat_table k ≡ none)
demo_flows_expire_example =
    demo_flows_expire sv laws 10 start c1 c2 c3 10100 start-IsValid first-Fits
      (λ s o ran.
        subst (λ (r : St × Packet). Fits sv laws 10 r.0 c2 p2) (some_unique first_run ran)
          second-Fits)
      (λ s t o o' ran ran'.
        let first = some_unique first_run ran in
        let later : call sv s1 c2 p2 ≡ some (t, o') =
          subst (λ (r : St × Packet). call sv r.0 c2 p2 ≡ some (t, o')) (sym first) ran' in
        subst (λ (r : St × Packet). Fits sv laws 10 r.0 c3 o) (some_unique second_run later)
          (subst (λ (r : St × Packet). Fits sv laws 10 s2 c3 r.1) first third-Fits))
      (omega arith) (omega arith)
