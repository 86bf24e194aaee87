-- ===== src/Nat/TwoTables/Examples.antt =====
-- NAT/NAT_twoTables/main.c on concrete tables and timers: one host has sent one packet.
use dpdk_code.Base.{
  ℕ, ◌+◌, ◌≤◌, ◌≡◌, ◌≢◌, ◌⊎◌, refl, Option, none, some, arith, ℕ_discrete, update, List, [], ◌∷◌,
  if◌then◌else◌,
}
use dpdk_code.Dpdk.Timers.{is_due}
use dpdk_code.Dpdk.Models.Table.{table, table_laws, put}
use dpdk_code.Dpdk.Models.Clock.{Clock, clock, clock_laws, due_below}
use dpdk_code.Nat.TwoTables.{
  Services, ServiceLaws, State, Entry, FwdKey, RevKey, Block, Packet, public_ip, fwd_key, new_entry,
  create_mapping, find_or_create, process_egress, process_ingress, timer_manage, tx_packet,
  main_traffic, run_callbacks, flow_timeout_cb,
}
use dpdk_code.Nat.TwoTables.Invariant.{FwdKey-discrete, RevKey-discrete, IsValid}
use dpdk_code.Nat.TwoTables.Egress.{Slot}
use dpdk_code.Nat.TwoTables.Traffic.{reply, Admits, Served, round_trip, run-Served}
use dpdk_code.Nat.TwoTables.Translations.{translations_apart}
use dpdk_code.Nat.TwoTables.Both.{IsAnswered, IsDropped, packets_exact}
use dpdk_code.Nat.TwoTables.Expiry.{timer_manage_exact}
use dpdk_code.Nat.TwoTables.Ports.{PortsBelow, port_reuse_steals}
use dpdk_code.Nat.TwoTables.Run.{Event, egress, ingress, tick, run, AllReady, run-IsValid}
use dpdk_code.Nat.TwoTables.Run.Fresh.{AllFit, run-PortsBelow}
use dpdk_code.Nat.TwoTables.Demo.{IsStart, Plenty, start-IsValid, main_traffic-answers}

program : Unit {0}
unfolding process_egress find_or_create create_mapping process_ingress timer_manage run_callbacks
    flow_timeout_cb put due_below FwdKey-discrete RevKey-discrete ℕ_discrete
program = tt

abbrev St : Type 0
St = State (FwdKey → Option ℕ) (RevKey → Option ℕ) Clock

abbrev sv : Services (FwdKey → Option ℕ) (RevKey → Option ℕ) Clock
sv = record { fwd = table FwdKey-discrete; rev = table RevKey-discrete; timer = clock }

laws : ServiceLaws sv
laws = record {
  fwd = table_laws FwdKey-discrete;
  rev = table_laws RevKey-discrete;
  timer = clock_laws;
}

abbrev start : St
start = record {
  fwd_table = λ k. none;
  rev_table = λ r. none;
  next_port = 10000;
  hz = 1000;
  heap = λ p. none;
  timers = record { bound = 0; times = λ p. none };
}

start-IsStart : IsStart sv start
start-IsStart = record {
  no_fwd = λ k. refl;
  no_rev = λ r. refl;
  no_memory = λ p. refl;
  no_timer = λ p. ground arith;
  port = refl;
}

start_state-IsValid : IsValid sv start
start_state-IsValid = start-IsValid sv laws start start-IsStart

-- Memory that is cleared at the padding.
abbrev cleared : ℕ → Block
cleared p = record { address = p; pad = 0 }

slot : (s : St) (pkt : Packet) (b : Block) → s.heap b.address ≡ none → Slot sv s pkt b
slot s pkt b unused = record {
  fwd' = _;
  rev' = _;
  unused = unused;
  fwd_added = refl;
  rev_added = refl;
}

start_room : Admits sv start (some (cleared 7)) (tx_packet 0)
start_room miss = (
  cleared 7,
  refl,
  record {
    slot = slot start (tx_packet 0) (cleared 7) refl;
    port_free = λ q e live. absurd (ground arith);
  },
)

abbrev out : Packet
out = record (tx_packet 0) { src_ip = public_ip; src_port = 10000 }

sent : (s : St) × (process_egress sv start 50 (some (cleared 7)) (tx_packet 0) ≡ some (s, out))
unfolding program
sent = (_, refl)

abbrev entry : Entry
entry = new_entry sv start 0 (fwd_key (tx_packet 0)) (tx_packet 0)

abbrev after : St
after = record start {
  fwd_table = put FwdKey-discrete (λ k. none) entry.fwd (some 7);
  rev_table = put RevKey-discrete (λ r. none) entry.rev (some 7);
  next_port = 10001;
  heap = update (λ p. none) 7 (some entry);
  timers = clock.reset (clock.init start.timers 7) 50 5000 7;
}

after_run : process_egress sv start 50 (some (cleared 7)) (tx_packet 0) ≡ some (after, out)
unfolding program
after_run = refl

after-IsValid : IsValid sv after
after-IsValid =
    (run-Served sv laws start after 50 (some (cleared 7)) (tx_packet 0) out start_state-IsValid
      start_room after_run).valid

after_room : Admits sv after (some (cleared 8)) (tx_packet 1)
unfolding program
after_room miss = (
  cleared 8,
  refl,
  record { slot = slot after (tx_packet 1) (cleared 8) refl; port_free = λ q e live. ground arith },
)

packets_exact_example :
    ((s' : St) × (o : Packet) × (process_egress sv after 60 (some (cleared 8)) (tx_packet 1)
        ≡ some (s', o))
      × Served sv after 60 (some (cleared 8)) (tx_packet 1) s' o)
    × (IsAnswered sv after 60 (reply out) ⊎ IsDropped sv after 60 (reply out))
packets_exact_example =
    packets_exact sv laws after 60 (some (cleared 8)) (tx_packet 1) (reply out) after-IsValid
      after_room

-- Memory that is not cleared: the answer to the flow that is created there is dropped.
abbrev dirty : Block
dirty = record { address = 7; pad = 5 }

abbrev dirty_after : St
dirty_after = record after {
  rev_table = put RevKey-discrete (λ r. none) (record entry.rev { pad = 5 }) (some 7);
  heap = update (λ p. none) 7 (some (record entry { rev = record entry.rev { pad = 5 } }));
}

dirty_run : process_egress sv start 50 (some dirty) (tx_packet 0) ≡ some (dirty_after, out)
unfolding program
dirty_run = refl

dirty_room : Admits sv start (some dirty) (tx_packet 0)
dirty_room miss = (
  dirty,
  refl,
  record {
    slot = slot start (tx_packet 0) dirty refl;
    port_free = λ q e live. absurd (ground arith);
  },
)

dropped : process_ingress sv dirty_after 60 (reply out) ≡ some (dirty_after, none)
unfolding program
dropped = refl

answered :
    (s : St) × (process_ingress sv after 60 (reply out) ≡ some (s, some (reply (tx_packet 0))))
unfolding program
answered = (_, refl)

round_trip_example :
    (p : ℕ) × (e : Entry) × (dirty_after.heap p ≡ some e)
    × (e.fwd ≡ fwd_key (tx_packet 0))
    × ((start.heap p ≡ some e)
        ⊎ ((b : Block) × (some dirty ≡ some b) × (p ≡ b.address) × (e.rev.pad ≡ b.pad)))
    × (((e.rev.pad ≡ 0)
          × (s'' : St) × (process_ingress sv dirty_after 60 (reply out)
              ≡ some (s'', some (reply (tx_packet 0))))
          × IsValid sv s'')
        ⊎ ((e.rev.pad ≢ 0)
            × (process_ingress sv dirty_after 60 (reply out) ≡ some (dirty_after, none))))
round_trip_example =
    round_trip sv laws start dirty_after 50 60 (some dirty) (tx_packet 0) out start_state-IsValid
      dirty_room dirty_run

abbrev entry' : Entry
entry' = new_entry sv after 0 (fwd_key (tx_packet 1)) (tx_packet 1)

abbrev both : St
both = record after {
  fwd_table = put FwdKey-discrete after.fwd_table entry'.fwd (some 8);
  rev_table = put RevKey-discrete after.rev_table entry'.rev (some 8);
  next_port = 10002;
  heap = update after.heap 8 (some entry');
  timers = clock.reset (clock.init after.timers 8) 60 5000 8;
}

abbrev second : Packet
second = record (tx_packet 1) { src_ip = public_ip; src_port = 10001 }

both_run : process_egress sv after 60 (some (cleared 8)) (tx_packet 1) ≡ some (both, second)
unfolding program
both_run = refl

both-IsValid : IsValid sv both
both-IsValid =
    (run-Served sv laws after both 60 (some (cleared 8)) (tx_packet 1) second after-IsValid
      after_room both_run).valid

translations_apart_example :
    ((s'' : St) × (process_egress sv both 70 none (tx_packet 1) ≡ some (s'', second))
      × (s''.next_port ≡ 10002))
    × ((p q : ℕ) (e f : Entry)
        → both.heap p ≡ some e
        → both.heap q ≡ some f
        → e.fwd ≢ f.fwd
        → e.public_port ≢ f.public_port)
translations_apart_example =
    translations_apart sv laws after both 60 70 (some (cleared 8)) none (tx_packet 1) second
      after-IsValid after_room both_run

-- The first flow was last used at 50 and the second at 60, and the timeout is 5000.
timer_manage_exact_example :
    (s' : St) × (timer_manage sv both 5055 ≡ some s')
    × IsValid sv s'
    × ((q : ℕ)
        → s'.heap q ≡ (if is_due (clock.deadline both.timers q) 5055 then none else both.heap q))
    × ((p : ℕ) (e : Entry)
        → both.heap p ≡ some e
        → (sv.fwd.lookup s'.fwd_table e.fwd
            ≡ (if is_due (clock.deadline both.timers p) 5055 then none else some p))
          × (sv.rev.lookup s'.rev_table e.rev
              ≡ (if is_due (clock.deadline both.timers p) 5055 then none else some p)))
timer_manage_exact_example = timer_manage_exact sv laws both 5055 both-IsValid

abbrev history : List Event
history = egress 50 (some (cleared 7)) (tx_packet 0) ∷ tick 5055 ∷ ingress 5056 (reply out) ∷ []

history_ready : AllReady sv start history
history_ready = (start_room, λ s e. (tt, λ s' e'. (tt, λ s'' e''. tt)))

run-IsValid_example : (s' : St) × (run sv start history ≡ some s') × IsValid sv s'
run-IsValid_example = run-IsValid sv laws history start start_state-IsValid history_ready

history_fits : AllFit sv start history
history_fits = (
  λ miss. (cleared 7, refl, slot start (tx_packet 0) (cleared 7) refl),
  λ s e. (tt, λ s' e'. (tt, λ s'' e''. tt)),
)

run-PortsBelow_example :
    (s' : St) × (run sv start history ≡ some s')
    × IsValid sv s'
    × PortsBelow s'
    × (s'.next_port ≤ 10001)
run-PortsBelow_example =
    run-PortsBelow sv laws history start start_state-IsValid (λ p e live. absurd (ground arith))
      (omega arith) history_fits

-- The counter has come round to the port of the first flow.
abbrev wrapped : St
wrapped = record after { next_port = 10000 }

wrapped-IsValid : IsValid sv wrapped
wrapped-IsValid = record {
  fwd = after-IsValid.fwd;
  rev = after-IsValid.rev;
  entries = after-IsValid.entries;
  ports = after-IsValid.ports;
  armed = after-IsValid.armed;
}

port_reuse_steals_example :
    (s' : St) × (o : Packet) × (s'' : St) × (process_egress sv wrapped 60
        (some (cleared 8))
        (tx_packet 1)
      ≡ some (s', o))
    × (process_ingress sv s' 70 (reply out)
        ≡ some (s'', some (record (reply out) { dst_ip = 0xC0A80002; dst_port = 1001 })))
unfolding program
port_reuse_steals_example =
    port_reuse_steals sv laws wrapped 60 70 (tx_packet 1) (reply out) 8 7 entry
      (slot wrapped (tx_packet 1) (cleared 8) refl) wrapped-IsValid refl refl refl refl refl

abbrev memory : ℕ → Option Block
memory i = some (cleared i)

plenty : Plenty sv memory
plenty = record {
  address = λ i. i;
  given = λ i. refl;
  apart = λ i j e. e;
  fwd_room = λ t k p. (_, refl);
  rev_room = λ t r p. (_, refl);
}

demo_answered :
    (s' : St) × (main_traffic sv (λ i. i) (λ i. i + 7) memory start
      ≡ some (
        s',
        some (reply (tx_packet 0))
            ∷ some (reply (tx_packet 1))
            ∷ some (reply (tx_packet 2))
            ∷ some (reply (tx_packet 3))
            ∷ some (reply (tx_packet 4))
            ∷ [],
      ))
demo_answered = main_traffic-answers sv laws (λ i. i) (λ i. i + 7) memory start plenty start-IsStart
