-- ===== src/Eventdev/Examples.antt =====
-- Eventdev/Parsing/main.c on a device with room for two events.
use dpdk_code.Base.{ℕ, ◌-◌, ◌==◌, if◌then◌else◌, ◌≡◌, refl, List, [], ◌∷◌, count, arith}
use dpdk_code.Dpdk.Events.{Event}
use dpdk_code.Dpdk.Models.Device.{device, device_laws}
use dpdk_code.Threaded.{unsent}
use dpdk_code.Eventdev.{State, rx_loop, work, worker_loop}
use dpdk_code.Eventdev.Conservation.{
  Reach, here, next, receive, serve, IsStart, whereabouts, IsLeaked, Reach-IsAccounted,
  full_device_leaks,
}

program : Unit {0}
unfolding unsent rx_loop work worker_loop
program = tt

-- A device with room for two events, and one that takes two events only when it is empty.
abbrev two : ℕ → ℕ
two n = 2 - n

abbrev two_at_once : ℕ → ℕ
two_at_once n = if n == 0 then 2 else 0

abbrev start : State (List Event)
start = record { device = []; received = []; sent = []; freed = []; leaked = [] }

start-IsStart : (room : ℕ → ℕ) → IsStart (device room) start
start-IsStart room = record {
  device = refl;
  received = refl;
  sent = refl;
  freed = refl;
  leaked = refl;
}

abbrev loaded : State (List Event)
loaded = rx_loop (device two) start (1 ∷ 2 ∷ 3 ∷ [])

abbrev moved : State (List Event)
moved = worker_loop (device two) (worker_loop (device two) loaded 1) 1

moved_reached : Reach (device two) start moved
moved_reached =
    next (next (next here (receive (1 ∷ 2 ∷ 3 ∷ []) (omega arith))) (serve 1 (omega arith)))
      (serve 1 (omega arith))

moved_freed : moved.freed ≡ 3 ∷ []
unfolding program
moved_freed = refl

Reach-IsAccounted_example :
    count 3 moved.received ≡ whereabouts (device two) (device_laws two) 3 moved
Reach-IsAccounted_example =
    Reach-IsAccounted (device two) (device_laws two) (start-IsStart two) moved_reached 3

abbrev crowded : State (List Event)
crowded = rx_loop (device two_at_once) start (1 ∷ 2 ∷ [])

crowded_reached : Reach (device two_at_once) start crowded
crowded_reached = next here (receive (1 ∷ 2 ∷ []) (omega arith))

full_device_leaks_example :
    IsLeaked
      (device two_at_once)
      (device_laws two_at_once)
      1
      (worker_loop (device two_at_once) crowded 1)
unfolding program
full_device_leaks_example =
    full_device_leaks (device two_at_once) (device_laws two_at_once)
      ((record { queue_id = 0; event_ptr = 2 }) ∷ []) 1 1 (start-IsStart two_at_once)
      crowded_reached (omega arith) refl refl refl
