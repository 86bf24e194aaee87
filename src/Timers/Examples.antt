-- ===== src/Timers/Examples.antt =====
-- The timers on a clock with ten ticks in a second, driven every three seconds.
use dpdk_code.Base.{ℕ, ◌+◌, ◌≡◌, refl, none, some, List, [], ◌∷◌, arith, elem}
use dpdk_code.Dpdk.Models.Clock.{Clock, clock, clock_laws, due_below}
use dpdk_code.Timers.{seconds, main_timer, multi_timers, round, main_loop}
use dpdk_code.Timers.Once.{times_of, first_due, start, delay, timers_fire_once}

abbrev idle : Clock
idle = record { bound = 0; times = λ p. none }

abbrev set_at : ℕ → ℕ
set_at i = 100 + i

abbrev nows : List ℕ
nows = 105 ∷ 135 ∷ 165 ∷ []

timers_fire_once_example :
    (times_of 0 (main_loop clock (start (main_timer clock idle 10 100)) nows).fired
      ≡ first_due (some (100 + seconds 3 10)) nows)
    × (times_of 1 (main_loop clock (start (multi_timers clock idle 10 set_at)) nows).fired
        ≡ first_due (some (set_at 1 + seconds (delay 1) 10)) nows)
timers_fire_once_example = timers_fire_once clock clock_laws idle 10 100 set_at nows 1 (omega arith)

-- Timer 1 is set for three seconds at 101, and runs at 135.
second_timer :
    times_of 1 (main_loop clock (start (multi_timers clock idle 10 set_at)) nows).fired ≡ 135 ∷ []
unfolding main_loop round multi_timers due_below elem
second_timer = refl
