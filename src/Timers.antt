-- ===== src/Timers.antt =====
-- TIMER/main.c and TIMER/Multiple_timers/multi.c: timers that fire once, and a loop that drives
-- them. A timer is named by its index.
pub mod Once
mod Examples
use dpdk_code.Base.{ℕ, ◌*◌, ◌%◌, ◌^◌, List, [], ◌∷◌, ◌++◌, map}
use dpdk_code.Dpdk.Timers.{TimerOps}

-- A line of timer_cb: the timer, and the time of the rte_timer_manage that runs it.
pub record Fired : Type 0 where
  pub id : ℕ
  pub at : ℕ

pub record State (T : Type 0) : Type 0 where
  pub timers : T
  pub fired : List Fired

abbrev pub seconds : ℕ → ℕ → ℕ
seconds n hz = n * hz % 2 ^ 64

module _ {T : Type 0} (tm : TimerOps T) where
  -- `now` is the time of the call of rte_timer_reset.
  unfoldable pub main_timer : T → ℕ → ℕ → T
  main_timer t hz now = tm.reset (tm.init t 0) now (seconds 3 hz) 0

  abbrev pub init_timers : T → T
  init_timers t = tm.init (tm.init (tm.init (tm.init (tm.init t 0) 1) 2) 3) 4

  -- `clock i` is the time of the call for timer `i`.
  unfoldable pub multi_timers : T → ℕ → (ℕ → ℕ) → T
  multi_timers t hz clock =
      let t0 = tm.reset (init_timers t) (clock 0) (seconds 1 hz) 0 in
      let t1 = tm.reset t0 (clock 1) (seconds 3 hz) 1 in
      let t2 = tm.reset t1 (clock 2) (seconds 2 hz) 2 in
      let t3 = tm.reset t2 (clock 3) (seconds 5 hz) 3 in tm.reset t3 (clock 4) (seconds 4 hz) 4

  -- rte_timer_manage at one time, and the loop at all of these times.
  unfoldable pub round : State T → ℕ → State T
  round s now =
      let (due, timers') = tm.manage s.timers now in
      record {
        timers = timers';
        fired = s.fired ++ map (λ (p : ℕ). record { id = p; at = now }) due;
      }

  unfoldable pub main_loop : State T → List ℕ → State T
  main_loop s [] = s
  main_loop s (now ∷ nows) = main_loop (round s now) nows
