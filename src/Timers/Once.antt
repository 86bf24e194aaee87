-- ===== src/Timers/Once.antt =====
-- When each timer fires.
use mathlib.Core.List.{append-nil}
use dpdk_code.Base.{
  ℕ, zero, suc, ◌+◌, ◌<◌, ◌≡◌, refl, ◌∙◌, sym, ap, Bool, Option, none, some, List, [], ◌∷◌, ◌++◌,
  map, elem, Distinct, ◌==◌, if◌then◌else◌, arith, Bool-cases, inl, inr, get_or,
}
use dpdk_code.Dpdk.Timers.{TimerOps, TimerLaws, is_due}
use dpdk_code.Timers.{Fired, State, seconds, main_timer, multi_timers, round, main_loop}

-- The times at which timer `p` fired.
abbrev pub times_of : ℕ → List Fired → List ℕ
times_of p [] = []
times_of p (f ∷ fs) = if f.id == p then f.at ∷ times_of p fs else times_of p fs

-- The first of the times that is not before the deadline, if there is one.
abbrev pub first_due : Option ℕ → List ℕ → List ℕ
first_due d [] = []
first_due d (now ∷ nows) = if is_due d now then now ∷ [] else first_due d nows

abbrev line : ℕ → ℕ → Fired
line now p = record { id = p; at = now }

times_of-append :
    (p : ℕ) (fs gs : List Fired) → times_of p (fs ++ gs) ≡ times_of p fs ++ times_of p gs
times_of-append p [] gs = refl
times_of-append p (f ∷ fs) gs = ground (arith, times_of-append p fs gs)

times_of-lines :
    (p now : ℕ) (due : List ℕ)
    → Distinct due
    → times_of p (map (line now) due) ≡ (if elem p due then now ∷ [] else [])
unfolding elem
times_of-lines p now [] h = refl
times_of-lines p now (q ∷ due) h = ground (arith, times_of-lines p now due h.1)

first_due-none : (nows : List ℕ) → first_due none nows ≡ []
first_due-none [] = refl
first_due-none (now ∷ nows) = first_due-none nows

abbrev pub start : {T : Type 0} → T → State T
start t = record { timers = t; fired = [] }

-- After how many seconds each timer of multi.c fires.
abbrev pub delay : ℕ → ℕ
delay p = get_or (1 ∷ 3 ∷ 2 ∷ 5 ∷ 4 ∷ []) p 0

module _ {T : Type 0} (tm : TimerOps T) (laws : TimerLaws tm) where
  times_of-round :
      (s : State T) (now p : ℕ)
      → times_of p (round tm s now).fired
        ≡ times_of p s.fired ++ (if is_due (tm.deadline s.timers p) now then now ∷ [] else [])
  unfolding round
  times_of-round s now p =
      let due = (tm.manage s.timers now).0 in
      times_of-append p s.fired (map (line now) due)
      ∙ ap (λ (l : List ℕ). times_of p s.fired ++ l)
          (times_of-lines p now due (laws.manage-Distinct s.timers now)
            ∙ ap (λ (b : Bool). if b then now ∷ [] else []) (laws.elem-manage s.timers now p))

  deadline-round :
      (s : State T) (now p : ℕ)
      → tm.deadline (round tm s now).timers p
        ≡ (if is_due (tm.deadline s.timers p) now then none else tm.deadline s.timers p)
  unfolding round
  deadline-round s now p = laws.deadline-manage s.timers now p

  pub times_of-main_loop :
      (nows : List ℕ) (s : State T) (p : ℕ)
      → times_of p (main_loop tm s nows).fired
        ≡ times_of p s.fired ++ first_due (tm.deadline s.timers p) nows
  unfolding main_loop
  times_of-main_loop [] s p = sym (append-nil (times_of p s.fired))
  times_of-main_loop (now ∷ nows) s p =
      times_of-main_loop nows (round tm s now) p
      ∙ elim (Bool-cases (is_due (tm.deadline s.timers p) now)) [
        | inl due ↦
            rw (times_of-round s now p, deadline-round s now p, due, first_due-none nows)
              (append-nil (times_of p s.fired ++ (now ∷ [])))
        | inr early ↦
            rw (times_of-round s now p, deadline-round s now p, early)
              (ap (λ (l : List ℕ). l ++ first_due (tm.deadline s.timers p) nows)
                (append-nil (times_of p s.fired)))
      ]

  deadline-reset :
      (t : T) (now ticks p q : ℕ)
      → tm.deadline (tm.reset t now ticks p) q
        ≡ (if q == p then some (now + ticks) else tm.deadline t q)
  deadline-reset t now ticks p q =
      ground (arith, laws.deadline-reset_self t now ticks p, laws.deadline-reset_ne t now ticks p q)

  deadline-multi_timers :
      (t : T) (hz : ℕ) (clock : ℕ → ℕ) (p : ℕ)
      → p < 5
      → tm.deadline (multi_timers tm t hz clock) p ≡ some (clock p + seconds (delay p) hz)
  unfolding multi_timers
  deadline-multi_timers t hz clock zero h = simp deadline-reset refl
  deadline-multi_timers t hz clock (suc zero) h = simp deadline-reset refl
  deadline-multi_timers t hz clock (suc (suc zero)) h = simp deadline-reset refl
  deadline-multi_timers t hz clock (suc (suc (suc zero))) h = simp deadline-reset refl
  deadline-multi_timers t hz clock (suc (suc (suc (suc zero)))) h = simp deadline-reset refl
  deadline-multi_timers t hz clock (suc (suc (suc (suc (suc p))))) h = absurd (omega arith)

  -- The timers of TIMER/Multiple_timers/multi.c.
  pub multi_fires_once :
      (t : T) (hz : ℕ) (clock : ℕ → ℕ) (nows : List ℕ) (p : ℕ)
      → p < 5
      → times_of p (main_loop tm (start (multi_timers tm t hz clock)) nows).fired
        ≡ first_due (some (clock p + seconds (delay p) hz)) nows
  multi_fires_once t hz clock nows p h =
      times_of-main_loop nows (start (multi_timers tm t hz clock)) p
      ∙ ap (λ (d : Option ℕ). first_due d nows) (deadline-multi_timers t hz clock p h)

  deadline-main_timer :
      (t : T) (hz now : ℕ) → tm.deadline (main_timer tm t hz now) 0 ≡ some (now + seconds 3 hz)
  unfolding main_timer
  deadline-main_timer t hz now = laws.deadline-reset_self (tm.init t 0) now (seconds 3 hz) 0

  -- For any times at which rte_timer_manage is called, the timer of TIMER/main.c, and each of the
  -- five timers of TIMER/Multiple_timers/multi.c, fires once, at the first of these times that is
  -- not before the time when it was set plus its delay (3 seconds, and 1, 3, 2, 5 and 4 seconds,
  -- in ticks as 64-bit numbers), and not at all if there is no such time. The timers keep the
  -- documented laws of rte_timer.
  pub timers_fire_once :
      (t : T) (hz now : ℕ) (clock : ℕ → ℕ) (nows : List ℕ) (p : ℕ)
      → p < 5
      → (times_of 0 (main_loop tm (start (main_timer tm t hz now)) nows).fired
          ≡ first_due (some (now + seconds 3 hz)) nows)
        × (times_of p (main_loop tm (start (multi_timers tm t hz clock)) nows).fired
            ≡ first_due (some (clock p + seconds (delay p) hz)) nows)
  timers_fire_once t hz now clock nows p h = (
    times_of-main_loop nows (start (main_timer tm t hz now)) 0
        ∙ ap (λ (d : Option ℕ). first_due d nows) (deadline-main_timer t hz now),
    multi_fires_once t hz clock nows p h,
  )
