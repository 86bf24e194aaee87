-- ===== src/Dpdk/Models/Clock.antt =====
-- Timers at the addresses below a bound, each with its deadline.
use dpdk_code.Base.{
  ℕ, zero, suc, ◌+◌, ◌≡◌, Option, none, some, List, [], ◌∷◌, elem, Distinct, arith, ltb,
  if◌then◌else◌, update,
}
use dpdk_code.Dpdk.Timers.{TimerOps, TimerLaws, is_due}

pub record Clock : Type 0 where
  pub bound : ℕ
  pub times : ℕ → Option ℕ

abbrev pub deadline : Clock → ℕ → Option ℕ
deadline c p = if ltb p c.bound then c.times p else none

abbrev pub arm : Clock → ℕ → Option ℕ → Clock
arm c p d = record { bound = c.bound + suc p; times = update (deadline c) p d }

unfoldable pub due_below : ℕ → (ℕ → Option ℕ) → ℕ → List ℕ
due_below zero f now = []
due_below (suc n) f now =
    let rest = due_below n f now in if is_due (f n) now then n ∷ rest else rest

abbrev pub clock : TimerOps Clock
clock = record {
  init = λ c p. arm c p none;
  reset = λ c now ticks p. arm c p (some (now + ticks));
  manage = λ c now. (
    due_below c.bound c.times now,
    record c { times = λ p. if is_due (c.times p) now then none else c.times p },
  );
  deadline = deadline;
}

elem-due_below :
    (n : ℕ) (f : ℕ → Option ℕ) (now p : ℕ)
    → elem p (due_below n f now) ≡ is_due (if ltb p n then f p else none) now
unfolding due_below elem
elem-due_below zero f now p = ground arith
elem-due_below (suc n) f now p = ground (arith, elem-due_below n f now p)

due_below-Distinct : (n : ℕ) (f : ℕ → Option ℕ) (now : ℕ) → Distinct (due_below n f now)
unfolding due_below
due_below-Distinct zero f now = tt
due_below-Distinct (suc n) f now =
    ground (arith, due_below-Distinct n f now, elem-due_below n f now n)

pub clock_laws : TimerLaws clock
clock_laws = record {
  deadline-init_self = λ t p. ground arith;
  deadline-init_ne = λ t p q h. ground arith;
  deadline-reset_self = λ t now ticks p. ground arith;
  deadline-reset_ne = λ t now ticks p q h. ground arith;
  elem-manage = λ t now p. elem-due_below t.bound t.times now p;
  manage-Distinct = λ t now. due_below-Distinct t.bound t.times now;
  deadline-manage = λ t now p. ground arith;
}
