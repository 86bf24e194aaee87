-- ===== src/Dpdk/Timers.antt =====
-- rte_timer: the timers of one core, each named by the address of the object that it lies in.
use dpdk_code.Base.{
  ℕ, ◌+◌, ◌≡◌, ◌≢◌, Bool, false, Option, none, some, List, elem, Distinct, leb, if◌then◌else◌,
}

-- `manage t now` is rte_timer_manage at the time `now`: the timers whose callbacks it runs, in
-- order, and the timers after it. `deadline` is the time at which a pending timer expires.
pub record TimerOps (T : Type 0) : Type 0 where
  pub init : T → ℕ → T
  pub reset : T → ℕ → ℕ → ℕ → T
  pub manage : T → ℕ → List ℕ × T
  pub deadline : T → ℕ → Option ℕ

abbrev pub is_due : Option ℕ → ℕ → Bool
is_due none now = false
is_due (some d) now = leb d now

-- `reset t now ticks p` arms the timer `p`, pending or not, to expire `ticks` after `now`;
-- `manage` runs each timer that is due, once, and stops it.
pub record TimerLaws {T : Type 0} (c : TimerOps T) : Type 0 where
  pub deadline-init_self : (t : T) (p : ℕ) → c.deadline (c.init t p) p ≡ none
  pub deadline-init_ne : (t : T) (p q : ℕ) → q ≢ p → c.deadline (c.init t p) q ≡ c.deadline t q
  pub deadline-reset_self :
      (t : T) (now ticks p : ℕ) → c.deadline (c.reset t now ticks p) p ≡ some (now + ticks)
  pub deadline-reset_ne :
      (t : T) (now ticks p q : ℕ) → q ≢ p → c.deadline (c.reset t now ticks p) q ≡ c.deadline t q
  pub elem-manage : (t : T) (now p : ℕ) → elem p (c.manage t now).0 ≡ is_due (c.deadline t p) now
  pub manage-Distinct : (t : T) (now : ℕ) → Distinct (c.manage t now).0
  pub deadline-manage :
      (t : T) (now p : ℕ)
      → c.deadline (c.manage t now).1 p
        ≡ (if is_due (c.deadline t p) now then none else c.deadline t p)
