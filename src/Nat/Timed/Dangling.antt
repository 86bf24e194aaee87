-- ===== src/Nat/Timed/Dangling.antt =====
-- The timers that check_global_idle of NAT/Nat_with_TIMER/nwt.c leaves behind.
use dpdk_code.Base.{ℕ, ◌≡◌, ◌∙◌, ap, none, some, List, [], ◌∷◌, true, elem, arith}
use dpdk_code.Dpdk.Timers.{is_due}
use dpdk_code.Nat.Timed.{
  Services, ServiceLaws, State, Entry, is_idle, flow_timeout_cb, run_callbacks, timer_manage,
  check_global_idle,
}
use dpdk_code.Nat.Timed.Invariant.{IsValid}
use dpdk_code.Nat.Timed.Idle.{clear_table-Cleared}

module _ {T C : Type 0} (sv : Services T C) (laws : ServiceLaws sv) (slack : ℕ) where
  callback_faults :
      (s : State T C) (ps : List ℕ) (p : ℕ)
      → ((q : ℕ) → s.heap q ≡ none)
      → elem p ps ≡ true
      → run_callbacks sv s ps ≡ none
  unfolding run_callbacks flow_timeout_cb elem
  callback_faults s [] p empty h = absurd (ground arith)
  callback_faults s (q ∷ qs) p empty h = ground (arith, empty q)

  -- When check_global_idle finds a valid state idle while some entry is live, it frees the entry
  -- and leaves its timer armed, so that rte_timer_manage, once the timer is due, runs a callback
  -- on freed memory: a fault. The table and the timers keep the documented laws of rte_hash and
  -- rte_timer.
  pub idle_clear_dangles :
      (s : State T C) (now later p : ℕ) (e : Entry)
      → IsValid sv slack s
      → is_idle s now ≡ true
      → s.heap p ≡ some e
      → is_due (sv.timer.deadline s.timers p) later ≡ true
      → (s' : State T C) × (check_global_idle sv s now ≡ some s')
        × (timer_manage sv s' later ≡ none)
  unfolding check_global_idle timer_manage
  idle_clear_dangles s now later p e v idle live due =
      let (s', ran, x) = clear_table-Cleared sv laws s v.linked in
      (
        s',
        ground (arith, ran),
        callback_faults (record s' { timers = (sv.timer.manage s'.timers later).1 })
            (sv.timer.manage s'.timers later).0 p x.heap
            (laws.timer.elem-manage s'.timers later p
              ∙ ap (λ t. is_due (sv.timer.deadline t p) later) x.timers
              ∙ due),
      )
