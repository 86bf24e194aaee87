-- ===== src/Nat/Wire/Shared.antt =====
-- NAT/NWT_actualPkts/main.c: the functions that NAT/Nat_with_TIMER/nwt.c has too, with the same
-- effects; they differ in what they print.
use dpdk_code.Base.{ℕ, Option}
use dpdk_code.Nat.Timed as Timed

module _ {T C : Type 0} (sv : Timed.Services T C) where
  abbrev pub flow_timeout_cb : Timed.State T C → ℕ → Option (Timed.State T C)
  flow_timeout_cb s p = Timed.flow_timeout_cb sv s p

  abbrev pub refresh_timer : Timed.State T C → ℕ → ℕ → Timed.State T C
  refresh_timer s at p = Timed.refresh_timer sv s at p

  abbrev pub check_global_idle : Timed.State T C → ℕ → Option (Timed.State T C)
  check_global_idle s now = Timed.check_global_idle sv s now
