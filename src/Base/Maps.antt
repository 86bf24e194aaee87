-- ===== src/Base/Maps.antt =====
-- Memory as a function from addresses: what a store at one address does to the others.
use Prim.Native.Nat.{ℕ}
use mathlib.Core.Option.{Option}
use dpdk_code.Base.Tests.{◌==◌, if◌then◌else◌}

abbrev pub update {ℓ} : {A : Type ℓ} → (ℕ → Option A) → ℕ → Option A → ℕ → Option A
update f p v q = if q == p then v else f q
