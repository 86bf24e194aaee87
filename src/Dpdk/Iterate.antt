-- ===== src/Dpdk/Iterate.antt =====
-- Loops over rte_hash_iterate: `while (rte_hash_iterate(t, &k, &data, &iter) >= 0)`. A loop takes
-- fuel; one round more than the table has places is enough.
use dpdk_code.Base.{
  ℕ, zero, suc, ◌+◌, ◌<◌, ◌≤◌, ◌≡◌, inl, inr, Bool, true, false, Option, none, some, arith, ◌>>=◌,
  if◌then◌else◌, Option-cases, Bool-cases,
}
use dpdk_code.Dpdk.Hash.{IterOps, IterLaws}

module _ {T K V : Type 0} (it : IterOps T K V) where
  -- A loop that ends with `break` at the first data that passes the test. The outer `none` is a
  -- fault of the test, or no fuel; the inner one is a loop that ran to its end.
  unfoldable pub search_from : T → (V → Option Bool) → ℕ → ℕ → Option (Option V)
  search_from t test zero i = none
  search_from t test (suc fuel) i = elim (it.iterate t i) [
    | none ↦ some none
    | some (k, v, j) ↦ do
      hit ← test v
      let rest = search_from t test fuel j
      if hit then some (some v) else rest
  ]

  abbrev pub full_fuel : ℕ
  full_fuel = suc it.size

module _ {T K V : Type 0} (it : IterOps T K V) (t : T) (test : V → Option Bool) where
  -- What a search reports: data of some key that passes the test, or that none from the cursor on
  -- passes it.
  abbrev pub Found : ℕ → Option V → Type 0
  Found i (some v) = (k : K) × (it.hash.lookup t k ≡ some v) × (test v ≡ some true)
  Found i none =
      (k : K) (v : V) → it.hash.lookup t k ≡ some v → i ≤ it.place t k → test v ≡ some false

module _ {T K V : Type 0} (it : IterOps T K V) (laws : IterLaws it) (t : T) (test : V → Option Bool)
    (total : (k : K) (v : V) → it.hash.lookup t k ≡ some v → (b : Bool) × (test v ≡ some b)) where
  widen :
      (i j : ℕ) (k : K) (v : V) (r : Option V)
      → it.iterate t i ≡ some (k, v, j)
      → test v ≡ some false
      → Found it t test j r
      → Found it t test i r
  widen i j k v none next miss rest = λ q w found before.
      elim (laws.iterate-next t i j k q v w next found before) [
        | inl same ↦ ground (arith, laws.iterate-lookup t i j k v next)
        | inr later ↦ rest q w found later
      ]
  widen i j k v (some u) next miss rest = rest

  pub search_from-Found :
      (fuel i : ℕ)
      → it.size < i + fuel
      → i ≤ it.size
      → (r : Option V) × (search_from it t test fuel i ≡ some r) × Found it t test i r
  unfolding search_from
  search_from-Found zero i enough inside = absurd (omega arith)
  search_from-Found (suc fuel) i enough inside = elim (Option-cases (it.iterate t i)) [
    | inl end ↦ (
      none,
      rw (end, search_from),
      λ k v found before. absurd (omega (arith, laws.iterate-none t i k v end found)),
    )
    | inr ((k, v, j), next) ↦
        let found = laws.iterate-lookup t i j k v next in
        let at = laws.iterate-place t i j k v next in
        let inside' = laws.place-lt-size t k v found in
        let (b, tested) = total k v found in
        elim (Bool-cases b) [
          | inl hit ↦ (some v, ground arith, (k, found, rw hit at tested))
          | inr miss ↦
              let (r, run, spec) = search_from-Found fuel j (omega arith) (omega arith) in
              (r, ground arith, widen i j k v r next (rw miss at tested) spec)
        ]
  ]
