-- ===== src/Nat/SingleTable/Cleanup.antt =====
-- nat_cleanup of NAT/main.c: a walk through the table that deletes while it walks.
mod Rounds
use dpdk_code.Base.{
  ℕ, zero, suc, ◌+◌, ◌≤◌, ◌<◌, ◌≡◌, ◌≢◌, refl, sym, ap, ◌∙◌, Bool, true, false, ◌&&◌, none, some,
  arith, update, Option-cases, Bool-cases, inl, inr, some_unique, ltb, if◌then◌else◌, dec_lt,
}
use dpdk_code.Dpdk.Hash.{IterOps, IterLaws}
use dpdk_code.Dpdk.Iterate.{full_fuel}
use dpdk_code.Nat.SingleTable.{
  State, Entry, NatKey, is_stale, clean_entry, cleanup_from, nat_cleanup,
}
use dpdk_code.Nat.SingleTable.Invariant.{IsValid}
use dpdk_code.Nat.SingleTable.Cleanup.Rounds.{passed, Cleaned, step-Cleaned}

module _ {T : Type 0} (it : IterOps T NatKey ℕ) (laws : IterLaws it) where
  module _ (now : ℕ) (s0 : State T) where
    -- What is left when the walk has ended.
    record Swept (s : State T) : Type 0 where
      valid : IsValid it s
      table :
          (k : NatKey) (p : ℕ) (e : Entry)
          → it.hash.lookup s0.nat_table k ≡ some p
          → s0.heap p ≡ some e
          → (it.hash.lookup s.nat_table k
              ≡ (if is_stale s0.timeout_cycles now e then none else some p))
            × (s.heap p ≡ (if is_stale s0.timeout_cycles now e then none else some e))
      absent :
          (k : NatKey) → it.hash.lookup s0.nat_table k ≡ none → it.hash.lookup s.nat_table k ≡ none

    all_passed :
        (i : ℕ) (s : State T) (k : NatKey) (p : ℕ) (e : Entry)
        → it.iterate s.nat_table i ≡ none
        → Cleaned it laws now s0 i s
        → it.hash.lookup s0.nat_table k ≡ some p
        → s0.heap p ≡ some e
        → passed it laws now s0 i k e ≡ is_stale s0.timeout_cycles now e
    all_passed i s k p e end c old at = elim (Bool-cases (passed it laws now s0 i k e)) [
      | inl gone ↦ ground arith
      | inr kept ↦
          let found : it.hash.lookup s.nat_table k ≡ some p =
            c.table k p e old at ∙ ap (λ b. if b then none else some p) kept in
          ground (arith, c.place k, laws.iterate-none s.nat_table i k p end found)
    ]

    swept :
        (i : ℕ) (s : State T)
        → IsValid it s0
        → it.iterate s.nat_table i ≡ none
        → Cleaned it laws now s0 i s
        → Swept s
    swept i s v end c = record {
      valid = c.valid;
      table = λ k p e old at. (
        c.table k p e old at
            ∙ ap (λ b. if b then none else some p) (all_passed i s k p e end c old at),
        c.memory k p e old at
            ∙ ap (λ b. if b then none else some e) (all_passed i s k p e end c old at),
      );
      absent = c.absent;
    }

    cleanup_from-Cleaned :
        (fuel i : ℕ) (s : State T)
        → IsValid it s0
        → it.size < i + fuel
        → i ≤ it.size
        → Cleaned it laws now s0 i s
        → (s' : State T) × (cleanup_from it fuel i now s ≡ some s') × Swept s'
    unfolding cleanup_from
    cleanup_from-Cleaned zero i s v enough inside c = absurd (omega arith)
    cleanup_from-Cleaned (suc fuel) i s v enough inside c =
        elim (Option-cases (it.iterate s.nat_table i)) [
          | inl end ↦ (s, rw (end, cleanup_from), swept i s v end c)
          | inr ((k, p, j), next) ↦
              let found = laws.iterate-lookup s.nat_table i j k p next in
              let at = laws.iterate-place s.nat_table i j k p next in
              let inside' = laws.place-lt-size s.nat_table k p found in
              let (t, ran, c') = step-Cleaned it laws now s0 i j s k p v next c in
              let (s', rest, c'') =
                cleanup_from-Cleaned fuel j t v (omega arith) (omega arith) c' in
              (s', ground (arith, ran, rest), c'')
        ]

  -- nat_cleanup on a valid state ends without a fault and leaves a valid state: a flow whose entry
  -- was last used more than timeout_cycles ago, counted in 64-bit arithmetic, has lost its entry
  -- and its key, every other flow has both as before, and no key has come in. The table keeps the
  -- documented laws of rte_hash.
  pub nat_cleanup_exact :
      (s : State T) (now : ℕ)
      → IsValid it s
      → (s' : State T) × (nat_cleanup it s now ≡ some s')
        × IsValid it s'
        × ((k : NatKey) (p : ℕ) (e : Entry)
            → it.hash.lookup s.nat_table k ≡ some p
            → s.heap p ≡ some e
            → (it.hash.lookup s'.nat_table k
                ≡ (if is_stale s.timeout_cycles now e then none else some p))
              × (s'.heap p ≡ (if is_stale s.timeout_cycles now e then none else some e)))
        × ((k : NatKey)
            → it.hash.lookup s.nat_table k ≡ none
            → it.hash.lookup s'.nat_table k ≡ none)
  unfolding nat_cleanup
  nat_cleanup_exact s now v =
      let (s', ran, x) =
        cleanup_from-Cleaned now s (full_fuel it) 0 s v (omega arith) (omega arith) (record {
          valid = v;
          timeout = refl;
          port = refl;
          place = λ k. refl;
          table = λ k p e old at. ground arith;
          memory = λ k p e old at. ground arith;
          absent = λ k new. new;
        }) in
      (s', ran, x.valid, x.table, x.absent)
