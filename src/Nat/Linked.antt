-- ===== src/Nat/Linked.antt =====
-- A hash table of pointers to entries on the heap, in step with it: what the translators keep
-- true of each of their tables.
use dpdk_code.Base.{
  Bool, Option-cases, inl, inr, if◌then◌else◌, ℕ, ◌≡◌, ◌≢◌, sym, ◌∙◌, Option, none, some, arith,
  ℕ_discrete, update,
}
use dpdk_code.Dpdk.Hash.{HashOps, HashLaws}

module _ {E : Type 0} where
  pub update_self : (heap : ℕ → Option E) (p : ℕ) (v : Option E) → update heap p v p ≡ v
  update_self heap p v = ground arith

  pub update_ne :
      (heap : ℕ → Option E) (p q : ℕ) (v : Option E) → q ≢ p → update heap p v q ≡ heap q
  update_ne heap p q v h = ground arith

-- Each key leads to a live entry that has this key, and each live entry is found under its key.
pub record Linked {T K E : Type 0} (h : HashOps T K ℕ) (key : E → K) (t : T) (heap : ℕ → Option E)
    : Type 0 where
  pub live : (k : K) (p : ℕ) → h.lookup t k ≡ some p → (e : E) × (heap p ≡ some e) × (key e ≡ k)
  pub stored : (p : ℕ) (e : E) → heap p ≡ some e → h.lookup t (key e) ≡ some p

module _ {T K E : Type 0} (dec : Discrete K) (h : HashOps T K ℕ) (laws : HashLaws h) (key : E → K)
    (t : T) (heap : ℕ → Option E) (p : ℕ) (e : E) (linked : Linked h key t heap) where
  pub Linked-add :
      (t' : T)
      → heap p ≡ none
      → h.lookup t (key e) ≡ none
      → h.add t (key e) p ≡ some t'
      → Linked h key t' (update heap p (some e))
  Linked-add t' unused absent added = record {
    live = λ k q found. elim (dec k (key e)) [
      | yes same ↦ (e, ground (arith, laws.lookup-add_self t t' (key e) p added), sym same)
      | no other ↦
          let (f, at, keyed) =
            linked.live k q (sym (laws.lookup-add_ne t t' (key e) k p added other) ∙ found) in
          (f, ground arith, keyed)
    ];
    stored = λ q f at. elim (ℕ_discrete q p) [
      | yes same ↦ ground (arith, laws.lookup-add_self t t' (key e) p added)
      | no other ↦
          let before = linked.stored q f (ground arith) in
          ground (arith, before, laws.lookup-add_ne t t' (key e) (key f) p added)
    ];
  }

  pub Linked-del : heap p ≡ some e → Linked h key (h.del t (key e)) (update heap p none)
  Linked-del at = record {
    live = λ k q found. elim (dec k (key e)) [
      | yes same ↦ absurd (ground (arith, laws.lookup-del_self t (key e)))
      | no other ↦
          let (f, at', keyed) =
            linked.live k q (sym (laws.lookup-del_ne t (key e) k other) ∙ found) in
          (f, ground arith, keyed)
    ];
    stored = λ q f at'. elim (ℕ_discrete q p) [
      | yes same ↦ absurd (ground arith)
      | no other ↦
          let before = linked.stored q f (ground arith) in
          ground (arith, before, linked.stored p e at, laws.lookup-del_ne t (key e) (key f))
    ];
  }

-- Where some entries of the heap are freed and the table follows, exactly their keys are gone.
pub lookup-expired :
    {T K E : Type 0} (h : HashOps T K ℕ) (key : E → K) (t t' : T) (heap heap' : ℕ → Option E)
    (due : ℕ → Bool) (p : ℕ) (e : E)
    → Linked h key t heap
    → Linked h key t' heap'
    → ((q : ℕ) → heap' q ≡ (if due q then none else heap q))
    → heap p ≡ some e
    → h.lookup t' (key e) ≡ (if due p then none else some p)
lookup-expired h key t t' heap heap' due p e before after gone at =
    elim (Option-cases (h.lookup t' (key e))) [
      | inl missing ↦ ground (arith, gone p, after.stored p e)
      | inr (q, found) ↦
          let (f, at', keyed) = after.live (key e) q found in
          ground (arith, gone q, gone p, before.stored q f, before.stored p e, after.stored p e)
    ]
