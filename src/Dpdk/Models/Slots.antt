-- ===== src/Dpdk/Models/Slots.antt =====
-- A table with one place for each of the keys in a list, and room for no other key.
use dpdk_code.Base.{
  ℕ_discrete, ℕ, suc, ◌+◌, ◌<◌, ◌≤◌, ◌≡◌, ◌⊎◌, inl, inr, refl, ap, ◌&&◌, Option, none, some, List,
  [], ◌∷◌, length, arith, ltb, leb, ◌==◌, if◌then◌else◌, Bool-cases, Option-cases,
}
use dpdk_code.Dpdk.Hash.{IterOps, IterLaws}
use dpdk_code.Dpdk.Models.Table.{put, put_self, put_ne}
use mathlib.Core.Logic.{ite}
use mathlib.Core.Option.{some-injective}

module _ {K : Type 0} (dec : Discrete K) where
  unfoldable pub index_in : List K → K → ℕ
  index_in [] q = 0
  index_in (k ∷ ks) q = ite (dec k q) 0 (suc (index_in ks q))

  -- The rest of the keys, from the place `pos` on.
  record Rest (keys : List K) (pos : ℕ) (ks : List K) : Type 0 where
    ends : pos + length ks ≡ length keys
    places : (q : K) → pos ≤ index_in keys q → index_in keys q ≡ pos + index_in ks q

  tail-Rest :
      (keys : List K) (pos : ℕ) (k : K) (ks : List K)
      → Rest keys pos (k ∷ ks)
      → Rest keys (suc pos) ks
  unfolding index_in
  tail-Rest keys pos k ks r = record {
    ends = omega (arith, r.ends);
    places = λ q h. ground (arith, r.places q (omega arith));
  }

  head_place :
      (keys : List K) (pos : ℕ) (k : K) (ks : List K) (q : K)
      → Rest keys pos (k ∷ ks)
      → index_in keys q ≡ pos
      → q ≡ k
  unfolding index_in
  head_place keys pos k ks q r at = ground (arith, r.places q (omega arith))

  start-Rest : (keys : List K) → Rest keys 0 keys
  start-Rest keys = record { ends = omega arith; places = λ q h. omega arith }

module _ {K V : Type 0} (dec : Discrete K) (keys : List K) where
  abbrev pub lookup : (K → Option V) → K → Option V
  lookup t k = if ltb (index_in dec keys k) (length keys) then t k else none

  unfoldable pub walk : List K → ℕ → (K → Option V) → ℕ → Option (K × V × ℕ)
  walk [] pos t i = none
  walk (k ∷ ks) pos t i =
      let rest = walk ks (suc pos) t i in
      if leb i pos && index_in dec keys k == pos
      then elim (t k) [ some v ↦ some (k, v, suc pos) | none ↦ rest ]
      else rest

  abbrev pub slots : IterOps (K → Option V) K V
  slots = record {
    hash = record {
      lookup = lookup;
      add = λ t k v.
          if ltb (index_in dec keys k) (length keys) then some (put dec t k (some v)) else none;
      del = λ t k. put dec t k none;
    };
    iterate = λ t i. walk keys 0 t i;
    reset = λ t k. none;
    place = λ t k. index_in dec keys k;
    size = length keys;
  }

  walk-none :
      (ks : List K) (pos i : ℕ) (t : K → Option V) (q : K) (w : V)
      → Rest dec keys pos ks
      → walk ks pos t i ≡ none
      → lookup t q ≡ some w
      → pos ≤ index_in dec keys q
      → index_in dec keys q < i
  unfolding walk index_in
  walk-none [] pos i t q w r e found h = ground (arith, r.ends)
  walk-none (k ∷ ks) pos i t q w r e found h = ground (
    arith,
    r.places q h,
    r.places k,
    walk-none ks (suc pos) i t q w (tail-Rest dec keys pos k ks r),
  )

  -- What a step of the iteration returns.
  record Visit (pos i : ℕ) (t : K → Option V) (k : K) (v : V) (j : ℕ) : Type 0 where
    found : lookup t k ≡ some v
    from : i ≤ index_in dec keys k
    next : j ≡ suc (index_in dec keys k)
    first :
        (q : K) (w : V)
        → lookup t q ≡ some w
        → pos ≤ index_in dec keys q
        → i ≤ index_in dec keys q
        → (q ≡ k) ⊎ (j ≤ index_in dec keys q)

  walk-Visit :
      (ks : List K) (pos i : ℕ) (t : K → Option V) (k : K) (v : V) (j : ℕ)
      → Rest dec keys pos ks
      → walk ks pos t i ≡ some (k, v, j)
      → Visit pos i t k v j
  unfolding walk index_in
  walk-Visit [] pos i t k v j r e = absurd (ground arith)
  walk-Visit (h ∷ ks) pos i t k v j r e =
      elim (Bool-cases (leb i pos && index_in dec keys h == pos)) [
        | inl here ↦ elim (Option-cases (t h)) [
          | inl empty ↦
              wider (λ q w found same at from. ground arith)
                (walk-Visit ks (suc pos) i t k v j (tail-Rest dec keys pos h ks r) (ground arith))
          | inr (u, full) ↦ record {
            found = ground (arith, r.ends);
            from = ground arith;
            next = ground arith;
            first = λ q w found at from. elim (ℕ_discrete (index_in dec keys q) pos) [
              | yes same ↦ inl (ground (arith, head_place dec keys pos h ks q r same))
              | no other ↦ inr (ground arith)
            ];
          }
        ]
        | inr there ↦
            wider (λ q w found same at from. ground arith)
              (walk-Visit ks (suc pos) i t k v j (tail-Rest dec keys pos h ks r) (ground arith))
      ]
    where
      wider :
          ((q : K) (w : V) → lookup t q ≡ some w → q ≡ h → index_in dec keys q ≡ pos → i ≤ pos → ⊥)
          → Visit (suc pos) i t k v j
          → Visit pos i t k v j
      wider never x = record {
        found = x.found;
        from = x.from;
        next = x.next;
        first = λ q w found at from. elim (ℕ_discrete (index_in dec keys q) pos) [
          | yes same ↦
              absurd (never q w found (head_place dec keys pos h ks q r same) same (omega arith))
          | no other ↦ x.first q w found (omega arith) from
        ];
      }

  at : (f g : K → Option V) (k : K) → some f ≡ some g → f k ≡ g k
  at f g k e = ap (λ (h : K → Option V). h k) (some-injective f g e)

  pub slots_laws : IterLaws slots
  slots_laws = record {
    hash = record {
      lookup-add_self =
          λ t t' k v e. ground (arith, at (put dec t k (some v)) t' k, put_self dec t k (some v));
      lookup-add_ne = λ t t' k j v e h.
          ground (arith, at (put dec t k (some v)) t' j, put_ne dec t k j (some v) h);
      lookup-del_self = λ t k. ground (arith, put_self dec t k none);
      lookup-del_ne = λ t k j h. ground (arith, put_ne dec t k j none h);
    };
    iterate-lookup = λ t i j k v e. (walk-Visit keys 0 i t k v j (start-Rest dec keys) e).found;
    iterate-place = λ t i j k v e.
        let x = walk-Visit keys 0 i t k v j (start-Rest dec keys) e in (x.from, x.next);
    iterate-next = λ t i j k q v w e found from.
        (walk-Visit keys 0 i t k v j (start-Rest dec keys) e).first q w found (omega arith) from;
    iterate-none =
        λ t i q w e found. walk-none keys 0 i t q w (start-Rest dec keys) e found (omega arith);
    place-lt-size = λ t q w found. ground arith;
    place-del = λ t k q. refl;
    lookup-reset = λ t q. ground arith;
  }
