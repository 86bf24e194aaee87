-- ===== src/Base/InOrder.antt =====
-- Lists that another list contains in order.
use Prim.Native.Nat.{ℕ, zero, suc}
use mathlib.Core.List.{List, [], ◌∷◌, ◌++◌}
use dpdk_code.Base.Lists.{take}

pub data Subsequence {ℓ} {A : Type ℓ} : List A → List A → Type ℓ where
  done : Subsequence [] []
  skip : {x : A} {xs ys : List A} → Subsequence xs ys → Subsequence xs (x ∷ ys)
  keep : {x : A} {xs ys : List A} → Subsequence xs ys → Subsequence (x ∷ xs) (x ∷ ys)

module _ {ℓ} {A : Type ℓ} where
  pub Subsequence-refl : (xs : List A) → Subsequence xs xs
  Subsequence-refl [] = done
  Subsequence-refl (x ∷ xs) = keep (Subsequence-refl xs)

  pub Subsequence-nil : (xs : List A) → Subsequence [] xs
  Subsequence-nil [] = done
  Subsequence-nil (x ∷ xs) = skip (Subsequence-nil xs)

  pub Subsequence-take : (n : ℕ) (xs : List A) → Subsequence (take n xs) xs
  Subsequence-take zero xs = Subsequence-nil xs
  Subsequence-take (suc n) [] = done
  Subsequence-take (suc n) (x ∷ xs) = keep (Subsequence-take n xs)

  pub Subsequence-append :
      {xs ys us vs : List A}
      → Subsequence xs ys
      → Subsequence us vs
      → Subsequence (xs ++ us) (ys ++ vs)
  Subsequence-append done t = t
  Subsequence-append (skip s) t = skip (Subsequence-append s t)
  Subsequence-append (keep s) t = keep (Subsequence-append s t)

  pub Subsequence-under :
      (xs : List A) {us vs : List A} → Subsequence us vs → Subsequence (xs ++ us) (xs ++ vs)
  Subsequence-under xs t = Subsequence-append (Subsequence-refl xs) t

  compose :
      {ys zs : List A} → Subsequence ys zs → (xs : List A) → Subsequence xs ys → Subsequence xs zs
  compose done xs s = s
  compose (skip t) xs s = skip (compose t xs s)
  compose (keep t) xs (skip s) = skip (compose t xs s)
  compose (keep t) (x ∷ xs) (keep s) = keep (compose t xs s)

  pub Subsequence-trans :
      {xs ys zs : List A} → Subsequence xs ys → Subsequence ys zs → Subsequence xs zs
  Subsequence-trans {xs} s t = compose t xs s
