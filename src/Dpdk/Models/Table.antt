-- ===== src/Dpdk/Models/Table.antt =====
-- A table as a function of its keys, which never fills up.
use dpdk_code.Base.{◌≡◌, ◌≢◌, sym, ap, ◌∙◌, Option, none, some, arith}
use dpdk_code.Dpdk.Hash.{HashOps, HashLaws}
use mathlib.Core.Logic.{ite}

module _ {K V : Type 0} (dec : Discrete K) where
  unfoldable pub put : (K → Option V) → K → Option V → K → Option V
  put t k v j = ite (dec j k) v (t j)

  abbrev pub table : HashOps (K → Option V) K V
  table = record {
    lookup = λ t k. t k;
    add = λ t k v. some (put t k (some v));
    del = λ t k. put t k none;
  }

  pub put_self : (t : K → Option V) (k : K) (v : Option V) → put t k v k ≡ v
  unfolding put
  put_self t k v = ground arith

  pub put_ne : (t : K → Option V) (k j : K) (v : Option V) → j ≢ k → put t k v j ≡ t j
  unfolding put
  put_ne t k j v h = ground arith

  at : {f g : K → Option V} (k : K) → some f ≡ some g → f k ≡ g k
  at {f} {g} k e = ap (λ (h : Option (K → Option V)). get h k) e
    where
      get : Option (K → Option V) → K → Option V
      get none = f
      get (some h) = h

  pub table_laws : HashLaws table
  table_laws = record {
    lookup-add_self = λ t t' k v e. sym (at k e) ∙ put_self t k (some v);
    lookup-add_ne = λ t t' k j v e h. sym (at j e) ∙ put_ne t k j (some v) h;
    lookup-del_self = λ t k. put_self t k none;
    lookup-del_ne = λ t k j h. put_ne t k j none h;
  }
