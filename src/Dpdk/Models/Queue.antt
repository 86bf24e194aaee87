-- ===== src/Dpdk/Models/Queue.antt =====
-- A ring with room for `cap` packets.
use dpdk_code.Base.{
  ◌≡◌, ℕ, zero, suc, ◌-◌, ◌≤◌, refl, sym, List, [], ◌∷◌, ◌++◌, length, take, drop, take-append-drop,
  min, arith,
}
use dpdk_code.Dpdk.Ring.{RingOps, RingLaws}

length-take-min : (n : ℕ) (xs : List ℕ) → length (take n xs) ≡ min n (length xs)
length-take-min zero xs = omega arith
length-take-min (suc n) [] = omega arith
length-take-min (suc n) (x ∷ xs) = omega (arith, length-take-min n xs)

length-take-le : (n : ℕ) (xs : List ℕ) → length (take n xs) ≤ n
length-take-le zero xs = omega arith
length-take-le (suc n) [] = omega arith
length-take-le (suc n) (x ∷ xs) = omega (arith, length-take-le n xs)

abbrev pub queue : ℕ → RingOps (List ℕ)
queue cap = record {
  enqueue_burst = λ q xs. let n = min (cap - length q) (length xs) in (n, q ++ take n xs);
  dequeue_burst = λ q n. (take n q, drop n q);
  contents = λ q. q;
}

pub queue_laws : (cap : ℕ) → RingLaws (queue cap)
queue_laws cap = record {
  enqueue-le = λ q xs. omega arith;
  contents-enqueue = λ q xs. refl;
  dequeue-le = λ q n. length-take-le n q;
  contents-dequeue = λ q n. sym (take-append-drop n q);
  length-dequeue = λ q n. length-take-min n q;
}
