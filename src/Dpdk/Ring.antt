-- ===== src/Dpdk/Ring.antt =====
-- rte_ring in the burst calls of the programs: a queue of pointers that takes what fits.
use dpdk_code.Base.{ℕ, ◌≤◌, ◌≡◌, List, ◌++◌, length, take, min}

-- `enqueue_burst` returns how many it took. `contents` is what the ring holds, oldest first.
pub record RingOps (R : Type 0) : Type 0 where
  pub enqueue_burst : R → List ℕ → ℕ × R
  pub dequeue_burst : R → ℕ → List ℕ × R
  pub contents : R → List ℕ

-- A burst takes or gives the first ones, as many as fit or are there.
pub record RingLaws {R : Type 0} (ring : RingOps R) : Type 0 where
  pub enqueue-le : (r : R) (xs : List ℕ) → (ring.enqueue_burst r xs).0 ≤ length xs
  pub contents-enqueue :
      (r : R) (xs : List ℕ)
      → ring.contents (ring.enqueue_burst r xs).1
        ≡ ring.contents r ++ take (ring.enqueue_burst r xs).0 xs
  pub dequeue-le : (r : R) (n : ℕ) → length (ring.dequeue_burst r n).0 ≤ n
  pub contents-dequeue :
      (r : R) (n : ℕ)
      → ring.contents r ≡ (ring.dequeue_burst r n).0 ++ ring.contents (ring.dequeue_burst r n).1
  pub length-dequeue :
      (r : R) (n : ℕ) → length (ring.dequeue_burst r n).0 ≡ min n (length (ring.contents r))
