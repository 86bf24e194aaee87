-- ===== src/Graphs/Sources/Ten.antt =====
-- The loop of Graphs/multiple_src_node.c ends after ten packets.
use mathlib.Core.List.{append_assoc, append-nil}
use dpdk_code.Base.{
  ℕ, zero, suc, ◌+◌, ◌≤◌, ◌<◌, ◌≡◌, refl, ap, true, ◌||◌, Option, some, List, ◌++◌, length,
  length-append, ltb, leb, is_some, arith, Bool-cases, inl, inr,
}
use dpdk_code.Graphs.Sources.{State, start_process, worker_process, walk, main_loop}

-- Every packet that was made is freed again, and the counter counts them, up to ten.
pub record IsTidy (s : State) : Type 0 where
  pub freed : s.freed ≡ s.allocated
  pub counted : length s.allocated ≡ s.total_prints
  pub bound : s.total_prints ≤ 10

-- Between a source and the worker.
record Produced (s s' : State) (objs : List ℕ) : Type 0 where
  allocated : s'.allocated ≡ s.allocated ++ objs
  freed : s'.freed ≡ s.freed
  counted : s'.total_prints ≡ s.total_prints + length objs
  bound : s'.total_prints ≤ 10

start-Produced :
    (s : State) (mem : Option ℕ)
    → s.total_prints ≤ 10
    → Produced s (start_process s mem).0 (start_process s mem).1
unfolding start_process
start-Produced s mem small = record {
  allocated = ground (arith, append-nil s.allocated);
  freed = ground arith;
  counted = ground arith;
  bound = ground arith;
}

start_progress :
    (s : State) (mem : Option ℕ)
    → s.total_prints < 10
    → is_some mem ≡ true
    → (start_process s mem).0.total_prints ≡ s.total_prints + 1
unfolding start_process
start_progress s mem few given = ground arith

walk-IsTidy : (s : State) (mem1 mem2 : Option ℕ) → IsTidy s → IsTidy (walk s mem1 mem2)
unfolding walk worker_process
walk-IsTidy s mem1 mem2 x =
    let (s1, objs1) = start_process s mem1 in
    let (s2, objs2) = start_process s1 mem2 in
    let y = start-Produced s mem1 x.bound in
    let z = start-Produced s1 mem2 y.bound in
    record {
      freed = simp (z.allocated, y.allocated, z.freed, y.freed, x.freed, append_assoc) refl;
      counted = omega (
        arith,
        ap length z.allocated,
        ap length y.allocated,
        length-append s1.allocated objs2,
        length-append s.allocated objs1,
        z.counted,
        y.counted,
        x.counted,
      );
      bound = z.bound;
    }

-- A walk in which the pool gives one of the sources a packet makes at least one.
walk_progress :
    (s : State) (mem1 mem2 : Option ℕ)
    → IsTidy s
    → s.total_prints < 10
    → (is_some mem1 || is_some mem2) ≡ true
    → s.total_prints < (walk s mem1 mem2).total_prints
unfolding walk worker_process
walk_progress s mem1 mem2 x few given =
    let s1 = (start_process s mem1).0 in
    let y = start-Produced s mem1 x.bound in
    let z = start-Produced s1 mem2 y.bound in
    elim (Bool-cases (is_some mem1)) [
      | inl first ↦ omega (arith, start_progress s mem1 few first, z.counted)
      | inr dry ↦ elim (Bool-cases (leb 10 s1.total_prints)) [
        | inl full ↦
            let enough : 10 ≤ s1.total_prints = ground arith in omega (arith, z.counted, enough)
        | inr room ↦
            let left : s1.total_prints < 10 = ground arith in
            omega (arith, start_progress s1 mem2 left (ground (arith, dry)), y.counted)
      ]
    ]

-- If in every walk the pool has a packet for one of the two sources, the loop of
-- Graphs/multiple_src_node.c ends after at most as many walks as packets are missing to ten; then
-- exactly ten packets were made, and each was freed, in order.
pub main_loop_ends :
    (pool : ℕ → Option ℕ × Option ℕ) (fuel i : ℕ) (s : State)
    → ((j : ℕ) → (is_some (pool j).0 || is_some (pool j).1) ≡ true)
    → IsTidy s
    → 10 ≤ s.total_prints + fuel
    → (s' : State) × (main_loop pool fuel i s ≡ some s') × IsTidy s' × (s'.total_prints ≡ 10)
unfolding main_loop
main_loop_ends pool zero i s gives x enough =
    (s, ground (arith, x.bound), x, omega (arith, x.bound, enough))
main_loop_ends pool (suc fuel) i s gives x enough = elim (Bool-cases (ltb s.total_prints 10)) [
  | inr done ↦ (s, rw done refl, x, ground (arith, x.bound))
  | inl few ↦
      let more = walk_progress s (pool i).0 (pool i).1 x (ground arith) (gives i) in
      let (s', ran, y, ten) =
        main_loop_ends pool fuel (suc i) (walk s (pool i).0 (pool i).1) gives
          (walk-IsTidy s (pool i).0 (pool i).1 x) (omega (arith, more, enough)) in
      (s', rw few ran, y, ten)
]
