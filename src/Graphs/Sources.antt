-- ===== src/Graphs/Sources.antt =====
-- Graphs/multiple_src_node.c: two sources produce packets until ten were made, and a worker frees
-- them.
pub mod Ten
use dpdk_code.Base.{
  ℕ, zero, suc, ◌+◌, Bool, Option, none, some, List, [], ◌∷◌, ◌++◌, ltb, leb, if◌then◌else◌,
}

-- `total_prints`, and logs: the packets that the pool gave, and those that were freed.
pub record State : Type 0 where
  pub total_prints : ℕ
  pub allocated : List ℕ
  pub freed : List ℕ

-- start1_process and start2_process, which differ in what they print. `mem` is the result of
-- rte_pktmbuf_alloc, `none` for NULL. The list is what the node enqueues.
unfoldable pub start_process : State → Option ℕ → State × List ℕ
start_process s mem = if leb 10 s.total_prints then (s, []) else elim mem [
  | none ↦ (s, [])
  | some m ↦
      (record s { total_prints = s.total_prints + 1; allocated = s.allocated ++ (m ∷ []) }, m ∷ [])
]

unfoldable pub worker_process : State → List ℕ → State
worker_process s objs = record s { freed = s.freed ++ objs }

-- A walk: both sources, then the worker with what they enqueued.
unfoldable pub walk : State → Option ℕ → Option ℕ → State
walk s mem1 mem2 =
    let (s1, objs1) = start_process s mem1 in
    let (s2, objs2) = start_process s1 mem2 in worker_process s2 (objs1 ++ objs2)

-- The loop of `main`: `pool i` is what the pool would give in walk `i`. `none` is no fuel.
unfoldable pub main_loop : (ℕ → Option ℕ × Option ℕ) → ℕ → ℕ → State → Option State
main_loop pool zero i s = if ltb s.total_prints 10 then none else some s
main_loop pool (suc fuel) i s =
    let rest = main_loop pool fuel (suc i) (walk s (pool i).0 (pool i).1) in
    if ltb s.total_prints 10 then rest else some s
