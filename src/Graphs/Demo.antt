-- ===== src/Graphs/Demo.antt =====
-- Graphs/graph_demo.c: a source that gives four objects once, and a node that prints them.
pub mod Creation
mod Examples
use Prim.Native.String.{String}
use dpdk_code.Base.{
  ℕ, zero, suc, Bool, true, false, if◌then◌else◌, not, List, [], ◌∷◌, ◌++◌, map, length, ◌==◌,
}
use dpdk_code.Dpdk.Patterns.{Node, GraphOps}

-- "PRINT node received %u packets:" and "packet id = %lu".
pub data Line : Type 0 where
  received packet_id : ℕ → Line

-- The static `called`, and what was printed.
pub record State : Type 0 where
  pub called : Bool
  pub printed : List Line

-- The list is what the node enqueues for PRINT.
unfoldable pub rx_node_process : State → State × List ℕ
rx_node_process s = if s.called then (s, []) else (record s { called = true }, 1 ∷ 2 ∷ 3 ∷ 4 ∷ [])

unfoldable pub print_node_process : State → List ℕ → State
print_node_process s objs = record s {
  printed = s.printed ++ (received (length objs) ∷ map packet_id objs);
}

-- A walk runs PRINT if it was given objects.
unfoldable pub walk : State → State
walk s =
    let (s', objs) = rx_node_process s in
    if length objs == 0 then s' else print_node_process s' objs

abbrev pub rx_node : Node
rx_node = record { name = "RX"; is_source = true; next_nodes = "PRINT" ∷ [] }

abbrev pub print_node : Node
print_node = record { name = "PRINT"; is_source = false; next_nodes = [] }

abbrev pub node_patterns : List String
node_patterns = "rx_node" ∷ []

pub data Outcome : Type 0 where
  creation_failed lookup_failed : Outcome
  walked : State → Outcome

-- `others` are the nodes that libraries register. `found` is whether rte_graph_lookup gives a graph.
unfoldable pub main : GraphOps → List Node → Bool → State → Outcome
main g others found s =
    if not (g.create (rx_node ∷ print_node ∷ others) node_patterns)
    then creation_failed
    else if not found
    then lookup_failed
    else walked (walk s)
