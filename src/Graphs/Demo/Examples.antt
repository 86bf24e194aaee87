-- ===== src/Graphs/Demo/Examples.antt =====
-- Graphs/graph_demo.c where fnmatch compares whole names.
use Prim.Native.String.{String}
use text.Mathlib.Text.{◌==◌}
use dpdk_code.Base.{◌≡◌, refl, Bool, true, false, List, [], ◌∷◌, ◌++◌}
use dpdk_code.Dpdk.Patterns.{Node, GraphOps, GraphLaws, all_match}
use dpdk_code.Graphs.Demo.{
  State, creation_failed, received, packet_id, main, walk, rx_node_process, print_node_process,
}
use dpdk_code.Graphs.Demo.Creation.{graph_patterns}
use dpdk_code.Graphs.Nodes.{rx_nodes, rx_patterns, source_nodes, source_patterns}

abbrev whole : (String → String → Bool)
whole p n = p == n

abbrev whole_names : GraphOps
whole_names = record { matches = whole; create = λ ns ps. all_match whole ps ns }

whole_names_laws : GraphLaws whole_names
whole_names_laws = record { matches_literal = λ p n h. refl; create_needs = λ ns ps h. h }

abbrev fresh : State
fresh = record { called = false; printed = [] }

abbrev others : List Node
others = (record { name = "pkt_drop"; is_source = false; next_nodes = [] }) ∷ []

graph_patterns_example :
    (all_match whole rx_patterns (rx_nodes ++ others) ≡ true)
    × (all_match whole source_patterns (source_nodes ++ others) ≡ true)
    × (main whole_names others true fresh ≡ creation_failed)
graph_patterns_example = graph_patterns whole_names whole_names_laws others true fresh (refl, tt)

-- What the walk would print.
walked_lines :
    (walk (walk fresh)).printed
    ≡ received 4 ∷ packet_id 1 ∷ packet_id 2 ∷ packet_id 3 ∷ packet_id 4 ∷ []
unfolding walk rx_node_process print_node_process
walked_lines = refl
