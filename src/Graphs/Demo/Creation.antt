-- ===== src/Graphs/Demo/Creation.antt =====
-- The name that the graph is made from is the name of a C variable, not of a node.
use Prim.Native.String.{String}
use text.Mathlib.Text.{◌==◌}
use dpdk_code.Base.{
  ◌≡◌, ◌∙◌, refl, Bool, true, false, if◌then◌else◌, List, [], ◌∷◌, Bool-cases, inl, inr, ◌++◌,
}
use dpdk_code.Dpdk.Patterns.{Node, GraphOps, GraphLaws, any_matches, all_match, is_literal}
use dpdk_code.Graphs.Nodes.{rx_nodes, rx_patterns, source_nodes, source_patterns}
use dpdk_code.Graphs.Demo.{State, creation_failed, main, rx_node, print_node, node_patterns}

-- No node of the list has this name.
abbrev pub NoneNamed : String → List Node → Type 0
NoneNamed p [] = Unit {0}
NoneNamed p (n ∷ ns) = ((p == n.name) ≡ false) × NoneNamed p ns

abbrev pub is_named : String → List Node → Bool
is_named p [] = false
is_named p (n ∷ ns) = if p == n.name then true else is_named p ns

module _ (g : GraphOps) (laws : GraphLaws g) where
  literal_unmatched :
      (ns : List Node) → NoneNamed "rx_node" ns → any_matches g.matches "rx_node" ns ≡ false
  literal_unmatched [] h = refl
  literal_unmatched (n ∷ ns) (h, hs) =
      rw (laws.matches_literal "rx_node" n.name refl ∙ h) (literal_unmatched ns hs)

  named_matches :
      (p : String) (ns : List Node)
      → is_literal p ≡ true
      → is_named p ns ≡ true
      → any_matches g.matches p ns ≡ true
  named_matches p [] literal h = h
  named_matches p (n ∷ ns) literal h = elim (Bool-cases (p == n.name)) [
    | inl e ↦ rw (laws.matches_literal p n.name literal, e) refl
    | inr e ↦ rw (laws.matches_literal p n.name literal, e) (named_matches p ns literal (rw e at h))
  ]

  pub graph_demo_fails :
      (others : List Node) (found : Bool) (s : State)
      → NoneNamed "rx_node" others
      → main g others found s ≡ creation_failed
  unfolding main
  graph_demo_fails others found s h =
      let nodes = rx_node ∷ print_node ∷ others in
      let unmatched = literal_unmatched nodes (refl, (refl, h)) in
      let refused : g.create nodes node_patterns ≡ false =
        laws.create_needs nodes node_patterns (rw unmatched refl) in
      rw refused refl

  -- When no other node is named rx_node: each pattern of the graphs of Graphs/rx_packets/rx.c and
  -- Graphs/multiple_src_node.c matches a node that the program registers, but main of
  -- Graphs/graph_demo.c always fails to create its graph, since its pattern matches no node.
  -- fnmatch takes a pattern with no special character for itself, and rte_graph_create refuses a
  -- pattern that matches no node.
  pub graph_patterns :
      (others : List Node) (found : Bool) (s : State)
      → NoneNamed "rx_node" others
      → (all_match g.matches rx_patterns (rx_nodes ++ others) ≡ true)
        × (all_match g.matches source_patterns (source_nodes ++ others) ≡ true)
        × (main g others found s ≡ creation_failed)
  graph_patterns others found s h =
      let rx = named_matches "RX" (rx_nodes ++ others) refl refl in
      let start1 = named_matches "start1" (source_nodes ++ others) refl refl in
      let start2 = named_matches "start2" (source_nodes ++ others) refl refl in
      (rw rx refl, rw (start1, start2) refl, graph_demo_fails others found s h)
