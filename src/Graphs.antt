-- ===== src/Graphs.antt =====
-- Graphs/: programs whose steps are the nodes of an rte_graph. A walk through the graph runs a
-- source node, and then each node that was given objects, in the order in which they were.
pub mod Nodes
pub mod Classify
pub mod Sources
pub mod Demo
mod Examples
