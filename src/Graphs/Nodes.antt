-- ===== src/Graphs/Nodes.antt =====
-- The nodes that Graphs/rx_packets/rx.c and Graphs/multiple_src_node.c register, and the patterns
-- that their graphs are made from.
use Prim.Native.String.{String}
use dpdk_code.Base.{true, false, List, [], ◌∷◌}
use dpdk_code.Dpdk.Patterns.{Node}

abbrev pub rx_node : Node
rx_node = record { name = "RX"; is_source = true; next_nodes = "CLASSIFY" ∷ [] }

abbrev pub classify_node : Node
classify_node = record {
  name = "CLASSIFY";
  is_source = false;
  next_nodes = "PRINT_IPV4" ∷ "PRINT_IPV6" ∷ [];
}

abbrev pub print_ipv4_node : Node
print_ipv4_node = record { name = "PRINT_IPV4"; is_source = false; next_nodes = [] }

abbrev pub print_ipv6_node : Node
print_ipv6_node = record { name = "PRINT_IPV6"; is_source = false; next_nodes = [] }

abbrev pub rx_nodes : List Node
rx_nodes = rx_node ∷ classify_node ∷ print_ipv4_node ∷ print_ipv6_node ∷ []

abbrev pub rx_patterns : List String
rx_patterns = "RX" ∷ []

abbrev pub start1_node : Node
start1_node = record { name = "start1"; is_source = true; next_nodes = "worker" ∷ [] }

abbrev pub start2_node : Node
start2_node = record { name = "start2"; is_source = true; next_nodes = "worker" ∷ [] }

abbrev pub worker_node : Node
worker_node = record { name = "worker"; is_source = false; next_nodes = [] }

abbrev pub source_nodes : List Node
source_nodes = start1_node ∷ start2_node ∷ worker_node ∷ []

abbrev pub source_patterns : List String
source_patterns = "start1" ∷ "start2" ∷ []
