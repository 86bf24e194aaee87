-- ===== src/Graphs/Classify.antt =====
-- Graphs/rx_packets/rx.c: packets are received once, sorted by their EtherType, printed and freed.
pub mod Partition
pub mod Walk
use dpdk_code.Base.{
  ℕ, zero, ◌+◌, Bool, true, false, Option, none, some, List, [], ◌∷◌, ◌++◌, ◌>>=◌, length, ◌==◌,
  if◌then◌else◌,
}
use dpdk_code.Parsing.{byte_at, be16_at, be32_at, ether_type_ipv4, ether_type_ipv6}

pub data Line : Type 0 where
  ipv4_packets ipv6_packets : ℕ → Line
  ipv4_packet : ℕ → ℕ → ℕ → Line
  ipv6_packet : ℕ → Line

-- The arrays of the classify node, each as long as its counter says, and what the node freed.
pub record Sorted : Type 0 where
  pub ipv4_objs : List ℕ
  pub ipv6_objs : List ℕ
  pub freed : List ℕ

-- The flag of the RX node, and logs of what was freed and printed.
pub record State : Type 0 where
  pub rx_done : Bool
  pub freed : List ℕ
  pub printed : List Line

-- `bytes` is what the packets contain; a packet is named by its mbuf.
module _ (bytes : ℕ → List ℕ) where
  abbrev pub sort_one : Sorted → ℕ → ℕ → Sorted
  sort_one c m ether_type =
      if ether_type == ether_type_ipv4
      then record c { ipv4_objs = c.ipv4_objs ++ (m ∷ []) }
      else if ether_type == ether_type_ipv6
      then record c { ipv6_objs = c.ipv6_objs ++ (m ∷ []) }
      else record c { freed = c.freed ++ (m ∷ []) }

  -- The loop of classify_node_process.
  unfoldable pub classify_from : Sorted → List ℕ → Option Sorted
  classify_from c [] = some c
  classify_from c (m ∷ objs) = do
    ether_type ← be16_at (bytes m) 12
    classify_from (sort_one c m ether_type) objs

  unfoldable pub classify_node_process : List ℕ → Option Sorted
  classify_node_process objs =
      classify_from (record { ipv4_objs = []; ipv6_objs = []; freed = [] }) objs

  unfoldable pub print_ipv4_loop : State → List ℕ → Option State
  print_ipv4_loop s [] = some s
  print_ipv4_loop s (m ∷ objs) = do
    src ← be32_at (bytes m) 26
    dst ← be32_at (bytes m) 30
    ttl ← byte_at (bytes m) 22
    print_ipv4_loop
        (record s {
          freed = s.freed ++ (m ∷ []);
          printed = s.printed ++ (Line.ipv4_packet src dst ttl ∷ []);
        })
        objs

  unfoldable pub print_ipv4_process : State → List ℕ → Option State
  print_ipv4_process s objs =
      print_ipv4_loop (record s { printed = s.printed ++ (Line.ipv4_packets (length objs) ∷ []) })
        objs

  unfoldable pub print_ipv6_loop : State → List ℕ → Option State
  print_ipv6_loop s [] = some s
  print_ipv6_loop s (m ∷ objs) = do
    hop_limits ← byte_at (bytes m) 21
    print_ipv6_loop
        (record s {
          freed = s.freed ++ (m ∷ []);
          printed = s.printed ++ (Line.ipv6_packet hop_limits ∷ []);
        })
        objs

  unfoldable pub print_ipv6_process : State → List ℕ → Option State
  print_ipv6_process s objs =
      print_ipv6_loop (record s { printed = s.printed ++ (Line.ipv6_packets (length objs) ∷ []) })
        objs

  -- A node that was given nothing does not run.
  unfoldable pub pending : (State → List ℕ → Option State) → State → List ℕ → Option State
  pending node s [] = some s
  pending node s (m ∷ objs) = node s (m ∷ objs)

  -- What the nodes behind RX do with a burst.
  unfoldable pub run_nodes : State → List ℕ → Option State
  run_nodes s pkts = do
    c ← classify_node_process pkts
    s' ← pending print_ipv4_process (record s { freed = s.freed ++ c.freed }) c.ipv4_objs
    pending print_ipv6_process s' c.ipv6_objs

  -- rx_node_process and the walk that it starts. `pkts` is what rte_eth_rx_burst would give.
  unfoldable pub rx_node_process : State → List ℕ → Option State
  rx_node_process s [] = some s
  rx_node_process s (m ∷ pkts) =
      if s.rx_done then some s else run_nodes (record s { rx_done = true }) (m ∷ pkts)
