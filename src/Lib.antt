-- ===== src/Lib.antt =====
-- DPDK_CODE: network programs on DPDK, one directory each. This library models those that keep
-- state or decide over packets.
--
-- Base holds the shared names: tests on the native numbers, lists, chains of Option, and the relation
-- Subsequence. `none` as the result of an operation is a fault of the C program: a null or dangling
-- pointer is used, or a read leaves the frame.
--
-- Dpdk holds what the programs take from DPDK, which is not code of the repository: rte_hash with its
-- iteration (Dpdk.Hash), rte_ring (Dpdk.Ring), rte_timer (Dpdk.Timers), event devices (Dpdk.Events and
-- Dpdk.EventSetup), ports (Dpdk.Ethernet), the making of graphs (Dpdk.Patterns), the command line
-- library (Dpdk.Cmdline) and the calls on an mbuf (Dpdk.Mbuf) are records of operations with records
-- of laws that state their documented behaviour, and the programs are modelled over any of them.
-- Dpdk.Models has a small implementation of each, so that the laws are known to be satisfiable.
-- Dpdk.Iterate is the search loop over rte_hash_iterate. What the clock, rte_malloc, the card and the
-- packet pool return are arguments.
--
-- The programs and the modules for them:
-- Nat.TwoTables: NAT/NAT_twoTables/main.c. process_egress, process_ingress, flow_timeout_cb,
--     refresh_timer, and the two loops and the timer round of main.
-- Nat.SingleTable: NAT/main.c. nat_callback (egress, ingress) and nat_cleanup.
-- Nat.Timed: NAT/Nat_with_TIMER/nwt.c. process_packet, flow_timeout_cb, refresh_timer,
--     check_global_idle and the loop of main. Nat.Timed.Demo has main's test traffic.
-- Nat.Wire: NAT/NWT_actualPkts/main.c. The receiving loop of main, on the timers and the clearing of
--     Nat.Timed, which this program has with other messages (Nat.Wire.Shared).
-- Parsing: PacketParsing/packet_parsing.c and ThreadedParsing/parser.c. packet_parsing and __parser
--     (`parser`), as functions from the bytes of a frame to the lines that are printed.
-- Threaded: ThreadedParsing/rx.c, parser.c and tx.c. The three loops, cut where a core calls a ring
--     or the card, and interleaved in any order (Threaded.Steps). Threaded.Printing relates
--     what was printed to what came in, Threaded.Drain is about runs in which no packet comes in, and
--     Threaded.Launch about the cores of main.
-- L2fwd.Forward and L2fwd.Switch: l2fwd/main.c and l2fwd/veth_peer/main.c. The forwarding loops.
-- L2fwd.Setup: port_init and main of both. An exit is a value that names its message. The calls that
--     lead to an outcome are in L2fwd.Setup.Calls.
-- Eventdev: Eventdev/Parsing/main.c. rx_loop and worker_loop, interleaved in any order.
--     Eventdev.Setup is port_init, eventdev_init and main as chains of calls that may exit.
-- Graphs.Classify and Graphs.Sources: Graphs/rx_packets/rx.c and Graphs/multiple_src_node.c. The
--     nodes, and the walks that run them. Graphs.Nodes has their registrations.
-- Graphs.Demo: Graphs/graph_demo.c. Its nodes, and the making of its graph.
-- Ports: Ports/ports.c and PacketParsing/main.c. The receiving loops of main. Ports.Setup is the set-up
--     of one port that five programs share, with Callbacks/port_config.c.
-- Stats: CLI_lib/Live_Stats_using_CLI/. rx.c, tx.c and cli/cmd_show.c.
-- Timers: TIMER/main.c and TIMER/Multiple_timers/multi.c. The timers and the loop that drives them.
-- Buffers: mbuf/operations.c. Writing a packet at both ends and cutting it, with what is dumped.
-- Cli: CLI_lib/cmdline_demo.c and CLI_lib/Live_Stats_using_CLI/cli/. The commands and their callbacks.
--
-- In a state, the globals of the program are fields; `heap` maps the address of an entry to the entry
-- while it is allocated; fields such as `sent`, `freed` and `printed` are logs of what the program
-- gave away. A timer lies inside its entry and is named by the entry's address. A key of rte_hash is
-- compared by its bytes, so a key struct with padding has a field for it, unless every such key is
-- cleared first; in NAT/main.c and NAT/Nat_with_TIMER/nwt.c that padding is what the stack held, and in
-- the reverse keys of NAT/NAT_twoTables/main.c what the memory of rte_malloc held. Assigning a struct
-- copies its padding.
--
-- Numbers are natural numbers, and where the code can wrap around, `% 2 ^ w` is written out: the
-- 16-bit port counter, the 64-bit products with hz and the 64-bit differences of clock readings.
-- Loops over rte_hash_iterate take fuel; a full table has `size` places, each step moves on by one
-- place or more, and `size + 1` rounds are proved to be enough. The loop of
-- Graphs/multiple_src_node.c takes fuel too, and as many rounds as packets are missing are enough. All
-- other loops are recursive in the list of packets or calls, or in the number of rounds.
--
-- Not modelled: the creation of pools, tables and rings beyond whether it failed, sizes and sockets of
-- queues, and MAC addresses; printing beside what the parsers, the graph nodes, the dump of packets, the
-- statistics, the timers and the commands print; how the command line library reads a line; the demos
-- of single library features, whose logic is in the library (hello.c, diff_fn_diff_thread.c,
-- Callbacks/main.c, IPC_using_rte_mp_msg/, Mempool/, reordering/, Ports/available_ports.c and
-- Eventdev/demo.c). Two cores never run in the middle of each other's calls to a ring or a device,
-- which these synchronise themselves.
pub mod Base
pub mod Dpdk
pub mod Nat
pub mod Parsing
pub mod Threaded
pub mod L2fwd
pub mod Eventdev
pub mod Graphs
pub mod Ports
pub mod Stats
pub mod Timers
pub mod Cli
pub mod Buffers
