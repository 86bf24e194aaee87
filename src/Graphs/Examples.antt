-- ===== src/Graphs/Examples.antt =====
-- Graphs/ on concrete packets: an IPv4, an IPv6 and an ARP frame.
use dpdk_code.Base.{
  ℕ, ◌+◌, ◌≡◌, refl, false, Option, none, some, List, [], ◌∷◌, ◌++◌, count, arith, ◌==◌,
  if◌then◌else◌,
}
use dpdk_code.Parsing.{be16_at}
use dpdk_code.Graphs.Classify.{State, classify_node_process, rx_node_process}
use dpdk_code.Graphs.Classify.Partition.{keep, classify_node_partitions}
use dpdk_code.Graphs.Classify.Walk.{AllPrintable, rx_node_once}
use dpdk_code.Graphs.Sources.{start_process, worker_process, walk, main_loop}
use dpdk_code.Graphs.Sources.Ten.{IsTidy, main_loop_ends}

program : Unit {0}
unfolding be16_at keep start_process worker_process walk main_loop
program = tt

abbrev macs : List ℕ
macs = 2 ∷ 0 ∷ 0 ∷ 0 ∷ 0 ∷ 2 ∷ 2 ∷ 0 ∷ 0 ∷ 0 ∷ 0 ∷ 1 ∷ []

abbrev ipv4_frame : List ℕ
ipv4_frame =
    macs
    ++ (0x08 ∷ 0x00 ∷ 0x45 ∷ 0 ∷ 0 ∷ 20 ∷ 0 ∷ 0 ∷ 0 ∷ 0 ∷ 64 ∷ 1 ∷ 0 ∷ 0 ∷ 192 ∷ 168 ∷ 0 ∷ 1 ∷ 8 ∷ 8
        ∷ 8 ∷ 8 ∷ [])

abbrev ipv6_frame : List ℕ
ipv6_frame = macs ++ (0x86 ∷ 0xDD ∷ 0x60 ∷ 0 ∷ 0 ∷ 0 ∷ 0 ∷ 0 ∷ 59 ∷ 64 ∷ [])

abbrev arp_frame : List ℕ
arp_frame = macs ++ (0x08 ∷ 0x06 ∷ [])

abbrev bytes : ℕ → List ℕ
bytes m = if m == 0 then ipv4_frame else if m == 1 then ipv6_frame else arp_frame

classify_node_partitions_example :
    classify_node_process bytes (0 ∷ 1 ∷ 2 ∷ 0 ∷ [])
    ≡ some (record { ipv4_objs = 0 ∷ 0 ∷ []; ipv6_objs = 1 ∷ []; freed = 2 ∷ [] })
unfolding program
classify_node_partitions_example =
    classify_node_partitions bytes (0 ∷ 1 ∷ 2 ∷ 0 ∷ [])
      (omega arith, (omega arith, (omega arith, (omega arith, tt))))

abbrev start : State
start = record { rx_done = false; freed = []; printed = [] }

all_printable : AllPrintable bytes (0 ∷ 1 ∷ 2 ∷ [])
unfolding program
all_printable = (
  (omega arith, λ e. omega arith, λ e. absurd (ground arith)),
  (
    (omega arith, λ e. absurd (ground arith), λ e. omega arith),
    ((omega arith, λ e. absurd (ground arith), λ e. absurd (ground arith)), tt),
  ),
)

rx_node_once_example :
    (s' : State) × (rx_node_process bytes start (0 ∷ 1 ∷ 2 ∷ []) ≡ some s')
    × ((p : ℕ) → count p s'.freed ≡ count p [] + count p (0 ∷ 1 ∷ 2 ∷ []))
    × ((more : List ℕ) → rx_node_process bytes s' more ≡ some s')
rx_node_once_example = rx_node_once bytes start 0 (1 ∷ 2 ∷ []) refl all_printable

abbrev fresh : dpdk_code.Graphs.Sources.State
fresh = record { total_prints = 0; allocated = []; freed = [] }

-- A pool that gives a packet to the second source alone.
abbrev pool : ℕ → Option ℕ × Option ℕ
pool i = (none, some i)

main_loop_ends_example :
    (s' : dpdk_code.Graphs.Sources.State) × (main_loop pool 10 0 fresh ≡ some s')
    × IsTidy s'
    × (s'.total_prints ≡ 10)
main_loop_ends_example =
    main_loop_ends pool 10 0 fresh (λ j. refl)
      (record { freed = refl; counted = refl; bound = omega arith }) (omega arith)
