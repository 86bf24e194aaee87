-- ===== src/Ports/Examples.antt =====
-- The loops of Ports/ports.c and PacketParsing/main.c on two packets.
use dpdk_code.Base.{ℕ, ◌≡◌, refl, some, List, [], ◌∷◌, arith, done}
use dpdk_code.Parsing.{Line}
use dpdk_code.Threaded.{unsent}
use dpdk_code.Ports.{Packet, Echoed, Round, Parsed, dump_from, echo_round, echo_loop, parse_burst}
use dpdk_code.Ports.Echo.{IsEchoed, Prints, receiving_loops}

program : Unit {0}
unfolding unsent dump_from echo_round echo_loop
program = tt

abbrev arp : List ℕ
arp = 2 ∷ 0 ∷ 0 ∷ 0 ∷ 0 ∷ 2 ∷ 2 ∷ 0 ∷ 0 ∷ 0 ∷ 0 ∷ 1 ∷ 0x08 ∷ 0x06 ∷ []

abbrev two_packets : List Packet
two_packets = (record { mbuf = 1; bytes = arp }) ∷ (record { mbuf = 2; bytes = arp }) ∷ []

abbrev quiet : Echoed
quiet = record { received = []; sent = []; freed = []; dumps = [] }

abbrev rounds : List Round
rounds = (record { buff = two_packets; nb_tx = 1 }) ∷ []

rounds_freed : (echo_loop quiet rounds).freed ≡ 2 ∷ []
unfolding program
rounds_freed = refl

receiving_loops_example :
    IsEchoed (echo_loop quiet rounds)
    × (t' : Parsed) × (new : List (List Line)) × (parse_burst
          (record { printed = []; freed = [] })
          two_packets
        ≡ some t')
    × (t'.printed ≡ new)
    × Prints two_packets new
    × (t'.freed ≡ 1 ∷ 2 ∷ [])
receiving_loops_example =
    receiving_loops rounds quiet two_packets (record { printed = []; freed = [] }) (omega arith, tt)
      (record { conserved = λ p. refl; ordered = done; dumped = refl })
      (omega arith, (omega arith, tt))
