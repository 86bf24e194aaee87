-- ===== src/Nat/Wire/Examples.antt =====
-- NAT/NWT_actualPkts/main.c: a burst of a UDP frame and an ARP frame.
use dpdk_code.Base.{
  ℕ, ◌≡◌, refl, Option, none, some, List, [], ◌∷◌, arith, ℕ_discrete, if◌then◌else◌, some_unique,
  subst,
}
use dpdk_code.Dpdk.Timers.{is_due}
use dpdk_code.Dpdk.Models.Table.{put}
use dpdk_code.Dpdk.Models.Slots.{slots, slots_laws, index_in}
use dpdk_code.Dpdk.Models.Clock.{Clock, clock, clock_laws}
use dpdk_code.Nat.Timed.{Services, ServiceLaws, NatKey}
use dpdk_code.Nat.Timed.Invariant.{NatKey-discrete, IsValid}
use dpdk_code.Nat.Timed.Packets.{Admits}
use dpdk_code.Nat.Wire.{Frame, Running, frame_key, rx_burst, main_round}
use dpdk_code.Nat.Wire.Burst.{AllReady, Received}
use dpdk_code.Nat.Wire.Round.{seen_burst, main_round_exact}
use dpdk_code.Parsing.{be16_at, be32_at}

program : Unit {0}
unfolding frame_key be16_at be32_at put index_in NatKey-discrete ℕ_discrete
program = tt

abbrev udp_bytes : List ℕ
udp_bytes =
    2 ∷ 0 ∷ 0 ∷ 0 ∷ 0 ∷ 2 ∷ 2 ∷ 0 ∷ 0 ∷ 0 ∷ 0 ∷ 1 ∷ 0x08 ∷ 0x00 ∷ 0x45 ∷ 0 ∷ 0 ∷ 28 ∷ 0 ∷ 0 ∷ 0 ∷ 0
    ∷ 64 ∷ 17 ∷ 0 ∷ 0 ∷ 192 ∷ 168 ∷ 0 ∷ 1 ∷ 8 ∷ 8 ∷ 8 ∷ 8 ∷ 4 ∷ 210 ∷ 0 ∷ 53 ∷ 0 ∷ 8 ∷ 0 ∷ 0 ∷ []

abbrev arp_bytes : List ℕ
arp_bytes = 2 ∷ 0 ∷ 0 ∷ 0 ∷ 0 ∷ 2 ∷ 2 ∷ 0 ∷ 0 ∷ 0 ∷ 0 ∷ 1 ∷ 0x08 ∷ 0x06 ∷ []

abbrev burst : List Frame
burst =
    (record { mbuf = 1; bytes = udp_bytes; mem = some 7; at = 105 })
    ∷ (record { mbuf = 2; bytes = arp_bytes; mem = none; at = 105 })
    ∷ []

abbrev key : NatKey
key = record { ip = 0xC0A80001; port = 1234; dst_ip = 0x08080808; dst_port = 53; pad = 0 }

udp_key : frame_key udp_bytes ≡ some key
unfolding program
udp_key = refl

abbrev sv : Services (NatKey → Option ℕ) Clock
sv = record { table = slots NatKey-discrete (key ∷ []); timer = clock }

laws : ServiceLaws sv
laws = record { table = slots_laws NatKey-discrete (key ∷ []); timer = clock_laws }

abbrev start : Running (NatKey → Option ℕ) Clock
start = record {
  nat = record {
    nat_table = λ k. none;
    next_port = 10000;
    hz = 1000;
    global_last_pkt = 50;
    table_cleared = 0;
    heap = λ p. none;
    timers = record { bound = 0; times = λ p. none };
  };
  freed = [];
}

start-IsValid : IsValid sv 10 start.nat
start-IsValid = record {
  linked = record {
    live = λ k p found. absurd (ground arith);
    stored = λ p e at. absurd (ground arith);
  };
  entries = λ p e at. absurd (ground arith);
  ports = λ p q e f at at' port. absurd (ground arith);
  armed = λ p. ground arith;
  soon = λ p d at. absurd (ground arith);
}

key_admitted : Admits sv (seen_burst start 100 burst).nat (some 7) key
unfolding program
key_admitted miss = (
  7,
  refl,
  record { table' = _; unused = refl; added = refl; port_free = λ q e at. absurd (ground arith) },
)

burst_ready : AllReady sv 10 (seen_burst start 100 burst) burst
unfolding be16_at
burst_ready = (
  (
    omega arith,
    λ ipv4. (
      omega arith,
      omega arith,
      λ k keyed.
          subst (Admits sv (seen_burst start 100 burst).nat (some 7)) (some_unique udp_key keyed)
            key_admitted,
    ),
  ),
  λ r' ran. ((omega arith, λ ipv4. absurd (ground arith)), λ r'' ran'. tt),
)

main_round_exact_example :
    (r1 r' : Running (NatKey → Option ℕ) Clock) × (rx_burst sv start 100 burst ≡ some r1)
    × Received sv laws 10 (seen_burst start 100 burst) r1 burst
    × (main_round sv start 100 burst 110 111 ≡ some r')
    × IsValid sv 10 r'.nat
    × (r'.freed ≡ 1 ∷ 2 ∷ [])
    × ((q : ℕ)
        → r'.nat.heap q
          ≡ (if is_due (clock.deadline r1.nat.timers q) 110 then none else r1.nat.heap q))
main_round_exact_example =
    main_round_exact sv laws 10 start 100 110 111 burst start-IsValid (omega arith) burst_ready
      (omega arith) (omega arith) (omega arith) (omega arith)
