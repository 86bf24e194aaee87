-- ===== src/Nat/TwoTables/Both.antt =====
-- What NAT/NAT_twoTables/main.c does with a packet from either side.
use dpdk_code.Base.{ℕ, ◌≡◌, ◌≢◌, ◌⊎◌, Option, none, some}
use dpdk_code.Nat.TwoTables.{
  Services, ServiceLaws, State, Entry, Block, Packet, process_egress, process_ingress,
  refresh_timer,
}
use dpdk_code.Nat.TwoTables.Invariant.{IsValid}
use dpdk_code.Nat.TwoTables.Traffic.{Admits, Served, process_egress_serves, process_ingress_exact}

module _ {F R T : Type 0} (sv : Services F R T) (s : State F R T) (now : ℕ) (pkt : Packet) where
  -- The packet goes to the source of a live flow with this public address and port, in whose reverse
  -- key the padding is zero.
  abbrev pub IsAnswered : Type 0
  IsAnswered =
      (p : ℕ) × (e : Entry) × (s.heap p ≡ some e)
      × (pkt.dst_ip ≡ e.public_ip)
      × (pkt.dst_port ≡ e.public_port)
      × (e.rev.pad ≡ 0)
      × (process_ingress sv s now pkt
          ≡ some (
            refresh_timer sv s now p,
            some (record pkt { dst_ip = e.fwd.src_ip; dst_port = e.fwd.src_port }),
          ))

  abbrev pub IsDropped : Type 0
  IsDropped =
      ((p : ℕ) (e : Entry)
        → s.heap p ≡ some e
        → pkt.dst_ip ≡ e.public_ip
        → pkt.dst_port ≡ e.public_port
        → e.rev.pad ≢ 0)
      × (process_ingress sv s now pkt ≡ some (s, none))

module _ {F R T : Type 0} (sv : Services F R T) (laws : ServiceLaws sv) where
  -- In a valid state where an outgoing packet, if its flow is new, finds memory, room in the
  -- tables and a free port, process_egress of it returns; the packet leaves under the public
  -- address and port of the live entry of its flow, with the rest unchanged, the timer of that
  -- entry is set to five seconds from now, and the state is valid; the entry was live before, or
  -- its reverse key has the padding that the memory held. In the same state process_ingress sends
  -- any incoming packet to the source of a live flow that has the packet's destination as its
  -- public address and port and zero padding in its reverse key, and refreshes that flow; or no
  -- live flow is such, the packet is dropped and the state is unchanged. The tables and the timers
  -- keep the documented laws of rte_hash and rte_timer.
  pub packets_exact :
      (s : State F R T) (now : ℕ) (mem : Option Block) (pkt back : Packet)
      → IsValid sv s
      → Admits sv s mem pkt
      → ((s' : State F R T) × (out : Packet) × (process_egress sv s now mem pkt ≡ some (s', out))
          × Served sv s now mem pkt s' out)
        × (IsAnswered sv s now back ⊎ IsDropped sv s now back)
  packets_exact s now mem pkt back v room = (
    process_egress_serves sv laws s now mem pkt v room,
    process_ingress_exact sv laws s now back v,
  )
