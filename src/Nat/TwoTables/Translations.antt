-- ===== src/Nat/TwoTables/Translations.antt =====
-- process_egress of NAT/NAT_twoTables/main.c: one flow has one translation, and two have two.
use dpdk_code.Base.{ℕ, ◌≡◌, ◌≢◌, refl, Option, some, arith}
use dpdk_code.Nat.TwoTables.{
  Services, ServiceLaws, State, Entry, Block, Packet, refresh_timer, process_egress,
}
use dpdk_code.Nat.TwoTables.Invariant.{IsValid}
use dpdk_code.Nat.TwoTables.Egress.{process_egress_hit}
use dpdk_code.Nat.TwoTables.Traffic.{Admits, run-Served}

module _ {F R T : Type 0} (sv : Services F R T) (laws : ServiceLaws sv) where
  same_translation :
      (s s' : State F R T) (now later : ℕ) (mem mem' : Option Block) (pkt out : Packet)
      → IsValid sv s
      → Admits sv s mem pkt
      → process_egress sv s now mem pkt ≡ some (s', out)
      → (s'' : State F R T) × (process_egress sv s' later mem' pkt ≡ some (s'', out))
        × (s''.next_port ≡ s'.next_port)
  unfolding refresh_timer
  same_translation s s' now later mem mem' pkt out v room e =
      let x = run-Served sv laws s s' now mem pkt out v room e in
      let found = x.valid.fwd.stored x.at x.entry x.live in
      (
        refresh_timer sv s' later x.at,
        ground (
          arith,
          process_egress_hit sv laws s' later mem' pkt x.at x.entry,
          found,
          x.leaves,
          x.flow,
        ),
        refl,
      )

  distinct_flows :
      (s : State F R T) (p q : ℕ) (e f : Entry)
      → IsValid sv s
      → s.heap p ≡ some e
      → s.heap q ≡ some f
      → e.fwd ≢ f.fwd
      → e.public_port ≢ f.public_port
  distinct_flows s p q e f v live live' other port =
      other (ground (arith, v.ports p q e f live live' port))

  -- In a valid state where the packet, if its flow is new, finds memory, room in the tables and a
  -- free port, after process_egress of it: a second packet of the same flow leaves as the first
  -- did, needs no memory and takes no new port; and two live entries of different flows have
  -- different public ports. The tables and the timers keep the documented laws of rte_hash and
  -- rte_timer.
  pub translations_apart :
      (s s' : State F R T) (now later : ℕ) (mem mem' : Option Block) (pkt out : Packet)
      → IsValid sv s
      → Admits sv s mem pkt
      → process_egress sv s now mem pkt ≡ some (s', out)
      → ((s'' : State F R T) × (process_egress sv s' later mem' pkt ≡ some (s'', out))
          × (s''.next_port ≡ s'.next_port))
        × ((p q : ℕ) (e f : Entry)
            → s'.heap p ≡ some e
            → s'.heap q ≡ some f
            → e.fwd ≢ f.fwd
            → e.public_port ≢ f.public_port)
  translations_apart s s' now later mem mem' pkt out v room run = (
    same_translation s s' now later mem mem' pkt out v room run,
    λ p q e f. distinct_flows s' p q e f (run-Served sv laws s s' now mem pkt out v room run).valid,
  )
