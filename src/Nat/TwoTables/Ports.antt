-- ===== src/Nat/TwoTables/Ports.antt =====
-- The public ports that NAT/NAT_twoTables/main.c hands out: `next_port`, a uint16_t that wraps.
use dpdk_code.Base.{
  ◌≢◌, subst, some_unique, ℕ, ◌+◌, ◌^◌, ◌<◌, ◌≡◌, Option, none, some, arith, Option-cases, inl, inr,
}
use dpdk_code.Nat.TwoTables.{
  Services, ServiceLaws, State, Entry, Block, Packet, public_ip, fwd_key, refresh_timer,
  process_egress, process_ingress,
}
use dpdk_code.Nat.TwoTables.Invariant.{IsValid}
use dpdk_code.Nat.TwoTables.Egress.{
  Slot, next_key, created, process_egress_hit, process_egress_miss,
}
use dpdk_code.Nat.TwoTables.Traffic.{Admits, run-Served}

-- No live entry has a port that is still to come: true until `next_port` wraps.
abbrev pub PortsBelow : {F R T : Type 0} → State F R T → Type 0
PortsBelow s = (p : ℕ) (e : Entry) → s.heap p ≡ some e → e.public_port < s.next_port

module _ {F R T : Type 0} (sv : Services F R T) (laws : ServiceLaws sv) where
  pub next_port_free :
      (s : State F R T)
      → PortsBelow s
      → (q : ℕ) (e : Entry) → s.heap q ≡ some e
      → e.public_port ≢ s.next_port
  next_port_free s below q e live = omega (arith, below q e live)

  process_egress_below :
      (s s' : State F R T) (now : ℕ) (mem : Option Block) (pkt out : Packet)
      → IsValid sv s
      → PortsBelow s
      → s.next_port + 1 < 2 ^ 16
      → (sv.fwd.lookup s.fwd_table (fwd_key pkt) ≡ none
          → (b : Block) × (mem ≡ some b) × Slot sv s pkt b)
      → process_egress sv s now mem pkt ≡ some (s', out)
      → PortsBelow s'
  unfolding refresh_timer
  process_egress_below s s' now mem pkt out v below room slot run =
      elim (Option-cases (sv.fwd.lookup s.fwd_table (fwd_key pkt))) [
        | inl miss ↦
            let (b, given, r) = slot miss in
            subst (λ (u : State F R T × Packet). PortsBelow u.0)
              (some_unique (process_egress_miss sv laws s now pkt b r miss) (rw given at run))
              (λ q f at. ground (arith, below q f))
        | inr (p, hit) ↦
            let (e, live, keyed) = v.fwd.live (fwd_key pkt) p hit in
            subst (λ (u : State F R T × Packet). PortsBelow u.0)
              (some_unique (process_egress_hit sv laws s now mem pkt p e hit live) run) below
      ]

  -- In a valid state whose live flows all have ports below next_port, while next_port + 1 still
  -- fits in 16 bits, process_egress of a packet that, if its flow is new, finds memory and room in
  -- the tables, leaves a valid state whose live flows all have ports below next_port.
  pub process_egress-PortsBelow :
      (s s' : State F R T) (now : ℕ) (mem : Option Block) (pkt out : Packet)
      → IsValid sv s
      → PortsBelow s
      → s.next_port + 1 < 2 ^ 16
      → (sv.fwd.lookup s.fwd_table (fwd_key pkt) ≡ none
          → (b : Block) × (mem ≡ some b) × Slot sv s pkt b)
      → process_egress sv s now mem pkt ≡ some (s', out)
      → IsValid sv s' × PortsBelow s'
  process_egress-PortsBelow s s' now mem pkt out v below room slot run = (
    (run-Served sv laws s s' now mem pkt out v admits run).valid,
    process_egress_below s s' now mem pkt out v below room slot run,
  )
    where
      admits : Admits sv s mem pkt
      admits miss =
          let (b, given, r) = slot miss in
          (b, given, record { slot = r; port_free = next_port_free s below })

  -- In a valid state where next_port is the port of a live flow, a packet of a new flow that finds
  -- room in the tables, and memory that is zero at the padding of the reverse key, takes that port
  -- over: process_ingress sends a packet for the old flow's public address and port to the source
  -- of the new packet. The tables and the timers keep the documented laws of rte_hash and
  -- rte_timer.
  pub port_reuse_steals :
      (s : State F R T) (now later : ℕ) (pkt answer : Packet) (p q : ℕ) (e : Entry)
      (slot : Slot sv s pkt (record { address = p; pad = 0 }))
      → IsValid sv s
      → s.heap q ≡ some e
      → e.public_port ≡ s.next_port
      → sv.fwd.lookup s.fwd_table (fwd_key pkt) ≡ none
      → answer.dst_ip ≡ e.public_ip
      → answer.dst_port ≡ e.public_port
      → (s' : State F R T) × (out : Packet) × (s'' : State F R T) × (process_egress sv s now
            (some (record { address = p; pad = 0 }))
            pkt
          ≡ some (s', out))
        × (process_ingress sv s' later answer
            ≡ some (s'', some (record answer { dst_ip = pkt.src_ip; dst_port = pkt.src_port })))
  unfolding process_ingress
  port_reuse_steals s now later pkt answer p q e slot v live same miss ip port =
      let b : Block = record { address = p; pad = 0 } in
      let s' = created sv laws s now pkt b slot in
      (
        s',
        record pkt { src_ip = public_ip; src_port = s.next_port },
        refresh_timer sv s' later p,
        process_egress_miss sv laws s now pkt b slot miss,
        ground (
          arith,
          laws.rev.lookup-add_self s.rev_table slot.rev' (next_key s 0) p slot.rev_added,
          v.entries q e live,
        ),
      )
