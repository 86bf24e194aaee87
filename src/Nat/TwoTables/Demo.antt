-- ===== src/Nat/TwoTables/Demo.antt =====
-- `main` of NAT/NAT_twoTables/main.c: five hosts send, and each gets its answer.
use dpdk_code.Base.{
  subst, ℕ, zero, suc, ◌+◌, ◌≤◌, ◌<◌, ◌≡◌, refl, sym, ap, ◌∙◌, Option, none, some, arith,
  ℕ_discrete, Option-cases, inl, inr, List, [], ◌∷◌,
}
use dpdk_code.Nat.TwoTables.{
  Services, ServiceLaws, State, Entry, FwdKey, RevKey, Block, Packet, public_ip, fwd_key, new_entry,
  refresh_timer, process_egress, tx_packet, rx_packet, max_flows, egress_loop, ingress_loop,
  main_traffic, first_port,
}
use dpdk_code.Nat.TwoTables.Invariant.{IsValid}
use dpdk_code.Nat.TwoTables.Egress.{
  Slot, next_key, created, created-IsValid, process_egress_miss, refresh-IsValid,
}
use dpdk_code.Nat.TwoTables.Traffic.{process_ingress_hit, reply}
use dpdk_code.Nat.TwoTables.Ports.{PortsBelow, next_port_free}

-- The tables as rte_hash_create gives them, no memory in use and no timer armed.
pub record IsStart {F R T : Type 0} (sv : Services F R T) (s : State F R T) : Type 0 where
  pub no_fwd : (k : FwdKey) → sv.fwd.lookup s.fwd_table k ≡ none
  pub no_rev : (r : RevKey) → sv.rev.lookup s.rev_table r ≡ none
  pub no_memory : (p : ℕ) → s.heap p ≡ none
  pub no_timer : (p : ℕ) → sv.timer.deadline s.timers p ≡ none
  pub port : s.next_port ≡ first_port

-- rte_malloc does not fail, and gives a new address and cleared memory each time; the tables do not
-- fill up.
pub record Plenty {F R T : Type 0} (sv : Services F R T) (mem : ℕ → Option Block) : Type 0 where
  pub address : ℕ → ℕ
  pub given : (i : ℕ) → mem i ≡ some (record { address = address i; pad = 0 })
  pub apart : (i j : ℕ) → address i ≡ address j → i ≡ j
  pub fwd_room : (t : F) (k : FwdKey) (p : ℕ) → (t' : F) × (sv.fwd.add t k p ≡ some t')
  pub rev_room : (t : R) (r : RevKey) (p : ℕ) → (t' : R) × (sv.rev.add t r p ≡ some t')

-- The first `i` packets are out: the entry of packet `j` lies at the `j`th address.
record Sent {F R T : Type 0} (sv : Services F R T) (address : ℕ → ℕ) (i : ℕ) (s : State F R T)
    : Type 0 where
  valid : IsValid sv s
  port : s.next_port ≡ first_port + i
  done :
      (j : ℕ)
      → j < i
      → (e : Entry) × (s.heap (address j) ≡ some e)
        × (e.public_port ≡ first_port + j)
        × (e.rev.pad ≡ 0)
        × (e.fwd ≡ fwd_key (tx_packet j))
  only :
      (p : ℕ) (e : Entry)
      → s.heap p ≡ some e
      → (j : ℕ) × (j < i)
        × (p ≡ address j)
        × (e.public_port ≡ first_port + j)
        × (e.rev.pad ≡ 0)
        × (e.fwd ≡ fwd_key (tx_packet j))

module _ {F R T : Type 0} (sv : Services F R T) (laws : ServiceLaws sv) where
  start-Sent : (address : ℕ → ℕ) (s : State F R T) → IsStart sv s → Sent sv address 0 s
  start-Sent address s x = record {
    valid = record {
      fwd = record {
        live = λ k p found. absurd (ground (arith, x.no_fwd k));
        stored = λ p e live. absurd (ground (arith, x.no_memory p));
      };
      rev = record {
        live = λ r p found. absurd (ground (arith, x.no_rev r));
        stored = λ p e live. absurd (ground (arith, x.no_memory p));
      };
      entries = λ p e live. absurd (ground (arith, x.no_memory p));
      ports = λ p q e f live live' same. absurd (ground (arith, x.no_memory p));
      armed = λ p. ground (arith, x.no_memory p, x.no_timer p);
    };
    port = omega (arith, x.port);
    done = λ j h. absurd (omega arith);
    only = λ p e live. absurd (ground (arith, x.no_memory p));
  }

  pub start-IsValid : (s : State F R T) → IsStart sv s → IsValid sv s
  start-IsValid s x = (start-Sent (λ i. i) s x).valid

  module _ (clock : ℕ → ℕ) (mem : ℕ → Option Block) (plenty : Plenty sv mem) where
    abbrev block : ℕ → Block
    block i = record { address = plenty.address i; pad = 0 }

    slot_of :
        (i : ℕ) (s : State F R T) → Sent sv plenty.address i s → Slot sv s (tx_packet i) (block i)
    slot_of i s x =
        let p = plenty.address i in
        let (f, added) = plenty.fwd_room s.fwd_table (fwd_key (tx_packet i)) p in
        let (r, added') = plenty.rev_room s.rev_table (next_key s 0) p in
        record {
          fwd' = f;
          rev' = r;
          unused = elim (Option-cases (s.heap p)) [
            | inl free ↦ free
            | inr (e, live) ↦
                let (j, before, same, port, pad, flow) = x.only p e live in
                absurd (omega (arith, plenty.apart i j same))
          ];
          fwd_added = added;
          rev_added = added';
        }

    new_flow :
        (i : ℕ) (s : State F R T)
        → Sent sv plenty.address i s
        → sv.fwd.lookup s.fwd_table (fwd_key (tx_packet i)) ≡ none
    new_flow i s x = elim (Option-cases (sv.fwd.lookup s.fwd_table (fwd_key (tx_packet i)))) [
      | inl miss ↦ miss
      | inr (p, found) ↦
          let (e, live, keyed) = x.valid.fwd.live (fwd_key (tx_packet i)) p found in
          let (j, before, at, port, pad, flow) = x.only p e live in
          let same = ap (λ (k : FwdKey). k.src_port) (sym keyed ∙ flow) in
          absurd (omega (arith, same))
    ]

    Sent-PortsBelow : (i : ℕ) (s : State F R T) → Sent sv plenty.address i s → PortsBelow s
    Sent-PortsBelow i s x p e live =
        let (j, before, at, port, pad, flow) = x.only p e live in omega (arith, port, x.port)

    send-Sent :
        (i : ℕ) (s : State F R T)
        → i < 1000
        → Sent sv plenty.address i s
        → (s' : State F R T) × (out : Packet) × (process_egress sv s (clock i) (mem i) (tx_packet i)
            ≡ some (s', out))
          × Sent sv plenty.address (suc i) s'
    send-Sent i s small x =
        let p = plenty.address i in
        let slot = slot_of i s x in
        let free = next_port_free sv laws s (Sent-PortsBelow i s x) in
        let miss = new_flow i s x in
        let s' = created sv laws s (clock i) (tx_packet i) (block i) slot in
        (
          s',
          record (tx_packet i) { src_ip = public_ip; src_port = s.next_port },
          rw plenty.given
              (process_egress_miss sv laws s (clock i) (tx_packet i) (block i) slot miss),
          record {
            valid =
                created-IsValid sv laws s (clock i) (tx_packet i) (block i)
                  (record { slot = slot; port_free = free }) miss x.valid;
            port = omega (arith, x.port);
            done = λ j h. elim (ℕ_discrete j i) [
              | yes same ↦ (
                new_entry sv s 0 (fwd_key (tx_packet i)) (tx_packet i),
                ground (arith, ap plenty.address same),
                omega (arith, x.port),
                refl,
                ap (λ (k : ℕ). fwd_key (tx_packet k)) (sym same),
              )
              | no other ↦
                  let (e, live, port, pad, flow) = x.done j (omega arith) in
                  (e, ground (arith, plenty.apart j i), port, pad, flow)
            ];
            only = λ q e live. elim (ℕ_discrete q p) [
              | yes same ↦
                  (i, omega arith, same, ground (arith, x.port), ground arith, ground arith)
              | no other ↦
                  let (j, before, at, port, pad, flow) = x.only q e (ground arith) in
                  (j, omega arith, at, port, pad, flow)
            ];
          },
        )

    egress_loop-Sent :
        (n i : ℕ) (s : State F R T)
        → i + n ≤ 1000
        → Sent sv plenty.address i s
        → (s' : State F R T) × (egress_loop sv clock mem n i s ≡ some s')
          × Sent sv plenty.address (i + n) s'
    unfolding egress_loop
    egress_loop-Sent zero i s small x =
        (s, refl, subst (λ (k : ℕ). Sent sv plenty.address k s) (omega arith) x)
    egress_loop-Sent (suc n) i s small x =
        let (t, out, sent, y) = send-Sent i s (omega arith) x in
        let (s', rest, z) = egress_loop-Sent n (suc i) t (omega arith) y in
        (s', rw sent rest, subst (λ (k : ℕ). Sent sv plenty.address k s') (omega arith) z)

  -- What the hosts `i`, `i + 1`, … get back.
  abbrev pub answers : ℕ → ℕ → List (Option Packet)
  answers zero i = []
  answers (suc n) i = some (reply (tx_packet i)) ∷ answers n (suc i)

  refreshed :
      (now : ℕ) (address : ℕ → ℕ) (m : ℕ) (s : State F R T) (p : ℕ) (e : Entry)
      → s.heap p ≡ some e
      → Sent sv address m s
      → Sent sv address m (refresh_timer sv s now p)
  unfolding refresh_timer
  refreshed now address m s p e live x = record {
    valid = refresh-IsValid sv laws s now p e live x.valid;
    port = x.port;
    done = x.done;
    only = x.only;
  }

  ingress_loop-answers :
      (clock : ℕ → ℕ) (address : ℕ → ℕ) (n i m : ℕ) (s : State F R T)
      → i + n ≤ m
      → Sent sv address m s
      → (s' : State F R T) × (ingress_loop sv clock n i s ≡ some (s', answers n i))
  unfolding ingress_loop refresh_timer
  ingress_loop-answers clock address zero i m s fits x = (s, refl)
  ingress_loop-answers clock address (suc n) i m s fits x =
      let (e, live, port, pad, flow) = x.done i (omega arith) in
      let p = address i in
      let t = refresh_timer sv s (clock i) p in
      let shape = x.valid.entries p e live in
      let came =
        process_ingress_hit sv laws s (clock i) (rx_packet i) p e x.valid live (sym shape.public)
          (sym port) pad in
      let (s', rest) =
        ingress_loop-answers clock address n (suc i) m t (omega arith)
          (refreshed (clock i) address m s p e live x) in
      (s', ground (arith, came, flow, rest))

  -- From empty tables and memory and next_port at 10000, if rte_malloc gives a new address and
  -- cleared memory each time and the tables do not fill up, the two loops of main return, and each of the five
  -- incoming packets is translated to the host of the corresponding outgoing packet.
  pub main_traffic-answers :
      (tx_clock rx_clock : ℕ → ℕ) (mem : ℕ → Option Block) (s : State F R T)
      → Plenty sv mem
      → IsStart sv s
      → (s' : State F R T) × (main_traffic sv tx_clock rx_clock mem s
          ≡ some (
            s',
            some (reply (tx_packet 0))
                ∷ some (reply (tx_packet 1))
                ∷ some (reply (tx_packet 2))
                ∷ some (reply (tx_packet 3))
                ∷ some (reply (tx_packet 4))
                ∷ [],
          ))
  unfolding main_traffic
  main_traffic-answers tx_clock rx_clock mem s plenty start =
      let (t, sent, x) =
        egress_loop-Sent tx_clock mem plenty max_flows 0 s (omega arith)
          (start-Sent plenty.address s start) in
      let (s', got) =
        ingress_loop-answers rx_clock plenty.address max_flows 0 5 t (omega arith) x in
      (s', rw sent got)
