-- ===== src/Nat/Timed/Answers.antt =====
-- process_packet of NAT/Nat_with_TIMER/nwt.c, incoming: the walk through the table, and answers.
use dpdk_code.Base.{
  ℕ, ◌+◌, ◌≤◌, ◌≡◌, ◌≢◌, ◌⊎◌, sym, ap, ◌∙◌, ◌&&◌, Option, none, some, arith, inl, inr, subst,
  some_unique, ◌==◌, ℕ_discrete,
}
use dpdk_code.Dpdk.Iterate.{search_from, full_fuel, Found, search_from-Found}
use dpdk_code.Nat.Linked.{Linked}
use dpdk_code.Nat.Timed.{
  Services, ServiceLaws, State, Entry, Packet, nat_key, refresh_timer, is_target, ingress, seen,
  process_packet,
}
use dpdk_code.Nat.Timed.Invariant.{IsValid}
use dpdk_code.Nat.Timed.Packets.{Admits, Kept, seen-IsValid, refresh-IsValid, process_packet_egress}

abbrev pub reply : Packet → Packet
reply pkt = record {
  src_ip = pkt.dst_ip;
  dst_ip = pkt.src_ip;
  src_port = pkt.dst_port;
  dst_port = pkt.src_port;
  proto = pkt.proto;
  is_ingress = 1;
}

module _ {T C : Type 0} (sv : Services T C) (laws : ServiceLaws sv) (slack : ℕ) where
  search_valid :
      (s : State T C) (pkt : Packet)
      → Linked sv.table.hash (λ (e : Entry). e.key) s.nat_table s.heap
      → (r : Option ℕ) × (search_from sv.table s.nat_table
            (is_target s.heap pkt)
            (full_fuel sv.table)
            0
          ≡ some r)
        × Found sv.table s.nat_table (is_target s.heap pkt) 0 r
  search_valid s pkt v =
      search_from-Found sv.table laws.table s.nat_table (is_target s.heap pkt)
        (λ k p found.
          let (e, at, keyed) = v.live k p found in
          ((e.public_ip == pkt.dst_ip) && (e.public_port == pkt.dst_port), rw at))
        (full_fuel sv.table) 0 (omega arith) (omega arith)

  -- Some entry has the destination of the packet, or none has, with what the code then does.
  abbrev pub ByEntry : State T C → ℕ → Packet → Option (State T C × Packet) → Type 0
  ByEntry s at pkt result =
      ((p : ℕ) × (e : Entry) × (s.heap p ≡ some e)
        × (pkt.dst_ip ≡ e.public_ip)
        × (pkt.dst_port ≡ e.public_port)
        × (result
            ≡ some (
              refresh_timer sv s at p,
              record pkt { dst_ip = e.private_ip; dst_port = e.private_port },
            )))
      ⊎ (((p : ℕ) (e : Entry)
            → s.heap p ≡ some e
            → pkt.dst_ip ≡ e.public_ip
            → pkt.dst_port ≢ e.public_port)
          × (result ≡ some (s, pkt)))

  ingress_after_search :
      (s : State T C) (at : ℕ) (pkt : Packet) (r : Option ℕ)
      → Linked sv.table.hash (λ (e : Entry). e.key) s.nat_table s.heap
      → search_from sv.table s.nat_table (is_target s.heap pkt) (full_fuel sv.table) 0 ≡ some r
      → Found sv.table s.nat_table (is_target s.heap pkt) 0 r
      → ByEntry s at pkt (ingress sv s at pkt)
  unfolding ingress
  ingress_after_search s at pkt none v ran missing = inr (
    λ p e live ip port. ground (arith, missing e.key p (v.stored p e live) (omega arith)),
    rw ran,
  )
  ingress_after_search s at pkt (some p) v ran (k, found, hit) =
      let (e, live, keyed) = v.live k p found in
      inl (p, e, live, ground arith, ground arith, ground arith)

  pub process_packet_ingress :
      (s : State T C) (now at : ℕ) (mem : Option ℕ) (stack : ℕ) (pkt : Packet)
      → IsValid sv slack s
      → pkt.is_ingress ≢ 0
      → ByEntry (seen s now) at pkt (process_packet sv s now at mem stack pkt)
  unfolding process_packet
  process_packet_ingress s now at mem stack pkt v inward =
      let (r, ran, spec) = search_valid (seen s now) pkt v.linked in
      let same : ingress sv (seen s now) at pkt ≡ process_packet sv s now at mem stack pkt =
        ground arith in
      subst (ByEntry (seen s now) at pkt) same
        (ingress_after_search (seen s now) at pkt r v.linked ran spec)

  -- When an outgoing packet was translated from a valid state (with room for its flow, if it was
  -- new, and a free port), the answer to what left, with source and destination swapped, is
  -- translated, at any later time before the entry is removed, into the answer to what the host
  -- sent, and the state stays valid. `slack` bounds the time from the packet being seen to its
  -- timer being armed. The table and the timers keep the documented laws of rte_hash and
  -- rte_timer.
  pub process_packet_round_trip :
      (s s' : State T C) (now at later at' : ℕ) (mem mem' : Option ℕ) (stack stack' : ℕ)
      (pkt out : Packet)
      → IsValid sv slack s
      → s.global_last_pkt ≤ now
      → at ≤ now + slack
      → Admits sv s mem (nat_key stack pkt)
      → pkt.is_ingress ≡ 0
      → process_packet sv s now at mem stack pkt ≡ some (s', out)
      → now ≤ later
      → at' ≤ later + slack
      → (s'' : State T C) × (process_packet sv s' later at' mem' stack' (reply out)
          ≡ some (s'', reply pkt))
        × IsValid sv slack s''
  process_packet_round_trip s s' now at later at' mem mem' stack stack' pkt out v after prompt room
        outward run after' prompt' =
      let (t, o, e, ran, leaves, kept0) =
        process_packet_egress sv laws slack s now at mem stack pkt v after prompt room outward in
      let same = some_unique ran run in
      let kept : Kept sv slack now at (nat_key stack pkt) s' e =
        subst (λ (r : State T C × Packet). Kept sv slack now at (nat_key stack pkt) r.0 e) same
          kept0 in
      let gone : out ≡ record pkt { src_ip = e.public_ip; src_port = e.public_port } =
        sym (ap (λ (r : State T C × Packet). r.1) same) ∙ leaves in
      elim (process_packet_ingress s' later at' mem' stack' (reply out) kept.valid
        (λ h. ground arith)) [
          | inl (p, f, at, ip, port, ran') ↦
              let one = kept.valid.ports kept.place p e f kept.live at (ground (arith, gone)) in
              let facts = kept.valid.entries p f at in
              (
                refresh_timer sv (seen s' later) at' p,
                ground (arith, kept.live, kept.keyed, gone, facts),
                refresh-IsValid sv laws slack (seen s' later) at' p f at prompt'
                    (seen-IsValid sv laws slack s' later (omega (arith, kept.last)) kept.valid),
              )
          | inr (nobody, ran') ↦ absurd (ground (arith, nobody kept.place e kept.live, gone))
        ]

  -- The packet is translated, and leaves with the public address and port of its flow.
  abbrev pub Leaves : State T C → ℕ → ℕ → Option ℕ → ℕ → Packet → Type 0
  Leaves s now at mem stack pkt =
      (s' : State T C) × (out : Packet) × (e : Entry) × (process_packet sv s now at mem stack pkt
        ≡ some (s', out))
      × (out ≡ record pkt { src_ip = e.public_ip; src_port = e.public_port })
      × Kept sv slack now at (nat_key stack pkt) s' e

  -- A packet on a valid state, no earlier than the last one, is handled without a fault. An
  -- outgoing packet, which for a new flow needs unused memory from rte_malloc, room in the table,
  -- and a next port that no live entry has, is translated: its flow has a live entry whose timer
  -- runs out five seconds after it was armed, the packet leaves with the public address and port
  -- of that entry and is else as it came, and the state is valid. An incoming packet whose
  -- destination is the public address and port of a live entry goes to the private address and
  -- port of that entry, whose timer is armed anew; when no live entry has it the packet stays as
  -- it is. Each packet counts as traffic, and an incoming one changes nothing else. `slack` bounds
  -- the time from the packet being seen to its timer being armed. The table and the timers keep
  -- the documented laws of rte_hash and rte_timer.
  pub process_packet_exact :
      (s : State T C) (now at : ℕ) (mem : Option ℕ) (stack : ℕ) (pkt : Packet)
      → IsValid sv slack s
      → s.global_last_pkt ≤ now
      → at ≤ now + slack
      → (pkt.is_ingress ≡ 0 → Admits sv s mem (nat_key stack pkt))
      → ((pkt.is_ingress ≡ 0) × Leaves s now at mem stack pkt)
        ⊎ ((pkt.is_ingress ≢ 0)
            × ByEntry (seen s now) at pkt (process_packet sv s now at mem stack pkt))
  process_packet_exact s now at mem stack pkt v later prompt room =
      elim (ℕ_discrete pkt.is_ingress 0) [
        | yes outward ↦ inl (
          outward,
          process_packet_egress sv laws slack s now at mem stack pkt v later prompt (room outward)
              outward,
        )
        | no inward ↦ inr (inward, process_packet_ingress s now at mem stack pkt v inward)
      ]
