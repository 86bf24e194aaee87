-- ===== src/Nat/SingleTable/Ingress.antt =====
-- The ingress branch of nat_callback in NAT/main.c, which walks through the table.
use dpdk_code.Base.{
  ℕ, ◌≡◌, ◌≢◌, ◌⊎◌, refl, sym, ◌&&◌, Option, none, some, arith, inl, inr, subst, some_unique, ◌==◌,
  ℕ_discrete,
}
use dpdk_code.Dpdk.Hash.{IterOps, IterLaws}
use dpdk_code.Dpdk.Iterate.{search_from, full_fuel, Found, search_from-Found}
use dpdk_code.Nat.SingleTable.{
  State, Entry, NatKey, Packet, Verdict, translated, dropped, nat_key, new_entry, public_ip,
  is_target, ingress, nat_callback,
}
use dpdk_code.Nat.SingleTable.Invariant.{IsValid}
use dpdk_code.Nat.SingleTable.Egress.{
  Room, Admits, Served, created, touched, touched-IsValid, egress_miss, nat_callback_egress,
}

abbrev pub reply : Packet → Packet
reply pkt = record {
  src_ip = pkt.dst_ip;
  dst_ip = pkt.src_ip;
  src_port = pkt.dst_port;
  dst_port = pkt.src_port;
  protocol = pkt.protocol;
  is_ingress = 1;
}

module _ {T : Type 0} (it : IterOps T NatKey ℕ) (laws : IterLaws it) where
  search_live :
      (t : T) (heap : ℕ → Option Entry) (pkt : Packet)
      → ((k : NatKey) (p : ℕ) → it.hash.lookup t k ≡ some p → (e : Entry) × (heap p ≡ some e))
      → (r : Option ℕ) × (search_from it t (is_target heap pkt) (full_fuel it) 0 ≡ some r)
        × Found it t (is_target heap pkt) 0 r
  search_live t heap pkt live =
      search_from-Found it laws t (is_target heap pkt)
        (λ k p found.
          let (e, at) = live k p found in
          ((e.public_ip == pkt.dst_ip) && (e.public_port == pkt.dst_port), rw at))
        (full_fuel it) 0 (omega arith) (omega arith)

  search_valid :
      (s : State T) (pkt : Packet)
      → IsValid it s
      → (r : Option ℕ) × (search_from it s.nat_table (is_target s.heap pkt) (full_fuel it) 0
          ≡ some r)
        × Found it s.nat_table (is_target s.heap pkt) 0 r
  search_valid s pkt v =
      search_live s.nat_table s.heap pkt
        (λ k p found. let (e, at, flow) = v.live k p found in (e, at))

  -- Some live entry has the destination of the packet, or none has, with what the code then does.
  abbrev pub ByEntry : State T → ℕ → Packet → Option (State T × Packet × Verdict) → Type 0
  ByEntry s now pkt result =
      ((p : ℕ) × (e : Entry) × (s.heap p ≡ some e)
        × (pkt.dst_ip ≡ e.public_ip)
        × (pkt.dst_port ≡ e.public_port)
        × (result
            ≡ some (
              touched it s now p e,
              record pkt { dst_ip = e.private_ip; dst_port = e.private_port },
              translated,
            )))
      ⊎ (((p : ℕ) (e : Entry)
            → s.heap p ≡ some e
            → pkt.dst_ip ≡ e.public_ip
            → pkt.dst_port ≢ e.public_port)
          × (result ≡ some (s, pkt, dropped)))

  ingress_after_search :
      (s : State T) (now : ℕ) (pkt : Packet) (r : Option ℕ)
      → IsValid it s
      → search_from it s.nat_table (is_target s.heap pkt) (full_fuel it) 0 ≡ some r
      → Found it s.nat_table (is_target s.heap pkt) 0 r
      → ByEntry s now pkt (ingress it s now pkt)
  unfolding ingress
  ingress_after_search s now pkt none v ran missing = inr (
    λ p e at ip port.
        let (k, found) = v.owned p e at in ground (arith, missing k p found (omega arith)),
    rw ran,
  )
  ingress_after_search s now pkt (some p) v ran (k, found, hit) =
      let (e, at, flow) = v.live k p found in
      inl (p, e, at, ground arith, ground arith, ground arith)

  ingress-ByEntry :
      (s : State T) (now : ℕ) (pkt : Packet)
      → IsValid it s
      → ByEntry s now pkt (ingress it s now pkt)
  ingress-ByEntry s now pkt v =
      let (r, ran, spec) = search_valid s pkt v in ingress_after_search s now pkt r v ran spec

  nat_callback_ingress :
      (s : State T) (now : ℕ) (mem : Option ℕ) (stack : ℕ) (pkt : Packet)
      → IsValid it s
      → pkt.is_ingress ≢ 0
      → ByEntry s now pkt (nat_callback it s now mem stack pkt)
  unfolding nat_callback
  nat_callback_ingress s now mem stack pkt v inward = ground (arith, ingress-ByEntry s now pkt v)

  pub run-Served :
      (s s' : State T) (now : ℕ) (mem : Option ℕ) (stack : ℕ) (pkt out : Packet) (w : Verdict)
      → IsValid it s
      → Admits it s mem (nat_key stack pkt)
      → pkt.is_ingress ≡ 0
      → nat_callback it s now mem stack pkt ≡ some (s', out, w)
      → Served it now (nat_key stack pkt) pkt s' out
  run-Served s s' now mem stack pkt out w v room outward run =
      let (t, o, ran, x) = nat_callback_egress it laws s now mem stack pkt v room outward in
      subst (λ (r : State T × Packet × Verdict). Served it now (nat_key stack pkt) pkt r.0 r.1)
        (some_unique ran run) x

  -- When an outgoing packet was translated from a valid state (with room for its flow, if it was
  -- new, and a free port), the answer to what left, which has source and destination swapped, is
  -- translated, at any later time, into the answer to what the host sent, and the state stays
  -- valid. The table keeps the documented laws of rte_hash.
  pub nat_callback_round_trip :
      (s s' : State T) (now later : ℕ) (mem mem' : Option ℕ) (stack stack' : ℕ) (pkt out : Packet)
      (w : Verdict)
      → IsValid it s
      → Admits it s mem (nat_key stack pkt)
      → pkt.is_ingress ≡ 0
      → nat_callback it s now mem stack pkt ≡ some (s', out, w)
      → (s'' : State T) × (nat_callback it s' later mem' stack' (reply out)
          ≡ some (s'', reply pkt, translated))
        × IsValid it s''
  nat_callback_round_trip s s' now later mem mem' stack stack' pkt out w v room outward run =
      let x = run-Served s s' now mem stack pkt out w v room outward run in
      elim (nat_callback_ingress s' later mem' stack' (reply out) x.valid (λ e. ground arith)) [
        | inl (p, e, at, ip, port, ran) ↦
            let same = x.valid.ports p x.at e x.entry at x.live (ground (arith, x.leaves)) in
            (
              touched it s' later p e,
              ground (arith, x.live, x.flow, x.leaves),
              touched-IsValid it s' later p e at x.valid,
            )
        | inr (nobody, ran) ↦ absurd (ground (arith, nobody x.at x.entry x.live, x.leaves))
      ]

  -- On a valid state with an entry for a flow, an outgoing packet of the same flow whose key is
  -- built on other stack bytes, with no entry under that key and with room, gets a second entry
  -- with the same private and destination addresses and ports, next to the first one, and leaves
  -- with a public port that differs from that of the first entry. The table keeps the documented
  -- laws of rte_hash.
  pub padding_splits_flow :
      (s : State T) (now stack stack' : ℕ) (pkt : Packet) (p q : ℕ) (e : Entry)
      → IsValid it s
      → pkt.is_ingress ≡ 0
      → it.hash.lookup s.nat_table (nat_key stack pkt) ≡ some p
      → s.heap p ≡ some e
      → it.hash.lookup s.nat_table (nat_key stack' pkt) ≡ none
      → Room it s (nat_key stack' pkt) q
      → (s' : State T) × (out : Packet) × (f : Entry) × (nat_callback it s now (some q) stack' pkt
          ≡ some (s', out, translated))
        × (s'.heap p ≡ some e)
        × (s'.heap q ≡ some f)
        × (f.private_ip ≡ e.private_ip)
        × (f.private_port ≡ e.private_port)
        × (f.dest_ip ≡ e.dest_ip)
        × (f.dest_port ≡ e.dest_port)
        × (out.src_port ≡ f.public_port)
        × (out.src_port ≢ e.public_port)
  unfolding nat_callback
  padding_splits_flow s now stack stack' pkt p q e v outward hit at miss room =
      let s' = created it s now (nat_key stack' pkt) pkt q room in
      let (f, at', flow) = v.live (nat_key stack pkt) p hit in
      let same : e ≡ f = some_unique at at' in
      (
        s',
        record pkt { src_ip = public_ip; src_port = s.next_port },
        new_entry now s.next_port pkt,
        ground (arith, egress_miss it s now stack' pkt q room miss),
        ground (arith, room.unused),
        ground arith,
        rw same (sym flow.private_ip),
        rw same (sym flow.private_port),
        rw same (sym flow.dest_ip),
        rw same (sym flow.dest_port),
        refl,
        λ taken. room.port_free p e at (sym taken),
      )

  -- A packet on a valid state is handled without a fault. An outgoing packet, which for a new flow
  -- needs unused memory from rte_malloc, room in the table, and a next port that no live entry
  -- has, is translated: its flow has a live entry with the data of the packet, used just now, the
  -- packet leaves with the public address and port of that entry and is else as it came, and the
  -- state is valid. An incoming packet whose destination is the public address and port of a live
  -- entry goes to the private address and port of that entry, which is marked as used, with no
  -- other change; when no live entry has it the packet is dropped, and packet and state stay as
  -- they are. The table keeps the documented laws of rte_hash.
  pub nat_callback_exact :
      (s : State T) (now : ℕ) (mem : Option ℕ) (stack : ℕ) (pkt : Packet)
      → IsValid it s
      → (pkt.is_ingress ≡ 0 → Admits it s mem (nat_key stack pkt))
      → ((pkt.is_ingress ≡ 0)
          × (s' : State T) × (out : Packet) × (nat_callback it s now mem stack pkt
              ≡ some (s', out, translated))
          × Served it now (nat_key stack pkt) pkt s' out)
        ⊎ ((pkt.is_ingress ≢ 0) × ByEntry s now pkt (nat_callback it s now mem stack pkt))
  nat_callback_exact s now mem stack pkt v room = elim (ℕ_discrete pkt.is_ingress 0) [
    | yes outward ↦
        let (s', out, ran, served) =
          nat_callback_egress it laws s now mem stack pkt v (room outward) outward in
        inl (outward, s', out, ran, served)
    | no inward ↦ inr (inward, nat_callback_ingress s now mem stack pkt v inward)
  ]
