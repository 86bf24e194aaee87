-- ===== src/Nat/TwoTables/Traffic.antt =====
-- process_egress and process_ingress of NAT/NAT_twoTables/main.c: what a host and its peer see.
use dpdk_code.Base.{
  ◌⊎◌, subst, some_unique, ℕ, ◌+◌, ◌*◌, ◌%◌, ◌^◌, ◌≡◌, ◌≢◌, refl, sym, ap, ◌∙◌, Option, none, some,
  arith, ℕ_discrete, Option-cases, inl, inr,
}
use dpdk_code.Nat.TwoTables.{
  Services, ServiceLaws, State, Entry, RevKey, Block, Packet, public_ip, fwd_key, rev_key,
  new_entry, refresh_timer, process_egress, process_ingress,
}
use dpdk_code.Nat.TwoTables.Invariant.{IsValid}
use dpdk_code.Nat.TwoTables.Egress.{
  Room, created, refresh-IsValid, created-IsValid, process_egress_hit, process_egress_miss,
}

-- The packet that a peer sends back.
abbrev pub reply : Packet → Packet
reply pkt = record {
  src_ip = pkt.dst_ip;
  src_port = pkt.dst_port;
  dst_ip = pkt.src_ip;
  dst_port = pkt.src_port;
}

-- A packet of a flow that has no entry finds what a new entry needs.
abbrev pub Admits : {F R T : Type 0} → Services F R T → State F R T → Option Block → Packet → Type 0
Admits sv s mem pkt =
    sv.fwd.lookup s.fwd_table (fwd_key pkt) ≡ none → (b : Block) × (mem ≡ some b) × Room sv s pkt b

-- The packet leaves under the public address of the entry of its flow, whose timer is armed anew. The
-- entry was live before, or it is new and its reverse key has the padding that the memory held.
pub record Served {F R T : Type 0} (sv : Services F R T) (s : State F R T) (now : ℕ)
    (mem : Option Block) (pkt : Packet) (s' : State F R T) (out : Packet) : Type 0 where
  pub at : ℕ
  pub entry : Entry
  pub live : s'.heap at ≡ some entry
  pub flow : entry.fwd ≡ fwd_key pkt
  pub origin :
      (s.heap at ≡ some entry)
      ⊎ ((b : Block) × (mem ≡ some b) × (at ≡ b.address) × (entry.rev.pad ≡ b.pad))
  pub leaves : out ≡ record pkt { src_ip = entry.public_ip; src_port = entry.public_port }
  pub armed : sv.timer.deadline s'.timers at ≡ some (now + 5 * s'.hz % 2 ^ 64)
  pub valid : IsValid sv s'

module _ {F R T : Type 0} (sv : Services F R T) (laws : ServiceLaws sv) where
  -- In a valid state where the packet, if its flow is new, finds memory, room in the tables and a
  -- free port, process_egress returns; the packet leaves under the public address and port of the
  -- live entry of its flow, with the rest unchanged, the timer of that entry is set to five
  -- seconds from now, and the state is valid.
  pub process_egress_serves :
      (s : State F R T) (now : ℕ) (mem : Option Block) (pkt : Packet)
      → IsValid sv s
      → Admits sv s mem pkt
      → (s' : State F R T) × (out : Packet) × (process_egress sv s now mem pkt ≡ some (s', out))
        × Served sv s now mem pkt s' out
  unfolding refresh_timer
  process_egress_serves s now mem pkt v room =
      elim (Option-cases (sv.fwd.lookup s.fwd_table (fwd_key pkt))) [
        | inl miss ↦
            let (b, given, r) = room miss in
            (
              created sv laws s now pkt b r.slot,
              record pkt { src_ip = public_ip; src_port = s.next_port },
              rw given (process_egress_miss sv laws s now pkt b r.slot miss),
              record {
                at = b.address;
                entry = new_entry sv s b.pad (fwd_key pkt) pkt;
                live = ground arith;
                flow = refl;
                origin = inr (b, given, refl, refl);
                leaves = refl;
                armed = laws.timer.deadline-reset_self _ _ _ _;
                valid = created-IsValid sv laws s now pkt b r miss v;
              },
            )
        | inr (p, hit) ↦
            let (e, live, keyed) = v.fwd.live (fwd_key pkt) p hit in
            (
              refresh_timer sv s now p,
              record pkt { src_ip = e.public_ip; src_port = e.public_port },
              process_egress_hit sv laws s now mem pkt p e hit live,
              record {
                at = p;
                entry = e;
                live = live;
                flow = keyed;
                origin = inl live;
                leaves = refl;
                armed = laws.timer.deadline-reset_self _ _ _ _;
                valid = refresh-IsValid sv laws s now p e live v;
              },
            )
      ]

  -- A packet to the public address and port of a live entry, whose reverse key has the padding of a
  -- cleared one, goes to the host of its flow.
  pub process_ingress_hit :
      (s : State F R T) (now : ℕ) (pkt : Packet) (p : ℕ) (e : Entry)
      → IsValid sv s
      → s.heap p ≡ some e
      → pkt.dst_ip ≡ e.public_ip
      → pkt.dst_port ≡ e.public_port
      → e.rev.pad ≡ 0
      → process_ingress sv s now pkt
        ≡ some (
          refresh_timer sv s now p,
          some (record pkt { dst_ip = e.fwd.src_ip; dst_port = e.fwd.src_port }),
        )
  unfolding process_ingress
  process_ingress_hit s now pkt p e v live ip port cleared =
      ground (arith, v.rev.stored p e live, v.entries p e live)

  -- In a valid state process_ingress sends an incoming packet to the source of a live flow that
  -- has the packet's destination as its public address and port and zero padding in its reverse
  -- key, and refreshes that flow; or no live flow is such, the packet is dropped and the state is
  -- unchanged.
  pub process_ingress_exact :
      (s : State F R T) (now : ℕ) (pkt : Packet)
      → IsValid sv s
      → ((p : ℕ) × (e : Entry) × (s.heap p ≡ some e)
          × (pkt.dst_ip ≡ e.public_ip)
          × (pkt.dst_port ≡ e.public_port)
          × (e.rev.pad ≡ 0)
          × (process_ingress sv s now pkt
              ≡ some (
                refresh_timer sv s now p,
                some (record pkt { dst_ip = e.fwd.src_ip; dst_port = e.fwd.src_port }),
              )))
        ⊎ (((p : ℕ) (e : Entry)
              → s.heap p ≡ some e
              → pkt.dst_ip ≡ e.public_ip
              → pkt.dst_port ≡ e.public_port
              → e.rev.pad ≢ 0)
            × (process_ingress sv s now pkt ≡ some (s, none)))
  unfolding process_ingress
  process_ingress_exact s now pkt v =
      elim (Option-cases (sv.rev.lookup s.rev_table (rev_key pkt))) [
        | inl miss ↦ inr (
          λ p e live ip port cleared. ground (arith, v.rev.stored p e live, v.entries p e live),
          rw (miss, process_ingress),
        )
        | inr (p, hit) ↦
            let (e, live, keyed) = v.rev.live (rev_key pkt) p hit in
            let shape = (v.entries p e live).rev in
            let ip : pkt.dst_ip ≡ e.public_ip =
              ap (λ (r : RevKey). r.public_ip) (sym keyed ∙ shape) in
            let port : pkt.dst_port ≡ e.public_port =
              ap (λ (r : RevKey). r.public_port) (sym keyed ∙ shape) in
            let cleared : e.rev.pad ≡ 0 = ap (λ (r : RevKey). r.pad) keyed in
            inl (
              p,
              e,
              live,
              ip,
              port,
              cleared,
              process_ingress_hit s now pkt p e v live ip port cleared,
            )
      ]

  pub run-Served :
      (s s' : State F R T) (now : ℕ) (mem : Option Block) (pkt out : Packet)
      → IsValid sv s
      → Admits sv s mem pkt
      → process_egress sv s now mem pkt ≡ some (s', out)
      → Served sv s now mem pkt s' out
  run-Served s s' now mem pkt out v room e =
      let (t, o, run, served) = process_egress_serves s now mem pkt v room in
      subst (λ (r : State F R T × Packet). Served sv s now mem pkt r.0 r.1) (some_unique run e)
        served

  -- An entry whose reverse key has other padding is not found by an incoming packet.
  process_ingress_miss :
      (s : State F R T) (now : ℕ) (pkt : Packet) (p : ℕ) (e : Entry)
      → IsValid sv s
      → s.heap p ≡ some e
      → pkt.dst_port ≡ e.public_port
      → e.rev.pad ≢ 0
      → process_ingress sv s now pkt ≡ some (s, none)
  unfolding process_ingress
  process_ingress_miss s now pkt p e v live port uncleared =
      elim (Option-cases (sv.rev.lookup s.rev_table (rev_key pkt))) [
        | inl miss ↦ rw (miss, process_ingress)
        | inr (q, hit) ↦
            let (f, live', keyed) = v.rev.live (rev_key pkt) q hit in
            let same = v.ports p q e f live live' (ground (arith, v.entries q f live')) in
            absurd (ground arith)
      ]

  -- In a valid state where the packet, if its flow is new, finds memory, room in the tables and a
  -- free port, process_egress of it leaves a live entry of its flow: one that was live before, or
  -- a new one, in whose reverse key the padding is what the memory of rte_malloc held. An answer
  -- to the address and port that the packet left with is translated by process_ingress to the host
  -- that sent it, and the state stays valid, if that padding is zero; if it is not,
  -- process_ingress drops the answer and leaves the state. The tables and the timers keep the
  -- documented laws of rte_hash and rte_timer.
  pub round_trip :
      (s s' : State F R T) (now later : ℕ) (mem : Option Block) (pkt out : Packet)
      → IsValid sv s
      → Admits sv s mem pkt
      → process_egress sv s now mem pkt ≡ some (s', out)
      → (p : ℕ) × (e : Entry) × (s'.heap p ≡ some e)
        × (e.fwd ≡ fwd_key pkt)
        × ((s.heap p ≡ some e)
            ⊎ ((b : Block) × (mem ≡ some b) × (p ≡ b.address) × (e.rev.pad ≡ b.pad)))
        × (((e.rev.pad ≡ 0)
              × (s'' : State F R T) × (process_ingress sv s' later (reply out)
                  ≡ some (s'', some (reply pkt)))
              × IsValid sv s'')
            ⊎ ((e.rev.pad ≢ 0) × (process_ingress sv s' later (reply out) ≡ some (s', none))))
  round_trip s s' now later mem pkt out v room ran =
      let x = run-Served s s' now mem pkt out v room ran in
      let e = x.entry in
      (
        x.at,
        e,
        x.live,
        x.flow,
        x.origin,
        elim (ℕ_discrete e.rev.pad 0) [
          | yes cleared ↦ inl (
            cleared,
            refresh_timer sv s' later x.at,
            ground (
              arith,
              process_ingress_hit s' later (reply out) x.at e x.valid x.live,
              x.leaves,
              x.flow,
            ),
            refresh-IsValid sv laws s' later x.at e x.live x.valid,
          )
          | no uncleared ↦ inr (
            uncleared,
            process_ingress_miss s' later (reply out) x.at e x.valid x.live
                (ground (arith, x.leaves)) uncleared,
          )
        ],
      )
