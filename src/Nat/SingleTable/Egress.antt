-- ===== src/Nat/SingleTable/Egress.antt =====
-- The egress branch of nat_callback in NAT/main.c.
use dpdk_code.Base.{
  ℕ, ◌+◌, ◌%◌, ◌^◌, ◌≡◌, ◌≢◌, refl, sym, ◌∙◌, Option, none, some, arith, ℕ_discrete, update,
  Option-cases, inl, inr,
}
use dpdk_code.Dpdk.Hash.{IterOps, IterLaws}
use dpdk_code.Nat.SingleTable.{
  State, Entry, NatKey, Packet, translated, nat_key, new_entry, public_ip, create_mapping,
  find_or_create, egress, nat_callback,
}
use dpdk_code.Nat.SingleTable.Invariant.{NatKey-discrete, IsFlow, IsValid}

-- What a new flow needs: memory at an unused address, room in the table, and a port that no live
-- entry has.
pub record Room {T : Type 0} (it : IterOps T NatKey ℕ) (s : State T) (key : NatKey) (p : ℕ)
    : Type 0 where
  pub table' : T
  pub unused : s.heap p ≡ none
  pub added : it.hash.add s.nat_table key p ≡ some table'
  pub port_free : (q : ℕ) (e : Entry) → s.heap q ≡ some e → e.public_port ≢ s.next_port

abbrev pub Admits : {T : Type 0} → IterOps T NatKey ℕ → State T → Option ℕ → NatKey → Type 0
Admits it s mem key =
    it.hash.lookup s.nat_table key ≡ none → (p : ℕ) × (mem ≡ some p) × Room it s key p

module _ {T : Type 0} (it : IterOps T NatKey ℕ) where
  abbrev pub touched : State T → ℕ → ℕ → Entry → State T
  touched s now p e = record s { heap = update s.heap p (some (record e { last_seen = now })) }

  abbrev pub created :
      (s : State T) (now : ℕ) (key : NatKey) (pkt : Packet) (p : ℕ) → Room it s key p → State T
  created s now key pkt p room = record s {
    nat_table = room.table';
    next_port = (s.next_port + 1) % 2 ^ 16;
    heap = update s.heap p (some (new_entry now s.next_port pkt));
  }

  pub egress_hit :
      (s : State T) (now : ℕ) (mem : Option ℕ) (stack : ℕ) (pkt : Packet) (p : ℕ) (e : Entry)
      → it.hash.lookup s.nat_table (nat_key stack pkt) ≡ some p
      → s.heap p ≡ some e
      → egress it s now mem stack pkt
        ≡ some (
          touched s now p e,
          record pkt { src_ip = e.public_ip; src_port = e.public_port },
          translated,
        )
  unfolding egress find_or_create
  egress_hit s now mem stack pkt p e hit live = ground (arith, hit, live)

  pub egress_miss :
      (s : State T) (now stack : ℕ) (pkt : Packet) (p : ℕ) (room : Room it s (nat_key stack pkt) p)
      → it.hash.lookup s.nat_table (nat_key stack pkt) ≡ none
      → egress it s now (some p) stack pkt
        ≡ some (
          created s now (nat_key stack pkt) pkt p room,
          record pkt { src_ip = public_ip; src_port = s.next_port },
          translated,
        )
  unfolding egress find_or_create create_mapping
  egress_miss s now stack pkt p room miss = ground (arith, room.added)

  -- A use of an entry changes its time only.
  pub touched-IsValid :
      (s : State T) (now p : ℕ) (e : Entry)
      → s.heap p ≡ some e
      → IsValid it s
      → IsValid it (touched s now p e)
  touched-IsValid s now p e at v = record {
    live = λ k q found.
        let (f, live, flow) = v.live k q found in
        elim (ℕ_discrete q p) [
          | yes same ↦ (record e { last_seen = now }, ground arith, ground (arith, flow))
          | no other ↦ (f, ground arith, flow)
        ];
    owned = λ q f live. elim (ℕ_discrete q p) [
      | yes same ↦ rw same (v.owned p e at)
      | no other ↦ v.owned q f (ground arith)
    ];
    single = v.single;
    ports =
        λ a b x y hx hy port. ground (arith, at, v.ports a b x y, v.ports p b e y, v.ports a p x e);
  }

  pub created-IsValid :
      IterLaws it
      → (s : State T) (now stack : ℕ) (pkt : Packet) (p : ℕ)
        (room : Room it s (nat_key stack pkt) p)
      → it.hash.lookup s.nat_table (nat_key stack pkt) ≡ none
      → IsValid it s
      → IsValid it (created s now (nat_key stack pkt) pkt p room)
  created-IsValid laws s now stack pkt p room miss v = record {
    live = λ k q found. elim (NatKey-discrete k key) [
      | yes same ↦ (new_entry now s.next_port pkt, ground (arith, self), ground (arith, same))
      | no other ↦
          let (f, live, flow) = v.live k q (sym (ne k other) ∙ found) in (f, ground arith, flow)
    ];
    owned = λ q f live. elim (ℕ_discrete q p) [
      | yes same ↦ (key, rw same self)
      | no other ↦ let (k, found) = v.owned q f (ground arith) in (k, ground (arith, found, ne k))
    ];
    single = λ k k' q found found'. elim (NatKey-discrete k key) [
      | yes same ↦ same ∙ sym (new_key k' (ground (arith, self)))
      | no other ↦ elim (NatKey-discrete k' key) [
        | yes same ↦ new_key k (ground (arith, self)) ∙ sym same
        | no other' ↦ v.single k k' q (sym (ne k other) ∙ found) (sym (ne k' other') ∙ found')
      ]
    ];
    ports = λ a b x y hx hy port.
        ground (arith, v.ports a b x y, room.port_free a x, room.port_free b y);
  }
    where
      key : NatKey
      key = nat_key stack pkt

      self : it.hash.lookup room.table' key ≡ some p
      self = laws.hash.lookup-add_self s.nat_table room.table' key p room.added

      ne : (k : NatKey) → k ≢ key → it.hash.lookup room.table' k ≡ it.hash.lookup s.nat_table k
      ne k = laws.hash.lookup-add_ne s.nat_table room.table' key k p room.added

      new_key : (k : NatKey) → it.hash.lookup room.table' k ≡ some p → k ≡ key
      new_key k found = elim (NatKey-discrete k key) [
        | yes same ↦ same
        | no other ↦
            let (e, live, flow) = v.live k p (sym (ne k other) ∙ found) in
            absurd (ground (arith, live, room.unused))
      ]

-- The packet leaves under the public address of the entry of its flow, which is used now.
pub record Served {T : Type 0} (it : IterOps T NatKey ℕ) (now : ℕ) (key : NatKey) (pkt : Packet)
    (s' : State T) (out : Packet) : Type 0 where
  pub at : ℕ
  pub entry : Entry
  pub found : it.hash.lookup s'.nat_table key ≡ some at
  pub live : s'.heap at ≡ some entry
  pub flow : IsFlow key entry
  pub used : entry.last_seen ≡ now
  pub leaves : out ≡ record pkt { src_ip = entry.public_ip; src_port = entry.public_port }
  pub valid : IsValid it s'

module _ {T : Type 0} (it : IterOps T NatKey ℕ) (laws : IterLaws it) where
  egress-Served :
      (s : State T) (now : ℕ) (mem : Option ℕ) (stack : ℕ) (pkt : Packet)
      → IsValid it s
      → Admits it s mem (nat_key stack pkt)
      → (s' : State T) × (out : Packet) × (egress it s now mem stack pkt
          ≡ some (s', out, translated))
        × Served it now (nat_key stack pkt) pkt s' out
  egress-Served s now mem stack pkt v room =
      elim (Option-cases (it.hash.lookup s.nat_table (nat_key stack pkt))) [
        | inl miss ↦
            let (p, given, r) = room miss in
            (
              created it s now (nat_key stack pkt) pkt p r,
              record pkt { src_ip = public_ip; src_port = s.next_port },
              rw given (egress_miss it s now stack pkt p r miss),
              record {
                at = p;
                entry = new_entry now s.next_port pkt;
                found =
                    laws.hash.lookup-add_self s.nat_table r.table' (nat_key stack pkt) p r.added;
                live = ground arith;
                flow = ground arith;
                used = refl;
                leaves = refl;
                valid = created-IsValid it laws s now stack pkt p r miss v;
              },
            )
        | inr (p, hit) ↦
            let (e, live, flow) = v.live (nat_key stack pkt) p hit in
            (
              touched it s now p e,
              record pkt { src_ip = e.public_ip; src_port = e.public_port },
              egress_hit it s now mem stack pkt p e hit live,
              record {
                at = p;
                entry = record e { last_seen = now };
                found = hit;
                live = ground arith;
                flow = ground (arith, flow);
                used = refl;
                leaves = refl;
                valid = touched-IsValid it s now p e live v;
              },
            )
      ]

  pub nat_callback_egress :
      (s : State T) (now : ℕ) (mem : Option ℕ) (stack : ℕ) (pkt : Packet)
      → IsValid it s
      → Admits it s mem (nat_key stack pkt)
      → pkt.is_ingress ≡ 0
      → (s' : State T) × (out : Packet) × (nat_callback it s now mem stack pkt
          ≡ some (s', out, translated))
        × Served it now (nat_key stack pkt) pkt s' out
  unfolding nat_callback
  nat_callback_egress s now mem stack pkt v room out =
      let (s', o, ran, served) = egress-Served s now mem stack pkt v room in
      (s', o, ground (arith, ran), served)
