-- ===== src/Nat/SingleTable.antt =====
-- NAT/main.c: translation with one table, keyed by the flow. Incoming packets are matched by a walk
-- through the whole table, and nat_cleanup removes the entries that were not used for a while.
pub mod Invariant
pub mod Egress
pub mod Ingress
pub mod Cleanup
pub mod Run
mod Examples
use dpdk_code.Base.{
  or_same, ℕ, zero, suc, ◌+◌, ◌-◌, ◌*◌, ◌%◌, ◌^◌, Bool, true, false, ◌&&◌, Option, none, some, List,
  [], ◌∷◌, ◌>>=◌, update, ltb, ◌==◌, if◌then◌else◌,
}
use dpdk_code.Dpdk.Hash.{HashOps, IterOps}
use dpdk_code.Dpdk.Iterate.{search_from, full_fuel}

abbrev pub public_ip : ℕ
public_ip = 0x0A000001

pub record Packet : Type 0 where
  pub src_ip : ℕ
  pub dst_ip : ℕ
  pub src_port : ℕ
  pub dst_port : ℕ
  pub protocol : ℕ
  pub is_ingress : ℕ

-- rte_hash compares all `sizeof(struct nat_key)` bytes of a key: `pad` stands for the three bytes
-- of it that belong to no field.
pub record NatKey : Type 0 where
  pub ip : ℕ
  pub port : ℕ
  pub dst_ip : ℕ
  pub dst_port : ℕ
  pub proto : ℕ
  pub pad : ℕ

pub record Entry : Type 0 where
  pub private_ip : ℕ
  pub private_port : ℕ
  pub public_ip : ℕ
  pub public_port : ℕ
  pub dest_ip : ℕ
  pub dest_port : ℕ
  pub last_seen : ℕ

pub record State (T : Type 0) : Type 0 where
  pub nat_table : T
  pub next_port : ℕ
  pub timeout_cycles : ℕ
  pub heap : ℕ → Option Entry

-- `key` is a variable on the stack that is not cleared before its fields are set, so its padding
-- is what the stack held: `stack`.
abbrev pub nat_key : ℕ → Packet → NatKey
nat_key stack pkt = record {
  ip = pkt.src_ip;
  port = pkt.src_port;
  dst_ip = pkt.dst_ip;
  dst_port = pkt.dst_port;
  proto = pkt.protocol;
  pad = stack;
}

-- What a packet did: the branch of nat_callback that it took.
pub data Verdict : Type 0 where
  translated dropped : Verdict

-- The loop test of the ingress branch, at the entry that `data` points to.
abbrev pub is_target : (ℕ → Option Entry) → Packet → ℕ → Option Bool
is_target heap pkt p = do
  e ← heap p
  some ((e.public_ip == pkt.dst_ip) && (e.public_port == pkt.dst_port))

-- `(now - entry->last_seen) > timeout_cycles` in uint64_t.
abbrev pub is_stale : ℕ → ℕ → Entry → Bool
is_stale timeout now e = ltb timeout ((now + 2 ^ 64 - e.last_seen) % 2 ^ 64)

abbrev pub new_entry : ℕ → ℕ → Packet → Entry
new_entry now port pkt = record {
  private_ip = pkt.src_ip;
  private_port = pkt.src_port;
  public_ip = public_ip;
  public_port = port;
  dest_ip = pkt.dst_ip;
  dest_port = pkt.dst_port;
  last_seen = now;
}

module _ {T : Type 0} where
  -- allocate_port: the port, and the state with the counter moved on.
  abbrev pub allocate_port : State T → ℕ × State T
  allocate_port s = (s.next_port, record s { next_port = (s.next_port + 1) % 2 ^ 16 })

  -- `entry->last_seen = rte_rdtsc()`
  unfoldable pub touch : State T → ℕ → ℕ → Option (State T)
  touch s now p = do
    e ← s.heap p
    some (record s { heap = update s.heap p (some (record e { last_seen = now })) })

module _ {T : Type 0} (it : IterOps T NatKey ℕ) where
  -- The [MISS] branch. `mem` is what rte_malloc returns, `none` for NULL. The return value of
  -- rte_hash_add_key_data is not read: a failure leaves the table.
  unfoldable pub create_mapping : State T → ℕ → Option ℕ → NatKey → Packet → Option (ℕ × State T)
  create_mapping s now mem key pkt = do
    p ← mem
    let (port, s') = allocate_port s
    let table' = or_same (it.hash.add s'.nat_table key p) s'.nat_table
    some (
      p,
      record s' { nat_table = table'; heap = update s'.heap p (some (new_entry now port pkt)) },
    )

  unfoldable pub find_or_create : State T → ℕ → Option ℕ → NatKey → Packet → Option (ℕ × State T)
  unfolding touch
  find_or_create s now mem key pkt = elim (it.hash.lookup s.nat_table key) [
    | some p ↦ do s' ← touch s now p; some (p, s')
    | none ↦ create_mapping s now mem key pkt
  ]

  unfoldable pub egress : State T → ℕ → Option ℕ → ℕ → Packet → Option (State T × Packet × Verdict)
  egress s now mem stack pkt = do
    (p, s') ← find_or_create s now mem (nat_key stack pkt) pkt
    e ← s'.heap p
    some (s', record pkt { src_ip = e.public_ip; src_port = e.public_port }, translated)

  unfoldable pub ingress : State T → ℕ → Packet → Option (State T × Packet × Verdict)
  unfolding touch
  ingress s now pkt = do
    hit ← search_from it s.nat_table (is_target s.heap pkt) (full_fuel it) 0
    elim hit [
      | none ↦ some (s, pkt, dropped)
      | some p ↦ do
        e ← s.heap p
        s' ← touch s now p
        some (s', record pkt { dst_ip = e.private_ip; dst_port = e.private_port }, translated)
    ]

  unfoldable pub nat_callback :
      State T → ℕ → Option ℕ → ℕ → Packet → Option (State T × Packet × Verdict)
  nat_callback s now mem stack pkt =
      if pkt.is_ingress == 0 then egress s now mem stack pkt else ingress s now pkt

  -- The body of the loop of nat_cleanup.
  unfoldable pub clean_entry : State T → ℕ → NatKey → ℕ → Option (State T)
  clean_entry s now key p = do
    e ← s.heap p
    some (
        if is_stale s.timeout_cycles now e
        then record s { nat_table = it.hash.del s.nat_table key; heap = update s.heap p none }
        else s)

  unfoldable pub cleanup_from : ℕ → ℕ → ℕ → State T → Option (State T)
  cleanup_from zero i now s = none
  cleanup_from (suc fuel) i now s = elim (it.iterate s.nat_table i) [
    | none ↦ some s
    | some (key, p, j) ↦ do s' ← clean_entry s now key p; cleanup_from fuel j now s'
  ]

  unfoldable pub nat_cleanup : State T → ℕ → Option (State T)
  nat_cleanup s now = cleanup_from (full_fuel it) 0 now s
