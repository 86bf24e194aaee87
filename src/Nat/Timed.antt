-- ===== src/Nat/Timed.antt =====
-- NAT/Nat_with_TIMER/nwt.c: translation with one table, whose entries are removed by a timer each,
-- and all at once when no packet has come for a while. The fields of the key in
-- NAT/NWT_actualPkts/main.c have other names, and its timers and its clearing are the same code.
pub mod Invariant
pub mod Packets
pub mod Answers
pub mod Expiry
pub mod Idle
pub mod Dangling
pub mod Run
pub mod Demo
mod Examples
use dpdk_code.Base.{
  or_same, ℕ, zero, suc, ◌+◌, ◌-◌, ◌*◌, ◌%◌, ◌^◌, Bool, ◌&&◌, Option, none, some, List, [], ◌∷◌,
  ◌>>=◌, update, ltb, ◌==◌, if◌then◌else◌,
}
use dpdk_code.Dpdk.Hash.{IterOps, IterLaws}
use dpdk_code.Dpdk.Iterate.{search_from, full_fuel}
use dpdk_code.Dpdk.Timers.{TimerOps, TimerLaws}

abbrev pub public_ip : ℕ
public_ip = 0x0A000001

pub record Packet : Type 0 where
  pub src_ip : ℕ
  pub dst_ip : ℕ
  pub src_port : ℕ
  pub dst_port : ℕ
  pub proto : ℕ
  pub is_ingress : ℕ

-- `pad` stands for the four bytes of the struct that belong to no field; rte_hash compares them.
pub record NatKey : Type 0 where
  pub ip : ℕ
  pub port : ℕ
  pub dst_ip : ℕ
  pub dst_port : ℕ
  pub pad : ℕ

pub record Entry : Type 0 where
  pub key : NatKey
  pub private_ip : ℕ
  pub private_port : ℕ
  pub public_ip : ℕ
  pub public_port : ℕ

pub record Services (T C : Type 0) : Type 0 where
  pub table : IterOps T NatKey ℕ
  pub timer : TimerOps C

pub record ServiceLaws {T C : Type 0} (sv : Services T C) : Type 0 where
  pub table : IterLaws sv.table
  pub timer : TimerLaws sv.timer

-- The globals, the heap and the armed timers. The timer of an entry has the entry's address.
pub record State (T C : Type 0) : Type 0 where
  pub nat_table : T
  pub next_port : ℕ
  pub hz : ℕ
  pub global_last_pkt : ℕ
  pub table_cleared : ℕ
  pub heap : ℕ → Option Entry
  pub timers : C

-- The key on the stack, whose padding is what the stack held.
abbrev pub nat_key : ℕ → Packet → NatKey
nat_key stack pkt = record {
  ip = pkt.src_ip;
  port = pkt.src_port;
  dst_ip = pkt.dst_ip;
  dst_port = pkt.dst_port;
  pad = stack;
}

-- `entry->key = key` copies the whole struct.
abbrev pub new_entry : ℕ → NatKey → Entry
new_entry port key = record {
  key = key;
  private_ip = key.ip;
  private_port = key.port;
  public_ip = public_ip;
  public_port = port;
}

-- The loop test of the ingress branch, at the entry that `data` points to.
abbrev pub is_target : (ℕ → Option Entry) → Packet → ℕ → Option Bool
is_target heap pkt p = do
  e ← heap p
  some ((e.public_ip == pkt.dst_ip) && (e.public_port == pkt.dst_port))

-- `!table_cleared && (now - global_last_pkt) > (10 * hz)` in uint64_t.
abbrev pub is_idle : {T C : Type 0} → State T C → ℕ → Bool
is_idle s now =
    (s.table_cleared == 0) && ltb (10 * s.hz % 2 ^ 64) ((now + 2 ^ 64 - s.global_last_pkt) % 2 ^ 64)

-- A packet was seen at `now`.
abbrev pub seen : {T C : Type 0} → State T C → ℕ → State T C
seen s now = record s { global_last_pkt = now; table_cleared = 0 }

module _ {T C : Type 0} (sv : Services T C) where
  -- rte_timer_reset reads the clock itself: `at`.
  unfoldable pub refresh_timer : State T C → ℕ → ℕ → State T C
  refresh_timer s at p = record s { timers = sv.timer.reset s.timers at (5 * s.hz % 2 ^ 64) p }

  -- The [NEW FLOW] branch, where the return value of rte_hash_add_key_data is not read. `mem` is
  -- what rte_malloc returns, `none` for NULL.
  unfoldable pub create_mapping : State T C → Option ℕ → NatKey → Option (ℕ × State T C)
  create_mapping s mem key = do
    p ← mem
    some (
      p,
      record s {
        nat_table = or_same (sv.table.hash.add s.nat_table key p) s.nat_table;
        next_port = (s.next_port + 1) % 2 ^ 16;
        heap = update s.heap p (some (new_entry s.next_port key));
        timers = sv.timer.init s.timers p;
      },
    )

  unfoldable pub find_or_create : State T C → Option ℕ → NatKey → Option (ℕ × State T C)
  find_or_create s mem key = elim (sv.table.hash.lookup s.nat_table key) [
    | some p ↦ some (p, s)
    | none ↦ create_mapping s mem key
  ]

  unfoldable pub egress : State T C → ℕ → Option ℕ → ℕ → Packet → Option (State T C × Packet)
  unfolding refresh_timer
  egress s at mem stack pkt = do
    (p, s') ← find_or_create s mem (nat_key stack pkt)
    let s'' = refresh_timer s' at p
    e ← s''.heap p
    some (s'', record pkt { src_ip = e.public_ip; src_port = e.public_port })

  unfoldable pub ingress : State T C → ℕ → Packet → Option (State T C × Packet)
  unfolding refresh_timer
  ingress s at pkt = do
    hit ← search_from sv.table s.nat_table (is_target s.heap pkt) (full_fuel sv.table) 0
    elim hit [
      | none ↦ some (s, pkt)
      | some p ↦ do
        e ← s.heap p
        some (refresh_timer s at p, record pkt { dst_ip = e.private_ip; dst_port = e.private_port })
    ]

  unfoldable pub process_packet :
      State T C → ℕ → ℕ → Option ℕ → ℕ → Packet → Option (State T C × Packet)
  process_packet s now at mem stack pkt =
      if pkt.is_ingress == 0
      then egress (seen s now) at mem stack pkt
      else ingress (seen s now) at pkt

  unfoldable pub flow_timeout_cb : State T C → ℕ → Option (State T C)
  flow_timeout_cb s p = do
    e ← s.heap p
    some (record s { nat_table = sv.table.hash.del s.nat_table e.key; heap = update s.heap p none })

  unfoldable pub run_callbacks : State T C → List ℕ → Option (State T C)
  run_callbacks s [] = some s
  run_callbacks s (p ∷ ps) = do s' ← flow_timeout_cb s p; run_callbacks s' ps

  -- rte_timer_manage, whose callbacks are all flow_timeout_cb.
  unfoldable pub timer_manage : State T C → ℕ → Option (State T C)
  timer_manage s now =
      let (ps, timers') = sv.timer.manage s.timers now in
      run_callbacks (record s { timers = timers' }) ps

  -- The loop of check_global_idle: `rte_free` of an entry that is not live is a fault. No timer is
  -- stopped.
  unfoldable pub free_from : ℕ → ℕ → State T C → Option (State T C)
  free_from zero i s = none
  free_from (suc fuel) i s = elim (sv.table.iterate s.nat_table i) [
    | none ↦ some s
    | some (key, p, j) ↦ do
      e ← s.heap p
      free_from fuel j (record s { heap = update s.heap p none })
  ]

  unfoldable pub clear_table : State T C → Option (State T C)
  clear_table s = do
    s' ← free_from (full_fuel sv.table) 0 s
    some (record s' { nat_table = sv.table.reset s'.nat_table; table_cleared = 1 })

  unfoldable pub check_global_idle : State T C → ℕ → Option (State T C)
  check_global_idle s now = if is_idle s now then clear_table s else some s

  -- A round of the loop of `main`: the timers are managed at `t`, idleness is checked at `now`.
  unfoldable pub idle_round : State T C → ℕ → ℕ → Option (State T C)
  idle_round s t now = do s' ← timer_manage s t; check_global_idle s' now
