-- ===== src/Nat/TwoTables.antt =====
-- NAT/NAT_twoTables/main.c: translation with a forward table, keyed by the flow, and a reverse
-- table, keyed by the public address and port. Both hold pointers to entries on the heap, and each
-- entry carries a timer that removes it. `rte_malloc`'s result and the clock are arguments.
pub mod Invariant
pub mod Egress
pub mod Both
pub mod Traffic
pub mod Translations
pub mod Expiry
pub mod Ports
pub mod Run
pub mod Demo
mod Examples
use dpdk_code.Base.{
  or_same, zero, suc, ℕ, ◌+◌, ◌*◌, ◌%◌, ◌^◌, Option, none, some, List, [], ◌∷◌, ◌>>=◌, update,
}
use dpdk_code.Dpdk.Hash.{HashOps, HashLaws}
use dpdk_code.Dpdk.Timers.{TimerOps, TimerLaws}

abbrev pub public_ip : ℕ
public_ip = 0x0A000001

abbrev pub first_port : ℕ
first_port = 10000

pub record Packet : Type 0 where
  pub src_ip : ℕ
  pub src_port : ℕ
  pub dst_ip : ℕ
  pub dst_port : ℕ

-- `key` of process_egress is cleared before its fields are set, so that the padding of a forward key
-- is always zero, and no field stands for it.
pub record FwdKey : Type 0 where
  pub src_ip : ℕ
  pub src_port : ℕ
  pub dst_ip : ℕ
  pub dst_port : ℕ

-- rte_hash compares all `sizeof(struct rev_key)` bytes of a key: `pad` stands for the two bytes of
-- it that belong to no field.
pub record RevKey : Type 0 where
  pub public_ip : ℕ
  pub public_port : ℕ
  pub pad : ℕ

pub record Entry : Type 0 where
  pub fwd : FwdKey
  pub rev : RevKey
  pub private_ip : ℕ
  pub private_port : ℕ
  pub public_ip : ℕ
  pub public_port : ℕ

-- What rte_malloc returns: an address, and what the memory there holds at the padding of `rev`. It
-- is not cleared.
pub record Block : Type 0 where
  pub address : ℕ
  pub pad : ℕ

-- The services of DPDK that the program runs on, and what it expects of them.
pub record Services (F R T : Type 0) : Type 0 where
  pub fwd : HashOps F FwdKey ℕ
  pub rev : HashOps R RevKey ℕ
  pub timer : TimerOps T

pub record ServiceLaws {F R T : Type 0} (sv : Services F R T) : Type 0 where
  pub fwd : HashLaws sv.fwd
  pub rev : HashLaws sv.rev
  pub timer : TimerLaws sv.timer

-- The globals, the heap, and the armed timers. The timer of an entry has the entry's address.
pub record State (F R T : Type 0) : Type 0 where
  pub fwd_table : F
  pub rev_table : R
  pub next_port : ℕ
  pub hz : ℕ
  pub heap : ℕ → Option Entry
  pub timers : T

abbrev pub fwd_key : Packet → FwdKey
fwd_key pkt = record {
  src_ip = pkt.src_ip;
  src_port = pkt.src_port;
  dst_ip = pkt.dst_ip;
  dst_port = pkt.dst_port;
}

-- `key` of process_ingress, which is cleared first.
abbrev pub rev_key : Packet → RevKey
rev_key pkt = record { public_ip = pkt.dst_ip; public_port = pkt.dst_port; pad = 0 }

abbrev pub max_flows : ℕ
max_flows = 5

abbrev pub tx_packet : ℕ → Packet
tx_packet i = record {
  src_ip = 0xC0A80001 + i;
  src_port = 1000 + i;
  dst_ip = 0x08080808;
  dst_port = 80;
}

abbrev pub rx_packet : ℕ → Packet
rx_packet i = record {
  src_ip = 0x08080808;
  src_port = 80;
  dst_ip = public_ip;
  dst_port = 10000 + i;
}

module _ {F R T : Type 0} (sv : Services F R T) where
  unfoldable pub refresh_timer : State F R T → ℕ → ℕ → State F R T
  refresh_timer s now p = record s { timers = sv.timer.reset s.timers now (5 * s.hz % 2 ^ 64) p }

  -- The fields of `rev` are set one by one, so that its padding is what the memory held.
  abbrev pub new_entry : State F R T → ℕ → FwdKey → Packet → Entry
  new_entry s pad key pkt = record {
    fwd = key;
    rev = record { public_ip = public_ip; public_port = s.next_port; pad = pad };
    private_ip = pkt.src_ip;
    private_port = pkt.src_port;
    public_ip = public_ip;
    public_port = s.next_port;
  }

  -- The body of the `if` of process_egress, where the return values of rte_hash_add_key_data are
  -- not read. `mem` is what rte_malloc returns, `none` for NULL.
  unfoldable pub create_mapping :
      State F R T → Option Block → FwdKey → Packet → Option (ℕ × State F R T)
  create_mapping s mem key pkt = do
    b ← mem
    let p = b.address
    let entry = new_entry s b.pad key pkt
    some (
      p,
      record s {
        fwd_table = or_same (sv.fwd.add s.fwd_table entry.fwd p) s.fwd_table;
        rev_table = or_same (sv.rev.add s.rev_table entry.rev p) s.rev_table;
        next_port = (s.next_port + 1) % 2 ^ 16;
        heap = update s.heap p (some entry);
        timers = sv.timer.init s.timers p;
      },
    )

  unfoldable pub find_or_create :
      State F R T → Option Block → FwdKey → Packet → Option (ℕ × State F R T)
  find_or_create s mem key pkt = elim (sv.fwd.lookup s.fwd_table key) [
    | some p ↦ some (p, s)
    | none ↦ create_mapping s mem key pkt
  ]

  unfoldable pub process_egress :
      State F R T → ℕ → Option Block → Packet → Option (State F R T × Packet)
  unfolding refresh_timer
  process_egress s now mem pkt = do
    (p, s') ← find_or_create s mem (fwd_key pkt) pkt
    let s'' = refresh_timer s' now p
    e ← s''.heap p
    some (s'', record pkt { src_ip = e.public_ip; src_port = e.public_port })

  -- The packet is `none` where the program drops it.
  unfoldable pub process_ingress : State F R T → ℕ → Packet → Option (State F R T × Option Packet)
  unfolding refresh_timer
  process_ingress s now pkt = elim (sv.rev.lookup s.rev_table (rev_key pkt)) [
    | none ↦ some (s, none)
    | some p ↦ do
      let s' = refresh_timer s now p
      e ← s'.heap p
      some (s', some (record pkt { dst_ip = e.private_ip; dst_port = e.private_port }))
  ]

  -- `rte_free` ends the life of the entry.
  unfoldable pub flow_timeout_cb : State F R T → ℕ → Option (State F R T)
  flow_timeout_cb s p = do
    e ← s.heap p
    some (record s {
      fwd_table = sv.fwd.del s.fwd_table e.fwd;
      rev_table = sv.rev.del s.rev_table e.rev;
      heap = update s.heap p none;
    })

  unfoldable pub run_callbacks : State F R T → List ℕ → Option (State F R T)
  run_callbacks s [] = some s
  run_callbacks s (p ∷ ps) = do s' ← flow_timeout_cb s p; run_callbacks s' ps

  -- rte_timer_manage, whose callbacks are all flow_timeout_cb.
  unfoldable pub timer_manage : State F R T → ℕ → Option (State F R T)
  timer_manage s now =
      let (ps, timers') = sv.timer.manage s.timers now in
      run_callbacks (record s { timers = timers' }) ps

  -- The two loops of `main`, from packet `i` on with `n` packets to go. `clock i` is the time and
  -- `mem i` the result of rte_malloc at packet `i`.
  unfoldable pub egress_loop :
      (ℕ → ℕ) → (ℕ → Option Block) → ℕ → ℕ → State F R T → Option (State F R T)
  egress_loop clock mem zero i s = some s
  egress_loop clock mem (suc n) i s = do
    (s', out) ← process_egress s (clock i) (mem i) (tx_packet i)
    egress_loop clock mem n (suc i) s'

  unfoldable pub ingress_loop :
      (ℕ → ℕ) → ℕ → ℕ → State F R T → Option (State F R T × List (Option Packet))
  ingress_loop clock zero i s = some (s, [])
  ingress_loop clock (suc n) i s = do
    (s', out) ← process_ingress s (clock i) (rx_packet i)
    (s'', outs) ← ingress_loop clock n (suc i) s'
    some (s'', out ∷ outs)

  -- `main` up to its endless timer loop; no timer is managed before that.
  unfoldable pub main_traffic :
      (ℕ → ℕ)
      → (ℕ → ℕ)
      → (ℕ → Option Block)
      → State F R T
      → Option (State F R T × List (Option Packet))
  main_traffic tx_clock rx_clock mem s = do
    s' ← egress_loop tx_clock mem max_flows 0 s
    ingress_loop rx_clock max_flows 0 s'
