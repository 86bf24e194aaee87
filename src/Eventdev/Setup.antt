-- ===== src/Eventdev/Setup.antt =====
-- Eventdev/Parsing/main.c before its loops: `port_init`, `eventdev_init` and `main`.
mod Examples
pub mod Messages
pub mod Exits
use dpdk_code.Base.{
  ℕ, zero, suc, ◌+◌, ◌-◌, ◌%◌, ◌^◌, Option, none, some, List, [], ◌∷◌, map, length, ltb, ◌==◌,
  if◌then◌else◌,
}
use dpdk_code.Dpdk.Ethernet.{EthOps}
use dpdk_code.Dpdk.EventSetup.{EventSetupOps}
use dpdk_code.Eventdev.{rx_q, tx_q}

-- The messages of rte_exit.
pub data Reason : Type 0 where
  no_pool no_ethdev eth_configure rx_queue_setup tx_queue_setup eth_start : Reason
  no_eventdev eventdev_configure rx_q_setup tx_q_setup event_port_setup event_port_link : Reason
  eventdev_start : Reason

pub data Stage (A : Type 0) : Type 0 where
  exits : (message : Reason) → Stage A
  goes_on : (result : A) → Stage A

infixl 5 ◌>>=◌
abbrev pub ◌>>=◌ : {A B : Type 0} → Stage A → (A → Stage B) → Stage B
exits message >>= rest = exits message
goes_on result >>= rest = rest result

-- A call that returns a negative value ends the program.
abbrev pub check : {A : Type 0} → Reason → ℕ × A → Stage A
check r (zero, a) = goes_on a
check r (suc e, a) = exits r

abbrev pub check_links : {A : Type 0} → ℕ × A → Stage A
check_links (n, a) = if n == 2 then goes_on a else exits event_port_link

pub data Role : Type 0 where
  receiving working : Role

-- The devices, `lcore_to_evport`, and the loop that each core is launched with.
pub record Started (D V : Type 0) : Type 0 where
  pub ports : D
  pub events : V
  pub lcore_to_evport : ℕ → ℕ
  pub launched : List (ℕ × Role)

-- `eth_port_id` is 0.
unfoldable pub port_init : {D : Type 0} → EthOps D → ℕ → D → Stage D
port_init eth nb_ports d = if nb_ports == 0 then exits no_ethdev else do
  d1 ← check eth_configure (eth.configure d 0 1 1)
  d2 ← check rx_queue_setup (eth.rx_queue_setup d1 0)
  d3 ← check tx_queue_setup (eth.tx_queue_setup d2 0)
  check eth_start (eth.dev_start d3 0)

abbrev pub assign : (ℕ → ℕ) → ℕ → ℕ → ℕ → ℕ
assign m lcore ev_port k = if k == lcore then ev_port else m k

-- The core that rte_get_next_lcore finds: the first worker, or `max_lcore` if there is none.
abbrev pub first_worker : ℕ → List ℕ → ℕ
first_worker max_lcore [] = max_lcore
first_worker max_lcore (lcore ∷ rest) = lcore

abbrev pub role : ℕ → ℕ → Role
role rx_lcore lcore = if lcore == rx_lcore then receiving else working

module _ {V : Type 0} (ev : EventSetupOps V) where
  -- The loop over the worker cores; `ev_port` is a uint8_t.
  unfoldable pub setup_ports : ℕ → List ℕ → ℕ → V × (ℕ → ℕ) → Stage (V × (ℕ → ℕ))
  setup_ports evdev_id [] ev_port (v, m) = goes_on (v, m)
  setup_ports evdev_id (lcore ∷ rest) ev_port (v, m) = do
    v1 ← check event_port_setup (ev.port_setup v evdev_id ev_port)
    v2 ← check_links (ev.port_link v1 evdev_id ev_port (rx_q ∷ tx_q ∷ []))
    setup_ports evdev_id rest ((ev_port + 1) % 2 ^ 8) (v2, assign m lcore ev_port)

  -- `found` is the 32-bit pattern of what rte_event_dev_get_dev_id returns, which is stored in a
  -- uint8_t before it is compared with 0.
  unfoldable pub eventdev_init : ℕ → List ℕ → ℕ → V × (ℕ → ℕ) → Stage (V × (ℕ → ℕ))
  eventdev_init found workers nb_workers (v, m) =
      let evdev_id = found % 2 ^ 8 in
      if ltb evdev_id 0 then exits no_eventdev else do
        v1 ← check eventdev_configure (ev.configure v evdev_id 2 nb_workers)
        v2 ← check rx_q_setup (ev.queue_setup v1 evdev_id rx_q)
        v3 ← check tx_q_setup (ev.queue_setup v2 evdev_id tx_q)
        (v4, m4) ← setup_ports evdev_id workers 0 (v3, m)
        v5 ← check eventdev_start (ev.dev_start v4 evdev_id)
        goes_on (v5, m4)

  -- `workers` are the cores beside the main one; there is one core more than that.
  unfoldable pub main :
      {D : Type 0}
      → EthOps D
      → ℕ
      → Option ℕ
      → List ℕ
      → ℕ
      → ℕ
      → D
      → V × (ℕ → ℕ)
      → Stage (Started D V)
  main eth max_lcore pool workers nb_ports found d evs = elim pool [
    | none ↦ exits no_pool
    | some mbuf_pool ↦ do
      let rx_lcore = first_worker max_lcore workers
      d' ← port_init eth nb_ports d
      let nb_workers = (1 + length workers + 2 ^ 8 - 2) % 2 ^ 8
      (v', m') ← eventdev_init found workers nb_workers evs
      goes_on (record {
        ports = d';
        events = v';
        lcore_to_evport = m';
        launched = map (λ (lcore : ℕ). (lcore, role rx_lcore lcore)) workers;
      })
  ]
