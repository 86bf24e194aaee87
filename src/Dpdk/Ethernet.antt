-- ===== src/Dpdk/Ethernet.antt =====
-- rte_ethdev: how a port is set up. A port starts closed; it can be used once it is started with its
-- queues.
use dpdk_code.Base.{ℕ, ◌≡◌, ◌≢◌, Bool, true}

-- What was set up of a port.
pub record Port : Type 0 where
  pub rx_queue : Bool
  pub tx_queue : Bool
  pub started : Bool

-- Each call takes the port, and returns a code with the new device: 0, or `e` for the negative
-- return value -e. `configure` also takes the numbers of queues. `port` is what was set up.
pub record EthOps (D : Type 0) : Type 0 where
  pub configure : D → ℕ → ℕ → ℕ → ℕ × D
  pub rx_queue_setup : D → ℕ → ℕ × D
  pub tx_queue_setup : D → ℕ → ℕ × D
  pub dev_start : D → ℕ → ℕ × D
  pub promiscuous_enable : D → ℕ → ℕ × D
  pub port : D → ℕ → Port

-- A call that returns 0 sets up its part of its port and keeps the parts that are there; no call
-- touches another port. Only a start that returns 0 starts a port, and putting a port into promiscuous
-- mode changes nothing of this.
pub record EthLaws {D : Type 0} (eth : EthOps D) : Type 0 where
  pub started-configure :
      (d : D) (p rx tx : ℕ)
      → (eth.port (eth.configure d p rx tx).1 p).started ≡ (eth.port d p).started
  pub port-configure_ne :
      (d : D) (p rx tx q : ℕ) → q ≢ p → eth.port (eth.configure d p rx tx).1 q ≡ eth.port d q
  pub port-rx_queue_setup_self :
      (d : D) (p : ℕ)
      → (eth.rx_queue_setup d p).0 ≡ 0
      → eth.port (eth.rx_queue_setup d p).1 p ≡ record (eth.port d p) { rx_queue = true }
  pub started-rx_queue_setup :
      (d : D) (p : ℕ) → (eth.port (eth.rx_queue_setup d p).1 p).started ≡ (eth.port d p).started
  pub port-rx_queue_setup_ne :
      (d : D) (p q : ℕ) → q ≢ p → eth.port (eth.rx_queue_setup d p).1 q ≡ eth.port d q
  pub port-tx_queue_setup_self :
      (d : D) (p : ℕ)
      → (eth.tx_queue_setup d p).0 ≡ 0
      → eth.port (eth.tx_queue_setup d p).1 p ≡ record (eth.port d p) { tx_queue = true }
  pub started-tx_queue_setup :
      (d : D) (p : ℕ) → (eth.port (eth.tx_queue_setup d p).1 p).started ≡ (eth.port d p).started
  pub port-tx_queue_setup_ne :
      (d : D) (p q : ℕ) → q ≢ p → eth.port (eth.tx_queue_setup d p).1 q ≡ eth.port d q
  pub port-dev_start_self :
      (d : D) (p : ℕ)
      → (eth.dev_start d p).0 ≡ 0
      → eth.port (eth.dev_start d p).1 p ≡ record (eth.port d p) { started = true }
  pub started-dev_start_fails :
      (d : D) (p : ℕ)
      → (eth.dev_start d p).0 ≢ 0
      → (eth.port (eth.dev_start d p).1 p).started ≡ (eth.port d p).started
  pub port-dev_start_ne :
      (d : D) (p q : ℕ) → q ≢ p → eth.port (eth.dev_start d p).1 q ≡ eth.port d q
  pub port-promiscuous_enable :
      (d : D) (p q : ℕ) → eth.port (eth.promiscuous_enable d p).1 q ≡ eth.port d q
