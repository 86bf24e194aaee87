-- ===== src/Dpdk/EventSetup.antt =====
-- rte_event: how an event device is set up. Devices have numbers; a device is configured with a
-- number of event ports, and each port is then set up by its number.
use dpdk_code.Base.{ℕ, ◌≤◌, ◌≡◌, ◌≢◌, List}

-- Each call returns a code with the new devices: 0, or `e` for the negative return value -e;
-- `port_link` returns the number of links. `nb_event_ports` is what a device was configured with.
pub record EventSetupOps (V : Type 0) : Type 0 where
  pub configure : V → ℕ → ℕ → ℕ → ℕ × V
  pub queue_setup : V → ℕ → ℕ → ℕ × V
  pub port_setup : V → ℕ → ℕ → ℕ × V
  pub port_link : V → ℕ → ℕ → List ℕ → ℕ × V
  pub dev_start : V → ℕ → ℕ × V
  pub nb_event_ports : V → ℕ → ℕ

-- The number of ports is what `configure` is given last; a port number that is not below it is
-- refused.
pub record EventSetupLaws {V : Type 0} (ev : EventSetupOps V) : Type 0 where
  pub nb_event_ports-configure :
      (v : V) (id queues ports : ℕ)
      → (ev.configure v id queues ports).0 ≡ 0
      → ev.nb_event_ports (ev.configure v id queues ports).1 id ≡ ports
  pub nb_event_ports-queue_setup :
      (v : V) (id q : ℕ) → ev.nb_event_ports (ev.queue_setup v id q).1 id ≡ ev.nb_event_ports v id
  pub nb_event_ports-port_setup :
      (v : V) (id p : ℕ) → ev.nb_event_ports (ev.port_setup v id p).1 id ≡ ev.nb_event_ports v id
  pub nb_event_ports-port_link :
      (v : V) (id p : ℕ) (queues : List ℕ)
      → ev.nb_event_ports (ev.port_link v id p queues).1 id ≡ ev.nb_event_ports v id
  pub port_setup_refuses :
      (v : V) (id p : ℕ) → ev.nb_event_ports v id ≤ p → (ev.port_setup v id p).0 ≢ 0
