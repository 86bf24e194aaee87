-- ===== src/Dpdk/Models/EventPorts.antt =====
-- Event devices that remember the number of their ports, and accept all that is in range.
use dpdk_code.Base.{ℕ, ◌==◌, leb, if◌then◌else◌, length, refl, arith}
use dpdk_code.Dpdk.EventSetup.{EventSetupOps, EventSetupLaws}

abbrev pub event_ports : EventSetupOps (ℕ → ℕ)
event_ports = record {
  configure = λ v id queues ports. (0, λ k. if k == id then ports else v k);
  queue_setup = λ v id q. (0, v);
  port_setup = λ v id p. (if leb (v id) p then 22 else 0, v);
  port_link = λ v id p queues. (length queues, v);
  dev_start = λ v id. (0, v);
  nb_event_ports = λ v id. v id;
}

pub event_ports_laws : EventSetupLaws event_ports
event_ports_laws = record {
  nb_event_ports-configure = λ v id queues ports h. ground arith;
  nb_event_ports-queue_setup = λ v id q. refl;
  nb_event_ports-port_setup = λ v id p. refl;
  nb_event_ports-port_link = λ v id p queues. refl;
  port_setup_refuses = λ v id p h. ground arith;
}
