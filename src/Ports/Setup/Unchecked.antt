-- ===== src/Ports/Setup/Unchecked.antt =====
-- The loops are entered whether or not the port could be started.
use dpdk_code.Base.{ℕ, ◌≡◌, ◌≢◌, ◌↔◌, true, false, arith, refl}
use dpdk_code.Dpdk.Ethernet.{EthOps, EthLaws}
use dpdk_code.Ports.Setup.{
  Outcome, runs, port_config, rx_port, ports_main, packet_parsing_main, threaded_parsing_main,
  nat_main, graph_main,
}

module _ {D : Type 0} (eth : EthOps D) where
  -- The code of rte_eth_dev_start in port_config and in rx_port.
  abbrev pub config_code : D → ℕ
  config_code d =
      let d1 = (eth.configure d 0 1 1).1 in
      let d2 = (eth.rx_queue_setup d1 0).1 in
      let d3 = (eth.tx_queue_setup d2 0).1 in (eth.dev_start d3 0).0

  abbrev pub rx_code : ℕ → D → ℕ
  rx_code tx_queues d =
      let d1 = (eth.configure d 0 1 tx_queues).1 in
      let d2 = (eth.rx_queue_setup d1 0).1 in (eth.dev_start d2 0).0

  -- The program runs, on a port that is started exactly when its start returned 0.
  abbrev pub RunsAnyway : ℕ → Outcome D → Type 0
  RunsAnyway code o = (d' : D) × (o ≡ runs d') × (((eth.port d' 0).started ≡ true) ↔ (code ≡ 0))

module _ {D : Type 0} (eth : EthOps D) (laws : EthLaws eth) where
  started-port_config :
      (d : D)
      → (eth.port d 0).started ≡ false
      → ((eth.port (port_config eth d 0) 0).started ≡ true) ↔ (config_code eth d ≡ 0)
  unfolding port_config
  started-port_config d closed =
      let d1 = (eth.configure d 0 1 1).1 in
      let d2 = (eth.rx_queue_setup d1 0).1 in
      let d3 = (eth.tx_queue_setup d2 0).1 in
      let d4 = (eth.dev_start d3 0).1 in
      ground (
        arith,
        laws.started-configure d 0 1 1,
        laws.started-rx_queue_setup d1 0,
        laws.started-tx_queue_setup d2 0,
        laws.port-dev_start_self d3 0,
        laws.started-dev_start_fails d3 0,
        laws.port-promiscuous_enable d4 0 0,
      )

  started-rx_port :
      (tx_queues : ℕ) (d : D)
      → (eth.port d 0).started ≡ false
      → ((eth.port (rx_port eth tx_queues d) 0).started ≡ true) ↔ (rx_code eth tx_queues d ≡ 0)
  unfolding rx_port
  started-rx_port tx_queues d closed =
      let d1 = (eth.configure d 0 1 tx_queues).1 in
      let d2 = (eth.rx_queue_setup d1 0).1 in
      ground (
        arith,
        laws.started-configure d 0 1 tx_queues,
        laws.started-rx_queue_setup d1 0,
        laws.port-dev_start_self d2 0,
        laws.started-dev_start_fails d2 0,
      )

  -- If EAL came up, there is a port, and port 0 was not started before, then Ports/ports.c,
  -- PacketParsing/main.c, ThreadedParsing/main.c, NAT/NWT_actualPkts/main.c and
  -- Graphs/rx_packets/rx.c go on to their loops or walks whatever the set-up of the port returned,
  -- and the port is started then exactly when rte_eth_dev_start returned 0. The devices keep the
  -- documented laws of rte_ethdev.
  pub mains_run_anyway :
      (nb_port : ℕ) (d : D)
      → nb_port ≢ 0
      → (eth.port d 0).started ≡ false
      → RunsAnyway eth (config_code eth d) (ports_main eth 0 nb_port d)
        × RunsAnyway eth (config_code eth d) (packet_parsing_main eth 0 nb_port d)
        × RunsAnyway eth (config_code eth d) (threaded_parsing_main eth 0 nb_port d)
        × RunsAnyway eth (rx_code eth 0 d) (nat_main eth 0 nb_port d)
        × RunsAnyway eth (rx_code eth 1 d) (graph_main eth 0 nb_port d)
  unfolding ports_main packet_parsing_main threaded_parsing_main
  mains_run_anyway nb_port d some_port closed =
      let config = started-port_config d closed in
      (
        (port_config eth d 0, ground arith, config),
        (port_config eth d 0, refl, config),
        (port_config eth d 0, ground arith, config),
        (rx_port eth 0 d, refl, started-rx_port 0 d closed),
        (rx_port eth 1 d, refl, started-rx_port 1 d closed),
      )
