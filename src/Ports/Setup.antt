-- ===== src/Ports/Setup.antt =====
-- The programs that set up one port and read no result of it: Callbacks/port_config.c, and
-- Ports/ports.c, PacketParsing/main.c, ThreadedParsing/main.c, NAT/NWT_actualPkts/main.c and
-- Graphs/rx_packets/rx.c up to their loops or walks.
pub mod Unchecked
mod Examples
use dpdk_code.Base.{ℕ, ◌==◌, if◌then◌else◌, not}
use dpdk_code.Dpdk.Ethernet.{EthOps}

-- rte_exit, a return from main with a code, or the loop with these devices.
pub data Outcome (D : Type 0) : Type 0 where
  exits : Outcome D
  returns : ℕ → Outcome D
  runs : D → Outcome D

module _ {D : Type 0} (eth : EthOps D) where
  unfoldable pub port_config : D → ℕ → D
  port_config d port_id =
      let d1 = (eth.configure d port_id 1 1).1 in
      let d2 = (eth.rx_queue_setup d1 port_id).1 in
      let d3 = (eth.tx_queue_setup d2 port_id).1 in
      let d4 = (eth.dev_start d3 port_id).1 in (eth.promiscuous_enable d4 port_id).1

  -- A port with one receiving queue and `tx_queues` sending ones, of which none is set up.
  unfoldable pub rx_port : ℕ → D → D
  rx_port tx_queues d =
      let d1 = (eth.configure d 0 1 tx_queues).1 in
      let d2 = (eth.rx_queue_setup d1 0).1 in (eth.dev_start d2 0).1

  -- `ret` is the code of rte_eal_init. main makes the calls of port_config itself.
  unfoldable pub ports_main : ℕ → ℕ → D → Outcome D
  ports_main ret nb_port d =
      if not (ret == 0) then exits else if nb_port == 0 then returns 1 else runs (port_config d 0)

  unfoldable pub packet_parsing_main : ℕ → ℕ → D → Outcome D
  packet_parsing_main ret nb_port d = if not (ret == 0) then exits else runs (port_config d 0)

  unfoldable pub threaded_parsing_main : ℕ → ℕ → D → Outcome D
  threaded_parsing_main ret nb_port d =
      if not (ret == 0) then exits else if nb_port == 0 then exits else runs (port_config d 0)

  -- The result of rte_eal_init is not read either.
  abbrev pub nat_main : ℕ → ℕ → D → Outcome D
  nat_main ret nb_port d = runs (rx_port 0 d)

  abbrev pub graph_main : ℕ → ℕ → D → Outcome D
  graph_main ret nb_port d = runs (rx_port 1 d)
