-- ===== src/Stats.antt =====
-- CLI_lib/Live_Stats_using_CLI/: two cores count packets of port 0, and a command shows all ports.
pub mod Counting
mod Examples
use dpdk_code.Base.{ℕ, zero, suc, ◌+◌, ◌%◌, ◌^◌, List, [], ◌∷◌, ◌==◌, if◌then◌else◌}

abbrev pub max_ports : ℕ
max_ports = 4

pub record PortStats : Type 0 where
  pub rx_pkts : ℕ
  pub tx_pkts : ℕ
  pub rx_drop : ℕ

-- g_port_stats as a function of the port.
abbrev pub Table : Type 0
Table = ℕ → PortStats

-- A line "Port %d: RX=%lu TX=%lu DROP=%lu".
pub record Shown : Type 0 where
  pub port : ℕ
  pub rx : ℕ
  pub tx : ℕ
  pub drop : ℕ

abbrev pub set : Table → ℕ → PortStats → Table
set g port x q = if q == port then x else g q

-- A round of rx_loop and of tx_loop.
unfoldable pub rx_loop : Table → ℕ → Table
rx_loop g port = set g port (record (g port) { rx_pkts = ((g port).rx_pkts + 10) % 2 ^ 64 })

unfoldable pub tx_loop : Table → ℕ → Table
tx_loop g port = set g port (record (g port) { tx_pkts = ((g port).tx_pkts + 8) % 2 ^ 64 })

-- The loop of cmd_show_port_stats_parsed.
unfoldable pub show_from : Table → ℕ → ℕ → List Shown
show_from g zero i = []
show_from g (suc n) i =
    (record { port = i; rx = (g i).rx_pkts; tx = (g i).tx_pkts; drop = (g i).rx_drop })
    ∷ show_from g n (suc i)

unfoldable pub cmd_show_port_stats_parsed : Table → List Shown
cmd_show_port_stats_parsed g = show_from g max_ports 0
