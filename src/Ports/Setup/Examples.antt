-- ===== src/Ports/Setup/Examples.antt =====
-- The set-ups on a card whose port 0 does not start.
use dpdk_code.Base.{◌≡◌, refl, false, arith}
use dpdk_code.Dpdk.Models.Card.{card, card_laws, closed}
use dpdk_code.Ports.Setup.{
  port_config, rx_port, ports_main, packet_parsing_main, threaded_parsing_main, nat_main,
  graph_main,
}
use dpdk_code.Ports.Setup.Unchecked.{RunsAnyway, config_code, rx_code, mains_run_anyway}

mains_run_anyway_example :
    RunsAnyway (card 0) (config_code (card 0) closed) (ports_main (card 0) 0 1 closed)
    × RunsAnyway (card 0) (config_code (card 0) closed) (packet_parsing_main (card 0) 0 1 closed)
    × RunsAnyway (card 0) (config_code (card 0) closed) (threaded_parsing_main (card 0) 0 1 closed)
    × RunsAnyway (card 0) (rx_code (card 0) 0 closed) (nat_main (card 0) 0 1 closed)
    × RunsAnyway (card 0) (rx_code (card 0) 1 closed) (graph_main (card 0) 0 1 closed)
mains_run_anyway_example = mains_run_anyway (card 0) (card_laws 0) 1 closed (omega arith) refl

not_started : (port_config (card 0) closed 0 0).started ≡ false
unfolding port_config
not_started = refl

not_started_rx : (rx_port (card 0) 0 closed 0).started ≡ false
unfolding rx_port
not_started_rx = refl
