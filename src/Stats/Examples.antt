-- ===== src/Stats/Examples.antt =====
-- CLI_lib/Live_Stats_using_CLI/ after three rounds.
use dpdk_code.Base.{◌≡◌, [], ◌∷◌}
use dpdk_code.Stats.{cmd_show_port_stats_parsed}
use dpdk_code.Stats.Counting.{rx, tx, count_all, rx_rounds, tx_rounds, cleared, still, show_counts}

show_counts_example :
    cmd_show_port_stats_parsed (count_all (λ q. cleared) (rx ∷ tx ∷ rx ∷ []))
    ≡ (record { port = 0; rx = 20; tx = 8; drop = 0 }) ∷ still 1 ∷ still 2 ∷ still 3 ∷ []
unfolding rx_rounds tx_rounds
show_counts_example = show_counts (rx ∷ tx ∷ rx ∷ [])
