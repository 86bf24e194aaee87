-- ===== src/Stats/Counting.antt =====
-- What the command of CLI_lib/Live_Stats_using_CLI/ shows, after any rounds of the two loops.
use dpdk_code.Base.{ℕ, suc, ◌+◌, ◌*◌, ◌%◌, ◌^◌, ◌<◌, ◌≡◌, ◌≢◌, refl, ◌∙◌, List, [], ◌∷◌, arith}
use dpdk_code.Stats.{
  PortStats, Table, Shown, rx_loop, tx_loop, show_from, cmd_show_port_stats_parsed,
}

-- The rounds of the two cores, which main starts on port 0, in any order.
pub data Round : Type 0 where
  rx tx : Round

unfoldable pub count_all : Table → List Round → Table
count_all g [] = g
count_all g (rx ∷ rs) = count_all (rx_loop g 0) rs
count_all g (tx ∷ rs) = count_all (tx_loop g 0) rs

unfoldable pub rx_rounds : List Round → ℕ
rx_rounds [] = 0
rx_rounds (rx ∷ rs) = suc (rx_rounds rs)
rx_rounds (tx ∷ rs) = rx_rounds rs

unfoldable pub tx_rounds : List Round → ℕ
tx_rounds [] = 0
tx_rounds (rx ∷ rs) = tx_rounds rs
tx_rounds (tx ∷ rs) = suc (tx_rounds rs)

abbrev pub cleared : PortStats
cleared = record { rx_pkts = 0; tx_pkts = 0; rx_drop = 0 }

-- The counters of port 0 in 64 bits, and the other ports untouched.
record IsCounted (g g' : Table) (rs : List Round) : Type 0 where
  rx_pkts : (g' 0).rx_pkts ≡ ((g 0).rx_pkts + 10 * rx_rounds rs) % 2 ^ 64
  tx_pkts : (g' 0).tx_pkts ≡ ((g 0).tx_pkts + 8 * tx_rounds rs) % 2 ^ 64
  rx_drop : (g' 0).rx_drop ≡ (g 0).rx_drop
  others : (q : ℕ) → q ≢ 0 → g' q ≡ g q

count_all-IsCounted :
    (rs : List Round) (g : Table)
    → (g 0).rx_pkts < 2 ^ 64
    → (g 0).tx_pkts < 2 ^ 64
    → IsCounted g (count_all g rs) rs
unfolding count_all rx_rounds tx_rounds rx_loop tx_loop
count_all-IsCounted [] g small small' = record {
  rx_pkts = omega arith;
  tx_pkts = omega arith;
  rx_drop = refl;
  others = λ q h. refl;
}
count_all-IsCounted (rx ∷ rs) g small small' =
    let x = count_all-IsCounted rs (rx_loop g 0) (omega arith) small' in
    record {
      rx_pkts = omega (arith, x.rx_pkts);
      tx_pkts = x.tx_pkts;
      rx_drop = x.rx_drop;
      others = λ q h. x.others q h ∙ ground arith;
    }
count_all-IsCounted (tx ∷ rs) g small small' =
    let x = count_all-IsCounted rs (tx_loop g 0) small (omega arith) in
    record {
      rx_pkts = x.rx_pkts;
      tx_pkts = omega (arith, x.tx_pkts);
      rx_drop = x.rx_drop;
      others = λ q h. x.others q h ∙ ground arith;
    }

-- A port that nobody counts on.
abbrev pub still : ℕ → Shown
still q = record { port = q; rx = 0; tx = 0; drop = 0 }

-- After any rounds of the receiving and the sending loop from cleared counters, in any order, the
-- command shows for port 0 ten packets received for each round of the first and eight sent for
-- each round of the second, modulo 2^64, and no drops, and zeros for the other three ports.
pub show_counts :
    (rs : List Round)
    → cmd_show_port_stats_parsed (count_all (λ q. cleared) rs)
      ≡ (record {
        port = 0;
        rx = 10 * rx_rounds rs % 2 ^ 64;
        tx = 8 * tx_rounds rs % 2 ^ 64;
        drop = 0;
      })
        ∷ still 1
        ∷ still 2
        ∷ still 3
        ∷ []
unfolding cmd_show_port_stats_parsed show_from
show_counts rs =
    let x = count_all-IsCounted rs (λ q. cleared) (omega arith) (omega arith) in
    let g = count_all (λ q. cleared) rs in
    let rx_sum : (g 0).rx_pkts ≡ 10 * rx_rounds rs % 2 ^ 64 = omega (arith, x.rx_pkts) in
    let tx_sum : (g 0).tx_pkts ≡ 8 * tx_rounds rs % 2 ^ 64 = omega (arith, x.tx_pkts) in
    rw (
      rx_sum,
      tx_sum,
      x.rx_drop,
      x.others 1 (λ e. absurd (omega arith)),
      x.others 2 (λ e. absurd (omega arith)),
      x.others 3 (λ e. absurd (omega arith)),
    )
