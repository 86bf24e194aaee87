-- ===== src/Threaded.antt =====
-- ThreadedParsing/: three cores that hand packets on through two rings. rx.c receives, parser.c
-- prints and forwards, tx.c sends. A packet is named by its mbuf.
pub mod Steps
pub mod Conservation
pub mod Order
pub mod Printing
pub mod Drain
pub mod Launch
mod Examples
use dpdk_code.Base.{
  ℕ, ◌≤◌, Bool, true, false, Option, none, some, List, [], ◌∷◌, ◌++◌, map, length, take, drop, ltb,
  if◌then◌else◌,
}
use dpdk_code.Dpdk.Ring.{RingOps}
use dpdk_code.Parsing.{Line, parser}

abbrev pub burst_size : ℕ
burst_size = 32

-- The rings, what each core holds in its `buff`, and logs: the packets that came in, the packets
-- that the card took, the packets that were freed, and what was printed.
pub record State (R : Type 0) : Type 0 where
  pub rx_ring : R
  pub tx_ring : R
  pub rx_buff : List ℕ
  pub parser_buff : List ℕ
  pub tx_buff : List ℕ
  pub received : List ℕ
  pub sent : List ℕ
  pub freed : List ℕ
  pub printed : List (Option (List Line))

-- `if (done < n) for (i = done; i < n; i++) rte_pktmbuf_free(buff[i])`: what is freed.
unfoldable pub unsent : ℕ → List ℕ → List ℕ
unsent done buff = if ltb done (length buff) then drop done buff else []

module _ {R : Type 0} (ring : RingOps R) where
  -- rx.c: rte_eth_rx_burst gives `pkts`.
  unfoldable pub rx_receive : State R → List ℕ → State R
  rx_receive s pkts = record s { rx_buff = pkts; received = s.received ++ pkts }

  -- rx.c: the burst goes into the first ring, and what does not fit is freed.
  unfoldable pub rx_forward : State R → State R
  unfolding unsent
  rx_forward s =
      let (enq, ring') = ring.enqueue_burst s.rx_ring s.rx_buff in
      record s { rx_ring = ring'; rx_buff = []; freed = s.freed ++ unsent enq s.rx_buff }

  -- parser.c: a burst comes out of the first ring.
  unfoldable pub parser_dequeue : State R → State R
  parser_dequeue s =
      let (out, ring') = ring.dequeue_burst s.rx_ring burst_size in
      record s { rx_ring = ring'; parser_buff = out }

  -- parser.c: each packet is printed, then the burst goes into the second ring.
  unfoldable pub parser_forward : (ℕ → List ℕ) → State R → State R
  unfolding unsent
  parser_forward bytes s =
      let (enq, ring') = ring.enqueue_burst s.tx_ring s.parser_buff in
      record s {
        tx_ring = ring';
        parser_buff = [];
        freed = s.freed ++ unsent enq s.parser_buff;
        printed = s.printed ++ map (λ m. parser (bytes m)) s.parser_buff;
      }

  -- tx.c: a burst comes out of the second ring.
  unfoldable pub tx_dequeue : State R → State R
  tx_dequeue s =
      let (out, ring') = ring.dequeue_burst s.tx_ring burst_size in
      record s { tx_ring = ring'; tx_buff = out }

  -- tx.c: the card takes the first `taken` packets, and the rest is freed.
  unfoldable pub tx_send : State R → ℕ → State R
  unfolding unsent
  tx_send s taken = record s {
    tx_buff = [];
    sent = s.sent ++ take taken s.tx_buff;
    freed = s.freed ++ unsent taken s.tx_buff;
  }
