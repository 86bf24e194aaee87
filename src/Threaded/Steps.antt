-- ===== src/Threaded/Steps.antt =====
-- The three loops of ThreadedParsing/ side by side: each core makes its next call at any time.
use dpdk_code.Base.{ℕ, ◌≤◌, ◌≡◌, List, [], length}
use dpdk_code.Dpdk.Ring.{RingOps}
use dpdk_code.Threaded.{
  State, burst_size, rx_receive, rx_forward, parser_dequeue, parser_forward, tx_dequeue, tx_send,
}

-- `bytes` is what the packets contain. A core takes a new burst when it is done with the last one,
-- and the card never takes more packets than it is given.
pub data Step {R : Type 0} (ring : RingOps R) (bytes : ℕ → List ℕ) (s : State R)
    : State R → Type 0 where
  receive :
      (pkts : List ℕ)
      → s.rx_buff ≡ []
      → length pkts ≤ burst_size
      → Step ring bytes s (rx_receive ring s pkts)
  forward : Step ring bytes s (rx_forward ring s)
  fetch : s.parser_buff ≡ [] → Step ring bytes s (parser_dequeue ring s)
  parse : Step ring bytes s (parser_forward ring bytes s)
  collect : s.tx_buff ≡ [] → Step ring bytes s (tx_dequeue ring s)
  send : (taken : ℕ) → taken ≤ length s.tx_buff → Step ring bytes s (tx_send ring s taken)

pub data Reach {R : Type 0} (ring : RingOps R) (bytes : ℕ → List ℕ) (s : State R)
    : State R → Type 0 where
  here : Reach ring bytes s s
  next : {t u : State R} → Reach ring bytes s t → Step ring bytes t u → Reach ring bytes s u

-- Before the first packet.
pub record IsStart {R : Type 0} (ring : RingOps R) (s : State R) : Type 0 where
  pub rx_ring : ring.contents s.rx_ring ≡ []
  pub tx_ring : ring.contents s.tx_ring ≡ []
  pub rx_buff : s.rx_buff ≡ []
  pub parser_buff : s.parser_buff ≡ []
  pub tx_buff : s.tx_buff ≡ []
  pub received : s.received ≡ []
  pub sent : s.sent ≡ []
  pub freed : s.freed ≡ []
