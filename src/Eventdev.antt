-- ===== src/Eventdev.antt =====
-- Eventdev/Parsing/main.c: one core turns packets into events of the queue RX_Q, the others move
-- them on to TX_Q and from there to the card.
pub mod Conservation
pub mod Setup
mod Examples
use dpdk_code.Base.{
  ℕ, Option, none, some, List, [], ◌∷◌, ◌++◌, map, length, drop, ltb, ◌==◌, if◌then◌else◌,
}
use dpdk_code.Dpdk.Events.{Event, EventOps}
use dpdk_code.Threaded.{unsent}

abbrev pub rx_q : ℕ
rx_q = 0

abbrev pub tx_q : ℕ
tx_q = 1

abbrev pub burst_size : ℕ
burst_size = 32

-- The device, and logs: what came in, what the card took, what was freed, and the packets whose
-- last pointer was dropped with no free.
pub record State (E : Type 0) : Type 0 where
  pub device : E
  pub received : List ℕ
  pub sent : List ℕ
  pub freed : List ℕ
  pub leaked : List ℕ

abbrev pub rx_events : List ℕ → List Event
rx_events pkts = map (λ (m : ℕ). record { queue_id = rx_q; event_ptr = m }) pkts

-- The mbuf of a call with one packet whose result is not read.
abbrev pub refused : ℕ → ℕ → List ℕ
refused done m = if done == 0 then m ∷ [] else []

abbrev pub accepted : ℕ → ℕ → List ℕ
accepted done m = if done == 0 then [] else m ∷ []

module _ {E : Type 0} (dev : EventOps E) where
  -- rx_loop, from one burst to the next.
  unfoldable pub rx_loop : State E → List ℕ → State E
  unfolding unsent
  rx_loop s pkts =
      let (ret, device') = dev.enqueue_burst s.device (rx_events pkts) in
      record s {
        device = device';
        received = s.received ++ pkts;
        freed = s.freed ++ unsent ret pkts;
      }

  -- worker_loop, for one event. `nb_tx` is what rte_eth_tx_burst returns, if it is called.
  unfoldable pub work : State E → Event → ℕ → State E
  work s ev nb_tx =
      let (ret, device') =
        dev.enqueue_burst s.device ((record { queue_id = tx_q; event_ptr = ev.event_ptr }) ∷ []) in
      if ev.queue_id == rx_q
      then record s { device = device'; leaked = s.leaked ++ refused ret ev.event_ptr }
      else record s {
        sent = s.sent ++ accepted nb_tx ev.event_ptr;
        leaked = s.leaked ++ refused nb_tx ev.event_ptr;
      }

  unfoldable pub worker_loop : State E → ℕ → State E
  worker_loop s nb_tx = elim (dev.dequeue s.device) [
    | none ↦ s
    | some (ev, device') ↦ work (record s { device = device' }) ev nb_tx
  ]
