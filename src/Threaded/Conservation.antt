-- ===== src/Threaded/Conservation.antt =====
-- ThreadedParsing/ loses no packet and frees none twice.
use dpdk_code.Base.{
  ℕ, ◌+◌, ◌≤◌, ◌≡◌, ap, List, length, take, drop, count, count-append, take-append-drop,
  drop_of_length-le, arith, dec_lt,
}
use dpdk_code.Dpdk.Ring.{RingOps, RingLaws}
use dpdk_code.Threaded.{
  State, burst_size, unsent, rx_receive, rx_forward, parser_dequeue, parser_forward, tx_dequeue,
  tx_send,
}
use dpdk_code.Threaded.Steps.{
  Step, receive, forward, fetch, parse, collect, send, Reach, here, next, IsStart,
}

pub count-unsent :
    (p n : ℕ) (xs : List ℕ)
    → n ≤ length xs
    → count p (take n xs) + count p (unsent n xs) ≡ count p xs
unfolding unsent
count-unsent p n xs h =
    let parts = ap (count p) (take-append-drop n xs) in
    let sums = count-append p (take n xs) (drop n xs) in
    elim (dec_lt n (length xs)) [
      | yes short ↦ ground (arith, parts, sums)
      | no all ↦ ground (arith, parts, sums, drop_of_length-le n xs (omega arith))
    ]

module _ {R : Type 0} (ring : RingOps R) (laws : RingLaws ring) (bytes : ℕ → List ℕ) where
  -- Where the packet `p` may be.
  abbrev pub places : ℕ → State R → ℕ
  places p s =
      count p s.sent
      + count p s.freed
      + count p (ring.contents s.rx_ring)
      + count p (ring.contents s.tx_ring)
      + count p s.rx_buff
      + count p s.parser_buff
      + count p s.tx_buff

  abbrev pub IsConserved : State R → Type 0
  IsConserved s = (p : ℕ) → count p s.received ≡ places p s

  enqueued :
      (p : ℕ) (r : R) (xs : List ℕ)
      → let (n, r') = ring.enqueue_burst r xs in
        count p (ring.contents r') + count p (unsent n xs) ≡ count p (ring.contents r) + count p xs
  enqueued p r xs =
      let n = (ring.enqueue_burst r xs).0 in
      omega (
        arith,
        ap (count p) (laws.contents-enqueue r xs),
        count-append p (ring.contents r) (take n xs),
        count-unsent p n xs (laws.enqueue-le r xs),
      )

  dequeued :
      (p : ℕ) (r : R) (n : ℕ)
      → let (out, r') = ring.dequeue_burst r n in
        count p out + count p (ring.contents r') ≡ count p (ring.contents r)
  dequeued p r n = omega (
    arith,
    ap (count p) (laws.contents-dequeue r n),
    count-append p (ring.dequeue_burst r n).0 (ring.contents (ring.dequeue_burst r n).1),
  )

  Step-IsConserved : {s t : State R} → Step ring bytes s t → IsConserved s → IsConserved t
  unfolding rx_receive rx_forward parser_dequeue parser_forward tx_dequeue tx_send
  Step-IsConserved {s} (receive pkts idle small) v p =
      omega (arith, v p, count-append p s.received pkts, ap (count p) idle)
  Step-IsConserved {s} forward v p = omega (
    arith,
    v p,
    enqueued p s.rx_ring s.rx_buff,
    count-append p s.freed (unsent (ring.enqueue_burst s.rx_ring s.rx_buff).0 s.rx_buff),
  )
  Step-IsConserved {s} (fetch idle) v p =
      omega (arith, v p, dequeued p s.rx_ring burst_size, ap (count p) idle)
  Step-IsConserved {s} parse v p = omega (
    arith,
    v p,
    enqueued p s.tx_ring s.parser_buff,
    count-append p s.freed (unsent (ring.enqueue_burst s.tx_ring s.parser_buff).0 s.parser_buff),
  )
  Step-IsConserved {s} (collect idle) v p =
      omega (arith, v p, dequeued p s.tx_ring burst_size, ap (count p) idle)
  Step-IsConserved {s} (send taken small) v p = omega (
    arith,
    v p,
    count-unsent p taken s.tx_buff small,
    count-append p s.sent (take taken s.tx_buff),
    count-append p s.freed (unsent taken s.tx_buff),
  )

  -- In every state that the three cores reach, from the start and in any order of their calls,
  -- each packet that came in is, as often as it came in, in exactly one place: sent, freed, in one
  -- of the rings, or in the buffer of one core. So no packet is lost and none is freed twice. The
  -- rings take and give the first packets of a burst, and the card takes at most what it is given.
  pub Reach-IsConserved : {s t : State R} → IsStart ring s → Reach ring bytes s t → IsConserved t
  Reach-IsConserved {s} x here p = ground (arith, x.rx_ring, x.tx_ring)
  Reach-IsConserved x (next r st) p = Step-IsConserved st (Reach-IsConserved x r) p
