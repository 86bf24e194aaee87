-- ===== src/Threaded/Order.antt =====
-- ThreadedParsing/ keeps the order of the packets.
use mathlib.Core.List.{append-nil, append_assoc}
use dpdk_code.Base.{
  ℕ, ◌≡◌, refl, sym, subst, List, [], ◌++◌, Subsequence, done, Subsequence-refl, Subsequence-take,
  Subsequence-append, Subsequence-trans, Subsequence-under,
}
use dpdk_code.Dpdk.Ring.{RingOps, RingLaws}
use dpdk_code.Threaded.{
  State, burst_size, rx_receive, rx_forward, parser_dequeue, parser_forward, tx_dequeue, tx_send,
}
use dpdk_code.Threaded.Steps.{
  Step, receive, forward, fetch, parse, collect, send, Reach, here, next, IsStart,
}

module _ {R : Type 0} (ring : RingOps R) (laws : RingLaws ring) (bytes : ℕ → List ℕ) where
  -- The packets that were sent and those under way, oldest first.
  abbrev pub line_up : State R → List ℕ
  line_up s =
      s.sent
      ++ (s.tx_buff
          ++ (ring.contents s.tx_ring ++ (s.parser_buff ++ (ring.contents s.rx_ring ++ s.rx_buff))))

  abbrev pub IsOrdered : State R → Type 0
  IsOrdered s = Subsequence (line_up s) s.received

  -- A burst that moves into a ring loses only its end.
  into_ring :
      (r : R) (xs zs : List ℕ)
      → Subsequence
          (ring.contents (ring.enqueue_burst r xs).1 ++ zs)
          (ring.contents r ++ (xs ++ zs))
  into_ring r xs zs =
      let n = (ring.enqueue_burst r xs).0 in
      rw (laws.contents-enqueue r xs, append_assoc)
        (Subsequence-append (Subsequence-refl (ring.contents r))
          (Subsequence-append (Subsequence-take n xs) (Subsequence-refl zs)))

  Step-shrinks :
      {s t : State R}
      → Step ring bytes s t
      → (more : List ℕ) × (t.received ≡ s.received ++ more)
        × Subsequence (line_up t) (line_up s ++ more)
  unfolding rx_receive rx_forward parser_dequeue parser_forward tx_dequeue tx_send
  Step-shrinks {s} (receive pkts idle small) =
      (pkts, refl, simp (idle, append-nil, append_assoc) (Subsequence-refl _))
  Step-shrinks {s} forward = (
    [],
    sym (append-nil s.received),
    simp append-nil (
        simp append-nil at (
          Subsequence-under s.sent (
            Subsequence-under s.tx_buff (
              Subsequence-under (ring.contents s.tx_ring)
                (Subsequence-under s.parser_buff (into_ring s.rx_ring s.rx_buff [])))))),
  )
  Step-shrinks {s} (fetch idle) = (
    [],
    sym (append-nil s.received),
    simp (append-nil, idle, laws.contents-dequeue s.rx_ring burst_size, append_assoc)
        (Subsequence-refl _),
  )
  Step-shrinks {s} parse = (
    [],
    sym (append-nil s.received),
    simp append-nil (
        Subsequence-under s.sent (
          Subsequence-under s.tx_buff
            (into_ring s.tx_ring s.parser_buff (ring.contents s.rx_ring ++ s.rx_buff)))),
  )
  Step-shrinks {s} (collect idle) = (
    [],
    sym (append-nil s.received),
    simp (append-nil, idle, laws.contents-dequeue s.tx_ring burst_size, append_assoc)
        (Subsequence-refl _),
  )
  Step-shrinks {s} (send taken small) = (
    [],
    sym (append-nil s.received),
    simp (append-nil, append_assoc)
        (Subsequence-under s.sent
          (Subsequence-append (Subsequence-take taken s.tx_buff) (Subsequence-refl _))),
  )

  -- In every state that the three cores reach, from the start and in any order of their calls, the
  -- packets that were sent, followed by those under way from the card to the first core, are in
  -- the order in which they came in.
  pub Reach-IsOrdered : {s t : State R} → IsStart ring s → Reach ring bytes s t → IsOrdered t
  Reach-IsOrdered {s} x here =
      simp (x.rx_ring, x.tx_ring, x.rx_buff, x.parser_buff, x.tx_buff, x.received, x.sent) done
  Reach-IsOrdered x (next {t} {u} r st) =
      let (more, grown, shrunk) = Step-shrinks st in
      subst (Subsequence (line_up u)) (sym grown) (
        Subsequence-trans shrunk (Subsequence-append (Reach-IsOrdered x r) (Subsequence-refl more)))
