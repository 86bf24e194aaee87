-- ===== src/Threaded/Drain.antt =====
-- ThreadedParsing/ works off what it has: without new packets every core comes to rest.
use dpdk_code.Base.{
  ℕ, Bool, true, false, dec_lt, zero, suc, ◌+◌, ◌*◌, ◌≤◌, ◌<◌, ◌≡◌, ◌⊎◌, inl, inr, refl, ap, ◌∙◌,
  List, [], ◌∷◌, length, length-append, take, count, arith,
}
use dpdk_code.Dpdk.Ring.{RingOps, RingLaws}
use dpdk_code.Threaded.{
  State, burst_size, unsent, rx_forward, parser_dequeue, parser_forward, tx_dequeue, tx_send,
}
use dpdk_code.Threaded.Steps.{
  Step, receive, forward, fetch, parse, collect, send, Reach, next, IsStart,
}
use dpdk_code.Threaded.Conservation.{Reach-IsConserved}

length-take : (n : ℕ) (xs : List ℕ) → n ≤ length xs → length (take n xs) ≡ n
length-take zero xs h = refl
length-take (suc n) [] h = absurd (omega arith)
length-take (suc n) (x ∷ xs) h = ap suc (length-take n xs (omega arith))

module _ {R : Type 0} (ring : RingOps R) (laws : RingLaws ring) (bytes : ℕ → List ℕ) where
  -- How many moves the packets under way have before them, at most.
  abbrev pub load : State R → ℕ
  load s =
      5 * length s.rx_buff
      + 4 * length (ring.contents s.rx_ring)
      + 3 * length s.parser_buff
      + 2 * length (ring.contents s.tx_ring)
      + length s.tx_buff

  enqueued :
      (r : R) (xs : List ℕ)
      → length (ring.contents (ring.enqueue_burst r xs).1)
        ≡ length (ring.contents r) + (ring.enqueue_burst r xs).0
  enqueued r xs =
      let n = (ring.enqueue_burst r xs).0 in
      omega (
        arith,
        ap length (laws.contents-enqueue r xs),
        length-append (ring.contents r) (take n xs),
        length-take n xs (laws.enqueue-le r xs),
      )

  dequeued :
      (r : R) (n : ℕ)
      → length (ring.contents r)
        ≡ length (ring.dequeue_burst r n).0 + length (ring.contents (ring.dequeue_burst r n).1)
  dequeued r n =
      ap length (laws.contents-dequeue r n)
      ∙ length-append (ring.dequeue_burst r n).0 (ring.contents (ring.dequeue_burst r n).1)

  abbrev pub is_quiet : {s t : State R} → Step ring bytes s t → Bool
  is_quiet (receive pkts idle small) = false
  is_quiet forward = true
  is_quiet (fetch idle) = true
  is_quiet parse = true
  is_quiet (collect idle) = true
  is_quiet (send taken small) = true

  -- How many packets a step moves on.
  abbrev pub moved : {s t : State R} → Step ring bytes s t → ℕ
  moved (receive pkts idle small) = 0
  moved {s} forward = length s.rx_buff
  moved {s} (fetch idle) = length (ring.dequeue_burst s.rx_ring burst_size).0
  moved {s} parse = length s.parser_buff
  moved {s} (collect idle) = length (ring.dequeue_burst s.tx_ring burst_size).0
  moved {s} (send taken small) = length s.tx_buff

  load-moved :
      {s t : State R} (st : Step ring bytes s t) → is_quiet st ≡ true → load t + moved st ≤ load s
  unfolding rx_forward parser_dequeue parser_forward tx_dequeue tx_send
  load-moved (receive pkts idle small) quiet = absurd (ground arith)
  load-moved {s} forward quiet =
      omega (arith, enqueued s.rx_ring s.rx_buff, laws.enqueue-le s.rx_ring s.rx_buff)
  load-moved {s} (fetch idle) quiet = omega (arith, dequeued s.rx_ring burst_size, ap length idle)
  load-moved {s} parse quiet =
      omega (arith, enqueued s.tx_ring s.parser_buff, laws.enqueue-le s.tx_ring s.parser_buff)
  load-moved {s} (collect idle) quiet = omega (arith, dequeued s.tx_ring burst_size, ap length idle)
  load-moved {s} (send taken small) quiet = omega arith

  -- A run in which no packet comes in.
  pub data QuietRun (s : State R) : State R → Type 0 where
    rest : QuietRun s s
    more :
        {t u : State R}
        → QuietRun s t
        → (st : Step ring bytes t u) → is_quiet st ≡ true
        → QuietRun s u

  abbrev pub moves : {s t : State R} → QuietRun s t → ℕ
  moves rest = 0
  moves (more r st quiet) = moves r + moved st

  load-moves : {s t : State R} (r : QuietRun s t) → load t + moves r ≤ load s
  load-moves rest = omega arith
  load-moves (more r st quiet) = omega (arith, load-moves r, load-moved st quiet)

  -- Some core can move a packet on.
  abbrev pub CanMove : State R → Type 0
  CanMove s = (t : State R) × (st : Step ring bytes s t) × (is_quiet st ≡ true) × (0 < moved st)

  can_move : (s : State R) → 0 < load s → CanMove s
  can_move s busy = elim (dec_lt 0 (length s.tx_buff)) [
    | yes sending ↦ (_, send (length s.tx_buff) (omega arith), refl, sending)
    | no unsent ↦ elim (dec_lt 0 (length s.parser_buff)) [
      | yes parsing ↦ (_, parse, refl, parsing)
      | no parsed ↦ elim (dec_lt 0 (length s.rx_buff)) [
        | yes receiving ↦ (_, forward, refl, receiving)
        | no received ↦ elim (dec_lt 0 (length (ring.contents s.rx_ring))) [
          | yes queued ↦ (
            _,
            fetch (nil s.parser_buff parsed),
            refl,
            omega (arith, laws.length-dequeue s.rx_ring burst_size),
          )
          | no empty ↦ (
            _,
            collect (nil s.tx_buff unsent),
            refl,
            omega (arith, laws.length-dequeue s.tx_ring burst_size),
          )
        ]
      ]
    ]
  ]
    where
      nil : (xs : List ℕ) → ¬ (0 < length xs) → xs ≡ []
      nil [] h = refl
      nil (x ∷ xs) h = absurd (h (omega arith))

  Reach-QuietRun : {s t u : State R} → Reach ring bytes s t → QuietRun t u → Reach ring bytes s u
  Reach-QuietRun r rest = r
  Reach-QuietRun r (more q st quiet) = next (Reach-QuietRun r q) st

  -- Every packet that came in was sent or freed.
  abbrev pub IsSettled : State R → Type 0
  IsSettled s = (p : ℕ) → count p s.received ≡ count p s.sent + count p s.freed

  count_of_nil : (p : ℕ) (xs : List ℕ) → length xs ≡ 0 → count p xs ≡ 0
  count_of_nil p [] h = refl
  count_of_nil p (x ∷ xs) h = absurd (omega arith)

  settled : {s t : State R} → IsStart ring s → Reach ring bytes s t → load t ≡ 0 → IsSettled t
  settled {s} {t} x r still p = omega (
    arith,
    Reach-IsConserved ring laws bytes x r p,
    count_of_nil p t.rx_buff (omega arith),
    count_of_nil p (ring.contents t.rx_ring) (omega arith),
    count_of_nil p t.parser_buff (omega arith),
    count_of_nil p (ring.contents t.tx_ring) (omega arith),
    count_of_nil p t.tx_buff (omega arith),
  )

  -- In a state that the three cores reached from empty rings and buffers, and after any further
  -- steps in which no packet comes in: those steps moved packets from one place to the next no
  -- more often than 5 times for a packet that rx holds, 4 for one in the first ring, 3 for one at
  -- the parser, 2 for one in the second ring and 1 for one at tx; and in the state behind them
  -- either some core can take a step that moves a packet on, or each packet was sent or freed as
  -- often as it was received. The rings keep the documented laws of rte_ring.
  pub quiet_run_settles :
      {s t u : State R}
      → IsStart ring s
      → Reach ring bytes s t
      → (q : QuietRun t u) → (moves q ≤ load t) × (CanMove u ⊎ IsSettled u)
  quiet_run_settles {s} {t} {u} x r q = (
    omega (arith, load-moves q),
    elim (dec_lt 0 (load u)) [
      | yes busy ↦ inl (can_move u busy)
      | no still ↦ inr (settled x (Reach-QuietRun r q) (omega arith))
    ],
  )
