-- ===== src/Threaded/Printing.antt =====
-- What the parser core of ThreadedParsing/ has printed, against what came in and what was sent.
use mathlib.Core.List.{append-nil, append_assoc}
use dpdk_code.Base.{
  ℕ, ◌≡◌, refl, sym, ap, ◌∙◌, Option, List, [], ◌∷◌, ◌++◌, map, Subsequence, done, Subsequence-refl,
  Subsequence-take, Subsequence-append, Subsequence-trans, Subsequence-under,
}
use dpdk_code.Dpdk.Ring.{RingOps, RingLaws}
use dpdk_code.Parsing.{Line, parser}
use dpdk_code.Threaded.{
  State, burst_size, rx_receive, rx_forward, parser_dequeue, parser_forward, tx_dequeue, tx_send,
}
use dpdk_code.Threaded.Steps.{
  Step, receive, forward, fetch, parse, collect, send, Reach, here, next, IsStart,
}

map-append : {A B : Type 0} (f : A → B) (xs ys : List A) → map f (xs ++ ys) ≡ map f xs ++ map f ys
map-append f [] ys = refl
map-append f (x ∷ xs) ys = ap (λ (l : List _). f x ∷ l) (map-append f xs ys)

module _ {R : Type 0} (ring : RingOps R) (laws : RingLaws ring) (bytes : ℕ → List ℕ) where
  -- The packets of `parsed`, and they alone, were printed, each once. Behind them are the packets
  -- that still come to the parser, and what it let through is among them.
  pub record IsPrinted (s : State R) (parsed : List ℕ) : Type 0 where
    pub printed : s.printed ≡ map (λ m. parser (bytes m)) parsed
    pub coming :
        Subsequence (parsed ++ (s.parser_buff ++ (ring.contents s.rx_ring ++ s.rx_buff))) s.received
    pub gone : Subsequence (s.sent ++ (s.tx_buff ++ ring.contents s.tx_ring)) parsed

  into_ring_last :
      (r : R) (xs : List ℕ)
      → Subsequence (ring.contents (ring.enqueue_burst r xs).1) (ring.contents r ++ xs)
  into_ring_last r xs = rw (laws.contents-enqueue r xs) (
      Subsequence-append (Subsequence-refl (ring.contents r))
        (Subsequence-take (ring.enqueue_burst r xs).0 xs))

  Step-IsPrinted :
      {s t : State R} (parsed : List ℕ)
      → IsPrinted s parsed
      → Step ring bytes s t
      → (parsed' : List ℕ) × IsPrinted t parsed'
  unfolding rx_receive rx_forward parser_dequeue parser_forward tx_dequeue tx_send
  Step-IsPrinted {s} parsed x (receive pkts idle small) = (
    parsed,
    record {
      printed = x.printed;
      coming =
          simp (idle, append-nil, append_assoc) at
            (Subsequence-append x.coming (Subsequence-refl pkts));
      gone = x.gone;
    },
  )
  Step-IsPrinted {s} parsed x forward = (
    parsed,
    record {
      printed = x.printed;
      coming = rw (append-nil (ring.contents (ring.enqueue_burst s.rx_ring s.rx_buff).1)) (
          Subsequence-trans
            (Subsequence-under parsed
              (Subsequence-under s.parser_buff (into_ring_last s.rx_ring s.rx_buff)))
            x.coming);
      gone = x.gone;
    },
  )
  Step-IsPrinted {s} parsed x (fetch idle) = (
    parsed,
    record {
      printed = x.printed;
      coming = simp (idle, laws.contents-dequeue s.rx_ring burst_size, append_assoc) at x.coming;
      gone = x.gone;
    },
  )
  Step-IsPrinted {s} parsed x parse = (
    parsed ++ s.parser_buff,
    record {
      printed =
          ap (λ (l : List (Option (List Line))). l ++ map (λ m. parser (bytes m)) s.parser_buff)
            x.printed
          ∙ sym (map-append (λ m. parser (bytes m)) parsed s.parser_buff);
      coming = rw append_assoc x.coming;
      gone =
          Subsequence-trans
            (Subsequence-under s.sent
              (Subsequence-under s.tx_buff (into_ring_last s.tx_ring s.parser_buff)))
            (simp append_assoc at (Subsequence-append x.gone (Subsequence-refl s.parser_buff)));
    },
  )
  Step-IsPrinted {s} parsed x (collect idle) = (
    parsed,
    record {
      printed = x.printed;
      coming = x.coming;
      gone = simp (idle, laws.contents-dequeue s.tx_ring burst_size) at x.gone;
    },
  )
  Step-IsPrinted {s} parsed x (send taken small) = (
    parsed,
    record {
      printed = x.printed;
      coming = x.coming;
      gone = rw append_assoc (
          Subsequence-trans
            (Subsequence-under s.sent (
              Subsequence-append (Subsequence-take taken s.tx_buff)
                (Subsequence-refl (ring.contents s.tx_ring))))
            x.gone);
    },
  )

  -- In every state that the three cores reach, from empty rings and logs and in any order of their
  -- calls: what was printed is what the parser prints of a list of packets, one after the other
  -- and each once; these packets, followed by those that still come to the parser, are in the
  -- order in which they came in, each at most as often as it came in; and the packets that were
  -- sent, followed by those on the way from the parser to the card, are among the printed ones, in
  -- their order. So each packet that was sent was parsed before. The rings keep the documented
  -- laws of rte_ring.
  pub Reach-IsPrinted :
      {s t : State R}
      → IsStart ring s
      → s.printed ≡ []
      → Reach ring bytes s t
      → (parsed : List ℕ) × IsPrinted t parsed
  Reach-IsPrinted {s} x silent here = (
    [],
    record {
      printed = silent;
      coming = simp (x.parser_buff, x.rx_ring, x.rx_buff, x.received) done;
      gone = simp (x.sent, x.tx_buff, x.tx_ring) done;
    },
  )
  Reach-IsPrinted x silent (next {t} r st) =
      let (parsed, y) = Reach-IsPrinted x silent r in Step-IsPrinted parsed y st
