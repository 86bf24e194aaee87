-- ===== src/L2fwd/Forward/Crossing.antt =====
-- l2fwd/main.c: packets cross over in order, and none is lost or freed twice.
use dpdk_code.Base.{
  ℕ, ◌+◌, ◌≤◌, ◌≡◌, ◌⊎◌, inl, inr, List, [], ◌∷◌, length, take, count, count-append, arith,
  Subsequence, Subsequence-take, Subsequence-append,
}
use dpdk_code.Threaded.{unsent}
use dpdk_code.Threaded.Conservation.{count-unsent}
use dpdk_code.L2fwd.Forward.{Ports, Burst, dst_port, forward, main_loop}

-- A burst of one of the two ports, of which the card takes at most all.
pub record IsBurst (b : Burst) : Type 0 where
  pub port : (b.port ≡ 0) ⊎ (b.port ≡ 1)
  pub nb_tx : b.nb_tx ≤ length b.bufs

abbrev pub AllBursts : List Burst → Type 0
AllBursts [] = Unit
AllBursts (b ∷ bs) = IsBurst b × AllBursts bs

-- Each packet is once in what was sent or freed for each time it came in, and what a port sent is
-- in the order in which the other port received it.
pub record IsCrossed (s : Ports) : Type 0 where
  pub conserved :
      (p : ℕ)
      → count p (s.received 0) + count p (s.received 1)
        ≡ count p (s.sent 0) + count p (s.sent 1) + count p s.freed
  pub from0 : Subsequence (s.sent 1) (s.received 0)
  pub from1 : Subsequence (s.sent 0) (s.received 1)

forward-IsCrossed : (s : Ports) (b : Burst) → IsBurst b → IsCrossed s → IsCrossed (forward s b)
unfolding forward dst_port
forward-IsCrossed s b ok x = elim ok.port [
  | inl zero_port ↦ record {
    conserved = λ p. ground (
      arith,
      x.conserved p,
      count-append p (s.received 0) b.bufs,
      count-append p (s.sent 1) (take b.nb_tx b.bufs),
      count-append p s.freed (unsent b.nb_tx b.bufs),
      count-unsent p b.nb_tx b.bufs ok.nb_tx,
    );
    from0 = rw zero_port (Subsequence-append x.from0 (Subsequence-take b.nb_tx b.bufs));
    from1 = rw zero_port x.from1;
  }
  | inr one_port ↦ record {
    conserved = λ p. ground (
      arith,
      x.conserved p,
      count-append p (s.received 1) b.bufs,
      count-append p (s.sent 0) (take b.nb_tx b.bufs),
      count-append p s.freed (unsent b.nb_tx b.bufs),
      count-unsent p b.nb_tx b.bufs ok.nb_tx,
    );
    from0 = rw one_port x.from0;
    from1 = rw one_port (Subsequence-append x.from1 (Subsequence-take b.nb_tx b.bufs));
  }
]

-- For any bursts of the two ports, of which the card takes at most all packets, the loop of
-- l2fwd/main.c keeps this true: each packet was sent or freed as often as it was received, and
-- what each port sent is in the order in which the other port received it.
pub main_loop-IsCrossed :
    (bs : List Burst) (s : Ports) → AllBursts bs → IsCrossed s → IsCrossed (main_loop s bs)
unfolding main_loop
main_loop-IsCrossed [] s ok x = x
main_loop-IsCrossed (b ∷ bs) s ok x =
    main_loop-IsCrossed bs (forward s b) ok.1 (forward-IsCrossed s b ok.0 x)
