-- ===== src/Ports/Echo.antt =====
-- What the loops of Ports/ports.c and PacketParsing/main.c keep of the packets.
use mathlib.Core.List.{append-nil, append_assoc}
use dpdk_code.Base.{
  ℕ, suc, ◌+◌, ◌≤◌, ◌≡◌, refl, sym, ap, ◌∙◌, some, List, [], ◌∷◌, ◌++◌, length, length-append, take,
  count, count-append, arith, is_some-eq_some, Subsequence, Subsequence-take, Subsequence-append,
}
use dpdk_code.Parsing.{Line, packet_parsing}
use dpdk_code.Parsing.Bounds.{claimed, parsers_inside}
use dpdk_code.Threaded.{unsent}
use dpdk_code.Threaded.Conservation.{count-unsent}
use dpdk_code.Ports.{
  Packet, Echoed, Round, Parsed, mbufs, dump_from, echo_round, echo_loop, parse_burst,
}

-- The card takes at most what it is given.
abbrev pub AllRounds : List Round → Type 0
AllRounds [] = Unit
AllRounds (r ∷ rs) = (r.nb_tx ≤ length (mbufs r.buff)) × AllRounds rs

pub record IsEchoed (s : Echoed) : Type 0 where
  pub conserved : (p : ℕ) → count p s.received ≡ count p s.sent + count p s.freed
  pub ordered : Subsequence s.sent s.received
  pub dumped : length s.dumps ≡ length s.received

length-dump_from : (i : ℕ) (ps : List Packet) → length (dump_from i ps) ≡ length (mbufs ps)
unfolding dump_from
length-dump_from i [] = refl
length-dump_from i (p ∷ ps) = ap suc (length-dump_from (suc i) ps)

echo_round-IsEchoed :
    (s : Echoed) (buff : List Packet) (nb_tx : ℕ)
    → nb_tx ≤ length (mbufs buff)
    → IsEchoed s
    → IsEchoed (echo_round s buff nb_tx)
unfolding echo_round
echo_round-IsEchoed s buff nb_tx small x = record {
  conserved = λ p. omega (
    arith,
    x.conserved p,
    count-append p s.received (mbufs buff),
    count-append p s.sent (take nb_tx (mbufs buff)),
    count-append p s.freed (unsent nb_tx (mbufs buff)),
    count-unsent p nb_tx (mbufs buff) small,
  );
  ordered = Subsequence-append x.ordered (Subsequence-take nb_tx (mbufs buff));
  dumped = omega (
    arith,
    x.dumped,
    length-append s.dumps (dump_from 0 buff),
    length-append s.received (mbufs buff),
    length-dump_from 0 buff,
  );
}

pub echo_loop-IsEchoed :
    (rs : List Round) (s : Echoed) → AllRounds rs → IsEchoed s → IsEchoed (echo_loop s rs)
unfolding echo_loop
echo_loop-IsEchoed [] s ok x = x
echo_loop-IsEchoed (r ∷ rs) s ok x =
    echo_loop-IsEchoed rs (echo_round s r.buff r.nb_tx) ok.1
      (echo_round-IsEchoed s r.buff r.nb_tx ok.0 x)

-- Each packet is as long as its headers claim.
abbrev pub AllWhole : List Packet → Type 0
AllWhole [] = Unit
AllWhole (p ∷ ps) = (claimed p.bytes ≤ length p.bytes) × AllWhole ps

-- What is printed of each packet.
abbrev pub Prints : List Packet → List (List Line) → Type 0
Prints [] [] = Unit
Prints [] (l ∷ ls) = ⊥
Prints (p ∷ ps) [] = ⊥
Prints (p ∷ ps) (l ∷ ls) = (packet_parsing p.bytes ≡ some l) × Prints ps ls

pub parse_burst_exact :
    (ps : List Packet) (s : Parsed)
    → AllWhole ps
    → (s' : Parsed) × (new : List (List Line)) × (parse_burst s ps ≡ some s')
      × (s'.printed ≡ s.printed ++ new)
      × Prints ps new
      × (s'.freed ≡ s.freed ++ mbufs ps)
unfolding parse_burst
parse_burst_exact [] s ok = (s, [], refl, sym (append-nil s.printed), tt, sym (append-nil s.freed))
parse_burst_exact (p ∷ ps) s ok =
    let (lines, at) =
      is_some-eq_some (packet_parsing p.bytes) (ground (arith, parsers_inside p.bytes, ok.0)) in
    let (s', new, ran, printed, prints, freed) =
      parse_burst_exact ps
        (record { printed = s.printed ++ (lines ∷ []); freed = s.freed ++ (p.mbuf ∷ []) }) ok.1 in
    (
      s',
      lines ∷ new,
      rw at ran,
      printed ∙ append_assoc s.printed (lines ∷ []) new,
      (at, prints),
      freed ∙ append_assoc s.freed (p.mbuf ∷ []) (mbufs ps),
    )

-- For any bursts, of which the card takes at most all packets back, the loop of Ports/ports.c
-- keeps this true: each packet was sent or freed as often as it was received, what was sent is in
-- the order in which it was received, and there is one dump for each packet. And when each packet
-- of a burst is as long as its headers claim, the loop of PacketParsing/main.c handles the burst
-- without a fault: it adds, in order, what packet_parsing prints of each packet, and frees each
-- packet once, in order.
pub receiving_loops :
    (rs : List Round) (s : Echoed) (ps : List Packet) (t : Parsed)
    → AllRounds rs
    → IsEchoed s
    → AllWhole ps
    → IsEchoed (echo_loop s rs)
      × (t' : Parsed) × (new : List (List Line)) × (parse_burst t ps ≡ some t')
      × (t'.printed ≡ t.printed ++ new)
      × Prints ps new
      × (t'.freed ≡ t.freed ++ mbufs ps)
receiving_loops rs s ps t rounds echoed whole =
    let (t', new, ran, printed, prints, freed) = parse_burst_exact ps t whole in
    (echo_loop-IsEchoed rs s rounds echoed, t', new, ran, printed, prints, freed)
