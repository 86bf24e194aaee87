-- ===== src/Graphs/Classify/Walk.antt =====
-- A walk through the graph of Graphs/rx_packets/rx.c.
use mathlib.Core.List.{append-nil, append_assoc}
use dpdk_code.Base.{
  ℕ, ◌+◌, ◌≤◌, ◌≡◌, refl, sym, ap, ◌∙◌, true, false, some, List, [], ◌∷◌, ◌++◌, length,
  is_some-eq_some, arith, count, count-append, Bool-cases, inl, inr,
}
use dpdk_code.Parsing.{byte_at, be32_at, ether_type_ipv4, ether_type_ipv6}
use dpdk_code.Parsing.Reads.{byte_at_inside, is_some-be32_at}
use dpdk_code.Graphs.Classify.{
  State, Line, print_ipv4_loop, print_ipv4_process, print_ipv6_loop, print_ipv6_process, pending,
  run_nodes, rx_node_process,
}
use dpdk_code.Graphs.Classify.Partition.{
  AllFrames, keep, has_type, is_other, classify_node_partitions,
}

module _ (bytes : ℕ → List ℕ) where
  abbrev AllLong : ℕ → List ℕ → Type 0
  AllLong n [] = Unit
  AllLong n (m ∷ ms) = (n ≤ length (bytes m)) × AllLong n ms

  -- Every frame has an Ethernet header, IPv4 frames have the IPv4 header, and IPv6 frames have it
  -- up to the hop limit.
  abbrev pub AllPrintable : List ℕ → Type 0
  AllPrintable [] = Unit
  AllPrintable (m ∷ ms) =
      ((14 ≤ length (bytes m))
        × (has_type bytes ether_type_ipv4 m ≡ true → 34 ≤ length (bytes m))
        × (has_type bytes ether_type_ipv6 m ≡ true → 22 ≤ length (bytes m)))
      × AllPrintable ms

  printable-AllFrames : (ms : List ℕ) → AllPrintable ms → AllFrames bytes ms
  printable-AllFrames [] ok = tt
  printable-AllFrames (m ∷ ms) ok = (ok.0.0, printable-AllFrames ms ok.1)

  ipv4-AllLong :
      (ms : List ℕ) → AllPrintable ms → AllLong 34 (keep (has_type bytes ether_type_ipv4) ms)
  unfolding keep
  ipv4-AllLong [] ok = tt
  ipv4-AllLong (m ∷ ms) ok = elim (Bool-cases (has_type bytes ether_type_ipv4 m)) [
    | inl held ↦ rw held (ok.0.1 held, ipv4-AllLong ms ok.1)
    | inr other ↦ rw other (ipv4-AllLong ms ok.1)
  ]

  ipv6-AllLong :
      (ms : List ℕ) → AllPrintable ms → AllLong 22 (keep (has_type bytes ether_type_ipv6) ms)
  unfolding keep
  ipv6-AllLong [] ok = tt
  ipv6-AllLong (m ∷ ms) ok = elim (Bool-cases (has_type bytes ether_type_ipv6 m)) [
    | inl held ↦ rw held (ok.0.2 held, ipv6-AllLong ms ok.1)
    | inr other ↦ rw other (ipv6-AllLong ms ok.1)
  ]

  count-keep :
      (p : ℕ) (ms : List ℕ)
      → count p (keep (has_type bytes ether_type_ipv4) ms)
          + count p (keep (has_type bytes ether_type_ipv6) ms)
          + count p (keep (is_other bytes) ms)
        ≡ count p ms
  unfolding keep
  count-keep p [] = omega arith
  count-keep p (m ∷ ms) = ground (arith, count-keep p ms)

  -- What a printing node does: it frees what it was given.
  pub record Freed (s s' : State) (objs : List ℕ) : Type 0 where
    pub freed : s'.freed ≡ s.freed ++ objs
    pub flag : s'.rx_done ≡ s.rx_done

  print_ipv4_loop-Freed :
      (objs : List ℕ) (s : State)
      → AllLong 34 objs
      → (s' : State) × (print_ipv4_loop bytes s objs ≡ some s') × Freed s s' objs
  unfolding print_ipv4_loop
  print_ipv4_loop-Freed [] s ok =
      (s, refl, record { freed = sym (append-nil s.freed); flag = refl })
  print_ipv4_loop-Freed (m ∷ objs) s ok =
      let (src, at_src) =
        is_some-eq_some (be32_at (bytes m) 26)
          (ground (arith, is_some-be32_at (bytes m) 26, ok.0)) in
      let (dst, at_dst) =
        is_some-eq_some (be32_at (bytes m) 30)
          (ground (arith, is_some-be32_at (bytes m) 30, ok.0)) in
      let (ttl, at_ttl) =
        is_some-eq_some (byte_at (bytes m) 22)
          (ground (arith, byte_at_inside (bytes m) 22, ok.0)) in
      let (s', ran, x) =
        print_ipv4_loop-Freed objs
          (record s {
            freed = s.freed ++ (m ∷ []);
            printed = s.printed ++ (Line.ipv4_packet src dst ttl ∷ []);
          })
          ok.1 in
      (
        s',
        ground (arith, at_src, at_dst, at_ttl, ran),
        record { freed = x.freed ∙ append_assoc s.freed (m ∷ []) objs; flag = x.flag },
      )

  print_ipv6_loop-Freed :
      (objs : List ℕ) (s : State)
      → AllLong 22 objs
      → (s' : State) × (print_ipv6_loop bytes s objs ≡ some s') × Freed s s' objs
  unfolding print_ipv6_loop
  print_ipv6_loop-Freed [] s ok =
      (s, refl, record { freed = sym (append-nil s.freed); flag = refl })
  print_ipv6_loop-Freed (m ∷ objs) s ok =
      let (hop, at) =
        is_some-eq_some (byte_at (bytes m) 21)
          (ground (arith, byte_at_inside (bytes m) 21, ok.0)) in
      let (s', ran, x) =
        print_ipv6_loop-Freed objs
          (record s {
            freed = s.freed ++ (m ∷ []);
            printed = s.printed ++ (Line.ipv6_packet hop ∷ []);
          })
          ok.1 in
      (
        s',
        ground (arith, at, ran),
        record { freed = x.freed ∙ append_assoc s.freed (m ∷ []) objs; flag = x.flag },
      )

  ipv4_node-Freed :
      (objs : List ℕ) (s : State)
      → AllLong 34 objs
      → (s' : State) × (pending bytes (print_ipv4_process bytes) s objs ≡ some s') × Freed s s' objs
  unfolding pending print_ipv4_process
  ipv4_node-Freed [] s ok = (s, refl, record { freed = sym (append-nil s.freed); flag = refl })
  ipv4_node-Freed (m ∷ objs) s ok =
      let (s', ran, x) =
        print_ipv4_loop-Freed (m ∷ objs)
          (record s { printed = s.printed ++ (Line.ipv4_packets (length (m ∷ objs)) ∷ []) }) ok in
      (s', ran, record { freed = x.freed; flag = x.flag })

  ipv6_node-Freed :
      (objs : List ℕ) (s : State)
      → AllLong 22 objs
      → (s' : State) × (pending bytes (print_ipv6_process bytes) s objs ≡ some s') × Freed s s' objs
  unfolding pending print_ipv6_process
  ipv6_node-Freed [] s ok = (s, refl, record { freed = sym (append-nil s.freed); flag = refl })
  ipv6_node-Freed (m ∷ objs) s ok =
      let (s', ran, x) =
        print_ipv6_loop-Freed (m ∷ objs)
          (record s { printed = s.printed ++ (Line.ipv6_packets (length (m ∷ objs)) ∷ []) }) ok in
      (s', ran, record { freed = x.freed; flag = x.flag })

  run_nodes-freed :
      (s : State) (pkts : List ℕ)
      → AllPrintable pkts
      → (s' : State) × (run_nodes bytes s pkts ≡ some s')
        × (s'.rx_done ≡ s.rx_done)
        × ((p : ℕ) → count p s'.freed ≡ count p s.freed + count p pkts)
  unfolding run_nodes
  run_nodes-freed s pkts ok =
      let four = keep (has_type bytes ether_type_ipv4) pkts in
      let six = keep (has_type bytes ether_type_ipv6) pkts in
      let other = keep (is_other bytes) pkts in
      let sorted = classify_node_partitions bytes pkts (printable-AllFrames pkts ok) in
      let (s1, ran1, x) =
        ipv4_node-Freed four (record s { freed = s.freed ++ other }) (ipv4-AllLong pkts ok) in
      let (s2, ran2, y) = ipv6_node-Freed six s1 (ipv6-AllLong pkts ok) in
      (
        s2,
        ground (arith, sorted, ran1, ran2),
        y.flag ∙ x.flag,
        λ p. omega (
          arith,
          ap (count p) y.freed,
          ap (count p) x.freed,
          count-append p s1.freed six,
          count-append p (s.freed ++ other) four,
          count-append p s.freed other,
          count-keep p pkts,
        ),
      )

  rx_node_again :
      (s : State) (more : List ℕ) → s.rx_done ≡ true → rx_node_process bytes s more ≡ some s
  unfolding rx_node_process
  rx_node_again s [] flag = refl
  rx_node_again s (m ∷ more) flag = rw (flag, rx_node_process)

  -- The first walk through the graph of Graphs/rx_packets/rx.c that receives a burst which is not
  -- empty, of frames that hold the fields which are printed of them, returns without a fault and
  -- frees each received packet once; every later walk does nothing, whatever the card would give.
  pub rx_node_once :
      (s : State) (m : ℕ) (pkts : List ℕ)
      → s.rx_done ≡ false
      → AllPrintable (m ∷ pkts)
      → (s' : State) × (rx_node_process bytes s (m ∷ pkts) ≡ some s')
        × ((p : ℕ) → count p s'.freed ≡ count p s.freed + count p (m ∷ pkts))
        × ((more : List ℕ) → rx_node_process bytes s' more ≡ some s')
  unfolding rx_node_process
  rx_node_once s m pkts first ok =
      let (s', ran, flag, freed) = run_nodes-freed (record s { rx_done = true }) (m ∷ pkts) ok in
      (s', rw first ran, freed, λ more. rx_node_again s' more flag)
