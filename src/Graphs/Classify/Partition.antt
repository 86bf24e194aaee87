-- ===== src/Graphs/Classify/Partition.antt =====
-- The classify node of Graphs/rx_packets/rx.c against filters of its input.
use mathlib.Core.List.{append-nil, append_assoc}
use dpdk_code.Base.{
  ℕ, ◌≤◌, ◌≡◌, refl, sym, ◌∙◌, Bool, false, ◌&&◌, not, none, some, List, [], ◌∷◌, ◌++◌, length,
  ◌==◌, if◌then◌else◌, is_some-eq_some, arith, Bool-cases, inl, inr,
}
use dpdk_code.Parsing.{be16_at, ether_type_ipv4, ether_type_ipv6}
use dpdk_code.Parsing.Reads.{be16_at_inside}
use dpdk_code.Graphs.Classify.{Sorted, sort_one, classify_from, classify_node_process}

-- A frame with a whole Ethernet header.
abbrev pub AllFrames : (ℕ → List ℕ) → List ℕ → Type 0
AllFrames bytes [] = Unit
AllFrames bytes (m ∷ ms) = (14 ≤ length (bytes m)) × AllFrames bytes ms

unfoldable pub keep : (ℕ → Bool) → List ℕ → List ℕ
keep test [] = []
keep test (m ∷ ms) = let rest = keep test ms in if test m then m ∷ rest else rest

module _ (bytes : ℕ → List ℕ) where
  abbrev pub has_type : ℕ → ℕ → Bool
  has_type t m = elim (be16_at (bytes m) 12) [ none ↦ false | some u ↦ u == t ]

  abbrev pub is_other : ℕ → Bool
  is_other m = not (has_type ether_type_ipv4 m) && not (has_type ether_type_ipv6 m)

  pub record IsPartition (c c' : Sorted) (objs : List ℕ) : Type 0 where
    pub ipv4 : c'.ipv4_objs ≡ c.ipv4_objs ++ keep (has_type ether_type_ipv4) objs
    pub ipv6 : c'.ipv6_objs ≡ c.ipv6_objs ++ keep (has_type ether_type_ipv6) objs
    pub freed : c'.freed ≡ c.freed ++ keep is_other objs

  sort_one-IsPartition :
      (c : Sorted) (m t : ℕ)
      → be16_at (bytes m) 12 ≡ some t
      → IsPartition c (sort_one bytes c m t) (m ∷ [])
  unfolding keep
  sort_one-IsPartition c m t read = elim (Bool-cases (t == ether_type_ipv4)) [
    | inl four ↦ record {
      ipv4 = ground arith;
      ipv6 = ground (arith, append-nil c.ipv6_objs);
      freed = ground (arith, append-nil c.freed);
    }
    | inr other ↦ elim (Bool-cases (t == ether_type_ipv6)) [
      | inl six ↦ record {
        ipv4 = ground (arith, append-nil c.ipv4_objs);
        ipv6 = ground arith;
        freed = ground (arith, append-nil c.freed);
      }
      | inr neither ↦ record {
        ipv4 = ground (arith, append-nil c.ipv4_objs);
        ipv6 = ground (arith, append-nil c.ipv6_objs);
        freed = ground arith;
      }
    ]
  ]

  keep-cons :
      (test : ℕ → Bool) (m : ℕ) (ms : List ℕ)
      → keep test (m ∷ ms) ≡ keep test (m ∷ []) ++ keep test ms
  unfolding keep
  keep-cons test m ms = ground arith

  join :
      (c c1 c' : Sorted) (m : ℕ) (objs : List ℕ)
      → IsPartition c c1 (m ∷ [])
      → IsPartition c1 c' objs
      → IsPartition c c' (m ∷ objs)
  join c c1 c' m objs x y = record {
    ipv4 = y.ipv4 ∙ simp (x.ipv4, append_assoc, keep-cons (has_type ether_type_ipv4) m objs) refl;
    ipv6 = y.ipv6 ∙ simp (x.ipv6, append_assoc, keep-cons (has_type ether_type_ipv6) m objs) refl;
    freed = y.freed ∙ simp (x.freed, append_assoc, keep-cons is_other m objs) refl;
  }

  classify_from-IsPartition :
      (objs : List ℕ) (c : Sorted)
      → AllFrames bytes objs
      → (c' : Sorted) × (classify_from bytes c objs ≡ some c') × IsPartition c c' objs
  unfolding classify_from keep
  classify_from-IsPartition [] c ok = (
    c,
    refl,
    record {
      ipv4 = sym (append-nil c.ipv4_objs);
      ipv6 = sym (append-nil c.ipv6_objs);
      freed = sym (append-nil c.freed);
    },
  )
  classify_from-IsPartition (m ∷ objs) c ok =
      let (t, read) =
        is_some-eq_some (be16_at (bytes m) 12)
          (ground (arith, be16_at_inside (bytes m) 12, ok.0)) in
      let (c', ran, x) = classify_from-IsPartition objs (sort_one bytes c m t) ok.1 in
      (c', rw read ran, join c (sort_one bytes c m t) c' m objs (sort_one-IsPartition c m t read) x)

  -- For objects with whole Ethernet headers the classify node of Graphs/rx_packets/rx.c gives the
  -- IPv4 frames to its first edge, the IPv6 frames to its second, each in their order, and frees
  -- all others.
  pub classify_node_partitions :
      (objs : List ℕ)
      → AllFrames bytes objs
      → classify_node_process bytes objs
        ≡ some (record {
          ipv4_objs = keep (has_type ether_type_ipv4) objs;
          ipv6_objs = keep (has_type ether_type_ipv6) objs;
          freed = keep is_other objs;
        })
  unfolding classify_node_process
  classify_node_partitions objs ok =
      let (c', ran, x) =
        classify_from-IsPartition objs (record { ipv4_objs = []; ipv6_objs = []; freed = [] }) ok in
      ground (arith, ran, x.ipv4, x.ipv6, x.freed)
