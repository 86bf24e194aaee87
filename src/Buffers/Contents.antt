-- ===== src/Buffers/Contents.antt =====
-- What mbuf/operations.c leaves in the packet, and where it stops.
use dpdk_code.Base.{
  ℕ, zero, suc, ◌+◌, ◌-◌, ◌%◌, ◌^◌, ◌≤◌, ◌<◌, ◌≡◌, ◌⊎◌, inl, inr, refl, arith, ap, subst, ◌∙◌, List,
  [], ◌∷◌, ◌++◌, map, some, false, dec_lt,
}
use dpdk_code.Dpdk.Mbuf.{Mbuf, MbufOps, MbufLaws}
use dpdk_code.Buffers.{
  exits, finished, append_failed, prepend_failed, Dump, dump_mbuf, fill, payload, header, adjust,
  prepend_header, trim_payload, append_payload, main, after_append, after_trim, after_prepend,
  after_adj,
}

fill_in :
    (f : ℕ → ℕ) (p n : ℕ) (bytes : ℕ → ℕ) (i : ℕ) → i < n → fill f p n bytes (p + i) ≡ f i % 2 ^ 8
unfolding fill
fill_in f p zero bytes i h = absurd (omega arith)
fill_in f p (suc n) bytes i h = elim (dec_lt i n) [
  | yes below ↦ ground (arith, fill_in f p n bytes i below)
  | no at ↦ let same : i ≡ n = omega arith in ground (arith, ap f same)
]

fill_below : (f : ℕ → ℕ) (p n : ℕ) (bytes : ℕ → ℕ) (q : ℕ) → q < p → fill f p n bytes q ≡ bytes q
unfolding fill
fill_below f p zero bytes q h = refl
fill_below f p (suc n) bytes q h = ground (arith, fill_below f p n bytes q h)

fill_above :
    (f : ℕ → ℕ) (p n : ℕ) (bytes : ℕ → ℕ) (q : ℕ) → p + n ≤ q → fill f p n bytes q ≡ bytes q
unfolding fill
fill_above f p zero bytes q h = refl
fill_above f p (suc n) bytes q h = ground (arith, fill_above f p n bytes q (omega arith))

-- A new mbuf: no data.
pub record IsFresh (m : Mbuf) : Type 0 where
  pub no_data : m.data_len ≡ 0
  pub no_packet : m.pkt_len ≡ 0
  pub inside : m.data_off ≤ m.buf_len

-- Ten bytes of the header and sixty of the payload, and what was not written as it was.
pub record Packed (m m' : Mbuf) : Type 0 where
  pub data_off : m'.data_off + 10 ≡ m.data_off
  pub data_len : m'.data_len ≡ 70
  pub pkt_len : m'.pkt_len ≡ 70
  pub header : (i : ℕ) → i < 10 → m'.bytes (m'.data_off + i) ≡ 0xAA
  pub payload : (i : ℕ) → i < 60 → m'.bytes (m'.data_off + (10 + i)) ≡ i
  pub below : (q : ℕ) → q + 20 < m.data_off → m'.bytes q ≡ m.bytes q
  pub above : (q : ℕ) → m.data_off + 100 ≤ q → m'.bytes q ≡ m.bytes q

abbrev pub lengths : List Dump → List ℕ
lengths ds = map (λ (d : Dump). d.data_len) ds

-- The mbuf after each step that is taken.
abbrev pub appended : Mbuf → Mbuf
appended m = record m {
  bytes = fill payload (m.data_off + m.data_len) 100 m.bytes;
  data_len = m.data_len + 100;
  pkt_len = m.pkt_len + 100;
}

abbrev pub trimmed : Mbuf → Mbuf
trimmed m = record m { data_len = m.data_len - 40; pkt_len = m.pkt_len - 40 }

abbrev pub prepended : Mbuf → Mbuf
prepended m = record m {
  bytes = fill header (m.data_off - 20) 20 m.bytes;
  data_off = m.data_off - 20;
  data_len = m.data_len + 20;
  pkt_len = m.pkt_len + 20;
}

abbrev pub adjusted : Mbuf → Mbuf
adjusted m = record m {
  data_off = m.data_off + 10;
  data_len = m.data_len - 10;
  pkt_len = m.pkt_len - 10;
}

adjusted-Packed :
    (m : Mbuf)
    → IsFresh m
    → 20 ≤ m.data_off
    → Packed m (adjusted (prepended (trimmed (appended m))))
adjusted-Packed m fresh headroom =
    let h = m.data_off - 20 in
    let p = m.data_off + m.data_len in
    let appended_bytes = fill payload p 100 m.bytes in
    record {
      data_off = omega arith;
      data_len = omega (arith, fresh.no_data);
      pkt_len = omega (arith, fresh.no_packet);
      header = λ i small.
          subst (λ q. fill header h 20 appended_bytes q ≡ 0xAA) (omega arith)
            (fill_in header h 20 appended_bytes (10 + i) (omega arith));
      payload = λ i small.
          fill_above header h 20 appended_bytes _ (omega arith)
          ∙ subst (λ q. fill payload p 100 m.bytes q ≡ i) (omega (arith, fresh.no_data))
              (fill_in payload p 100 m.bytes i (omega arith) ∙ omega arith);
      below = λ q low.
          fill_below header h 20 appended_bytes q (omega arith)
          ∙ fill_below payload p 100 m.bytes q (omega arith);
      above = λ q high.
          fill_above header h 20 appended_bytes q (omega arith)
          ∙ fill_above payload p 100 m.bytes q (omega (arith, fresh.no_data));
    }

module _ (mb : MbufOps) (laws : MbufLaws mb) (m : Mbuf) (dumps : List Dump) where
  adjust_lem :
      10 ≤ m.data_len
      → adjust mb m dumps
        ≡ finished (adjusted m) (dumps ++ (dump_mbuf mb after_adj (adjusted m) ∷ []))
  unfolding adjust
  adjust_lem h = rw (laws.adj_fits m 10 h, adjust) refl

  prepend_header_lem :
      20 ≤ m.data_off
      → prepend_header mb m dumps
        ≡ adjust mb (prepended m) (dumps ++ (dump_mbuf mb after_prepend (prepended m) ∷ []))
  unfolding prepend_header
  prepend_header_lem h =
      rw (laws.prepend_fits m 20 (omega (arith, laws.headroom_lem m)), prepend_header) refl

  prepend_header_fails : m.data_off < 20 → prepend_header mb m dumps ≡ exits prepend_failed dumps
  unfolding prepend_header
  prepend_header_fails h =
      rw (laws.prepend_refuses m 20 (omega (arith, laws.headroom_lem m)), prepend_header) refl

  trim_payload_lem :
      40 ≤ m.data_len
      → trim_payload mb m dumps
        ≡ prepend_header mb (trimmed m) (dumps ++ (dump_mbuf mb after_trim (trimmed m) ∷ []))
  unfolding trim_payload
  trim_payload_lem h = rw (laws.trim_fits m 40 h) refl

  append_payload_lem :
      m.data_off + m.data_len + 100 ≤ m.buf_len
      → append_payload mb m dumps
        ≡ trim_payload mb (appended m) (dumps ++ (dump_mbuf mb after_append (appended m) ∷ []))
  unfolding append_payload
  append_payload_lem h =
      rw (laws.append_fits m 100 (omega (arith, laws.tailroom_lem m)), append_payload) refl

  append_payload_fails :
      m.buf_len < m.data_off + m.data_len + 100
      → append_payload mb m dumps ≡ exits append_failed dumps
  unfolding append_payload
  append_payload_fails h =
      rw (laws.append_refuses m 100 (omega (arith, laws.tailroom_lem m)), append_payload) refl

module _ (mb : MbufOps) (laws : MbufLaws mb) where
  -- main of mbuf/operations.c, when EAL came up, the pool was created and a new mbuf without data
  -- was given, ends in one of three ways. It exits with the message on append, and there were not
  -- 100 bytes behind the start of the data; it exits with the message on prepend, and there were
  -- not 20 bytes before it; or it runs to its end, having dumped the lengths 0, 100, 60, 80 and
  -- 70, and the packet has ten bytes 0xAA and then the bytes from 0 to 59, with every byte of the
  -- buffer that no loop wrote as it was. The calls on mbufs keep the documented laws of rte_mbuf.
  pub main-Packed :
      (mbuf_pool : ℕ) (m : Mbuf)
      → IsFresh m
      → ((m.buf_len < m.data_off + 100)
          × (dumps : List Dump) × (main mb false (some mbuf_pool) (some m)
              ≡ exits append_failed dumps)
          × (lengths dumps ≡ 0 ∷ []))
        ⊎ ((m.data_off < 20)
            × (dumps : List Dump) × (main mb false (some mbuf_pool) (some m)
                ≡ exits prepend_failed dumps)
            × (lengths dumps ≡ 0 ∷ 100 ∷ 60 ∷ []))
        ⊎ ((dumps : List Dump) × (m' : Mbuf) × (main mb false (some mbuf_pool) (some m)
              ≡ finished m' dumps)
            × (lengths dumps ≡ 0 ∷ 100 ∷ 60 ∷ 80 ∷ 70 ∷ [])
            × Packed m m')
  unfolding main
  main-Packed mbuf_pool m fresh =
      let m1 = appended m in
      let m2 = trimmed m1 in
      let m3 = prepended m2 in
      elim (dec_lt m.buf_len (m.data_off + 100)) [
        | yes full ↦ inl (
          full,
          _,
          append_payload_fails mb laws m _ (omega (arith, fresh.no_data)),
          rw fresh.no_data refl,
        )
        | no room ↦
            let ran =
              append_payload_lem mb laws m _ (omega (arith, fresh.no_data))
              ∙ trim_payload_lem mb laws m1 _ (omega arith) in
            elim (dec_lt m.data_off 20) [
              | yes near ↦ inr (
                  inl
                    (near, _, ran ∙ prepend_header_fails mb laws m2 _ near, rw fresh.no_data refl))
              | no far ↦ inr (
                  inr (
                    _,
                    adjusted m3,
                    ran
                        ∙ prepend_header_lem mb laws m2 _ (omega arith)
                        ∙ adjust_lem mb laws m3 _ (omega arith),
                    rw fresh.no_data refl,
                    adjusted-Packed m fresh (omega arith),
                  ))
            ]
      ]
