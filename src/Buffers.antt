-- ===== src/Buffers.antt =====
-- mbuf/operations.c: a packet that is written at its end and its start and cut at both.
pub mod Contents
mod Examples
use dpdk_code.Base.{
  ℕ, zero, suc, ◌+◌, ◌%◌, ◌^◌, Bool, Option, none, some, List, [], ◌∷◌, ◌++◌, ◌==◌, not,
  if◌then◌else◌,
}
use dpdk_code.Dpdk.Mbuf.{Mbuf, MbufOps}

-- The messages of rte_exit.
pub data Reason : Type 0 where
  eal_failed no_pool no_mbuf append_failed trim_failed prepend_failed adj_failed : Reason

-- The names in the headings that dump_mbuf prints.
pub data Label : Type 0 where
  after_allocation after_append after_trim after_prepend after_adj : Label

-- What dump_mbuf prints; `data_ptr` is the distance from buf_addr.
pub record Dump : Type 0 where
  pub stage : Label
  pub data_ptr : ℕ
  pub data_off : ℕ
  pub data_len : ℕ
  pub pkt_len : ℕ
  pub headroom : ℕ
  pub tailroom : ℕ

-- How main ends, with what was dumped: an exit, or the end with the mbuf that is freed.
pub data Outcome : Type 0 where
  exits : Reason → List Dump → Outcome
  finished : Mbuf → List Dump → Outcome

abbrev pub store : (ℕ → ℕ) → ℕ → ℕ → ℕ → ℕ
store bytes at v q = if q == at then v else bytes q

-- The loop `for (int i = 0; i < n; i++) p[i] = f i`, over bytes.
unfoldable pub fill : (ℕ → ℕ) → ℕ → ℕ → (ℕ → ℕ) → ℕ → ℕ
fill f p zero bytes = bytes
fill f p (suc i) bytes = store (fill f p i bytes) (p + i) (f i % 2 ^ 8)

abbrev pub payload : ℕ → ℕ
payload i = i

abbrev pub header : ℕ → ℕ
header i = 0xAA

module _ (mb : MbufOps) where
  abbrev pub dump_mbuf : Label → Mbuf → Dump
  dump_mbuf stage m = record {
    stage = stage;
    data_ptr = m.data_off;
    data_off = m.data_off;
    data_len = m.data_len;
    pkt_len = m.pkt_len;
    headroom = mb.headroom m;
    tailroom = mb.tailroom m;
  }

  -- The parts of main from each step on, with what was dumped before it.
  unfoldable pub adjust : Mbuf → List Dump → Outcome
  adjust m dumps = elim (mb.adj m 10) [
    | none ↦ exits adj_failed dumps
    | some (p, m') ↦ finished m' (dumps ++ (dump_mbuf after_adj m' ∷ []))
  ]

  unfoldable pub prepend_header : Mbuf → List Dump → Outcome
  prepend_header m dumps = elim (mb.prepend m 20) [
    | none ↦ exits prepend_failed dumps
    | some (h, m1) ↦
        let m' = record m1 { bytes = fill header h 20 m1.bytes } in
        adjust m' (dumps ++ (dump_mbuf after_prepend m' ∷ []))
  ]

  unfoldable pub trim_payload : Mbuf → List Dump → Outcome
  trim_payload m dumps =
      let (e, m') = mb.trim m 40 in
      if not (e == 0)
      then exits trim_failed dumps
      else prepend_header m' (dumps ++ (dump_mbuf after_trim m' ∷ []))

  unfoldable pub append_payload : Mbuf → List Dump → Outcome
  append_payload m dumps = elim (mb.append m 100) [
    | none ↦ exits append_failed dumps
    | some (p, m1) ↦
        let m' = record m1 { bytes = fill payload p 100 m1.bytes } in
        trim_payload m' (dumps ++ (dump_mbuf after_append m' ∷ []))
  ]

  -- `eal_fails` says that rte_eal_init returned a negative value; `pool` and `alloc` are what was
  -- created, `none` for NULL.
  unfoldable pub main : Bool → Option ℕ → Option Mbuf → Outcome
  main eal_fails pool alloc = if eal_fails then exits eal_failed [] else elim pool [
    | none ↦ exits no_pool []
    | some mp ↦ elim alloc [
      | none ↦ exits no_mbuf []
      | some m ↦ append_payload m (dump_mbuf after_allocation m ∷ [])
    ]
  ]
