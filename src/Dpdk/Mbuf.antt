-- ===== src/Dpdk/Mbuf.antt =====
-- rte_mbuf: a buffer with a window on the data in it, and the calls that move its ends.
use dpdk_code.Base.{ℕ, ◌+◌, ◌-◌, ◌≤◌, ◌<◌, ◌≡◌, ◌≢◌, Option, none, some}

-- An mbuf of one segment. `bytes` is the memory from buf_addr on.
pub record Mbuf : Type 0 where
  pub bytes : ℕ → ℕ
  pub buf_len : ℕ
  pub data_off : ℕ
  pub data_len : ℕ
  pub pkt_len : ℕ

-- A pointer that is returned is given by its distance from buf_addr, `none` for NULL. The code of
-- `trim` is 0, or `e` for the negative return value -e.
pub record MbufOps : Type 0 where
  pub headroom : Mbuf → ℕ
  pub tailroom : Mbuf → ℕ
  pub append : Mbuf → ℕ → Option (ℕ × Mbuf)
  pub trim : Mbuf → ℕ → ℕ × Mbuf
  pub prepend : Mbuf → ℕ → Option (ℕ × Mbuf)
  pub adj : Mbuf → ℕ → Option (ℕ × Mbuf)

-- A call that finds the room, or the data, moves one end by `n` and leaves the memory; otherwise it
-- fails.
pub record MbufLaws (mb : MbufOps) : Type 0 where
  pub headroom_lem : (m : Mbuf) → mb.headroom m ≡ m.data_off
  pub tailroom_lem : (m : Mbuf) → mb.tailroom m ≡ m.buf_len - (m.data_off + m.data_len)
  pub append_fits :
      (m : Mbuf) (n : ℕ)
      → n ≤ mb.tailroom m
      → mb.append m n
        ≡ some (
          m.data_off + m.data_len,
          record m { data_len = m.data_len + n; pkt_len = m.pkt_len + n },
        )
  pub append_refuses : (m : Mbuf) (n : ℕ) → mb.tailroom m < n → mb.append m n ≡ none
  pub trim_fits :
      (m : Mbuf) (n : ℕ)
      → n ≤ m.data_len
      → mb.trim m n ≡ (0, record m { data_len = m.data_len - n; pkt_len = m.pkt_len - n })
  pub trim_refuses : (m : Mbuf) (n : ℕ) → m.data_len < n → (mb.trim m n).0 ≢ 0
  pub prepend_fits :
      (m : Mbuf) (n : ℕ)
      → n ≤ mb.headroom m
      → mb.prepend m n
        ≡ some (
          m.data_off - n,
          record m {
            data_off = m.data_off - n;
            data_len = m.data_len + n;
            pkt_len = m.pkt_len + n;
          },
        )
  pub prepend_refuses : (m : Mbuf) (n : ℕ) → mb.headroom m < n → mb.prepend m n ≡ none
  pub adj_fits :
      (m : Mbuf) (n : ℕ)
      → n ≤ m.data_len
      → mb.adj m n
        ≡ some (
          m.data_off + n,
          record m {
            data_off = m.data_off + n;
            data_len = m.data_len - n;
            pkt_len = m.pkt_len - n;
          },
        )
  pub adj_refuses : (m : Mbuf) (n : ℕ) → m.data_len < n → mb.adj m n ≡ none
