-- ===== src/Dpdk/Models/Buffer.antt =====
-- Mbufs whose calls compare the number of bytes with the room or the data.
use dpdk_code.Base.{ℕ, ◌+◌, ◌-◌, refl, none, some, arith, ltb, if◌then◌else◌}
use dpdk_code.Dpdk.Mbuf.{Mbuf, MbufOps, MbufLaws}

abbrev room : Mbuf → ℕ
room m = m.buf_len - (m.data_off + m.data_len)

abbrev longer : Mbuf → ℕ → ℕ → Mbuf
longer m data_off n = record m {
  data_off = data_off;
  data_len = m.data_len + n;
  pkt_len = m.pkt_len + n;
}

abbrev shorter : Mbuf → ℕ → ℕ → Mbuf
shorter m data_off n = record m {
  data_off = data_off;
  data_len = m.data_len - n;
  pkt_len = m.pkt_len - n;
}

abbrev pub buffers : MbufOps
buffers = record {
  headroom = λ m. m.data_off;
  tailroom = room;
  append =
      λ m n. if ltb (room m) n then none else some (m.data_off + m.data_len, longer m m.data_off n);
  trim = λ m n. if ltb m.data_len n then (1, m) else (0, shorter m m.data_off n);
  prepend =
      λ m n. if ltb m.data_off n then none else some (m.data_off - n, longer m (m.data_off - n) n);
  adj =
      λ m n. if ltb m.data_len n then none else some (m.data_off + n, shorter m (m.data_off + n) n);
}

pub buffers_laws : MbufLaws buffers
buffers_laws = record {
  headroom_lem = λ m. refl;
  tailroom_lem = λ m. refl;
  append_fits = λ m n h. ground arith;
  append_refuses = λ m n h. ground arith;
  trim_fits = λ m n h. ground arith;
  trim_refuses = λ m n h. ground arith;
  prepend_fits = λ m n h. ground arith;
  prepend_refuses = λ m n h. ground arith;
  adj_fits = λ m n h. ground arith;
  adj_refuses = λ m n h. ground arith;
}
