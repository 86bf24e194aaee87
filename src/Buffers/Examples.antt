-- ===== src/Buffers/Examples.antt =====
-- mbuf/operations.c with the default sizes: 2176 bytes, of which 128 are headroom.
use dpdk_code.Base.{◌≡◌, ◌<◌, ◌⊎◌, refl, false, Option, none, some, List, [], ◌∷◌, arith}
use dpdk_code.Dpdk.Mbuf.{Mbuf}
use dpdk_code.Dpdk.Models.Buffer.{buffers, buffers_laws}
use dpdk_code.Buffers.{
  Outcome, Reason, main, exits, finished, Dump, append_failed, prepend_failed, prepend_header,
  trim_payload, append_payload,
}
use dpdk_code.Buffers.Contents.{IsFresh, Packed, lengths, main-Packed}

abbrev m : Mbuf
m = record { bytes = λ q. 0; buf_len = 2176; data_off = 128; data_len = 0; pkt_len = 0 }

abbrev message : Outcome → Option Reason
message (exits reason dumps) = some reason
message (finished m' dumps) = none

-- A buffer without headroom, and one that is too small.
no_headroom :
    message (main buffers false (some 1) (some (record m { data_off = 0 }))) ≡ some prepend_failed
unfolding main append_payload trim_payload prepend_header
no_headroom = refl

too_small :
    message (main buffers false (some 1) (some (record m { buf_len = 227 }))) ≡ some append_failed
unfolding main append_payload
too_small = refl

m-IsFresh : IsFresh m
m-IsFresh = record { no_data = refl; no_packet = refl; inside = omega arith }

main-Packed_example :
    ((2176 < 228)
      × (dumps : List Dump) × (main buffers false (some 1) (some m) ≡ exits append_failed dumps)
      × (lengths dumps ≡ 0 ∷ []))
    ⊎ ((128 < 20)
        × (dumps : List Dump) × (main buffers false (some 1) (some m) ≡ exits prepend_failed dumps)
        × (lengths dumps ≡ 0 ∷ 100 ∷ 60 ∷ []))
    ⊎ ((dumps : List Dump) × (m' : Mbuf) × (main buffers false (some 1) (some m)
          ≡ finished m' dumps)
        × (lengths dumps ≡ 0 ∷ 100 ∷ 60 ∷ 80 ∷ 70 ∷ [])
        × Packed m m')
main-Packed_example = main-Packed buffers buffers_laws 1 m m-IsFresh
