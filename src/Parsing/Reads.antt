-- ===== src/Parsing/Reads.antt =====
-- What the reads of the parsers return, in terms of the length of the packet.
use dpdk_code.Base.{
  ℕ, zero, suc, ◌+◌, ◌*◌, ◌≡◌, none, some, List, [], ◌∷◌, get_elem?, length, is_some, ltb, leb,
  if◌then◌else◌, arith, get_or,
}
use dpdk_code.Parsing.{bytes_at, byte_at, be16_at, be32_at}

pub get_elem?-get_or :
    (d : List ℕ) (i : ℕ) → get_elem? d i ≡ (if ltb i (length d) then some (get_or d i 0) else none)
get_elem?-get_or [] i = ground arith
get_elem?-get_or (b ∷ d) zero = ground arith
get_elem?-get_or (b ∷ d) (suc i) = ground (arith, get_elem?-get_or d i)

pub byte_at_inside :
    (d : List ℕ) (at : ℕ)
    → byte_at d at ≡ (if ltb at (length d) then some (get_or d at 0) else none)
unfolding byte_at
byte_at_inside d at = get_elem?-get_or d at

pub be16_at_inside :
    (d : List ℕ) (at : ℕ)
    → be16_at d at
      ≡ (if leb (at + 2) (length d) then some (get_or d at 0 * 256 + get_or d (at + 1) 0) else none)
unfolding be16_at
be16_at_inside d at = ground (arith, get_elem?-get_or d at, get_elem?-get_or d (at + 1))

pub is_some-be32_at : (d : List ℕ) (at : ℕ) → is_some (be32_at d at) ≡ leb (at + 4) (length d)
unfolding be32_at
is_some-be32_at d at = ground (
  arith,
  get_elem?-get_or d at,
  get_elem?-get_or d (at + 1),
  get_elem?-get_or d (at + 2),
  get_elem?-get_or d (at + 3),
)

pub is_some-bytes_at :
    (d : List ℕ) (at n : ℕ) → is_some (bytes_at d at (suc n)) ≡ leb (at + suc n) (length d)
unfolding bytes_at
is_some-bytes_at d at zero = ground (arith, get_elem?-get_or d at)
is_some-bytes_at d at (suc n) = ground (arith, get_elem?-get_or d at, is_some-bytes_at d (at + 1) n)
