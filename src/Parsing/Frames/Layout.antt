-- ===== src/Parsing/Frames/Layout.antt =====
-- Reads of a part that lies inside a longer packet.
use dpdk_code.Base.{
  ℕ, zero, suc, ◌+◌, ◌*◌, ◌/◌, ◌%◌, ◌^◌, ◌<◌, ◌≡◌, ◌∙◌, ap, refl, some, List, [], ◌∷◌, ◌++◌, length,
  arith, get_elem?,
}
use dpdk_code.Parsing.{
  Line, octets, bytes_at, byte_at, be16_at, be32_at, print_ports, ipv4_transport, ipv6_transport,
}

-- `e` is what the packet `d` has from `k` on.
abbrev pub Within : List ℕ → ℕ → List ℕ → Type 0
Within d k e = (j : ℕ) → get_elem? d (k + j) ≡ get_elem? e j

pub append-Within : (xs ys : List ℕ) (k : ℕ) → k ≡ length xs → Within (xs ++ ys) k ys
append-Within [] ys k e j = let at : k + j ≡ j = omega arith in ap (get_elem? ys) at
append-Within (x ∷ xs) ys zero e j = absurd (omega arith)
append-Within (x ∷ xs) ys (suc k) e j =
    let at : suc k + j ≡ suc (k + j) = omega arith in
    ap (get_elem? (x ∷ (xs ++ ys))) at ∙ append-Within xs ys k (omega arith) j

pub Within-trans : (c d e : List ℕ) (k l : ℕ) → Within c k d → Within d l e → Within c (k + l) e
Within-trans c d e k l h g j =
    let at : k + l + j ≡ k + (l + j) = omega arith in ap (get_elem? c) at ∙ h (l + j) ∙ g j

module _ (d e : List ℕ) (k : ℕ) (h : Within d k e) where
  get_elem?-within : (i j : ℕ) → i ≡ k + j → get_elem? d i ≡ get_elem? e j
  get_elem?-within i j p = ap (get_elem? d) p ∙ h j

  pub byte_at-within : (i j : ℕ) → i ≡ k + j → byte_at d i ≡ byte_at e j
  unfolding byte_at
  byte_at-within i j p = get_elem?-within i j p

  pub bytes_at-within : (n i j : ℕ) → i ≡ k + j → bytes_at d i n ≡ bytes_at e j n
  unfolding bytes_at
  bytes_at-within zero i j p = refl
  bytes_at-within (suc n) i j p =
      rw (get_elem?-within i j p, bytes_at-within n (i + 1) (j + 1) (omega arith)) refl

  pub be16_at-within : (i j : ℕ) → i ≡ k + j → be16_at d i ≡ be16_at e j
  unfolding be16_at
  be16_at-within i j p =
      rw (get_elem?-within i j p, get_elem?-within (i + 1) (j + 1) (omega arith)) refl

  pub be32_at-within : (i j : ℕ) → i ≡ k + j → be32_at d i ≡ be32_at e j
  unfolding be32_at
  be32_at-within i j p =
      rw
        (
          get_elem?-within i j p,
          get_elem?-within (i + 1) (j + 1) (omega arith),
          get_elem?-within (i + 2) (j + 2) (omega arith),
          get_elem?-within (i + 3) (j + 3) (omega arith),
        )
        refl

  print_ports-within :
      (name : Line) (i j : ℕ) → i ≡ k + j → print_ports name d i ≡ print_ports name e j
  unfolding print_ports
  print_ports-within name i j p =
      rw (be16_at-within i j p, be16_at-within (i + 2) (j + 2) (omega arith)) refl

  pub ipv4_transport-within :
      (i j proto : ℕ) → i ≡ k + j → ipv4_transport d i proto ≡ ipv4_transport e j proto
  unfolding ipv4_transport
  ipv4_transport-within i j proto p =
      rw (print_ports-within Line.tcp i j p, print_ports-within Line.udp i j p) refl

  pub ipv6_transport-within :
      (i j proto : ℕ) → i ≡ k + j → ipv6_transport d i proto ≡ ipv6_transport e j proto
  unfolding ipv6_transport
  ipv6_transport-within i j proto p =
      rw (print_ports-within Line.tcp i j p, print_ports-within Line.udp i j p) refl

pub bytes_at-prefix : (xs ys : List ℕ) (n : ℕ) → n ≡ length xs → bytes_at (xs ++ ys) 0 n ≡ some xs
unfolding bytes_at
bytes_at-prefix [] ys zero e = refl
bytes_at-prefix [] ys (suc n) e = absurd (omega arith)
bytes_at-prefix (x ∷ xs) ys zero e = absurd (omega arith)
bytes_at-prefix (x ∷ xs) ys (suc n) e = ground (
  arith,
  bytes_at-within (x ∷ (xs ++ ys)) (xs ++ ys) 1 (append-Within (x ∷ []) (xs ++ ys) 1 refl) n 1 0
      refl,
  bytes_at-prefix xs ys n (omega arith),
)

pub octets_of :
    (line : ℕ → ℕ → ℕ → ℕ → Line) (a b c e : ℕ)
    → a < 256
    → b < 256
    → c < 256
    → e < 256
    → octets line (((a * 256 + b) * 256 + c) * 256 + e) ≡ line a b c e
octets_of line a b c e ha hb hc he =
    let ip = ((a * 256 + b) * 256 + c) * 256 + e in
    let ea : ip / 2 ^ 24 % 256 ≡ a = omega arith in
    let eb : ip / 2 ^ 16 % 256 ≡ b = omega arith in
    let ec : ip / 2 ^ 8 % 256 ≡ c = omega arith in
    let ee : ip % 256 ≡ e = omega arith in rw (ea, eb, ec, ee)
