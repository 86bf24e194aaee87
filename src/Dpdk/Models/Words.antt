-- ===== src/Dpdk/Models/Words.antt =====
-- A command line that reads decimal numbers, and takes a word for itself where a text is expected.
use dpdk_code.Base.{
  ℕ, ◌+◌, ◌-◌, ◌*◌, ◌^◌, ◌≡◌, refl, Option, none, some, List, [], ◌∷◌, ltb, ltb→lt, if◌then◌else◌,
  ◌>>=◌, Bool-cases, inl, inr, arith, Option-cases, some_unique, subst,
}
use dpdk_code.Dpdk.Cmdline.{
  Token, string, num, Value, word, number, choices, is_among, Agree, CmdlineOps, CmdlineLaws,
}

abbrev value : ℕ → List ℕ → ℕ
value n [] = n
value n (c ∷ s) = value (n * 10 + (c - b'0')) s

-- The value that a token stores for a word.
unfoldable pub store : Token → List ℕ → Option Value
store (string s) w = if is_among w (choices s) then some (word w) else none
store num w = if ltb (value 0 w) (2 ^ 16) then some (number (value 0 w)) else none

unfoldable pub parse_words : List Token → List (List ℕ) → Option (List Value)
parse_words [] [] = some []
parse_words [] (w ∷ ws) = none
parse_words (t ∷ ts) [] = none
parse_words (t ∷ ts) (w ∷ ws) = do v ← store t w; vs ← parse_words ts ws; some (v ∷ vs)

abbrev pub words : CmdlineOps
words = record { parse = parse_words }

cons-Agree :
    (t : Token) (ts : List Token) (w : List ℕ) (ws : List (List ℕ)) (v : Value) (vs : List Value)
    → store t w ≡ some v
    → Agree ts ws vs
    → Agree (t ∷ ts) (w ∷ ws) (v ∷ vs)
unfolding store
cons-Agree (string s) ts w ws v vs h g = elim (Bool-cases (is_among w (choices s))) [
  | inl among ↦
      let stored : store (string s) w ≡ some (word w) = rw among refl in
      subst (λ (x : Value). Agree (string s ∷ ts) (w ∷ ws) (x ∷ vs)) (some_unique stored h)
        (among, refl, g)
  | inr not_among ↦ absurd (ground arith)
]
cons-Agree num ts w ws v vs h g = elim (Bool-cases (ltb (value 0 w) (2 ^ 16))) [
  | inl small ↦
      let stored : store num w ≡ some (number (value 0 w)) = rw small refl in
      subst (λ (x : Value). Agree (num ∷ ts) (w ∷ ws) (x ∷ vs)) (some_unique stored h)
        (ltb→lt _ _ small, g)
  | inr large ↦ absurd (ground arith)
]

parse_words-Agree :
    (ts : List Token) (ws : List (List ℕ)) (vs : List Value)
    → parse_words ts ws ≡ some vs
    → Agree ts ws vs
unfolding parse_words
parse_words-Agree [] [] vs h = subst (Agree [] []) (some_unique refl h) tt
parse_words-Agree [] (w ∷ ws) vs h = absurd (cc)
parse_words-Agree (t ∷ ts) [] vs h = absurd (cc)
parse_words-Agree (t ∷ ts) (w ∷ ws) vs h = elim (Option-cases (store t w)) [
  | inl failed ↦ absurd (ground arith)
  | inr (v, stored) ↦ elim (Option-cases (parse_words ts ws)) [
    | inl failed ↦ absurd (ground arith)
    | inr (xs, parsed) ↦
        let all : parse_words (t ∷ ts) (w ∷ ws) ≡ some (v ∷ xs) = rw (stored, parsed) refl in
        subst (Agree (t ∷ ts) (w ∷ ws)) (some_unique all h)
          (cons-Agree t ts w ws v xs stored (parse_words-Agree ts ws xs parsed))
  ]
]

pub words_laws : CmdlineLaws words
words_laws = record { parse-Agree = parse_words-Agree }
