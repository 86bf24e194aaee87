-- ===== src/Dpdk/Cmdline.antt =====
-- The cmdline library: a command has a list of tokens, and a line is a list of words. Texts are
-- lists of code points.
use Prim.Native.Char.{code}
use Prim.Native.String.{String}
use dpdk_code.Base.{
  ℕ, ◌<◌, ◌^◌, ◌≡◌, Bool, true, false, ◌&&◌, ◌||◌, Option, some, List, [], ◌∷◌, ◌==◌, if◌then◌else◌,
}

abbrev pub letters : String → List ℕ
letters String.[] = []
letters (String.◌∷◌ letter rest) = code letter ∷ letters rest

abbrev pub same_text : List ℕ → List ℕ → Bool
same_text [] [] = true
same_text [] (d ∷ t) = false
same_text (c ∷ s) [] = false
same_text (c ∷ s) (d ∷ t) = c == d && same_text s t

-- TOKEN_STRING_INITIALIZER with its text, and TOKEN_NUM_INITIALIZER for RTE_UINT16.
pub data Token : Type 0 where
  string : List ℕ → Token
  num : Token

-- What a token stores in the result struct.
pub data Value : Type 0 where
  word : List ℕ → Value
  number : ℕ → Value

abbrev onto_first : ℕ → List (List ℕ) → List (List ℕ)
onto_first c [] = (c ∷ []) ∷ []
onto_first c (w ∷ ws) = (c ∷ w) ∷ ws

-- The choices of the text of a string token, which are separated by #.
abbrev pub choices : List ℕ → List (List ℕ)
choices [] = [] ∷ []
choices (c ∷ s) = if c == b'#' then [] ∷ choices s else onto_first c (choices s)

abbrev pub is_among : List ℕ → List (List ℕ) → Bool
is_among w [] = false
is_among w (v ∷ vs) = same_text w v || is_among w vs

-- Each token takes one word: a string token one of its choices, a number token what is below 2 ^ 16.
abbrev pub Agree : List Token → List (List ℕ) → List Value → Type 0
Agree [] [] [] = Unit {0}
Agree (string s ∷ ts) (w ∷ ws) (word v ∷ vs) =
    (is_among w (choices s) ≡ true) × (v ≡ w) × Agree ts ws vs
Agree (num ∷ ts) (w ∷ ws) (number n ∷ vs) = (n < 2 ^ 16) × Agree ts ws vs
Agree _ _ _ = ⊥

pub record CmdlineOps : Type 0 where
  pub parse : List Token → List (List ℕ) → Option (List Value)

pub record CmdlineLaws (cl : CmdlineOps) : Type 0 where
  pub parse-Agree :
      (ts : List Token) (ws : List (List ℕ)) (vs : List Value)
      → cl.parse ts ws ≡ some vs
      → Agree ts ws vs
