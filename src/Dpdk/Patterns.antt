-- ===== src/Dpdk/Patterns.antt =====
-- rte_graph_create: which nodes a graph is made of, by patterns over the names of the registered
-- nodes.
use Prim.Native.Char.{code}
use Prim.Native.String.{String}
use text.Mathlib.Text.{◌==◌}
use dpdk_code.Base.{◌≡◌, Bool, true, false, ◌||◌, not, List, [], ◌∷◌, ℕ, if◌then◌else◌}
use dpdk_code.Base as B

pub record Node : Type 0 where
  pub name : String
  pub is_source : Bool
  pub next_nodes : List String

-- `matches` is fnmatch; `create` says whether there is a graph.
pub record GraphOps : Type 0 where
  pub matches : String → String → Bool
  pub create : List Node → List String → Bool

abbrev is_special : ℕ → Bool
is_special c = B.◌==◌ c b'*' || B.◌==◌ c b'?' || B.◌==◌ c b'[' || B.◌==◌ c b'\\'

-- No character of the pattern has a meaning beside itself.
abbrev pub is_literal : String → Bool
is_literal String.[] = true
is_literal (String.◌∷◌ c s) = if is_special (code c) then false else is_literal s

abbrev pub any_matches : (String → String → Bool) → String → List Node → Bool
any_matches g p [] = false
any_matches g p (n ∷ ns) = if g p n.name then true else any_matches g p ns

abbrev pub all_match : (String → String → Bool) → List String → List Node → Bool
all_match g [] ns = true
all_match g (p ∷ ps) ns = if any_matches g p ns then all_match g ps ns else false

-- A pattern that is literal matches its own name alone, and a graph is refused when a pattern
-- matches no node.
pub record GraphLaws (g : GraphOps) : Type 0 where
  pub matches_literal : (p n : String) → is_literal p ≡ true → g.matches p n ≡ (p == n)
  pub create_needs :
      (ns : List Node) (ps : List String)
      → all_match g.matches ps ns ≡ false
      → g.create ns ps ≡ false
