-- ===== src/NodesDatabase/Query.antt =====
-- What the text of a query for several names says (node_netgraphz2/lib/nodes.js).
use netgraphz2_gpl.Common.Text.{decimal}
use netgraphz2_gpl.NodesDatabase.Nodes.{conditions, parameters}
use Prim.Native.String.{◌++◌ as join}
use text.Mathlib.TextLemmas.{append-nil}
use netgraphz2_gpl.Common.{
  List, String, [], arith, get_elem?, length, none, refl, some, suc, zero, ℕ, ◌+◌, ◌∷◌, ◌≡◌, Option,
  ap, ◌∙◌,
}

abbrev pub condition : ℕ → String
condition i = join (join "n.icinga_name = {ic_name_" (decimal i)) "} "

-- The conditions on `k` parameters from `i` on, with "OR " between.
abbrev pub any_of : ℕ → ℕ → String
any_of i zero = ""
any_of i (suc zero) = condition i
any_of i (suc (suc k)) = join (condition i) (join "OR " (any_of (i + 1) (suc k)))

conditions_from :
    (i n : ℕ) (names : List String)
    → i + length names ≡ n
    → conditions i n names ≡ any_of i (length names)
unfolding conditions
conditions_from i n [] e = refl
conditions_from i n (x ∷ []) e = ground (arith, append-nil (condition i))
conditions_from i n (x ∷ y ∷ ys) e = ground (arith, conditions_from (i + 1) n (y ∷ ys))

-- The parameter of a number, for the name at its place.
abbrev pub numbered : ℕ → Option String → Option (String × String)
numbered i none = none
numbered i (some x) = some (join "ic_name_" (decimal i), x)

parameters_at :
    (i k : ℕ) (names : List String)
    → get_elem? (parameters i names) k ≡ numbered (i + k) (get_elem? names k)
unfolding parameters
parameters_at i k [] = refl
parameters_at i zero (x ∷ xs) = ap (λ j. numbered j (some x)) (omega arith)
parameters_at i (suc k) (x ∷ xs) =
    parameters_at (i + 1) k xs ∙ ap (λ j. numbered j (get_elem? xs k)) (omega arith)

-- For `n` names the text of the conditions is that of the conditions on the parameters from 0 to
-- `n - 1` with "OR " between, and the parameter of each number has the name of that place.
pub names_query_lem :
    (names : List String) (k : ℕ)
    → (conditions 0 (length names) names ≡ any_of 0 (length names))
      × (get_elem? (parameters 0 names) k ≡ numbered k (get_elem? names k))
names_query_lem names k = (
  conditions_from 0 (length names) names (omega arith),
  parameters_at 0 k names ∙ ap (λ j. numbered j (get_elem? names k)) (omega arith),
)
