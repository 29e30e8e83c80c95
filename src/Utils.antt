-- ===== src/Utils.antt =====
-- The effective state of a node (web-phalcon/public/js/netgraphz/graph_utils.js).
pub mod EffectiveState
pub mod Tests
use netgraphz2_gpl.Common.{
  List, Option, String, [], get_elem?, if◌then◌else◌, ltb, none, some, suc, zero, ℕ, ◌+◌, ◌∷◌,
  str_eq,
}
use netgraphz2_gpl.Model.{Node, Status}
use mathlib.Core.Option

-- The first loop of `get_node_pref_effective_state`: `max_time`, `max_time_index` and `i`.
unfoldable pub latest : ℕ → ℕ → ℕ → List Status → ℕ
latest max_time max_time_index i [] = max_time_index
latest max_time max_time_index i (x ∷ xs) =
    let later = ltb max_time x.time in
    latest (if later then x.time else max_time) (if later then i else max_time_index) (i + 1) xs

-- The second loop: the first status of the source.
unfoldable pub by_source : String → List Status → Option Status
by_source source [] = none
by_source source (x ∷ xs) = if str_eq x.source source then some x else by_source source xs

-- `n.status[ max_time_index ]`.
unfoldable pub latest_status : List Status → Option Status
unfolding latest
latest_status xs = get_elem? xs (latest 0 0 0 xs)

unfoldable pub pref_status : Option String → List Status → Option Status
pref_status none xs = latest_status xs
pref_status (some source) xs = elim (by_source source xs) [
  | some x ↦ some x
  | none ↦ latest_status xs
]

-- `get_node_pref_effective_state`; `source` is `cfg.default_state_source`, `none` is `null`.
unfoldable pub get_node_pref_effective_state : Option String → Node → Option ℕ
get_node_pref_effective_state source n = elim n.status [
  | none ↦ none
  | some xs ↦ Option.map (λ s. s.effective_state) (pref_status source xs)
]

-- `get_node_state_from_icinga`: 2 is unreachable, any other key of no entry is `undefined`.
unfoldable pub get_node_state_from_icinga : String → Option ℕ
get_node_state_from_icinga id =
    if str_eq id "0"
    then some 0
    else if str_eq id "1"
    then some 1
    else if str_eq id "2"
    then some 5
    else none

-- `get_node_state_text`.
unfoldable pub get_node_state_text : ℕ → Option String
get_node_state_text zero = some "Up"
get_node_state_text (suc zero) = some "Down!"
get_node_state_text (suc (suc zero)) = some "Warning"
get_node_state_text (suc (suc (suc zero))) = some "Flapping"
get_node_state_text (suc (suc (suc (suc zero)))) = some "Unknown"
get_node_state_text (suc (suc (suc (suc (suc zero))))) = some "Unreachable"
get_node_state_text (suc (suc (suc (suc (suc (suc n)))))) = none
