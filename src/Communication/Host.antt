-- ===== src/Communication/Host.antt =====
-- What the host handlers do (web-phalcon/public/js/netgraphz/communication.js).
use netgraphz2_gpl.Communication.Defs.{
  updates, Effect, Level, Message, NodeRef, done, error, handle_aggregated_host, handle_host, info,
  join_names, notice, success, update, by_host_state, is_host_problem, nodes_text, warning,
  host_effects,
}
use netgraphz2_gpl.Utils.{get_node_state_from_icinga}
use Prim.Native.String.{◌++◌ as join}
use mathlib.Core.Path.{ap₂}
use text.Mathlib.TextLemmas.{append-nil, append_assoc, nil-append}
use netgraphz2_gpl.Common.{
  ℕ, Bool, List, String, [], ap, arith, eq_iff, if◌then◌else◌, length, refl, some, str_eq, sym,
  ◌++◌, ◌+◌, ◌∷◌, ◌≡◌, ◌∙◌,
}

-- The node updates among the effects, and the levels of the notices.
abbrev pub updated : List Effect → List (ℕ × Bool)
updated [] = []
updated (update id problem ∷ es) = (id, problem) ∷ updated es
updated (notice level title text ∷ es) = updated es

abbrev pub levels : List Effect → List Level
levels [] = []
levels (update id problem ∷ es) = levels es
levels (notice level title text ∷ es) = level ∷ levels es

abbrev pub all_with : Bool → List ℕ → List (ℕ × Bool)
all_with problem [] = []
all_with problem (id ∷ ids) = (id, problem) ∷ all_with problem ids

pub updated-updates :
    (problem : Bool) (ids : List ℕ) (es : List Effect)
    → updated es ≡ []
    → (updated (updates problem ids ++ es) ≡ all_with problem ids)
      × (levels (updates problem ids ++ es) ≡ levels es)
unfolding updates
updated-updates problem [] es e = (e, refl)
updated-updates problem (id ∷ ids) es e =
    let (a, b) = updated-updates problem ids es e in (ap (λ l. (id, problem) ∷ l) a, b)

-- The notice for the Icinga state of a host: none for 2, which is unreachable, and the one of an
-- unreachable node for a state that Icinga does not have.
abbrev pub host_levels : String → List Level
host_levels id =
    if str_eq id "0"
    then success ∷ []
    else if str_eq id "1"
    then error ∷ []
    else if str_eq id "2"
    then []
    else info ∷ []

host_problem : (id : String) → is_host_problem (get_node_state_from_icinga id) ≡ str_eq id "1"
unfolding get_node_state_from_icinga
host_problem id = ground (arith, eq_iff id "0", eq_iff id "1", eq_iff "0" "1")

host_notices :
    (id t₁ t₂ t₃ t₄ text : String)
    → let es =
        by_host_state
          (get_node_state_from_icinga id)
          (notice success t₁ text ∷ [])
          (notice warning t₂ text ∷ [])
          (notice error t₃ text ∷ [])
          (notice info t₄ text ∷ [])
          [] in
      (updated es ≡ []) × (levels es ≡ host_levels id)
unfolding get_node_state_from_icinga by_host_state
host_notices id t₁ t₂ t₃ t₄ text = ground arith

-- Every node of an aggregated host message is updated once, in order, as a problem exactly if the
-- state is 1 (down). There is one notice, a success for state 0 and an error for 1; for 2
-- (unreachable) there is none, and for any other state the one that says unreachable.
pub handle_aggregated_host_lem :
    (m : Message)
    → (updated (handle_aggregated_host m) ≡ all_with (str_eq m.agg_state_id "1") m.nodes_id)
      × (levels (handle_aggregated_host m) ≡ host_levels m.agg_state_id)
unfolding handle_aggregated_host
handle_aggregated_host_lem m =
    let (none_updated, shown) = host_notices m.agg_state_id _ _ _ _ _ in
    let (a, b) = updated-updates _ m.nodes_id _ none_updated in
    (a ∙ ap (λ p. all_with p m.nodes_id) (host_problem m.agg_state_id), b ∙ shown)

-- A message with a node updates that node, as a problem exactly if the state is 1 (down), and gives
-- one notice, a success for state 0 and an error for 1; for 2 (unreachable) there is none, and for
-- any other state the one that says unreachable.
pub handle_host_lem :
    (m : Message) (node : NodeRef)
    → m.node ≡ some node
    → (es : List Effect) × (handle_host m ≡ done es)
      × (updated es ≡ (node.id, str_eq m.icinga.state_id "1") ∷ [])
      × (levels es ≡ host_levels m.icinga.state_id)
unfolding handle_host host_effects
handle_host_lem m node e =
    let (none_updated, shown) = host_notices m.icinga.state_id _ _ _ _ _ in
    (
      host_effects node m.icinga,
      rw (e, handle_host) refl,
      ap₂ (λ p es. (node.id, p) ∷ es) (host_problem m.icinga.state_id) none_updated,
      shown,
    )

-- Names with commas between.
abbrev pub commas : List String → String
commas [] = ""
commas (x ∷ []) = x
commas (x ∷ y ∷ ys) = join x (join "," (commas (y ∷ ys)))

join_names-commas :
    (i n : ℕ) (xs : List String) (names : String)
    → i + length xs ≡ n
    → join_names i n xs names ≡ join names (commas xs)
unfolding join_names
join_names-commas i n [] names e = sym (append-nil names)
join_names-commas i n (x ∷ []) names e = ground arith
join_names-commas i n (x ∷ y ∷ ys) names e = ground (
  arith,
  join_names-commas (i + 1) n (y ∷ ys) (join (join names x) ","),
  append_assoc (join names x) "," (commas (y ∷ ys)),
  append_assoc names x (join "," (commas (y ∷ ys))),
)

-- The names that an aggregated message shows are its host names with commas between.
pub nodes_text-commas : (hosts : List String) → nodes_text hosts ≡ join "Nodes: " (commas hosts)
nodes_text-commas hosts =
    ap (join "Nodes: ")
      (join_names-commas 0 (length hosts) hosts "" (omega arith) ∙ nil-append (commas hosts))
