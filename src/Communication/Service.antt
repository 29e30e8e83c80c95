-- ===== src/Communication/Service.antt =====
-- What the service handlers do (web-phalcon/public/js/netgraphz/communication.js).

use netgraphz2_gpl.Common.{
  List, Option, String, [], ap, arith, none, refl, some, suc, zero, ℕ, ◌∙◌, ◌∷◌, ◌≡◌,
}
use netgraphz2_gpl.Common.Text.{parse_int}
use netgraphz2_gpl.Communication.Host.{all_with, levels, updated, updated-updates}
use netgraphz2_gpl.Communication.Defs.{
  Effect, Level, Message, NodeRef, by_service_state, done, error, handle_aggregated_service,
  handle_service, info, is_service_problem, notice, service_effects, success, warning,
}

-- The notice for the state of a service.
abbrev pub service_levels : Option ℕ → List Level
service_levels none = []
service_levels (some zero) = success ∷ []
service_levels (some (suc zero)) = warning ∷ []
service_levels (some (suc (suc zero))) = error ∷ []
service_levels (some (suc (suc (suc zero)))) = info ∷ []
service_levels (some (suc (suc (suc (suc n))))) = []

service_notices :
    (state : Option ℕ) (t₁ t₂ t₃ t₄ a b c d : String)
    → let es =
        by_service_state state
          (notice success t₁ a ∷ [])
          (notice warning t₂ b ∷ [])
          (notice error t₃ c ∷ [])
          (notice info t₄ d ∷ [])
          [] in
      (updated es ≡ []) × (levels es ≡ service_levels state)
unfolding by_service_state
service_notices none t₁ t₂ t₃ t₄ a b c d = (refl, refl)
service_notices (some k) t₁ t₂ t₃ t₄ a b c d = ground arith

pub handle_aggregated_service_lem :
    (m : Message)
    → (updated (handle_aggregated_service m)
        ≡ all_with (is_service_problem (parse_int m.agg_state_id)) m.nodes_id)
      × (levels (handle_aggregated_service m) ≡ service_levels (parse_int m.agg_state_id))
unfolding handle_aggregated_service
handle_aggregated_service_lem m =
    let (none_updated, shown) = service_notices (parse_int m.agg_state_id) _ _ _ _ _ _ _ _ in
    let (a, b) = updated-updates _ m.nodes_id _ none_updated in (a, b ∙ shown)

pub handle_service_lem :
    (m : Message) (node : NodeRef)
    → m.node ≡ some node
    → (es : List Effect) × (handle_service m ≡ done es)
      × (updated es ≡ (node.id, is_service_problem (parse_int m.icinga.state_id)) ∷ [])
      × (levels es ≡ service_levels (parse_int m.icinga.state_id))
unfolding handle_service service_effects
handle_service_lem m node e =
    let (none_updated, shown) = service_notices (parse_int m.icinga.state_id) _ _ _ _ _ _ _ _ in
    (
      service_effects node m.icinga,
      rw (e, handle_service) refl,
      ap (λ es. (node.id, is_service_problem (parse_int m.icinga.state_id)) ∷ es) none_updated,
      shown,
    )

-- For a message with a node, both service handlers read the state as a number. Every node is
-- updated once, in order, as a problem exactly for the states 1 and 2, and there is one notice for
-- each state from 0 to 3: success, warning, error and information; for anything else there is none.
pub service_lem :
    (m : Message) (node : NodeRef)
    → m.node ≡ some node
    → (updated (handle_aggregated_service m)
        ≡ all_with (is_service_problem (parse_int m.agg_state_id)) m.nodes_id)
      × (levels (handle_aggregated_service m) ≡ service_levels (parse_int m.agg_state_id))
      × ((es : List Effect) × (handle_service m ≡ done es)
          × (updated es ≡ (node.id, is_service_problem (parse_int m.icinga.state_id)) ∷ [])
          × (levels es ≡ service_levels (parse_int m.icinga.state_id)))
service_lem m node e =
    let (a, b) = handle_aggregated_service_lem m in (a, b, handle_service_lem m node e)
