-- ===== src/UserInterface/Dispatch.antt =====
-- The renderer's events, passed on with the node or the link that they are about
-- (web-phalcon/public/js/netgraphz/{ui,renderer}.js).
use netgraphz2_gpl.Common.Text.{codes, is_digit, parse_int_codes}
use netgraphz2_gpl.Model.{Link, Node}
use netgraphz2_gpl.Store.Defs.{Store, get_link_by_id, get_node_by_id}
use netgraphz2_gpl.Common.{
  List, Bool, Option, String, [], drop, false, if◌then◌else◌, none, some, ℕ, ◌&&◌, ◌==◌, ◌>>=◌, ◌∷◌,
}

-- The topics of nodes, which the renderer and the user interface name alike.
pub data NodeTopic : Type 0 where
  node_select node_unselect node_mouseover node_mouseout : NodeTopic

pub data EdgeTopic : Type 0 where
  edge_select edge_unselect edge_mouseover edge_mouseout edge_tap : EdgeTopic

-- What the renderer emits: `on_node` has `cyTarget.id()`, `on_edge` has `cyTarget.data('real_id')`.
pub data RendererEvent : Type 0 where
  on_node : NodeTopic → String → RendererEvent
  on_edge : EdgeTopic → Option ℕ → RendererEvent

-- What the user interface emits; a link is `none` for `null`.
pub data UiEvent : Type 0 where
  about_node : NodeTopic → Node → UiEvent
  about_link : EdgeTopic → Option Link → UiEvent

unfoldable pub starts_digit : List ℕ → Bool
starts_digit [] = false
starts_digit (c ∷ cs) = is_digit c

unfoldable pub take_digits : List ℕ → List ℕ
take_digits [] = []
take_digits (c ∷ cs) = if is_digit c then c ∷ take_digits cs else []

-- The group of the first match of `n([0-9]+)`.
unfoldable pub match_id : List ℕ → Option (List ℕ)
unfolding starts_digit take_digits
match_id [] = none
match_id (c ∷ cs) =
    let later = match_id cs in if c == b'n' && starts_digit cs then some (take_digits cs) else later

-- The node that the target of an event stands for.
unfoldable pub target_node : String → Store → Option Node
unfolding match_id
target_node target s = do
  digits ← match_id (codes target)
  id ← parse_int_codes digits
  get_node_by_id id s

-- The end of `dispatch_node_event`.
unfoldable pub passed_on : NodeTopic → Option Node → List UiEvent
passed_on topic none = []
passed_on topic (some n) = about_node topic n ∷ []

-- `dispatch_node_event`.
unfoldable pub dispatch_node_event : NodeTopic → String → Store → List UiEvent
unfolding target_node passed_on
dispatch_node_event topic target s = passed_on topic (target_node target s)

-- `dispatch_link_event`. `getLinkById` gives `null`, not `undefined`, for a link that is not stored.
unfoldable pub dispatch_link_event : EdgeTopic → Option ℕ → Store → List UiEvent × Store
dispatch_link_event topic none s = ([], s)
dispatch_link_event topic (some link_id) s =
    let (link, s') = get_link_by_id link_id s in (about_link topic link ∷ [], s')

-- The subscriptions of `attach_events` to the renderer.
unfoldable pub dispatch : RendererEvent → Store → List UiEvent × Store
unfolding dispatch_node_event dispatch_link_event
dispatch (on_node topic target) s = (dispatch_node_event topic target s, s)
dispatch (on_edge topic link_id) s = dispatch_link_event topic link_id s

-- `select_node` of the user interface, called with an identifier: the node that the renderer selects.
unfoldable pub select_node : ℕ → Store → List UiEvent
select_node id s = elim (get_node_by_id id s) [ none ↦ [] | some n ↦ about_node node_select n ∷ [] ]

-- The identifiers that `dumpNodesPositions` reads from the elements' own.
unfoldable pub position_id : String → Option ℕ
position_id element = parse_int_codes (drop 1 (codes element))
