-- ===== src/Renderer/Status.antt =====
-- The state and the links of a node on the drawn graph, when the store is about to change
-- (web-phalcon/public/js/netgraphz/renderer.js). The drawing library is a parameter.
use netgraphz2_gpl.Numbers.{Numbers}
use netgraphz2_gpl.Colours.{get_edge_color_class, width_text}
use netgraphz2_gpl.Model.{Link, Node}
use netgraphz2_gpl.Store.Defs.{
  Store, StoreEvent, before_update_node, before_update_nodes, get_link_by_id, get_metric_values,
  get_node_by_id,
}
use netgraphz2_gpl.Utils.{get_node_pref_effective_state}
use netgraphz2_gpl.Common.{
  List, Bool, Option, String, [], false, if◌then◌else◌, leb, none, not, some, str_eq, suc, true,
  zero, ℕ, ◌&&◌, ◌++◌, ◌==◌, ◌||◌, ◌∷◌, ◌>>=◌,
}

-- What the renderer asks of the drawing library: `cy.nodes("#n" + id)`, the classes of such an
-- element, the edges at it, each with its `real_id`, and the style of an edge.
pub record Graph (V Edge : Type 0) : Type 0 where
  pub has_node : ℕ → V → Bool
  pub has_class : ℕ → String → V → Bool
  pub add_class : ℕ → String → V → V
  pub remove_class : ℕ → String → V → V
  pub connected_edges : ℕ → V → List (Edge × Option ℕ)
  pub css : Edge → List (String × String) → V → V

-- `state_classes`; there is no class for an unreachable node.
unfoldable pub state_class : ℕ → Option String
state_class zero = some "node_up"
state_class (suc zero) = some "node_down"
state_class (suc (suc zero)) = some "node_warn"
state_class (suc (suc (suc zero))) = some "node_unknown"
state_class (suc (suc (suc (suc zero)))) = some "node_flap"
state_class (suc (suc (suc (suc (suc n))))) = none

-- The class of a node's effective state; `source` is the setting `default_state_source`.
unfoldable pub class_of : Option String → Node → Option String
class_of source n = elim (get_node_pref_effective_state source n) [
  | none ↦ none
  | some k ↦ state_class k
]

-- `===` on effective states.
unfoldable pub same_state : Option ℕ → Option ℕ → Bool
same_state none none = true
same_state none (some b) = false
same_state (some a) none = false
same_state (some a) (some b) = a == b

-- `(!prevNode) || …(node) !== …(prevNode)`.
unfoldable pub requires_update : Option String → Node → Option Node → Bool
unfolding same_state
requires_update source n none = true
requires_update source n (some prev) = not (
    same_state (get_node_pref_effective_state source n) (get_node_pref_effective_state source prev))

-- `text == ""`.
abbrev is_empty : Option String → Bool
is_empty none = false
is_empty (some text) = str_eq text ""

-- A link with no metrics or no speed keeps its style.
unfoldable pub has_no_load : Link → Bool
has_no_load l =
    (is_empty l.rx_octets && is_empty l.tx_octets)
    || elim l.link_speed [ none ↦ true | some speed ↦ speed == 0 ]

module _ {V Edge : Type 0} (graph : Graph V Edge) where
  open graph use {add_class, remove_class}

  -- The five calls of `removeClass`.
  unfoldable pub clear_classes : ℕ → V → V
  clear_classes id v = remove_class id "node_flap" (
      remove_class id "node_warn" (
        remove_class id "node_up" (remove_class id "node_down" (remove_class id "node_unknown" v))))

  -- `_update_node_status`, of a node with an identifier.
  unfoldable pub update_node_status : Option String → ℕ → Node → V → V
  update_node_status source id n v = elim (class_of source n) [
    | none ↦ clear_classes id v
    | some c ↦ add_class id c (clear_classes id v)
  ]

module _ {W : Type 0} (num : Numbers W) where
  open num use {of_ℕ, minus_one, mul, div}

  -- The rate of a metric in Mbit/s, or -1.
  unfoldable pub rate_of : Option String → Store → W
  unfolding get_metric_values
  rate_of octets s = elim (is_empty octets) [
    | true ↦ minus_one
    | false ↦ elim (get_metric_values (elim octets [ none ↦ "undefined" | some t ↦ t ]) s) [
      | [] ↦ minus_one
      | v ∷ _ ↦ div (mul (of_ℕ v.value) (of_ℕ 8)) (of_ℕ 1000000)
    ]
  ]

  -- `_prepare_edge_style`.
  unfoldable pub prepare_edge_style : Link → Store → List (String × String)
  unfolding rate_of get_edge_color_class
  prepare_edge_style l s =
      let capacity : ℕ = elim l.link_speed [ none ↦ 0 | some speed ↦ speed ] in
      let duplex : Bool = elim l.duplex [ none ↦ true | some b ↦ b ] in
      let colours =
        get_edge_color_class num (rate_of l.rx_octets s) (rate_of l.tx_octets s) capacity duplex in
      if leb 10 capacity then colours ++ ("width", width_text num capacity) ∷ [] else colours

  module _ {V Edge : Type 0} (graph : Graph V Edge) (source : Option String) where
    open graph use {connected_edges, css}

    -- The rest of the loop's body, once `getLinkById` is called. `none`: the link is not in the store,
    -- `getLinkById` gave `null`, and reading `null.rx_octets` throws.
    unfoldable pub restyle : Edge → V → Option Link × Store → Option (Store × V)
    restyle e v (none, s) = none
    restyle e v (some l, s) =
        some (s, if has_no_load l then v else css e (prepare_edge_style l s) v)

    -- The body of the loop over the edges at a node.
    unfoldable pub update_edge : Edge → Option ℕ → Store → V → Option (Store × V)
    unfolding restyle
    update_edge e none s v = none
    update_edge e (some link_id) s v = restyle e v (get_link_by_id link_id s)

    -- `_update_node_links_status`.
    unfoldable pub update_edges : List (Edge × Option ℕ) → Store → V → Option (Store × V)
    update_edges [] s v = some (s, v)
    update_edges ((e, real_id) ∷ es) s v = do t ← update_edge e real_id s v; update_edges es t.0 t.1

    -- The end of `update_node`.
    unfoldable pub show_state : ℕ → Node → Store × V → Option (Store × V)
    show_state id n (s, v) = some (
      s,
      if requires_update source n (get_node_by_id id s)
          then update_node_status graph source id n v
          else v,
    )

    -- `update_node` at the node's identifier. The element of a node with none is not found.
    unfoldable pub update_at : Option ℕ → Node → Store → V → Option (Store × V)
    unfolding update_edges show_state
    update_at none n s v = some (s, v)
    update_at (some id) n s v = do t ← update_edges (connected_edges id v) s v; show_state id n t

    -- `update_node`.
    unfoldable pub update_node : Node → Store → V → Option (Store × V)
    update_node n s v = update_at n.id n s v

    -- `update_batch_nodes`.
    unfoldable pub update_batch_nodes : List Node → Store → V → Option (Store × V)
    update_batch_nodes [] s v = some (s, v)
    update_batch_nodes (n ∷ ns) s v = do t ← update_node n s v; update_batch_nodes ns t.0 t.1

    -- The two subscriptions to the store.
    unfoldable pub on_event : StoreEvent → Store → V → Option (Store × V)
    on_event (before_update_node n) s v = update_node n s v
    on_event (before_update_nodes ns) s v = update_batch_nodes ns s v
    on_event other s v = some (s, v)
