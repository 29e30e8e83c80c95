-- ===== src/Renderer/Elements.antt =====
-- The elements of the graph as it is first drawn (web-phalcon/public/js/netgraphz/renderer.js).
-- Positions are left out.
use netgraphz2_gpl.Common.Text.{decimal}
use netgraphz2_gpl.Common.NumMap
use netgraphz2_gpl.DataRate.{data_rate_bps_format}
use netgraphz2_gpl.Model.{Link, Node}
use netgraphz2_gpl.Numbers.{Numbers}
use netgraphz2_gpl.Renderer.Status.{prepare_edge_style, state_class}
use netgraphz2_gpl.Store.Defs.{Store}
use netgraphz2_gpl.Utils.{get_node_pref_effective_state}
use Prim.Native.String.{◌++◌}
use netgraphz2_gpl.Common.{
  List, Bool, Option, String, [], false, if◌then◌else◌, is_some, ltb, none, not, some, true, ℕ,
  ◌&&◌, ◌==◌, ◌||◌, ◌∷◌,
}

-- An element of the group `nodes`; `classes` is `none` for `undefined`.
pub record NodeElement : Type 0 where
  pub id : String
  pub real_id : Option ℕ
  pub name : Option String
  pub classes : Option String

-- An element of the group `edges`, between the elements of two nodes.
pub record EdgeElement : Type 0 where
  pub real_id : Option ℕ
  pub speed : String
  pub source : ℕ
  pub target : ℕ
  pub style : List (String × String)
  pub transport : Bool

-- `n.type == 3`.
unfoldable pub is_transport : Node → Bool
is_transport n = elim n.type [ none ↦ false | some t ↦ t == 3 ]

-- `classes += " transport"`.
unfoldable pub add_transport : Option String → String
add_transport classes =
    let before : String = elim classes [ none ↦ "undefined" | some c ↦ c ] in before ++ " transport"

-- The classes of a node's element; `source` is the setting `default_state_source`.
unfoldable pub node_classes : Option String → Node → Option String
unfolding is_transport add_transport
node_classes source n =
    let classes : Option String = elim (get_node_pref_effective_state source n) [
      | none ↦ some ""
      | some k ↦ state_class k
    ] in
    if is_transport n then some (add_transport classes) else classes

-- `'n' + n.id`.
unfoldable pub element_id : Option ℕ → String
element_id none = "nundefined"
element_id (some id) = "n" ++ decimal id

-- The loop over the nodes.
unfoldable pub node_elements : Option String → List Node → List NodeElement
node_elements source [] = []
node_elements source (n ∷ ns) =
    record { id = element_id n.id; real_id = n.id; name = n.name; classes = node_classes source n }
    ∷ node_elements source ns

-- `nodes_by_id` after the loop.
unfoldable pub index_nodes : List Node → List (ℕ × Node) → List (ℕ × Node)
index_nodes [] m = m
index_nodes (n ∷ ns) m = index_nodes ns (elim n.id [ none ↦ m | some id ↦ NumMap.insert id n m ])

-- `ex_links[[a, b]]`.
unfoldable pub has_link : ℕ → ℕ → List (ℕ × ℕ) → Bool
has_link a b [] = false
has_link a b ((x, y) ∷ ex) = (x == a && y == b) || has_link a b ex

-- An edge between the two nodes is there, in either direction.
unfoldable pub is_joined : Link → List (ℕ × ℕ) → Bool
unfolding has_link
is_joined l ex = has_link l.src.id l.dst.id ex || has_link l.dst.id l.src.id ex

-- `nodes_by_id[e.src.id] && nodes_by_id[e.dst.id]`.
unfoldable pub has_ends : Link → List (ℕ × Node) → Bool
has_ends l m = is_some (NumMap.lookup l.src.id m) && is_some (NumMap.lookup l.dst.id m)

unfoldable pub transport_end : ℕ → List (ℕ × Node) → Bool
unfolding is_transport
transport_end id m = elim (NumMap.lookup id m) [ none ↦ false | some n ↦ is_transport n ]

module _ {W : Type 0} (num : Numbers W) where
  -- `label`.
  unfoldable pub speed_label : Link → String
  speed_label l = elim l.link_speed [
    | none ↦ ""
    | some speed ↦
        if ltb 0 speed
        then data_rate_bps_format num (num.mul (num.of_ℕ speed) (num.of_ℕ 1000000)) (some 0) true
        else ""
  ]

  unfoldable pub edge_element : Link → List (ℕ × Node) → Store → EdgeElement
  unfolding speed_label transport_end
  edge_element l m s = record {
    real_id = l.id;
    speed = speed_label l;
    source = l.src.id;
    target = l.dst.id;
    style = prepare_edge_style num l s;
    transport = transport_end l.src.id m || transport_end l.dst.id m;
  }

  -- The loop over the links; `ex` are the keys of `ex_links`.
  unfoldable pub edge_elements :
      List Link → List (ℕ × ℕ) → List (ℕ × Node) → Store → List EdgeElement
  unfolding is_joined has_ends
  edge_elements [] ex m s = []
  edge_elements (l ∷ ls) ex m s =
      let drawn = not (is_joined l ex) && has_ends l m in
      let rest = edge_elements ls (if drawn then (l.src.id, l.dst.id) ∷ ex else ex) m s in
      if drawn then edge_element l m s ∷ rest else rest

  -- The elements `g` of `render_graph`.
  unfoldable pub render_graph :
      Option String → List Node → List Link → Store → List NodeElement × List EdgeElement
  unfolding node_elements index_nodes edge_elements
  render_graph source nodes links s =
      (node_elements source nodes, edge_elements links [] (index_nodes nodes []) s)
