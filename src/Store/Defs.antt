-- ===== src/Store/Defs.antt =====
-- The state of the store and its operations (web-phalcon/public/js/netgraphz/store.js). Identifiers
-- are array indices. `_links` is written and never read, and `_metrics_links` is never written.
use netgraphz2_gpl.Common.NumMap
use netgraphz2_gpl.Common.StrMap
use netgraphz2_gpl.Model.{Link, Metric, MetricValue, Node, state_node_down, state_node_warn}
use netgraphz2_gpl.Utils.{get_node_pref_effective_state}
use netgraphz2_gpl.Common.{
  ℕ, Bool, List, Option, String, [], false, if◌then◌else◌, is_some, none, some, ◌++◌, ◌==◌, ◌∷◌,
}

-- What the publisher `store:default` emits, oldest first; `before_…` is delivered at once.
pub data StoreEvent : Type 0 where
  load : List Node → List Link → StoreEvent
  before_update_node before_add_node update_node add_node : Node → StoreEvent
  before_update_nodes update_nodes : List Node → StoreEvent

pub record Store : Type 0 where
  pub nodes_by_id : List (ℕ × Node)
  pub links_by_id : List (ℕ × Link)
  pub metrics : List (String × List MetricValue)
  pub emitted : List StoreEvent

-- `new Store(…)`.
abbrev pub empty_store : Store
empty_store = record { nodes_by_id = []; links_by_id = []; metrics = []; emitted = [] }

unfoldable pub emit : StoreEvent → Store → Store
emit e s = record s { emitted = s.emitted ++ e ∷ [] }

unfoldable pub save_metrics :
    List Metric → List (String × List MetricValue) → List (String × List MetricValue)
save_metrics [] m = m
save_metrics (x ∷ xs) m = save_metrics xs (StrMap.insert x.name x.values m)

-- `saveMetricsOfNode`.
unfoldable pub save_metrics_of_node : Node → Store → Store
save_metrics_of_node n s = elim n.metrics [
  | none ↦ s
  | some xs ↦ record s { metrics = save_metrics xs s.metrics }
]

-- `_nodesById[ node.id ] = node; saveMetricsOfNode(node);`
unfoldable pub put_node : ℕ → Node → Store → Store
unfolding save_metrics_of_node
put_node id n s =
    save_metrics_of_node n (record s { nodes_by_id = NumMap.insert id n s.nodes_by_id })

-- The loops over nodes: a node with no identifier is passed over.
unfoldable pub put_nodes : List Node → Store → Store
put_nodes [] s = s
put_nodes (n ∷ ns) s = put_nodes ns (elim n.id [ none ↦ s | some id ↦ put_node id n s ])

unfoldable pub put_links : List Link → Store → Store
put_links [] s = s
put_links (l ∷ ls) s =
    put_links ls (elim l.id [
      | none ↦ s
      | some id ↦ record s { links_by_id = NumMap.insert id l s.links_by_id }
    ])

-- `loadAll`.
unfoldable pub load_all : List Node → List Link → Store → Store
unfolding emit
load_all nodes links s = emit (load nodes links) (put_links links (put_nodes nodes s))

-- `getMetricValues`.
unfoldable pub get_metric_values : String → Store → List MetricValue
get_metric_values name s = elim (StrMap.lookup name s.metrics) [ none ↦ [] | some v ↦ v ]

unfoldable pub get_node_by_id : ℕ → Store → Option Node
get_node_by_id id s = NumMap.lookup id s.nodes_by_id

-- `ef_state == state`, where `null` equals no state.
abbrev pub has_state : Option String → ℕ → Node → Bool
has_state source state n = elim (get_node_pref_effective_state source n) [
  | none ↦ false
  | some k ↦ k == state
]

unfoldable pub keep : (Node → Bool) → List Node → List Node
keep p [] = []
keep p (n ∷ ns) = if p n then n ∷ keep p ns else keep p ns

-- `getWarningNodes` and `getDownNodes`; `source` is the setting `default_state_source`.
unfoldable pub get_warning_nodes : Option String → Store → List Node
get_warning_nodes source s = keep (has_state source state_node_warn) (NumMap.values s.nodes_by_id)

unfoldable pub get_down_nodes : Option String → Store → List Node
get_down_nodes source s = keep (has_state source state_node_down) (NumMap.values s.nodes_by_id)

-- `getLinkById`: the link's ends get their nodes, in the stored link too.
unfoldable pub get_link_by_id : ℕ → Store → Option Link × Store
unfolding get_node_by_id
get_link_by_id id s = elim (NumMap.lookup id s.links_by_id) [
  | none ↦ (none, s)
  | some l ↦
      let l' = record l {
        src = record (l.src) { node = get_node_by_id l.src.id s };
        dst = record (l.dst) { node = get_node_by_id l.dst.id s };
      } in
      (some l', record s { links_by_id = NumMap.insert id l' s.links_by_id })
]

-- `searchNodesByName`; `matches pattern name` is `name.search(pattern) != -1`.
unfoldable pub search_nodes_by_name : (String → String → Bool) → String → Store → List Node
search_nodes_by_name matches pattern s =
    keep (λ n. elim n.name [ none ↦ false | some name ↦ matches pattern name ])
      (NumMap.values s.nodes_by_id)

-- `updateNode`.
unfoldable pub store_node : Node → Store → Store
unfolding emit put_node get_node_by_id
store_node n s = elim n.id [
  | none ↦ s
  | some id ↦
      let exists = is_some (get_node_by_id id s) in
      let before = emit (if exists then before_update_node n else before_add_node n) s in
      emit (if exists then update_node n else add_node n) (put_node id n before)
]

-- `updateNodes`.
unfoldable pub store_nodes : List Node → Store → Store
unfolding emit
store_nodes ns s = emit (update_nodes ns) (put_nodes ns (emit (before_update_nodes ns) s))
