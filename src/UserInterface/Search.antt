-- ===== src/UserInterface/Search.antt =====
-- The search box (web-phalcon/public/js/netgraphz/ui.search.js). The list of items is drawn by a
-- library.
use netgraphz2_gpl.Common.NumMap
use netgraphz2_gpl.Common.{
  Bool, Bool-cases, List, Option, String, [], ap, arith, false, inl, inr, map, none, refl, some,
  true, ℕ, ◌==◌, ◌∙◌, ◌∷◌, ◌≡◌,
}
use mathlib.Core.List.{Memᴰ}
use netgraphz2_gpl.Model.{Node}
use netgraphz2_gpl.Store.Defs.{Store, get_node_by_id, search_nodes_by_name}
use netgraphz2_gpl.Store.Invariant.{Keyed, StoreInv}
use netgraphz2_gpl.Store.Query.{keep-mem}
use netgraphz2_gpl.UserInterface.Dispatch.{UiEvent, about_node, select_node}
use netgraphz2_gpl.UserInterface.Dispatch.{node_select}
use netgraphz2_gpl.Store.Query.{mem-values}

-- What the box offers for a node.
pub record SearchItem : Type 0 where
  pub label : Option String
  pub caption : Option String
  pub id : Option ℕ

abbrev pub item_of : Node → SearchItem
item_of n = record { label = n.name; caption = n.name; id = n.id }

-- `source` of the autocompletion.
unfoldable pub search_items : (String → String → Bool) → String → Store → List SearchItem
unfolding search_nodes_by_name
search_items matches term s = map item_of (search_nodes_by_name matches term s)

-- `select` of the autocompletion.
unfoldable pub select_item : SearchItem → Store → List UiEvent
unfolding select_node
select_item item s = elim item.id [ none ↦ [] | some id ↦ select_node id s ]

lookup-Keyed :
    (id : ℕ) (n : Node) (m : List (ℕ × Node))
    → Keyed m
    → NumMap.lookup id m ≡ some n
    → n.id ≡ some id
unfolding NumMap.lookup
lookup-Keyed id n [] k e = cc
lookup-Keyed id n ((j, w) ∷ m) k e = elim (Bool-cases (j == id)) [
  | inl b ↦ ground (arith, k.0)
  | inr b ↦ lookup-Keyed id n m k.1 (ground arith)
]

-- An item is that of a node.
map-item_of :
    (item : SearchItem) (ns : List Node)
    → Memᴰ item (map item_of ns)
    → (n : Node) × Memᴰ n ns × (item ≡ item_of n)
map-item_of item [] h = elim h [ ]
map-item_of item (n ∷ ns) (Memᴰ.head e) = (n, Memᴰ.head refl, e)
map-item_of item (n ∷ ns) (Memᴰ.tail h) =
    let (k, m, e) = map-item_of item ns h in (k, Memᴰ.tail m, e)

-- Whether a node has a name that the pattern is found in.
abbrev pub is_found : (String → String → Bool) → String → Node → Bool
is_found matches term n = elim n.name [ none ↦ false | some name ↦ matches term name ]

chosen_lem :
    (s : Store) (item : SearchItem) (n : Node) (id : ℕ)
    → item.id ≡ some id
    → get_node_by_id id s ≡ some n
    → select_item item s ≡ about_node node_select n ∷ []
unfolding select_item select_node
chosen_lem s item n id e stored =
    ap (λ (o : Option ℕ). elim o [ none ↦ [] | some k ↦ select_node k s ]) e
    ∙ ap (λ (o : Option Node). elim o [ none ↦ [] | some m ↦ about_node node_select m ∷ [] ]) stored

-- In a store with the invariant every item that is offered is that of a stored node with a name
-- that the pattern is found in, and choosing it passes this very node on as selected.
pub search_items_lem :
    (matches : String → String → Bool) (term : String) (s : Store) (item : SearchItem)
    → StoreInv s
    → Memᴰ item (search_items matches term s)
    → (n : Node) × (item ≡ item_of n)
      × (is_found matches term n ≡ true)
      × (select_item item s ≡ about_node node_select n ∷ [])
unfolding search_items search_nodes_by_name select_item select_node get_node_by_id
search_items_lem matches term s item v h =
    let (n, found, e) = map-item_of item _ h in
    let (kept, named) = keep-mem (is_found matches term) (NumMap.values s.nodes_by_id) n found in
    let (id, stored) = mem-values s.nodes_by_id n v.nodes_sorted kept in
    let keyed = lookup-Keyed id n s.nodes_by_id v.nodes_keyed stored in
    (n, e, named, chosen_lem s item n id (ap (λ x. x.id) e ∙ keyed) stored)
