-- ===== src/Store/Invariant.antt =====
-- What every operation of the store keeps (web-phalcon/public/js/netgraphz/store.js).

use netgraphz2_gpl.Common.NumMap
use netgraphz2_gpl.Model.{Link, Node}
use netgraphz2_gpl.Store.Defs.{
  Store, StoreEvent, emit, empty_store, get_link_by_id, load_all, put_links, put_node, put_nodes,
  store_node, store_nodes,
}
use netgraphz2_gpl.Common.{ℕ, All, List, Option-cases, [], arith, inl, inr, some, ◌∷◌, ◌≡◌}

-- Each node stands under its own identifier.
abbrev pub Keyed : List (ℕ × Node) → Type 0
Keyed m = All (λ e. e.1.id ≡ some e.0) m

-- The objects `_nodesById` and `_linksById`: keys in ascending order, nodes under their
-- identifiers.
pub record StoreInv (s : Store) : Type 0 where
  pub nodes_sorted : NumMap.IsSorted s.nodes_by_id
  pub nodes_keyed : Keyed s.nodes_by_id
  pub links_sorted : NumMap.IsSorted s.links_by_id

insert-Keyed :
    (id : ℕ) (n : Node) (m : List (ℕ × Node))
    → n.id ≡ some id
    → Keyed m
    → Keyed (NumMap.insert id n m)
unfolding NumMap.insert
insert-Keyed id n [] e k = ground arith
insert-Keyed id n ((j, w) ∷ m) e k = ground (arith, insert-Keyed id n m e)

pub put_node-nodes :
    (id : ℕ) (n : Node) (s : Store)
    → ((put_node id n s).nodes_by_id ≡ NumMap.insert id n s.nodes_by_id)
      × ((put_node id n s).links_by_id ≡ s.links_by_id)
      × ((put_node id n s).emitted ≡ s.emitted)
unfolding put_node
put_node-nodes id n s = ground arith

put_node-StoreInv :
    (id : ℕ) (n : Node) (s : Store) → n.id ≡ some id → StoreInv s → StoreInv (put_node id n s)
put_node-StoreInv id n s e v =
    let (nodes, links, _) = put_node-nodes id n s in
    record {
      nodes_sorted = rw nodes (NumMap.insert-IsSorted id n s.nodes_by_id v.nodes_sorted);
      nodes_keyed = rw nodes (insert-Keyed id n s.nodes_by_id e v.nodes_keyed);
      links_sorted = rw links v.links_sorted;
    }

put_nodes-StoreInv : (ns : List Node) (s : Store) → StoreInv s → StoreInv (put_nodes ns s)
unfolding put_nodes
put_nodes-StoreInv [] s v = v
put_nodes-StoreInv (n ∷ ns) s v = elim (Option-cases n.id) [
  | inl e ↦ rw (e, put_nodes) (put_nodes-StoreInv ns s v)
  | inr (id, e) ↦
      rw (e, put_nodes) (put_nodes-StoreInv ns (put_node id n s) (put_node-StoreInv id n s e v))
]

put_links-StoreInv : (ls : List Link) (s : Store) → StoreInv s → StoreInv (put_links ls s)
unfolding put_links
put_links-StoreInv [] s v = v
put_links-StoreInv (l ∷ ls) s v = elim (Option-cases l.id) [
  | inl e ↦ rw (e, put_links) (put_links-StoreInv ls s v)
  | inr (id, e) ↦
      rw (e, put_links)
        (put_links-StoreInv ls _ (record {
          nodes_sorted = v.nodes_sorted;
          nodes_keyed = v.nodes_keyed;
          links_sorted = NumMap.insert-IsSorted id l s.links_by_id v.links_sorted;
        }))
]

emit-StoreInv : (e : StoreEvent) (s : Store) → StoreInv s → StoreInv (emit e s)
unfolding emit
emit-StoreInv e s v = record {
  nodes_sorted = v.nodes_sorted;
  nodes_keyed = v.nodes_keyed;
  links_sorted = v.links_sorted;
}

get_link_by_id-StoreInv : (id : ℕ) (s : Store) → StoreInv s → StoreInv (get_link_by_id id s).1
unfolding get_link_by_id
get_link_by_id-StoreInv id s v = elim (Option-cases (NumMap.lookup id s.links_by_id)) [
  | inl e ↦ rw (e, get_link_by_id) v
  | inr (l, e) ↦
      rw (e, get_link_by_id)
        (record {
          nodes_sorted = v.nodes_sorted;
          nodes_keyed = v.nodes_keyed;
          links_sorted = NumMap.insert-IsSorted id _ s.links_by_id v.links_sorted;
        })
]

-- The operations that write.
pub data Call : Type 0 where
  loads : List Node → List Link → Call
  updates : Node → Call
  updates_all : List Node → Call
  reads_link : ℕ → Call

unfoldable pub perform : Call → Store → Store
perform (loads nodes links) s = load_all nodes links s
perform (updates n) s = store_node n s
perform (updates_all ns) s = store_nodes ns s
perform (reads_link id) s = (get_link_by_id id s).1

-- Each call keeps the invariant.
pub perform-StoreInv : (c : Call) (s : Store) → StoreInv s → StoreInv (perform c s)
unfolding perform load_all store_nodes store_node
perform-StoreInv (loads nodes links) s v =
    emit-StoreInv _ _ (put_links-StoreInv links _ (put_nodes-StoreInv nodes s v))
perform-StoreInv (updates n) s v = elim (Option-cases n.id) [
  | inl e ↦ rw (e, store_node) v
  | inr (id, e) ↦
      rw (e, store_node) (emit-StoreInv _ _ (put_node-StoreInv id n _ e (emit-StoreInv _ s v)))
]
perform-StoreInv (updates_all ns) s v =
    emit-StoreInv _ _ (put_nodes-StoreInv ns _ (emit-StoreInv _ s v))
perform-StoreInv (reads_link id) s v = get_link_by_id-StoreInv id s v

unfoldable pub perform_all : List Call → Store → Store
perform_all [] s = s
perform_all (c ∷ cs) s = perform_all cs (perform c s)

perform_all_keeps : (cs : List Call) (s : Store) → StoreInv s → StoreInv (perform_all cs s)
unfolding perform_all
perform_all_keeps [] s v = v
perform_all_keeps (c ∷ cs) s v = perform_all_keeps cs (perform c s) (perform-StoreInv c s v)

-- After any sequence of loads, updates and link reads on a new store, the node and link objects are
-- in key order and each node stands under its own identifier.
pub perform_all-StoreInv : (cs : List Call) → StoreInv (perform_all cs empty_store)
perform_all-StoreInv cs =
    perform_all_keeps cs empty_store
      (record { nodes_sorted = tt; nodes_keyed = tt; links_sorted = tt })
