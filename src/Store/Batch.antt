-- ===== src/Store/Batch.antt =====
-- `updateNodes` against `updateNode` (web-phalcon/public/js/netgraphz/store.js).

use mathlib.Core.List.{append_assoc}
use netgraphz2_gpl.Common.NumMap
use netgraphz2_gpl.Model.{Node}
use netgraphz2_gpl.Store.Defs.{
  Store, before_update_nodes, get_node_by_id, put_node, put_nodes, store_node, store_nodes,
  update_nodes, emit,
}
use netgraphz2_gpl.Store.Invariant.{put_node-nodes}
use netgraphz2_gpl.Common.{
  ℕ, List, Option, Option-cases, [], arith, if◌then◌else◌, inl, inr, none, refl, some, ◌++◌, ◌==◌,
  ◌∙◌, ◌∷◌, ◌≡◌, ap,
}

unfoldable pub store_each : List Node → Store → Store
store_each [] s = s
store_each (n ∷ ns) s = store_each ns (store_node n s)

-- The nodes and metrics, which are what is written; links and events are left out.
abbrev pub SameData : Store → Store → Type 0
SameData s t = (s.nodes_by_id ≡ t.nodes_by_id) × (s.metrics ≡ t.metrics)

put_node-SameData :
    (id : ℕ) (n : Node) (s t : Store) → SameData s t → SameData (put_node id n s) (put_node id n t)
unfolding put_node
put_node-SameData id n s t h = ground arith

store_node-put_node :
    (n : Node) (id : ℕ) (s : Store) → n.id ≡ some id → SameData (put_node id n s) (store_node n s)
unfolding store_node put_node
store_node-put_node n id s e = ground arith

store_node-skip : (n : Node) (s : Store) → n.id ≡ none → store_node n s ≡ s
unfolding store_node
store_node-skip n s e = ground arith

put_nodes-skip :
    (n : Node) (ns : List Node) (s : Store) → n.id ≡ none → put_nodes (n ∷ ns) s ≡ put_nodes ns s
unfolding put_nodes
put_nodes-skip n ns s e = ground arith

store_each-skip :
    (n : Node) (ns : List Node) (s : Store) → n.id ≡ none → store_each (n ∷ ns) s ≡ store_each ns s
unfolding store_each
store_each-skip n ns s e = ap (store_each ns) (store_node-skip n s e)

store_each-cons :
    (n : Node) (ns : List Node) (s : Store) → store_each (n ∷ ns) s ≡ store_each ns (store_node n s)
unfolding store_each
store_each-cons n ns s = refl

put_nodes-cons :
    (n : Node) (ns : List Node) (id : ℕ) (s : Store)
    → n.id ≡ some id
    → put_nodes (n ∷ ns) s ≡ put_nodes ns (put_node id n s)
unfolding put_nodes
put_nodes-cons n ns id s e = ground arith

put_nodes-store_each :
    (ns : List Node) (s t : Store) → SameData s t → SameData (put_nodes ns s) (store_each ns t)
put_nodes-store_each [] s t h = unfold put_nodes store_each in h
put_nodes-store_each (n ∷ ns) s t h = elim (Option-cases n.id) [
  | inl e ↦ rw (put_nodes-skip n ns s e, store_each-skip n ns t e) (put_nodes-store_each ns s t h)
  | inr (id, e) ↦
      let (a, b) = put_node-SameData id n s t h in
      let (a', b') = store_node-put_node n id t e in
      rw (put_nodes-cons n ns id s e, store_each-cons n ns t)
        (put_nodes-store_each ns (put_node id n s) (store_node n t) (a ∙ a', b ∙ b'))
]

-- Storing nodes at once leaves the same nodes and metrics as storing them one by one in order.
pub store_nodes-store_each :
    (ns : List Node) (s : Store) → SameData (store_nodes ns s) (store_each ns s)
unfolding store_nodes
store_nodes-store_each ns s = put_nodes-store_each ns _ s (refl, refl)

-- The last node of a list that has the identifier.
abbrev pub find_last : ℕ → List Node → Option Node
find_last id [] = none
find_last id (n ∷ ns) = elim (find_last id ns) [
  | some m ↦ some m
  | none ↦ elim n.id [ none ↦ none | some j ↦ if j == id then some n else none ]
]

abbrev pub or_else {ℓ} : {A : Type ℓ} → Option A → Option A → Option A
or_else none b = b
or_else (some a) b = some a

pub put_nodes-lookup :
    (ns : List Node) (id : ℕ) (s : Store)
    → NumMap.lookup id (put_nodes ns s).nodes_by_id
      ≡ or_else (find_last id ns) (NumMap.lookup id s.nodes_by_id)
unfolding put_nodes
put_nodes-lookup [] id s = refl
put_nodes-lookup (n ∷ ns) id s = elim (Option-cases n.id) [
  | inl e ↦ ground (arith, put_nodes-lookup ns id s)
  | inr (j, e) ↦ ground (
    arith,
    put_nodes-lookup ns id (put_node j n s),
    put_node-nodes j n s,
    NumMap.lookup-insert j id n s.nodes_by_id,
  )
]

put_nodes-emitted : (ns : List Node) (s : Store) → (put_nodes ns s).emitted ≡ s.emitted
unfolding put_nodes
put_nodes-emitted [] s = refl
put_nodes-emitted (n ∷ ns) s = elim (Option-cases n.id) [
  | inl e ↦ ground (arith, put_nodes-emitted ns s)
  | inr (j, e) ↦ ground (arith, put_nodes-emitted ns (put_node j n s), put_node-nodes j n s)
]

-- After `updateNodes` an identifier gives the last node of the list that has it, or else the node
-- that was there. Two events are emitted, whatever the length of the list.
pub store_nodes_lem :
    (ns : List Node) (id : ℕ) (s : Store)
    → (get_node_by_id id (store_nodes ns s) ≡ or_else (find_last id ns) (get_node_by_id id s))
      × ((store_nodes ns s).emitted ≡ s.emitted ++ before_update_nodes ns ∷ update_nodes ns ∷ [])
unfolding store_nodes get_node_by_id
store_nodes_lem ns id s = (
  put_nodes-lookup ns id _,
  cc (
    put_nodes-emitted ns (emit (before_update_nodes ns) s),
    append_assoc s.emitted (before_update_nodes ns ∷ []) (update_nodes ns ∷ []),
  ),
)
