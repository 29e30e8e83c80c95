-- ===== src/Renderer/Sync.antt =====
-- The drawn graph shows the states of the stored nodes
-- (web-phalcon/public/js/netgraphz/{store,renderer}.js).
use netgraphz2_gpl.Common.NumMap
use netgraphz2_gpl.Store.Batch.{find_last, or_else, store_nodes_lem}
use netgraphz2_gpl.Store.Update.{store_node_lem}
use netgraphz2_gpl.Numbers.{Numbers}
use netgraphz2_gpl.Model.{Node}
use netgraphz2_gpl.Renderer.Batch.{
  DistinctIds, Shown, Shown-eq, update_batch_nodes-Shown, update_node-Shown,
}
use netgraphz2_gpl.Renderer.Changes.{
  Change, change, change_all, node_changed, nodes_changed, draw, first_event, write,
}
use netgraphz2_gpl.Renderer.Laws.{GraphLaws, SameElements, Shows}
use netgraphz2_gpl.Renderer.Status.{Graph, class_of, on_event}
use netgraphz2_gpl.Renderer.UpdateNode.{
  Linked, SameElements-refl, Linked-eq, Linked-SameNodes, SameElements-trans,
}
use netgraphz2_gpl.Store.Defs.{
  Store, get_node_by_id, put_node, put_nodes, store_node, store_nodes, before_add_node,
  before_update_node,
}
use netgraphz2_gpl.Store.Invariant.{put_node-nodes}
use netgraphz2_gpl.Common.{
  ◌>>=◌, List, All, Option, Option-cases, String, [], arith, inl, inr, none, refl, some, true, ℕ,
  ◌∷◌, ◌≡◌, Bool-cases, ap, false, if◌then◌else◌, is_some, sym, ◌==◌, ◌∙◌,
}

put_nodes-links : (ns : List Node) (s : Store) → (put_nodes ns s).links_by_id ≡ s.links_by_id
unfolding put_nodes
put_nodes-links [] s = refl
put_nodes-links (n ∷ ns) s = elim (Option-cases n.id) [
  | inl e ↦ ground (arith, put_nodes-links ns s)
  | inr (j, e) ↦ ground (arith, put_nodes-links ns (put_node j n s), put_node-nodes j n s)
]

store_nodes-links : (ns : List Node) (s : Store) → (store_nodes ns s).links_by_id ≡ s.links_by_id
unfolding store_nodes
store_nodes-links ns s = put_nodes-links ns _

store_node-skip : (n : Node) (s : Store) → n.id ≡ none → store_node n s ≡ s
unfolding store_node
store_node-skip n s e = ground arith

first_event-none : (n : Node) (s : Store) → n.id ≡ none → first_event (node_changed n) s ≡ none
unfolding first_event
first_event-none n s e = ground arith

first_event_known :
    (n : Node) (id : ℕ) (s : Store)
    → n.id ≡ some id
    → is_some (get_node_by_id id s) ≡ true
    → first_event (node_changed n) s ≡ some (before_update_node n)
unfolding first_event
first_event_known n id s e known = ground arith

first_event_unknown :
    (n : Node) (id : ℕ) (s : Store)
    → n.id ≡ some id
    → is_some (get_node_by_id id s) ≡ false
    → first_event (node_changed n) s ≡ some (before_add_node n)
unfolding first_event
first_event_unknown n id s e unknown = ground arith

current_kept :
    (id j : ℕ) (n p : Node) (s : Store)
    → is_some (get_node_by_id id s) ≡ false
    → get_node_by_id j s ≡ some p
    → (if id == j then some n else get_node_by_id j s) ≡ some p
current_kept id j n p s unknown at_j = ground arith

-- In one call of `updateNodes` no identifier comes twice.
abbrev pub IsProper : Change → Type 0
IsProper (node_changed n) = Unit {0}
IsProper (nodes_changed ns) = DistinctIds ns

module _ {W V Edge : Type 0} (num : Numbers W) (graph : Graph V Edge) (source : Option String)
    (laws : GraphLaws graph) where
  open graph use {has_node, has_class}

  -- Each drawn node is stored and shows of the five classes exactly that of its stored state, and
  -- the link of each drawn edge is stored.
  pub record Sync (s : Store) (v : V) : Type 0 where
    pub shown :
        (id : ℕ)
        → has_node id v ≡ true
        → (n : Node) × (get_node_by_id id s ≡ some n) × Shows graph id (class_of source n) v
    pub linked : Linked graph s v

  -- What one change does.
  abbrev Synced : Change → Store → V → Type 0
  Synced c s v =
      (s' : Store) × (v' : V) × (change num graph source c s v ≡ some (s', v'))
      × SameElements graph v v'
      × Sync s' v'

  write-Sync :
      (s t : Store) (v : V) (current : ℕ → Option Node)
      → t.links_by_id ≡ s.links_by_id
      → ((id : ℕ) → get_node_by_id id t ≡ current id)
      → Linked graph s v
      → Shown num graph source laws current v
      → Sync t v
  write-Sync s t v current links nodes linked shown = record {
    shown =
        Shown-eq num graph source laws current (λ id. get_node_by_id id t) v (λ id. sym (nodes id))
          shown;
    linked = Linked-eq graph s t v links linked;
  }

  nodes_changed-Synced :
      (ns : List Node) (s : Store) (v : V)
      → DistinctIds ns
      → Sync s v
      → Synced (nodes_changed ns) s v
  unfolding change first_event write draw on_event get_node_by_id
  nodes_changed-Synced ns s v distinct sync =
      let (s', v', eq, same, elements, shown) =
        update_batch_nodes-Shown num graph source laws ns s v (λ id. get_node_by_id id s) distinct
          sync.linked (λ id _. refl) sync.shown in
      (
        store_nodes ns s',
        v',
        ap (λ m. m >>= λ t. some (store_nodes ns t.0, t.1)) eq,
        elements,
        write-Sync s' (store_nodes ns s') v' (λ id. or_else (find_last id ns) (get_node_by_id id s))
            (store_nodes-links ns s')
            (λ id.
              (store_nodes_lem ns id s').0
              ∙ ap (λ m. or_else (find_last id ns) (NumMap.lookup id m)) same.nodes)
            (Linked-SameNodes graph s s' v v' same elements sync.linked) shown,
      )

  known-Synced :
      (n : Node) (id : ℕ) (s : Store) (v : V)
      → n.id ≡ some id
      → is_some (get_node_by_id id s) ≡ true
      → Sync s v
      → Synced (node_changed n) s v
  unfolding change write draw on_event get_node_by_id
  known-Synced n id s v e known sync =
      let (s', v', eq, same, elements, shown) =
        update_node-Shown num graph source laws n id s v (λ j. get_node_by_id j s) e sync.linked
          refl sync.shown in
      let (nodes, links, _) = store_node_lem n id s' e in
      (
        store_node n s',
        v',
        ap (λ o. draw num graph source o s v >>= λ t. some (store_node n t.0, t.1))
              (first_event_known n id s e known)
            ∙ ap (λ m. m >>= λ t. some (store_node n t.0, t.1)) eq,
        elements,
        write-Sync s' (store_node n s') v' (λ j. if id == j then some n else get_node_by_id j s)
            links
            (λ j. nodes j ∙ ap (λ m. if id == j then some n else NumMap.lookup j m) same.nodes)
            (Linked-SameNodes graph s s' v v' same elements sync.linked) shown,
      )

  unknown-Synced :
      (n : Node) (id : ℕ) (s : Store) (v : V)
      → n.id ≡ some id
      → is_some (get_node_by_id id s) ≡ false
      → Sync s v
      → Synced (node_changed n) s v
  unfolding change write draw on_event
  unknown-Synced n id s v e unknown sync =
      let (nodes, links, _) = store_node_lem n id s e in
      (
        store_node n s,
        v,
        ap (λ o. draw num graph source o s v >>= λ t. some (store_node n t.0, t.1))
            (first_event_unknown n id s e unknown),
        SameElements-refl graph v,
        record {
          shown = λ j drawn.
              let (p, at_j, shows) = sync.shown j drawn in
              (p, nodes j ∙ current_kept id j n p s unknown at_j, shows);
          linked = Linked-eq graph s (store_node n s) v links sync.linked;
        },
      )

  node_changed-Synced : (n : Node) (s : Store) (v : V) → Sync s v → Synced (node_changed n) s v
  unfolding change write draw
  node_changed-Synced n s v sync = elim (Option-cases n.id) [
    | inl e ↦ (
      s,
      v,
      ap (λ o. draw num graph source o s v >>= λ t. some (store_node n t.0, t.1))
            (first_event-none n s e)
          ∙ ap (λ t. some (t, v)) (store_node-skip n s e),
      SameElements-refl graph v,
      sync,
    )
    | inr (id, e) ↦ elim (Bool-cases (is_some (get_node_by_id id s))) [
      | inl known ↦ known-Synced n id s v e known sync
      | inr unknown ↦ unknown-Synced n id s v e unknown sync
    ]
  ]

  change-Synced : (c : Change) (s : Store) (v : V) → IsProper c → Sync s v → Synced c s v
  change-Synced (node_changed n) s v proper sync = node_changed-Synced n s v sync
  change-Synced (nodes_changed ns) s v proper sync = nodes_changed-Synced ns s v proper sync

  -- From a drawn graph that shows the stored nodes, any sequence of updates of the store in which no
  -- call of `updateNodes` has an identifier twice runs with no exception, draws no other elements,
  -- and ends with the drawn graph showing the stored nodes.
  pub change_all-Sync :
      (cs : List Change) (s : Store) (v : V)
      → All IsProper cs
      → Sync s v
      → (s' : Store) × (v' : V) × (change_all num graph source cs s v ≡ some (s', v'))
        × SameElements graph v v'
        × Sync s' v'
  unfolding change_all
  change_all-Sync [] s v proper sync = (s, v, refl, SameElements-refl graph v, sync)
  change_all-Sync (c ∷ cs) s v proper sync =
      let (s₁, v₁, eq₁, elements₁, sync₁) = change-Synced c s v proper.0 sync in
      let (s', v', eq, elements, sync') = change_all-Sync cs s₁ v₁ proper.1 sync₁ in
      (
        s',
        v',
        ap (λ m. m >>= λ t. change_all num graph source cs t.0 t.1) eq₁ ∙ eq,
        SameElements-trans graph elements₁ elements,
        sync',
      )
