-- ===== src/Renderer/UpdateNode.antt =====
-- What `update_node` does to the drawn graph (web-phalcon/public/js/netgraphz/renderer.js).
use netgraphz2_gpl.Utils.{get_node_pref_effective_state}
use netgraphz2_gpl.Common.NumMap
use mathlib.Core.Path.{subst}
use netgraphz2_gpl.Numbers.{Numbers}
use netgraphz2_gpl.Model.{Link, Node}
use netgraphz2_gpl.Renderer.Laws.{
  GraphLaws, IsStored, SameElements, SameNodes, Shows, update_node_status-Shows,
  update_node_status_other, update_node_status-SameElements,
}
use netgraphz2_gpl.Renderer.Status.{
  update_node, Graph, has_no_load, prepare_edge_style, same_state, update_edge, update_edges,
  class_of, requires_update, update_node_status, restyle, show_state, update_at,
}
use netgraphz2_gpl.Store.Defs.{Store, get_link_by_id, get_node_by_id}
use netgraphz2_gpl.Common.{
  ◌>>=◌, List, All, Option, Option-cases, String, [], arith, if_cases, if◌then◌else◌, inl, inr,
  is_some, none, refl, some, sym, true, ℕ, ◌∙◌, ◌∷◌, ◌≡◌, false, ◌==◌, ap,
}

pub SameNodes-trans : {s t u : Store} → SameNodes s t → SameNodes t u → SameNodes s u
SameNodes-trans a b = record { nodes = b.nodes ∙ a.nodes; links = λ k. b.links k ∙ a.links k }

pub SameNodes-refl : (s : Store) → SameNodes s s
SameNodes-refl s = record { nodes = refl; links = λ k. refl }

insert-is_some {ℓ} :
    {A : Type ℓ} (id k : ℕ) (x : A) (m : List (ℕ × A))
    → is_some (NumMap.lookup id m) ≡ true
    → is_some (NumMap.lookup k (NumMap.insert id x m)) ≡ is_some (NumMap.lookup k m)
insert-is_some id k x m h = ground (arith, NumMap.lookup-insert id k x m)

-- A stored link is found, and the nodes and the other links stay.
get_link_by_id_lem :
    (id : ℕ) (s : Store)
    → is_some (NumMap.lookup id s.links_by_id) ≡ true
    → (l : Link) × (t : Store) × (get_link_by_id id s ≡ (some l, t)) × SameNodes s t
unfolding get_link_by_id
get_link_by_id_lem id s h = elim (Option-cases (NumMap.lookup id s.links_by_id)) [
  | inl e ↦ cc
  | inr (l, e) ↦
      let l' = record l {
        src = record (l.src) { node = get_node_by_id l.src.id s };
        dst = record (l.dst) { node = get_node_by_id l.dst.id s };
      } in
      (
        l',
        record s { links_by_id = NumMap.insert id l' s.links_by_id },
        rw (e, get_link_by_id) refl,
        record { nodes = refl; links = λ k. insert-is_some id k l' s.links_by_id h },
      )
]

same_state-eq : (a b : Option ℕ) → same_state a b ≡ true → a ≡ b
unfolding same_state
same_state-eq none none h = refl
same_state-eq none (some b) h = cc
same_state-eq (some a) none h = cc
same_state-eq (some a) (some b) h = ground arith

-- Without an update the classes of the states are the same.
same_class :
    (source : Option String) (n p : Node)
    → requires_update source n (some p) ≡ false
    → class_of source p ≡ class_of source n
unfolding requires_update class_of
same_class source n p h =
    let e =
      same_state-eq (get_node_pref_effective_state source n)
        (get_node_pref_effective_state source p) (ground arith) in
    cc

module _ {V Edge : Type 0} (graph : Graph V Edge) where
  open graph use {has_node, has_class, connected_edges}

  -- Elements, edges and classes are the same.
  pub record SameLook (v v' : V) : Type 0 where
    pub elements : SameElements graph v v'
    pub classes : (j : ℕ) (d : String) → has_class j d v' ≡ has_class j d v

  pub SameElements-refl : (v : V) → SameElements graph v v
  SameElements-refl v = record { nodes = λ j. refl; edges = λ j. refl }

  pub SameElements-trans :
      {v w x : V} → SameElements graph v w → SameElements graph w x → SameElements graph v x
  SameElements-trans a b = record {
    nodes = λ j. b.nodes j ∙ a.nodes j;
    edges = λ j. b.edges j ∙ a.edges j;
  }

  SameLook-trans : {v w x : V} → SameLook v w → SameLook w x → SameLook v x
  SameLook-trans a b = record {
    elements = SameElements-trans a.elements b.elements;
    classes = λ j d. b.classes j d ∙ a.classes j d;
  }

  SameLook-refl : (v : V) → SameLook v v
  SameLook-refl v = record { elements = SameElements-refl v; classes = λ j d. refl }

  pub Shows-eq :
      (id : ℕ) (c : Option String) (v v' : V)
      → ((d : String) → has_class id d v' ≡ has_class id d v)
      → Shows graph id c v
      → Shows graph id c v'
  Shows-eq id c v v' same (p, (q, (r, (s, (t, _))))) =
      (same _ ∙ p, (same _ ∙ q, (same _ ∙ r, (same _ ∙ s, (same _ ∙ t, tt)))))

  IsStored-eq :
      (s s' : Store) (es : List (Edge × Option ℕ))
      → ((k : ℕ)
          → is_some (NumMap.lookup k s'.links_by_id) ≡ is_some (NumMap.lookup k s.links_by_id))
      → All (IsStored s) es
      → All (IsStored s') es
  IsStored-eq s s' [] same h = tt
  IsStored-eq s s' ((e, r) ∷ es) same ((k, p, q), rest) =
      ((k, p, same k ∙ q), IsStored-eq s s' es same rest)

  -- The link of every drawn edge is in the store.
  abbrev pub Linked : Store → V → Type 0
  Linked s v = (j : ℕ) → All (IsStored s) (connected_edges j v)

  pub Linked-eq : (s t : Store) (v : V) → t.links_by_id ≡ s.links_by_id → Linked s v → Linked t v
  Linked-eq s t v e h j = IsStored-eq s t _ (λ k. ap (λ m. is_some (NumMap.lookup k m)) e) (h j)

  pub Linked-SameNodes :
      (s s' : Store) (v v' : V)
      → SameNodes s s'
      → SameElements graph v v'
      → Linked s v
      → Linked s' v'
  Linked-SameNodes s s' v v' same elements h j =
      subst (All (IsStored s')) (sym (elements.edges j)) (IsStored-eq s s' _ same.links (h j))

  module _ {W : Type 0} (num : Numbers W) (source : Option String) (laws : GraphLaws graph) where
    css-SameLook :
        (e : Edge) (style : List (String × String)) (v : V) → SameLook v (graph.css e style v)
    css-SameLook e style v = record {
      elements = record {
        nodes = λ j. laws.has_node-css e style j v;
        edges = λ j. laws.edges-css e style j v;
      };
      classes = λ j d. laws.has_class-css e style j d v;
    }

    update_edge_lem :
        (e : Edge) (r : Option ℕ) (s : Store) (v : V)
        → IsStored s (e, r)
        → (s' : Store) × (v' : V) × (update_edge num graph source e r s v ≡ some (s', v'))
          × SameNodes s s'
          × SameLook v v'
    unfolding update_edge
    update_edge_lem e r s v (k, p, q) =
        let (l, t, found, same) = get_link_by_id_lem k s q in
        (
          t,
          if has_no_load l then v else graph.css e (prepare_edge_style num l t) v,
          rw p (ap (restyle num graph source e v) found),
          same,
          if_cases (SameLook v) (has_no_load l) (λ _. SameLook-refl v)
              (λ _. css-SameLook e (prepare_edge_style num l t) v),
        )

    update_edges_lem :
        (es : List (Edge × Option ℕ)) (s : Store) (v : V)
        → All (IsStored s) es
        → (s' : Store) × (v' : V) × (update_edges num graph source es s v ≡ some (s', v'))
          × SameNodes s s'
          × SameLook v v'
    unfolding update_edges
    update_edges_lem [] s v h = (s, v, refl, SameNodes-refl s, SameLook-refl v)
    update_edges_lem ((e, r) ∷ es) s v h =
        let (s₁, v₁, p, same, look) = update_edge_lem e r s v h.0 in
        let (s₂, v₂, q, same', look') =
          update_edges_lem es s₁ v₁ (IsStored-eq s s₁ es same.links h.1) in
        (
          s₂,
          v₂,
          ap (λ m. m >>= λ t. update_edges num graph source es t.0 t.1) p ∙ q,
          SameNodes-trans same same',
          SameLook-trans look look',
        )

    -- `update_node` does not throw, it changes no other node's classes, and if the node's element
    -- showed the state of the stored node, it shows the new one's.
    pub update_node_lem :
        (n : Node) (id : ℕ) (s : Store) (v : V)
        → n.id ≡ some id
        → Linked s v
        → (s' : Store) × (v' : V) × (update_node num graph source n s v ≡ some (s', v'))
          × SameNodes s s'
          × SameElements graph v v'
          × ((j : ℕ) (d : String) → (id == j) ≡ false → has_class j d v' ≡ has_class j d v)
          × (has_node id v ≡ true
              → (p : Node) → get_node_by_id id s ≡ some p
              → Shows graph id (class_of source p) v
              → Shows graph id (class_of source n) v')
    unfolding update_node update_at show_state get_node_by_id
    update_node_lem n id s v e linked =
        let (t, w, found, same, look) = update_edges_lem (connected_edges id v) s v (linked id) in
        let changed = requires_update source n (get_node_by_id id t) in
        let written = update_node_status graph source id n w in
        (
          t,
          if changed then written else w,
          ap (λ o. update_at num graph source o n s v) e
              ∙ ap (λ m. m >>= show_state num graph source id n) found,
          same,
          if_cases (SameElements graph v) changed
              (λ _.
                SameElements-trans look.elements
                  (update_node_status-SameElements graph laws source id n w))
              (λ _. look.elements),
          λ j d ne.
              if_cases (λ x. has_class j d x ≡ has_class j d v) changed
                (λ _. update_node_status_other graph laws source id j n d w ne ∙ look.classes j d)
                (λ _. look.classes j d),
          λ drawn p at_id shows.
              if_cases (Shows graph id (class_of source n)) changed
                (λ _.
                  update_node_status-Shows graph laws source id n w
                    (look.elements.nodes id ∙ drawn))
                (λ kept.
                  subst (λ c. Shows graph id c w)
                    (same_class source n p (
                      ap (requires_update source n) (sym (ap (NumMap.lookup id) same.nodes ∙ at_id))
                      ∙ kept))
                    (Shows-eq id (class_of source p) v w (look.classes id) shows)),
        )
