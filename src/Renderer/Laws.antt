-- ===== src/Renderer/Laws.antt =====
-- What the renderer relies on in the drawing library, and what its updates of one node do
-- (web-phalcon/public/js/netgraphz/renderer.js).
use netgraphz2_gpl.Model.{Node}
use netgraphz2_gpl.Common.NumMap
use netgraphz2_gpl.Renderer.Status.{Graph, clear_classes, class_of, update_node_status}
use netgraphz2_gpl.Store.Defs.{Store}
use netgraphz2_gpl.Common.{
  List, All, Bool, Option, String, [], false, if◌then◌else◌, is_some, none, some, str_eq, true, ℕ,
  ◌==◌, ◌∷◌, ◌≡◌, Option-cases, arith, inl, inr, refl, ◌∙◌,
}

-- Classes are a set for each element, writing one element's classes leaves the others', and neither
-- classes nor styles change the elements.
pub record GraphLaws {V Edge : Type 0} (graph : Graph V Edge) : Type 0 where
  pub has_class-add_class :
      (id : ℕ) (c d : String) (v : V)
      → graph.has_node id v ≡ true
      → graph.has_class id d (graph.add_class id c v)
        ≡ (if str_eq c d then true else graph.has_class id d v)
  pub has_class-remove_class :
      (id : ℕ) (c d : String) (v : V)
      → graph.has_class id d (graph.remove_class id c v)
        ≡ (if str_eq c d then false else graph.has_class id d v)
  pub add_class_other :
      (id j : ℕ) (c d : String) (v : V)
      → (id == j) ≡ false
      → graph.has_class j d (graph.add_class id c v) ≡ graph.has_class j d v
  pub remove_class_other :
      (id j : ℕ) (c d : String) (v : V)
      → (id == j) ≡ false
      → graph.has_class j d (graph.remove_class id c v) ≡ graph.has_class j d v
  pub has_class-css :
      (e : Edge) (style : List (String × String)) (j : ℕ) (d : String) (v : V)
      → graph.has_class j d (graph.css e style v) ≡ graph.has_class j d v
  pub has_node-add_class :
      (id j : ℕ) (c : String) (v : V)
      → graph.has_node j (graph.add_class id c v) ≡ graph.has_node j v
  pub has_node-remove_class :
      (id j : ℕ) (c : String) (v : V)
      → graph.has_node j (graph.remove_class id c v) ≡ graph.has_node j v
  pub has_node-css :
      (e : Edge) (style : List (String × String)) (j : ℕ) (v : V)
      → graph.has_node j (graph.css e style v) ≡ graph.has_node j v
  pub edges-add_class :
      (id j : ℕ) (c : String) (v : V)
      → graph.connected_edges j (graph.add_class id c v) ≡ graph.connected_edges j v
  pub edges-remove_class :
      (id j : ℕ) (c : String) (v : V)
      → graph.connected_edges j (graph.remove_class id c v) ≡ graph.connected_edges j v
  pub edges-css :
      (e : Edge) (style : List (String × String)) (j : ℕ) (v : V)
      → graph.connected_edges j (graph.css e style v) ≡ graph.connected_edges j v

-- The five classes of states.
abbrev pub state_names : List String
state_names = "node_up" ∷ "node_down" ∷ "node_warn" ∷ "node_unknown" ∷ "node_flap" ∷ []

abbrev pub is_class : String → Option String → Bool
is_class d none = false
is_class d (some c) = str_eq c d

-- The nodes are the same, and the same links are there.
pub record SameNodes (s s' : Store) : Type 0 where
  pub nodes : s'.nodes_by_id ≡ s.nodes_by_id
  pub links :
      (k : ℕ) → is_some (NumMap.lookup k s'.links_by_id) ≡ is_some (NumMap.lookup k s.links_by_id)

-- The edge's link is in the store.
abbrev pub IsStored {ℓ} : {Edge : Type ℓ} → Store → Edge × Option ℕ → Type 0
IsStored s (e, r) = (k : ℕ) × (r ≡ some k) × (is_some (NumMap.lookup k s.links_by_id) ≡ true)

module _ {V Edge : Type 0} (graph : Graph V Edge) where
  open graph use {has_node, has_class, add_class, remove_class, connected_edges, css}

  -- Of the five classes the element has exactly the given one.
  abbrev pub Shows : ℕ → Option String → V → Type 0
  Shows id c v = All (λ d. has_class id d v ≡ is_class d c) state_names

  -- The drawn elements and edges are the same, and so are the classes of the node `j`.
  pub record SameElements (v v' : V) : Type 0 where
    pub nodes : (j : ℕ) → has_node j v' ≡ has_node j v
    pub edges : (j : ℕ) → connected_edges j v' ≡ connected_edges j v

  module _ (laws : GraphLaws graph) where
    open laws use {
      has_class-add_class, has_class-remove_class, add_class_other, remove_class_other,
      has_class-css, has_node-add_class, has_node-remove_class, has_node-css, edges-add_class,
      edges-remove_class, edges-css,
    }

    clear_classes-Shows : (id : ℕ) (v : V) → Shows id none (clear_classes graph id v)
    unfolding clear_classes
    clear_classes-Shows id v =
        simp (has_class-remove_class) (refl, (refl, (refl, (refl, (refl, tt)))))

    clear_classes_other :
        (id j : ℕ) (d : String) (v : V)
        → (id == j) ≡ false
        → has_class j d (clear_classes graph id v) ≡ has_class j d v
    unfolding clear_classes
    clear_classes_other id j d v ne =
        let removed = λ (c : String) (w : V). remove_class_other id j c d w ne in simp (removed)

    clear_classes-SameElements : (id : ℕ) (v : V) → SameElements v (clear_classes graph id v)
    unfolding clear_classes
    clear_classes-SameElements id v = record {
      nodes = λ j. simp (has_node-remove_class);
      edges = λ j. simp (edges-remove_class);
    }

    has_class-add_class_to_none :
        (id : ℕ) (c d : String) (v : V)
        → has_node id v ≡ true
        → has_class id d v ≡ false
        → has_class id d (add_class id c v) ≡ str_eq c d
    has_class-add_class_to_none id c d v h e = rw (has_class-add_class id c d v h, e) (ground arith)

    add_class-Shows :
        (id : ℕ) (c : String) (v : V)
        → has_node id v ≡ true
        → Shows id none v
        → Shows id (some c) (add_class id c v)
    add_class-Shows id c v h (a, (b, (c', (d, (e, _))))) =
        let added =
          λ (x : String) (p : has_class id x v ≡ false). has_class-add_class_to_none id c x v h p in
        (added _ a, (added _ b, (added _ c', (added _ d, (added _ e, tt)))))

    put_class-Shows :
        (id : ℕ) (k : Option String) (v : V)
        → has_node id v ≡ true
        → Shows id k (elim k [
          | none ↦ clear_classes graph id v
          | some c ↦ add_class id c (clear_classes graph id v)
        ])
    put_class-Shows id none v h = clear_classes-Shows id v
    put_class-Shows id (some c) v h =
        add_class-Shows id c (clear_classes graph id v)
          ((clear_classes-SameElements id v).nodes id ∙ h) (clear_classes-Shows id v)

    -- What `_update_node_status` does to the node's element, to the others and to the edges.
    pub update_node_status-Shows :
        (source : Option String) (id : ℕ) (n : Node) (v : V)
        → has_node id v ≡ true
        → Shows id (class_of source n) (update_node_status graph source id n v)
    unfolding update_node_status
    update_node_status-Shows source id n v h = put_class-Shows id (class_of source n) v h

    pub update_node_status_other :
        (source : Option String) (id j : ℕ) (n : Node) (d : String) (v : V)
        → (id == j) ≡ false
        → has_class j d (update_node_status graph source id n v) ≡ has_class j d v
    unfolding update_node_status
    update_node_status_other source id j n d v ne = elim (Option-cases (class_of source n)) [
      | inl e ↦ rw (e, update_node_status) (clear_classes_other id j d v ne)
      | inr (c, e) ↦
          rw (e, update_node_status)
            (add_class_other id j c d _ ne ∙ clear_classes_other id j d v ne)
    ]

    pub update_node_status-SameElements :
        (source : Option String) (id : ℕ) (n : Node) (v : V)
        → SameElements v (update_node_status graph source id n v)
    unfolding update_node_status
    update_node_status-SameElements source id n v =
        let unchanged = clear_classes-SameElements id v in
        elim (Option-cases (class_of source n)) [
          | inl e ↦ rw (e, update_node_status) unchanged
          | inr (c, e) ↦
              rw (e, update_node_status)
                record {
                  nodes = λ j. has_node-add_class id j c _ ∙ unchanged.nodes j;
                  edges = λ j. edges-add_class id j c _ ∙ unchanged.edges j;
                }
        ]
