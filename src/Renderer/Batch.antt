-- ===== src/Renderer/Batch.antt =====
-- What `update_batch_nodes` shows of a list of nodes (web-phalcon/public/js/netgraphz/renderer.js).
use netgraphz2_gpl.Common.NumMap
use mathlib.Core.Path.{subst}
use netgraphz2_gpl.Numbers.{Numbers}
use netgraphz2_gpl.Model.{Node}
use netgraphz2_gpl.Renderer.Laws.{GraphLaws, SameElements, SameNodes, Shows}
use netgraphz2_gpl.Renderer.Status.{update_node, Graph, class_of, update_batch_nodes, update_at}
use netgraphz2_gpl.Renderer.UpdateNode.{
  Linked, Shows-eq, update_node_lem, Linked-SameNodes, SameElements-refl, SameElements-trans,
  SameNodes-refl, SameNodes-trans,
}
use netgraphz2_gpl.Store.Batch.{find_last, or_else}
use netgraphz2_gpl.Store.Defs.{Store, get_node_by_id}
use netgraphz2_gpl.Common.{
  ◌>>=◌, List, ==_iff, Bool-cases, Option, String, [], ap, arith, if◌then◌else◌, inl, inr, none,
  refl, some, sym, true, ℕ, ◌==◌, ◌∙◌, ◌∷◌, ◌≡◌, Option-cases, ◌≢◌,
}

-- No two nodes of the list have one identifier.
abbrev pub DistinctIds : List Node → Type 0
DistinctIds [] = Unit {0}
DistinctIds (n ∷ ns) = ((id : ℕ) → n.id ≡ some id → find_last id ns ≡ none) × DistinctIds ns

find_last-skip :
    (j : ℕ) (n : Node) (ns : List Node) → n.id ≡ none → find_last j (n ∷ ns) ≡ find_last j ns
find_last-skip j n ns e = ground arith

find_last-own : (id : ℕ) (n : Node) (ns : List Node) → n.id ≡ some id → find_last id (n ∷ ns) ≢ none
find_last-own id n ns e = ground arith

find_last-more :
    (id : ℕ) (n : Node) (ns : List Node) → find_last id ns ≢ none → find_last id (n ∷ ns) ≢ none
find_last-more id n ns h p = h (ground arith)

current_other :
    (k id : ℕ) (n : Node) (a b : Option Node) → k ≢ id → a ≡ b → (if k == id then some n else a) ≡ b
current_other k id n a b h e = ground arith

or_else-find_last :
    (id k : ℕ) (n : Node) (ns : List Node) (a : Option Node)
    → n.id ≡ some k
    → or_else (find_last id ns) (if k == id then some n else a) ≡ or_else (find_last id (n ∷ ns)) a
or_else-find_last id k n ns a e = ground arith

module _ {W V Edge : Type 0} (num : Numbers W) (graph : Graph V Edge) (source : Option String)
    (laws : GraphLaws graph) where
  open graph use {has_node, has_class}

  -- Each drawn node shows the state of the node that is current at its identifier.
  abbrev pub Shown : (ℕ → Option Node) → V → Type 0
  Shown current v =
      (id : ℕ)
      → has_node id v ≡ true
      → (n : Node) × (current id ≡ some n) × Shows graph id (class_of source n) v

  pub Shown-eq :
      (current current' : ℕ → Option Node) (v : V)
      → ((id : ℕ) → current id ≡ current' id)
      → Shown current v
      → Shown current' v
  Shown-eq current current' v e shown id drawn =
      let (n, at_id, shows) = shown id drawn in (n, sym (e id) ∙ at_id, shows)

  -- One node of the batch, which is current as it is stored.
  pub update_node-Shown :
      (n : Node) (id : ℕ) (s : Store) (v : V) (current : ℕ → Option Node)
      → n.id ≡ some id
      → Linked graph s v
      → current id ≡ get_node_by_id id s
      → Shown current v
      → (s' : Store) × (v' : V) × (update_node num graph source n s v ≡ some (s', v'))
        × SameNodes s s'
        × SameElements graph v v'
        × Shown (λ j. if id == j then some n else current j) v'
  update_node-Shown n id s v current e linked stored shown =
      let (t, w, eq, same, elements, others, own) =
        update_node_lem graph num source laws n id s v e linked in
      (
        t,
        w,
        eq,
        same,
        elements,
        λ j drawn.
            let (p, at_j, shows) = shown j (sym (elements.nodes j) ∙ drawn) in
            elim (Bool-cases (id == j)) [
              | inl hit ↦
                  let here = (==_iff id j).0 hit in
                  (
                    n,
                    rw hit refl,
                    subst (λ k. Shows graph k (class_of source n) w) here
                        (own (ap (λ k. has_node k v) here ∙ sym (elements.nodes j) ∙ drawn) p
                          (sym stored ∙ ap current here ∙ at_j)
                          (subst (λ k. Shows graph k (class_of source p) v) (sym here) shows)),
                  )
              | inr miss ↦ (
                p,
                rw miss at_j,
                Shows-eq graph j (class_of source p) v w (λ d. others j d miss) shows,
              )
            ],
      )

  -- A batch of nodes with distinct identifiers, each of which is current as it is stored.
  pub update_batch_nodes-Shown :
      (ns : List Node) (s : Store) (v : V) (current : ℕ → Option Node)
      → DistinctIds ns
      → Linked graph s v
      → ((id : ℕ) → find_last id ns ≢ none → current id ≡ get_node_by_id id s)
      → Shown current v
      → (s' : Store) × (v' : V) × (update_batch_nodes num graph source ns s v ≡ some (s', v'))
        × SameNodes s s'
        × SameElements graph v v'
        × Shown (λ id. or_else (find_last id ns) (current id)) v'
  unfolding update_batch_nodes update_node update_at get_node_by_id
  update_batch_nodes-Shown [] s v current distinct linked stored shown =
      (s, v, refl, SameNodes-refl s, SameElements-refl graph v, shown)
  update_batch_nodes-Shown (n ∷ ns) s v current (unique, distinct) linked stored shown =
      elim (Option-cases n.id) [
        | inl e ↦
            let (s', v', eq, same, elements, shown') =
              update_batch_nodes-Shown ns s v current distinct linked
                (λ id h. stored id (λ p. h (sym (find_last-skip id n ns e) ∙ p))) shown in
            (
              s',
              v',
              ap (λ m. m >>= λ t. update_batch_nodes num graph source ns t.0 t.1)
                    (ap (λ o. update_at num graph source o n s v) e)
                  ∙ eq,
              same,
              elements,
              Shown-eq _ _ v'
                  (λ id. ap (λ o. or_else o (current id)) (sym (find_last-skip id n ns e))) shown',
            )
        | inr (k, e) ↦
            let (s₁, v₁, eq₁, same₁, elements₁, shown₁) =
              update_node-Shown n k s v current e linked (stored k (find_last-own k n ns e))
                shown in
            let (s', v', eq, same, elements, shown') =
              update_batch_nodes-Shown ns s₁ v₁ _ distinct
                (Linked-SameNodes graph s s₁ v v₁ same₁ elements₁ linked)
                (λ id h.
                  current_other k id n (current id) (get_node_by_id id s₁)
                    (λ hit. h (ap (λ j. find_last j ns) (sym hit) ∙ unique k e))
                    (stored id (find_last-more id n ns h)
                      ∙ ap (NumMap.lookup id) (sym same₁.nodes)))
                shown₁ in
            (
              s',
              v',
              ap (λ m. m >>= λ t. update_batch_nodes num graph source ns t.0 t.1) eq₁ ∙ eq,
              SameNodes-trans same₁ same,
              SameElements-trans graph elements₁ elements,
              Shown-eq _ _ v' (λ id. or_else-find_last id k n ns (current id) e) shown',
            )
      ]
