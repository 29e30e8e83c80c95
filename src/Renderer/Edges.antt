-- ===== src/Renderer/Edges.antt =====
-- Which edges are drawn first (web-phalcon/public/js/netgraphz/renderer.js).
use netgraphz2_gpl.Common.NumMap
use netgraphz2_gpl.Model.{Link, Node}
use netgraphz2_gpl.Numbers.{Numbers}
use netgraphz2_gpl.Renderer.Elements.{
  EdgeElement, edge_element, edge_elements, has_ends, index_nodes, is_joined, node_elements,
  render_graph,
}
use netgraphz2_gpl.Renderer.Joins.{
  HasElement, HasNode, HasNode-has_ends, JoinOnce, SamePair, SamePair-sym, SamePair-eq,
  has_ends-true, index_nodes-HasNode, is_joined-false, is_joined-true,
}
use netgraphz2_gpl.Store.Defs.{Store}
use mathlib.Core.List.{Memᴰ}
use netgraphz2_gpl.Common.{
  List, Bool-cases, Option, String, [], ap, arith, false, inl, inr, is_some, not, refl, sym, true,
  ℕ, ◌&&◌, ◌∙◌, ◌∷◌, ◌≡◌, ◌⊎◌, All,
}

HasNode-element :
    (source : Option String) (ns : List Node) (id : ℕ)
    → HasNode ns id
    → HasElement (node_elements source ns) id
unfolding node_elements
HasNode-element source [] id (n, mem, e) = elim mem [ ]
HasNode-element source (x ∷ ns) id (n, Memᴰ.head p, e) =
    (_, Memᴰ.head refl, ap (λ n. n.id) (sym p) ∙ e)
HasNode-element source (x ∷ ns) id (n, Memᴰ.tail mem, e) =
    let (y, mem', e') = HasNode-element source ns id (n, mem, e) in (y, Memᴰ.tail mem', e')

-- What the loop over the links draws, where `ex` are the pairs joined so far.
record Drawn (ls : List Link) (ex : List (ℕ × ℕ)) (m : List (ℕ × Node)) (es : List EdgeElement)
    : Type 0 where
  pub ends :
      (e : EdgeElement)
      → Memᴰ e es
      → (is_some (NumMap.lookup e.source m) ≡ true) × (is_some (NumMap.lookup e.target m) ≡ true)
  pub apart :
      (e : EdgeElement) (p : ℕ × ℕ) → Memᴰ e es → Memᴰ p ex → ¬ SamePair e.source e.target p.0 p.1
  pub once : JoinOnce es
  pub joined :
      (l : Link)
      → Memᴰ l ls
      → has_ends l m ≡ true
      → ((p : ℕ × ℕ) × Memᴰ p ex × SamePair l.src.id l.dst.id p.0 p.1)
        ⊎ ((e : EdgeElement) × Memᴰ e es × SamePair l.src.id l.dst.id e.source e.target)

Drawn-skip :
    (l : Link) (ls : List Link) (ex : List (ℕ × ℕ)) (m : List (ℕ × Node)) (es : List EdgeElement)
    → (not (is_joined l ex) && has_ends l m) ≡ false
    → Drawn ls ex m es
    → Drawn (l ∷ ls) ex m es
Drawn-skip l ls ex m es h d = record {
  ends = d.ends;
  apart = d.apart;
  once = d.once;
  joined = λ x mem present. joined_head x mem present;
}
  where
    joined_head :
        (x : Link)
        → Memᴰ x (l ∷ ls)
        → has_ends x m ≡ true
        → ((p : ℕ × ℕ) × Memᴰ p ex × SamePair x.src.id x.dst.id p.0 p.1)
          ⊎ ((e : EdgeElement) × Memᴰ e es × SamePair x.src.id x.dst.id e.source e.target)
    joined_head x (Memᴰ.head e) present = inl (is_joined-true x ex (ground arith))
    joined_head x (Memᴰ.tail mem) present = d.joined x mem present

Drawn-add :
    (l : Link) (ls : List Link) (ex : List (ℕ × ℕ)) (m : List (ℕ × Node)) (a : EdgeElement)
    (es : List EdgeElement)
    → (not (is_joined l ex) && has_ends l m) ≡ true
    → a.source ≡ l.src.id
    → a.target ≡ l.dst.id
    → Drawn ls ((l.src.id, l.dst.id) ∷ ex) m es
    → Drawn (l ∷ ls) ex m (a ∷ es)
Drawn-add l ls ex m a es h src dst d = record {
  ends = ends;
  apart = apart;
  once = (first, d.once);
  joined = joined;
}
  where
    ends :
        (e : EdgeElement)
        → Memᴰ e (a ∷ es)
        → (is_some (NumMap.lookup e.source m) ≡ true) × (is_some (NumMap.lookup e.target m) ≡ true)
    ends e (Memᴰ.tail mem) = d.ends e mem
    ends e (Memᴰ.head p) = (
      ap (λ x. is_some (NumMap.lookup x m)) (ap (λ f. f.source) p ∙ src)
          ∙ (has_ends-true l ex m h).1.0,
      ap (λ x. is_some (NumMap.lookup x m)) (ap (λ f. f.target) p ∙ dst)
          ∙ (has_ends-true l ex m h).1.1,
    )

    apart :
        (e : EdgeElement) (p : ℕ × ℕ)
        → Memᴰ e (a ∷ es)
        → Memᴰ p ex
        → ¬ SamePair e.source e.target p.0 p.1
    apart e p (Memᴰ.tail mem) mem' same = d.apart e p mem (Memᴰ.tail mem') same
    apart e p (Memᴰ.head q) mem' same =
        is_joined-false l ex p (has_ends-true l ex m h).0 mem'
          (SamePair-eq (ap (λ f. f.source) q ∙ src) (ap (λ f. f.target) q ∙ dst) same)

    first : (f : EdgeElement) → Memᴰ f es → ¬ SamePair a.source a.target f.source f.target
    first f mem same =
        d.apart f (l.src.id, l.dst.id) mem (Memᴰ.head refl)
          (SamePair-sym _ _ _ _ (SamePair-eq src dst same))

    joined :
        (x : Link)
        → Memᴰ x (l ∷ ls)
        → has_ends x m ≡ true
        → ((p : ℕ × ℕ) × Memᴰ p ex × SamePair x.src.id x.dst.id p.0 p.1)
          ⊎ ((e : EdgeElement) × Memᴰ e (a ∷ es) × SamePair x.src.id x.dst.id e.source e.target)
    joined x (Memᴰ.head e) present =
        inr
          (a, Memᴰ.head refl, inl (ap (λ y. y.src.id) e ∙ sym src, ap (λ y. y.dst.id) e ∙ sym dst))
    joined x (Memᴰ.tail mem) present = elim (d.joined x mem present) [
      | inl (p, Memᴰ.head q, same) ↦ inr (
        a,
        Memᴰ.head refl,
        SamePair-sym _ _ _ _ (
            SamePair-eq (ap (λ (r : ℕ × ℕ). r.0) q ∙ sym src) (ap (λ (r : ℕ × ℕ). r.1) q ∙ sym dst)
              (SamePair-sym _ _ _ _ same)),
      )
      | inl (p, Memᴰ.tail mem', same) ↦ inl (p, mem', same)
      | inr (e, mem', same) ↦ inr (e, Memᴰ.tail mem', same)
    ]

edge_elements-Drawn :
    {W : Type 0} (num : Numbers W) (ls : List Link) (ex : List (ℕ × ℕ)) (m : List (ℕ × Node))
    (s : Store)
    → Drawn ls ex m (edge_elements num ls ex m s)
unfolding edge_elements edge_element
edge_elements-Drawn num [] ex m s = record {
  ends = λ e mem. elim mem [ ];
  apart = λ e p mem. elim mem [ ];
  once = tt;
  joined = λ l mem. elim mem [ ];
}
edge_elements-Drawn num (l ∷ ls) ex m s = elim (Bool-cases (not (is_joined l ex) && has_ends l m)) [
  | inl h ↦ rw h (
      Drawn-add l ls ex m _ _ h refl refl
        (edge_elements-Drawn num ls ((l.src.id, l.dst.id) ∷ ex) m s))
  | inr h ↦ rw h (Drawn-skip l ls ex m _ h (edge_elements-Drawn num ls ex m s))
]

All-of_mem : {A : Type 0} (P : A → Type 0) (xs : List A) → ((x : A) → Memᴰ x xs → P x) → All P xs
All-of_mem P [] h = tt
All-of_mem P (x ∷ xs) h = (h x (Memᴰ.head refl), All-of_mem P xs (λ y mem. h y (Memᴰ.tail mem)))

-- Of the elements that `render_graph` gives to the drawing library, each edge has an element of a
-- node at both its ends, no two edges join the same two nodes, and for a link whose two nodes are
-- among the nodes an edge joins them.
pub render_graph_lem :
    {W : Type 0} (num : Numbers W) (source : Option String) (nodes : List Node) (links : List Link)
    (s : Store) (l : Link)
    → Memᴰ l links
    → HasNode nodes l.src.id
    → HasNode nodes l.dst.id
    → let (xs, es) = render_graph num source nodes links s in
      All (λ e. HasElement xs e.source × HasElement xs e.target) es
      × JoinOnce es
      × ((e : EdgeElement) × Memᴰ e es × SamePair l.src.id l.dst.id e.source e.target)
unfolding render_graph
render_graph_lem num source nodes links s l mem from to =
    let d = edge_elements-Drawn num links [] (index_nodes nodes []) s in
    let drawn_at = λ (id : ℕ) (h : is_some (NumMap.lookup id (index_nodes nodes [])) ≡ true).
      HasNode-element source nodes id (index_nodes-HasNode nodes id h) in
    (
      All-of_mem _ _
          (λ e mem'. (drawn_at e.source (d.ends e mem').0, drawn_at e.target (d.ends e mem').1)),
      d.once,
      elim (d.joined l mem (HasNode-has_ends l nodes from to)) [
        | inl (p, none_yet, _) ↦ elim none_yet [ ]
        | inr found ↦ found
      ],
    )
