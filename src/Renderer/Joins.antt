-- ===== src/Renderer/Joins.antt =====
-- The nodes and the joined pairs that the drawing of edges looks up (web-phalcon/public/js/netgraphz/renderer.js).
use netgraphz2_gpl.Common.NumMap
use netgraphz2_gpl.Model.{Link, Node}
use netgraphz2_gpl.Renderer.Elements.{
  EdgeElement, NodeElement, has_ends, has_link, index_nodes, is_joined,
}
use mathlib.Core.List.{Memᴰ}
use netgraphz2_gpl.Common.{
  List, Bool-cases, Option-cases, [], arith, false, inl, inr, is_some, not, refl, some, sym, true,
  ℕ, ◌&&◌, ◌==◌, ◌∙◌, ◌∷◌, ◌≡◌, ◌⊎◌,
}

-- The two pairs of identifiers are the same, in either order.
abbrev pub SamePair : ℕ → ℕ → ℕ → ℕ → Type 0
SamePair a b c d = ((a ≡ c) × (b ≡ d)) ⊎ ((a ≡ d) × (b ≡ c))

-- Some node of the list has the identifier.
abbrev pub HasNode : List Node → ℕ → Type 0
HasNode ns id = (n : Node) × Memᴰ n ns × (n.id ≡ some id)

-- Some element of a node has the identifier.
abbrev pub HasElement : List NodeElement → ℕ → Type 0
HasElement xs id = (x : NodeElement) × Memᴰ x xs × (x.real_id ≡ some id)

-- No two edges join the same nodes.
abbrev pub JoinOnce : List EdgeElement → Type 0
JoinOnce [] = Unit {0}
JoinOnce (e ∷ es) =
    ((f : EdgeElement) → Memᴰ f es → ¬ SamePair e.source e.target f.source f.target) × JoinOnce es

index_nodes-some :
    (ns : List Node) (m : List (ℕ × Node)) (id : ℕ)
    → is_some (NumMap.lookup id (index_nodes ns m)) ≡ true
    → HasNode ns id ⊎ (is_some (NumMap.lookup id m) ≡ true)
unfolding index_nodes
index_nodes-some [] m id h = inr h
index_nodes-some (n ∷ ns) m id h = elim (index_nodes-some ns _ id h) [
  | inl (x, mem, e) ↦ inl (x, Memᴰ.tail mem, e)
  | inr h' ↦ elim (Option-cases n.id) [
    | inl e ↦ inr (ground arith)
    | inr (k, e) ↦ elim (Bool-cases (k == id)) [
      | inl hit ↦ inl (n, Memᴰ.head refl, ground arith)
      | inr miss ↦ inr (ground (arith, NumMap.lookup-insert k id n m))
    ]
  ]
]

index_nodes-kept :
    (ns : List Node) (m : List (ℕ × Node)) (id : ℕ)
    → is_some (NumMap.lookup id m) ≡ true
    → is_some (NumMap.lookup id (index_nodes ns m)) ≡ true
unfolding index_nodes
index_nodes-kept [] m id h = h
index_nodes-kept (n ∷ ns) m id h = elim (Option-cases n.id) [
  | inl e ↦ ground (arith, index_nodes-kept ns m id)
  | inr (k, e) ↦
      ground (arith, index_nodes-kept ns (NumMap.insert k n m) id, NumMap.lookup-insert k id n m)
]

index_nodes-all :
    (ns : List Node) (m : List (ℕ × Node)) (id : ℕ) (n : Node)
    → Memᴰ n ns
    → n.id ≡ some id
    → is_some (NumMap.lookup id (index_nodes ns m)) ≡ true
unfolding index_nodes
index_nodes-all [] m id n mem e = elim mem [ ]
index_nodes-all (x ∷ ns) m id n (Memᴰ.head p) e =
    let e' : x.id ≡ some id = cc in
    ground (arith, index_nodes-kept ns (NumMap.insert id x m) id, NumMap.lookup-insert id id x m)
index_nodes-all (x ∷ ns) m id n (Memᴰ.tail mem) e = index_nodes-all ns _ id n mem e

pub index_nodes-HasNode :
    (ns : List Node) (id : ℕ)
    → is_some (NumMap.lookup id (index_nodes ns [])) ≡ true
    → HasNode ns id
unfolding NumMap.lookup
index_nodes-HasNode ns id h = elim (index_nodes-some ns [] id h) [ inl found ↦ found | inr e ↦ cc ]

pub HasNode-has_ends :
    (l : Link) (ns : List Node)
    → HasNode ns l.src.id
    → HasNode ns l.dst.id
    → has_ends l (index_nodes ns []) ≡ true
unfolding has_ends
HasNode-has_ends l ns (n, mem, e) (n', mem', e') =
    ground
      (arith, index_nodes-all ns [] l.src.id n mem e, index_nodes-all ns [] l.dst.id n' mem' e')

has_link-true : (a b : ℕ) (ex : List (ℕ × ℕ)) → has_link a b ex ≡ true → Memᴰ (a, b) ex
unfolding has_link
has_link-true a b [] h = cc
has_link-true a b ((x, y) ∷ ex) h = elim (Bool-cases (x == a && y == b)) [
  | inl hit ↦ Memᴰ.head (ground arith)
  | inr miss ↦ Memᴰ.tail (has_link-true a b ex (ground arith))
]

has_link-mem : (p : ℕ × ℕ) (ex : List (ℕ × ℕ)) → Memᴰ p ex → has_link p.0 p.1 ex ≡ true
unfolding has_link
has_link-mem p [] mem = elim mem [ ]
has_link-mem p ((x, y) ∷ ex) (Memᴰ.head e) = ground arith
has_link-mem p ((x, y) ∷ ex) (Memᴰ.tail mem) = ground (arith, has_link-mem p ex mem)

pub is_joined-true :
    (l : Link) (ex : List (ℕ × ℕ))
    → is_joined l ex ≡ true
    → (p : ℕ × ℕ) × Memᴰ p ex × SamePair l.src.id l.dst.id p.0 p.1
unfolding is_joined
is_joined-true l ex h = elim (Bool-cases (has_link l.src.id l.dst.id ex)) [
  | inl hit ↦ (_, has_link-true _ _ ex hit, inl (refl, refl))
  | inr miss ↦ (_, has_link-true _ _ ex (ground arith), inr (refl, refl))
]

pub is_joined-false :
    (l : Link) (ex : List (ℕ × ℕ)) (p : ℕ × ℕ)
    → is_joined l ex ≡ false
    → Memᴰ p ex
    → ¬ SamePair l.src.id l.dst.id p.0 p.1
unfolding is_joined
is_joined-false l ex p h mem same = ground (arith, has_link-mem p ex mem)

pub SamePair-sym : (a b c d : ℕ) → SamePair a b c d → SamePair c d a b
SamePair-sym a b c d (inl (p, q)) = inl (sym p, sym q)
SamePair-sym a b c d (inr (p, q)) = inr (sym q, sym p)

pub SamePair-eq : {a b a' b' c d : ℕ} → a ≡ a' → b ≡ b' → SamePair a b c d → SamePair a' b' c d
SamePair-eq p q (inl (r, s)) = inl (sym p ∙ r, sym q ∙ s)
SamePair-eq p q (inr (r, s)) = inr (sym p ∙ r, sym q ∙ s)

pub has_ends-true :
    (l : Link) (ex : List (ℕ × ℕ)) (m : List (ℕ × Node))
    → (not (is_joined l ex) && has_ends l m) ≡ true
    → (is_joined l ex ≡ false)
      × ((is_some (NumMap.lookup l.src.id m) ≡ true) × (is_some (NumMap.lookup l.dst.id m) ≡ true))
unfolding has_ends
has_ends-true l ex m h = ground arith
