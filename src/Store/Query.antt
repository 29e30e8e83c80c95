-- ===== src/Store/Query.antt =====
-- What the store's queries find (web-phalcon/public/js/netgraphz/store.js).

use netgraphz2_gpl.Common.NumMap
use netgraphz2_gpl.Common.{
  Bool, List, Option, String, [], ap, arith, false, if◌then◌else◌, refl, some, sym, true, ℕ, ◌↔◌,
  ◌∙◌, ◌∷◌, ◌≡◌,
}
use netgraphz2_gpl.Model.{Node, state_node_down, state_node_warn}
use netgraphz2_gpl.Store.Defs.{
  Store, get_down_nodes, get_node_by_id, get_warning_nodes, has_state, keep,
}
use netgraphz2_gpl.Store.Invariant.{StoreInv}
use netgraphz2_gpl.Utils.{get_node_pref_effective_state}
use mathlib.Core.List.{Memᴰ}

keep_cons :
    (p : Node → Bool) (x : Node) (ks xs : List Node) (n : Node)
    → (Memᴰ n ks → Memᴰ n xs × (p n ≡ true))
    → (b : Bool) → p x ≡ b
    → Memᴰ n (if b then x ∷ ks else ks)
    → Memᴰ n (x ∷ xs) × (p n ≡ true)
keep_cons p x ks xs n ih true e (Memᴰ.head q) = (Memᴰ.head q, ap p q ∙ e)
keep_cons p x ks xs n ih true e (Memᴰ.tail r) = let (m, h) = ih r in (Memᴰ.tail m, h)
keep_cons p x ks xs n ih false e r = let (m, h) = ih r in (Memᴰ.tail m, h)

pub keep-mem :
    (p : Node → Bool) (ns : List Node) (n : Node) → Memᴰ n (keep p ns) → Memᴰ n ns × (p n ≡ true)
unfolding keep
keep-mem p [] n h = elim h [ ]
keep-mem p (x ∷ xs) n h = keep_cons p x (keep p xs) xs n (keep-mem p xs n) (p x) refl h

if_tail :
    (b : Bool) (x : Node) (ks : List Node) (n : Node)
    → Memᴰ n ks
    → Memᴰ n (if b then x ∷ ks else ks)
if_tail true x ks n h = Memᴰ.tail h
if_tail false x ks n h = h

pub mem-keep :
    (p : Node → Bool) (ns : List Node) (n : Node) → Memᴰ n ns → p n ≡ true → Memᴰ n (keep p ns)
unfolding keep
mem-keep p [] n h e = elim h [ ]
mem-keep p (x ∷ xs) n (Memᴰ.head q) e = rw (ap p (sym q) ∙ e) (Memᴰ.head q)
mem-keep p (x ∷ xs) n (Memᴰ.tail h) e = if_tail (p x) x (keep p xs) n (mem-keep p xs n h e)

pub mem-values :
    (m : List (ℕ × Node)) (n : Node)
    → NumMap.IsSorted m
    → Memᴰ n (NumMap.values m)
    → (id : ℕ) × (NumMap.lookup id m ≡ some n)
unfolding NumMap.values NumMap.lookup
mem-values [] n s h = elim h [ ]
mem-values ((j, w) ∷ m) n s (Memᴰ.head e) = (j, ground arith)
mem-values ((j, w) ∷ m) n s (Memᴰ.tail h) =
    let (k, lt, e) = NumMap.mem-values j m n h s in (k, ground arith)

has_state_iff :
    (source : Option String) (k : ℕ) (n : Node)
    → (has_state source k n ≡ true) ↔ (get_node_pref_effective_state source n ≡ some k)
has_state_iff source k n = ground arith

keep-state :
    (source : Option String) (k : ℕ) (s : Store) (n : Node)
    → NumMap.IsSorted s.nodes_by_id
    → Memᴰ n (keep (has_state source k) (NumMap.values s.nodes_by_id)) ↔ (
        (id : ℕ) × (get_node_by_id id s ≡ some n)
        × (get_node_pref_effective_state source n ≡ some k))
unfolding get_node_by_id
keep-state source k s n v = (
  λ h.
      let (m, e) = keep-mem (has_state source k) _ n h in
      let (id, l) = mem-values s.nodes_by_id n v m in (id, l, (has_state_iff source k n).0 e),
  λ h.
      mem-keep (has_state source k) _ n (NumMap.lookup-mem h.0 s.nodes_by_id n h.1)
        ((has_state_iff source k n).1 h.2),
)

-- In a store with the invariant `getDownNodes` gives exactly the stored nodes whose effective state
-- is down, and `getWarningNodes` exactly those whose effective state is warning.
pub problem_nodes_lem :
    (source : Option String) (s : Store) (n : Node)
    → StoreInv s
    → (Memᴰ n (get_down_nodes source s) ↔ (
        (id : ℕ) × (get_node_by_id id s ≡ some n)
        × (get_node_pref_effective_state source n ≡ some state_node_down)))
      × (Memᴰ n (get_warning_nodes source s) ↔ (
          (id : ℕ) × (get_node_by_id id s ≡ some n)
          × (get_node_pref_effective_state source n ≡ some state_node_warn)))
unfolding get_down_nodes get_warning_nodes
problem_nodes_lem source s n v = (
  keep-state source state_node_down s n v.nodes_sorted,
  keep-state source state_node_warn s n v.nodes_sorted,
)
