-- ===== src/TabStop/Queue.antt =====
-- The queue holds the problem nodes, each once (web-phalcon/public/js/netgraphz/ui.tabstop.js).

use netgraphz2_gpl.TabStop.Defs.{index_of, TabStop, handle_node_update, is_problem}
use netgraphz2_gpl.Common.{
  ℕ, Bool, Bool-cases, List, Option, [], arith, erase_idx, false, get_elem?, if◌then◌else◌, inl,
  inr, refl, some, suc, true, zero, ◌++◌, ◌+◌, ◌==◌, ◌||◌, ◌∷◌, ◌≡◌, if_cases, none,
}

abbrev pub has : ℕ → List ℕ → Bool
has id [] = false
has id (x ∷ xs) = x == id || has id xs

-- No identifier stands twice.
abbrev pub IsDistinct : List ℕ → Type 0
IsDistinct [] = Unit {0}
IsDistinct (x ∷ xs) = (has x xs ≡ false) × IsDistinct xs

index_of-absent :
    (id i : ℕ) (xs : List ℕ) (o : Option ℕ) → has id xs ≡ false → index_of id i xs o ≡ o
unfolding index_of
index_of-absent id i [] o h = refl
index_of-absent id i (x ∷ xs) o h = ground (arith, index_of-absent id (i + 1) xs o)

-- Where the identifier stands once, the index is its place.
index_of-present :
    (id i : ℕ) (xs : List ℕ) (o : Option ℕ)
    → IsDistinct xs
    → has id xs ≡ true
    → (k : ℕ) × (index_of id i xs o ≡ some (i + k)) × (get_elem? xs k ≡ some id)
unfolding index_of
index_of-present id i [] o d h = cc
index_of-present id i (x ∷ xs) o d h = elim (Bool-cases (x == id)) [
  | inl hit ↦ (0, ground (arith, index_of-absent id (i + 1) xs (some i)), ground arith)
  | inr miss ↦
      let (k, e, g) = index_of-present id (i + 1) xs o d.1 (ground arith) in
      (suc k, ground arith, g)
]

has-append_one : (j id : ℕ) (xs : List ℕ) → has j (xs ++ id ∷ []) ≡ (has j xs || id == j)
has-append_one j id [] = ground arith
has-append_one j id (x ∷ xs) = ground (arith, has-append_one j id xs)

append_one-IsDistinct :
    (id : ℕ) (xs : List ℕ) → has id xs ≡ false → IsDistinct xs → IsDistinct (xs ++ id ∷ [])
append_one-IsDistinct id [] h d = (refl, tt)
append_one-IsDistinct id (x ∷ xs) h d =
    (ground (arith, has-append_one x id xs), append_one-IsDistinct id xs (ground arith) d.1)

has_of_get : (id k : ℕ) (xs : List ℕ) → get_elem? xs k ≡ some id → has id xs ≡ true
has_of_get id k [] g = cc
has_of_get id zero (x ∷ xs) g = ground arith
has_of_get id (suc k) (x ∷ xs) g = ground (arith, has_of_get id k xs g)

has-erase_idx-absent : (j k : ℕ) (xs : List ℕ) → has j xs ≡ false → has j (erase_idx xs k) ≡ false
has-erase_idx-absent j k [] h = refl
has-erase_idx-absent j zero (x ∷ xs) h = ground arith
has-erase_idx-absent j (suc k) (x ∷ xs) h = ground (arith, has-erase_idx-absent j k xs)

has-erase_idx :
    (j id k : ℕ) (xs : List ℕ)
    → IsDistinct xs
    → get_elem? xs k ≡ some id
    → has j (erase_idx xs k) ≡ (if id == j then false else has j xs)
has-erase_idx j id k [] d g = cc
has-erase_idx j id zero (x ∷ xs) d g = elim (Bool-cases (id == j)) [
  | inl e ↦ ground arith
  | inr e ↦ ground arith
]
has-erase_idx j id (suc k) (x ∷ xs) d g =
    ground (arith, has-erase_idx j id k xs d.1 g, has_of_get id k xs g)

erase_idx-IsDistinct : (k : ℕ) (xs : List ℕ) → IsDistinct xs → IsDistinct (erase_idx xs k)
erase_idx-IsDistinct k [] d = tt
erase_idx-IsDistinct zero (x ∷ xs) d = d.1
erase_idx-IsDistinct (suc k) (x ∷ xs) d =
    (has-erase_idx-absent x k xs d.0, erase_idx-IsDistinct k xs d.1)

-- The queue of `u` is that of `t` after an update of the node `id` to `state`.
abbrev pub IsUpdate : ℕ → Option ℕ → TabStop → TabStop → Type 0
IsUpdate id state t u =
    IsDistinct u.queue
    × ((j : ℕ) → has j u.queue ≡ (if id == j then is_problem state else has j t.queue))

-- If no node stands twice in the queue, none does after the update of a node. Afterwards the node
-- is in the queue exactly if its state is down or warning, and every other node is in it as before.
pub handle_node_update_lem :
    (id : ℕ) (state : Option ℕ) (t : TabStop)
    → IsDistinct t.queue
    → IsUpdate id state t (handle_node_update id state t)
unfolding handle_node_update
handle_node_update_lem id state t d = elim (Bool-cases (has id t.queue)) [
  | inr absent ↦
      rw (index_of-absent id 0 t.queue none absent, handle_node_update)
        (if_cases (IsUpdate id state t) (is_problem state)
          (λ p. (
            append_one-IsDistinct id t.queue absent d,
            λ j. ground (arith, has-append_one j id t.queue),
          ))
          (λ p. (d, λ j. ground arith)))
  | inl present ↦
      let (k, e, g) = index_of-present id 0 t.queue none d present in
      rw (e, handle_node_update)
        (if_cases (IsUpdate id state t) (is_problem state) (λ p. (d, λ j. ground arith))
          (λ p. (
            erase_idx-IsDistinct (0 + k) t.queue d,
            λ j. ground (arith, has-erase_idx j id (0 + k) t.queue d, g),
          )))
]
