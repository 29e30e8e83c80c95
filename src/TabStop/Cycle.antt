-- ===== src/TabStop/Cycle.antt =====
-- Where the Tab key goes (web-phalcon/public/js/netgraphz/ui.tabstop.js).

use mathlib.Core.List.{append_assoc}
use netgraphz2_gpl.TabStop.Defs.{TabStop, tab_bkwd, tab_fwd}
use netgraphz2_gpl.Common.{
  ℕ, List, Option, [], ap, arith, get_elem?, if◌then◌else◌, length, length-append, ltb, none, refl,
  some, suc, zero, ◌++◌, ◌+◌, ◌-◌, ◌<◌, ◌∷◌, ◌≡◌, get_elem?-of_lt, sym, ◌==◌, ◌∙◌,
}

-- The place that the next press selects: the first or the last one if the queue has become shorter.
abbrev pub fwd_place : TabStop → ℕ
fwd_place t = if ltb t.tab_stop (length t.queue) then t.tab_stop else 0

abbrev pub bkwd_place : TabStop → ℕ
bkwd_place t = if ltb t.tab_stop (length t.queue) then t.tab_stop else length t.queue - 1

-- With problem nodes in the queue a press of Tab, forwards or backwards, ends with fuel 2, selects
-- one node of the queue and leaves a place inside the queue.
pub tab_selects :
    (t : TabStop)
    → 0 < length t.queue
    → ((id : ℕ) × (t' : TabStop) × (tab_fwd 2 t ≡ some t')
        × (get_elem? t.queue (fwd_place t) ≡ some id)
        × (t'.selected ≡ t.selected ++ id ∷ [])
        × (t'.queue ≡ t.queue)
        × (t'.tab_stop < length t.queue))
      × ((id : ℕ) × (t' : TabStop) × (tab_bkwd 2 t ≡ some t')
          × (get_elem? t.queue (bkwd_place t) ≡ some id)
          × (t'.selected ≡ t.selected ++ id ∷ [])
          × (t'.queue ≡ t.queue)
          × (t'.tab_stop < length t.queue))
unfolding tab_fwd tab_bkwd
tab_selects t h =
    let (x, e) = get_elem?-of_lt t.queue (fwd_place t) (ground arith) in
    let (y, e') = get_elem?-of_lt t.queue (bkwd_place t) (ground arith) in
    (
      (
        x,
        record t {
          tab_stop = if fwd_place t + 1 == length t.queue then 0 else fwd_place t + 1;
          selected = t.selected ++ x ∷ [];
        },
        ground arith,
        e,
        refl,
        refl,
        ground arith,
      ),
      (
        y,
        record t {
          tab_stop = if bkwd_place t == 0 then length t.queue - 1 else bkwd_place t - 1;
          selected = t.selected ++ y ∷ [];
        },
        ground arith,
        e',
        refl,
        refl,
        ground arith,
      ),
    )

get_elem?-middle :
    (xs : List ℕ) (x : ℕ) (ys : List ℕ) → get_elem? (xs ++ x ∷ ys) (length xs) ≡ some x
get_elem?-middle [] x ys = refl
get_elem?-middle (y ∷ xs) x ys = get_elem?-middle xs x ys

tab_fwd_middle :
    (xs : List ℕ) (x y : ℕ) (ys : List ℕ) (t : TabStop)
    → t.queue ≡ xs ++ x ∷ y ∷ ys
    → t.tab_stop ≡ length xs
    → tab_fwd 2 t ≡ some (record t { tab_stop = t.tab_stop + 1; selected = t.selected ++ x ∷ [] })
unfolding tab_fwd
tab_fwd_middle xs x y ys t q e =
    ground (arith, get_elem?-middle xs x (y ∷ ys), length-append xs (x ∷ y ∷ ys), ap length q)

tab_fwd_end :
    (xs : List ℕ) (x : ℕ) (t : TabStop)
    → t.queue ≡ xs ++ x ∷ []
    → t.tab_stop ≡ length xs
    → tab_fwd 2 t ≡ some (record t { tab_stop = 0; selected = t.selected ++ x ∷ [] })
unfolding tab_fwd
tab_fwd_end xs x t q e =
    ground (arith, get_elem?-middle xs x [], length-append xs (x ∷ []), ap length q)

unfoldable pub presses : ℕ → TabStop → Option TabStop
presses zero t = some t
presses (suc k) t = elim (tab_fwd 2 t) [ none ↦ none | some t' ↦ presses k t' ]

presses_rest :
    (xs : List ℕ) (x : ℕ) (ys : List ℕ) (t : TabStop)
    → t.queue ≡ xs ++ x ∷ ys
    → t.tab_stop ≡ length xs
    → presses (length (x ∷ ys)) t
      ≡ some (record t { tab_stop = 0; selected = t.selected ++ x ∷ ys })
unfolding presses
presses_rest xs x [] t q e = rw (tab_fwd_end xs x t q e, presses) refl
presses_rest xs x (y ∷ ys) t q e =
    let t' = record t { tab_stop = t.tab_stop + 1; selected = t.selected ++ x ∷ [] } in
    rw (tab_fwd_middle xs x y ys t q e, presses)
      (presses_rest (xs ++ x ∷ []) y ys t' (q ∙ sym (append_assoc xs (x ∷ []) (y ∷ ys)))
          (omega (arith, e, length-append xs (x ∷ [])))
        ∙ ap (λ l. some (record t { tab_stop = 0; selected = l }))
            (append_assoc t.selected (x ∷ []) (y ∷ ys)))

-- From the first place, as many presses of Tab as there are problem nodes select each of them once,
-- in the order of the queue, and lead back to the first place.
pub tab_cycle :
    (x : ℕ) (xs : List ℕ) (t : TabStop)
    → t.queue ≡ x ∷ xs
    → t.tab_stop ≡ 0
    → presses (length t.queue) t
      ≡ some (record t { tab_stop = 0; selected = t.selected ++ t.queue })
tab_cycle x xs t q e =
    ap (λ l. presses (length l) t) q
    ∙ presses_rest [] x xs t q e
    ∙ ap (λ l. some (record t { tab_stop = 0; selected = t.selected ++ l })) (sym q)
