-- ===== src/Pager.antt =====
-- The pages of nodes that the server gives out, and the identifier that the browser asks from next
-- (backend/src/ng_graph/neo4j_graph_storage.go, web-phalcon/public/js/netgraphz/main.js).
use netgraphz2_gpl.Common.NumMap.{Above}
use mathlib.Core.Path.{subst}
use mathlib.Core.List.{append_assoc}
use netgraphz2_gpl.Common.{
  List, [], arith, get_elem?, if◌then◌else◌, length, ltb, max, none, refl, some, take, ℕ, ◌++◌, ◌-◌,
  ◌∷◌, ◌≡◌, ◌≤◌, ap, drop, sym, take-append-drop, ◌<◌, ◌∙◌, Bool, false, suc, true,
}

-- How many requests succeed.
abbrev pub successes : List Bool → ℕ
successes [] = 0
successes (true ∷ oks) = suc (successes oks)
successes (false ∷ oks) = successes oks

module _ {ℓ} {A : Type ℓ} where
  -- The nodes above an identifier; the graph's nodes are in ascending order.
  unfoldable pub nodes_above : ℕ → List (ℕ × A) → List (ℕ × A)
  nodes_above from [] = []
  nodes_above from (x ∷ xs) = if ltb from x.0 then x ∷ nodes_above from xs else nodes_above from xs

  -- `GetAllNodesFrom`.
  unfoldable pub get_all_nodes_from : ℕ → ℕ → List (ℕ × A) → List (ℕ × A)
  unfolding nodes_above
  get_all_nodes_from from n_take all = take n_take (nodes_above from all)

  -- `Math.max(last_id, p_nodes[p_nodes.length - 1].id)`, if the page is not empty.
  unfoldable pub advance : ℕ → List (ℕ × A) → ℕ
  advance last_id page = elim (get_elem? page (length page - 1)) [
    | none ↦ last_id
    | some x ↦ max last_id x.0
  ]

  -- The identifier of the last node, or `lo` if there is none.
  abbrev pub end_id : ℕ → List (ℕ × A) → ℕ
  end_id lo [] = lo
  end_id lo (x ∷ xs) = end_id x.0 xs

  end_id-append : (lo : ℕ) (xs ys : List (ℕ × A)) → end_id lo (xs ++ ys) ≡ end_id (end_id lo xs) ys
  end_id-append lo [] ys = refl
  end_id-append lo (x ∷ xs) ys = end_id-append x.0 xs ys

  end_id-le : (lo : ℕ) (xs : List (ℕ × A)) → Above lo xs → lo ≤ end_id lo xs
  end_id-le lo [] h = omega arith
  end_id-le lo (x ∷ xs) h = omega (arith, h.0, end_id-le x.0 xs h.1)

  Above-append :
      (lo : ℕ) (xs ys : List (ℕ × A)) → Above lo (xs ++ ys) → Above lo xs × Above (end_id lo xs) ys
  Above-append lo [] ys h = (tt, h)
  Above-append lo (x ∷ xs) ys h = let (a, b) = Above-append x.0 xs ys h.1 in ((h.0, a), b)

  last-end_id :
      (lo : ℕ) (x : ℕ × A) (xs : List (ℕ × A))
      → (y : ℕ × A) × (get_elem? (x ∷ xs) (length xs) ≡ some y) × (y.0 ≡ end_id lo (x ∷ xs))
  last-end_id lo x [] = (x, refl, refl)
  last-end_id lo x (x' ∷ xs) = last-end_id x.0 x' xs

  pub advance-end_id : (lo : ℕ) (xs : List (ℕ × A)) → Above lo xs → advance lo xs ≡ end_id lo xs
  unfolding advance
  advance-end_id lo [] h = refl
  advance-end_id lo (x ∷ xs) h =
      let (y, e, q) = last-end_id lo x xs in ground (arith, end_id-le lo (x ∷ xs) h)

  Above-weaken : (lo k : ℕ) (xs : List (ℕ × A)) → lo < k → Above k xs → Above lo xs
  Above-weaken lo k [] l h = tt
  Above-weaken lo k (x ∷ xs) l h = (omega (arith, h.0), h.1)

  nodes_above-all : (lo : ℕ) (xs : List (ℕ × A)) → Above lo xs → nodes_above lo xs ≡ xs
  unfolding nodes_above
  nodes_above-all lo [] h = refl
  nodes_above-all lo (x ∷ xs) h =
      ground (arith, nodes_above-all lo xs (Above-weaken lo x.0 xs h.0 h.1))

  nodes_above-rest :
      (lo : ℕ) (seen rest : List (ℕ × A))
      → Above lo (seen ++ rest)
      → nodes_above (end_id lo seen) (seen ++ rest) ≡ rest
  unfolding nodes_above
  nodes_above-rest lo [] rest h = nodes_above-all lo rest h
  nodes_above-rest lo (x ∷ seen) rest h = ground (
    arith,
    nodes_above-rest x.0 seen rest h.1,
    end_id-le x.0 seen (Above-append x.0 seen rest h.1).0,
  )

  -- What the browser has got so far, what is left of the graph, and the identifier that it asks
  -- from.
  pub record Progress (all seen rest : List (ℕ × A)) (last_id : ℕ) : Type ℓ where
    pub ascending : Above 0 all
    pub parts : all ≡ seen ++ rest
    pub at_end : last_id ≡ end_id 0 seen

  -- The next page is the head of what is left, and the browser then asks from the end of it.
  pub next_page :
      (all seen rest : List (ℕ × A)) (last_id size : ℕ)
      → Progress all seen rest last_id
      → (get_all_nodes_from last_id size all ≡ take size rest)
        × Progress all (seen ++ take size rest) (drop size rest) (advance last_id (take size rest))
  unfolding get_all_nodes_from
  next_page all seen rest last_id size p =
      let above : Above 0 (seen ++ rest) = subst (Above 0) p.parts p.ascending in
      let (_, above_rest) = Above-append 0 seen rest above in
      let (above_page, _) =
        Above-append (end_id 0 seen) (take size rest) (drop size rest)
          (subst (Above (end_id 0 seen)) (sym (take-append-drop size rest)) above_rest) in
      (
        ap (take size) (
            ap (λ i. nodes_above i all) p.at_end
            ∙ ap (nodes_above (end_id 0 seen)) p.parts
            ∙ nodes_above-rest 0 seen rest above),
        record {
          ascending = p.ascending;
          parts =
              p.parts
              ∙ ap (◌++◌ seen) (sym (take-append-drop size rest))
              ∙ sym (append_assoc seen (take size rest) (drop size rest));
          at_end =
              ap (λ i. advance i (take size rest)) p.at_end
              ∙ advance-end_id (end_id 0 seen) (take size rest) above_page
              ∙ sym (end_id-append 0 seen (take size rest));
        },
      )
