-- ===== src/UserInterface/Targets.antt =====
-- The elements that the renderer draws, read back from the texts that name them
-- (web-phalcon/public/js/netgraphz/{ui,renderer}.js).
use netgraphz2_gpl.Common.Text.{codes, decimal, parse_digits, parse_int_codes}
use netgraphz2_gpl.Model.{Node}
use netgraphz2_gpl.Renderer.Elements.{NodeElement, element_id, node_elements}
use netgraphz2_gpl.Store.Defs.{Store, get_node_by_id}
use netgraphz2_gpl.UserInterface.Dispatch.{
  NodeTopic, about_node, dispatch, match_id, on_node, passed_on, position_id, starts_digit,
  take_digits, target_node,
}
use mathlib.Core.List.{Memᴰ}
use netgraphz2_gpl.Common.Decimal.{
  IsDigit, codes-append, decimal-IsDigit, parse_digits-decimal, parse_int_codes-IsDigit,
}
use netgraphz2_gpl.Common.{
  List, All, [], arith, refl, ℕ, ◌∷◌, ◌≡◌, Option, String, ap, drop, none, some, ◌∙◌,
}

take_digits-IsDigit : (cs : List ℕ) → All IsDigit cs → take_digits cs ≡ cs
unfolding take_digits
take_digits-IsDigit [] h = refl
take_digits-IsDigit (c ∷ cs) h = ground (arith, take_digits-IsDigit cs h.1)

match_id-IsDigit :
    (cs : List ℕ) (n : ℕ)
    → All IsDigit cs
    → parse_digits none cs ≡ some n
    → match_id (b'n' ∷ cs) ≡ some cs
unfolding match_id starts_digit parse_digits
match_id-IsDigit [] n h e = cc
match_id-IsDigit (c ∷ cs) n h e = rw h.0 (ap (λ ds. some (c ∷ ds)) (take_digits-IsDigit cs h.1))

parse-decimal : (id : ℕ) → parse_int_codes (codes (decimal id)) ≡ some id
parse-decimal id =
    parse_int_codes-IsDigit (codes (decimal id)) (decimal-IsDigit id) ∙ parse_digits-decimal id

codes-element_id : (id : ℕ) → codes (element_id (some id)) ≡ b'n' ∷ codes (decimal id)
unfolding element_id
codes-element_id id = codes-append "n" (decimal id)

target_node-element_id :
    (id : ℕ) (s : Store) → target_node (element_id (some id)) s ≡ get_node_by_id id s
unfolding target_node
target_node-element_id id s =
    rw
      (
        codes-element_id id,
        match_id-IsDigit (codes (decimal id)) id (decimal-IsDigit id) (parse_digits-decimal id),
        parse-decimal id,
      )
      refl

element_id-drawn :
    (source : Option String) (nodes : List Node) (x : NodeElement)
    → Memᴰ x (node_elements source nodes)
    → x.id ≡ element_id x.real_id
unfolding node_elements
element_id-drawn source [] x mem = elim mem [ ]
element_id-drawn source (n ∷ ns) x (Memᴰ.head e) = cc
element_id-drawn source (n ∷ ns) x (Memᴰ.tail mem) = element_id-drawn source ns x mem

-- The text that names a drawn node's element is read back as the node's identifier, both where
-- positions are dumped and where an event of the element is passed on: the event goes on, once and
-- under its own topic, with the node that is stored under the identifier, and not at all if none is.
pub drawn_targets_lem :
    (source : Option String) (nodes : List Node) (x : NodeElement) (id : ℕ) (topic : NodeTopic)
    (s : Store)
    → Memᴰ x (node_elements source nodes)
    → x.real_id ≡ some id
    → (position_id x.id ≡ some id)
      × (dispatch (on_node topic x.id) s
          ≡ (elim (get_node_by_id id s) [ none ↦ [] | some n ↦ about_node topic n ∷ [] ], s))
unfolding dispatch position_id
drawn_targets_lem source nodes x id topic s mem e =
    let named : x.id ≡ element_id (some id) =
      element_id-drawn source nodes x mem ∙ ap element_id e in
    (
      ap (λ t. parse_int_codes (drop 1 (codes t))) named
          ∙ ap (λ cs. parse_int_codes (drop 1 cs)) (codes-element_id id)
          ∙ parse-decimal id,
      ap (λ o. (passed_on topic o, s))
          (ap (λ t. target_node t s) named ∙ target_node-element_id id s),
    )
