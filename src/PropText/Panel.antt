-- ===== src/PropText/Panel.antt =====
-- The links of a panel whose texts are templates that fit
-- (web-phalcon/public/js/netgraphz/{graph_utils,ui.panel,ui.link_panel}.js).
use mathlib.Core.List.{append-nil, append_assoc}
use mathlib.Core.Path.{subst}
use netgraphz2_gpl.Common.{
  All, Bool, List, Option, String, [], if◌then◌else◌, length, none, some, ℕ, ◌++◌, ◌<◌, ◌∷◌, ◌≡◌,
  Bool-cases, Option-cases, ap, inl, inr, map, refl, sym, ◌∙◌,
}
use netgraphz2_gpl.Common.Text.{codes}
use netgraphz2_gpl.PropText.Defs.{Fields, format_prop_str, formatted, structure}
use netgraphz2_gpl.PropText.Links.{
  PanelLink, kind_text, make_link, make_separator, all_appended, append_links, name_of, size_texts,
  written,
}
use netgraphz2_gpl.PropText.Render.{Fits, IsPart, Part, filled, format_prop_str_lem, template_text}
use netgraphz2_gpl.PropText.Words.{IsLiteral}

-- A text with tags.
pub record Template : Type 0 where
  pub parts : List Part
  pub end : List ℕ

abbrev pub source_of : Template → List ℕ
source_of t = template_text t.parts t.end

abbrev pub filled_in : Template → List ℕ
filled_in t = filled t.parts t.end

-- The properties are there, the values fit, and the fuel is more than the number of tags.
abbrev pub IsFit : ℕ → Fields → Template → Type 0
IsFit fuel fs t =
    All (IsPart fs) t.parts × All IsLiteral t.end × Fits t.parts × (length t.parts < fuel)

-- A link whose texts are templates.
pub record LinkTemplate : Type 0 where
  pub url : Template
  pub title : Template
  pub is_popup : Bool
  pub popup_size : Option (List ℕ × List ℕ)
  pub popup_name : Option Template
  pub new_tab : Bool

abbrev pub link_of : LinkTemplate → PanelLink
link_of l = record {
  url = source_of l.url;
  title = source_of l.title;
  is_popup = l.is_popup;
  popup_size = l.popup_size;
  popup_name = elim l.popup_name [ none ↦ none | some n ↦ some (source_of n) ];
  new_tab = l.new_tab;
}

abbrev pub IsFitName : ℕ → Fields → Option Template → Type 0
IsFitName fuel fs none = Unit
IsFitName fuel fs (some n) = IsFit fuel fs n

abbrev pub IsFitLink : ℕ → Fields → LinkTemplate → Type 0
IsFitLink fuel fs l = IsFit fuel fs l.url × IsFit fuel fs l.title × IsFitName fuel fs l.popup_name

-- An element's attributes, and then what comes behind them.
abbrev pub attributes : List (String × List ℕ) → List ℕ → List ℕ
attributes [] rest = rest
attributes ((k, v) ∷ ps) rest = codes k ++ (codes "='" ++ (v ++ (codes "' " ++ attributes ps rest)))

abbrev pub size_attributes : Option (List ℕ × List ℕ) → List (String × List ℕ)
size_attributes none = []
size_attributes (some (width, height)) =
    ("data-popup-width", width) ∷ ("data-popup-height", height) ∷ []

-- The name of a popup is the title as it stands in the settings, if no name is given.
abbrev pub name_text : LinkTemplate → List ℕ
name_text l = elim l.popup_name [ none ↦ source_of l.title | some n ↦ filled_in n ]

abbrev pub kind_attributes : LinkTemplate → List (String × List ℕ)
kind_attributes l =
    if l.is_popup
    then ("data-popup", codes "true")
      ∷ (size_attributes l.popup_size ++ (("data-popup-name", name_text l) ∷ []))
    else ("data-popup", codes "false") ∷ (if l.new_tab then ("target", codes "_blank") ∷ [] else [])

-- The element of a link.
abbrev pub anchor : LinkTemplate → List ℕ
anchor l =
    codes "<a "
    ++ attributes (("href", filled_in l.url) ∷ ("title", source_of l.title) ∷ kind_attributes l)
        (codes ">" ++ (filled_in l.title ++ codes "</a>"))

-- The elements of links, with a separator between any two.
abbrev pub separated : List LinkTemplate → List (List ℕ)
separated [] = []
separated (l ∷ []) = anchor l ∷ []
separated (l ∷ m ∷ ls) = anchor l ∷ make_separator ∷ separated (m ∷ ls)

pub format-filled :
    (fuel : ℕ) (fs : Fields) (t : Template)
    → IsFit fuel fs t
    → format_prop_str fuel (source_of t) (structure fs) ≡ formatted (filled_in t)
format-filled fuel fs t h = format_prop_str_lem fuel fs t.parts t.end h.0 h.1 h.2 h.3

attributes-append :
    (ps : List (String × List ℕ)) (rest : List ℕ) → attributes ps [] ++ rest ≡ attributes ps rest
attributes-append [] rest = refl
attributes-append ((k, v) ∷ ps) rest =
    append_assoc (codes k) (codes "='" ++ (v ++ (codes "' " ++ attributes ps []))) rest
    ∙ ap (λ t. codes k ++ (codes "='" ++ t))
        (append_assoc v (codes "' " ++ attributes ps []) rest
          ∙ ap (λ t. v ++ (codes "' " ++ t)) (attributes-append ps rest))

name_of-name_text :
    (fuel : ℕ) (fs : Fields) (l : LinkTemplate)
    → IsFitName fuel fs l.popup_name
    → name_of fuel (link_of l) (structure fs) ≡ formatted (name_text l)
unfolding name_of
name_of-name_text fuel fs l h = elim (Option-cases l.popup_name) [
  | inl e ↦ rw (e, name_of) refl
  | inr (n, e) ↦ rw (e, name_of) (format-filled fuel fs n (subst (IsFitName fuel fs) e h))
]

popup_attributes :
    (size : Option (List ℕ × List ℕ)) (name : List ℕ)
    → written (
        codes "data-popup='true' "
        ∷ (size_texts size ++ (codes "data-popup-name='" ∷ name ∷ codes "' " ∷ [])))
      ≡ attributes
          (("data-popup", codes "true")
            ∷ (size_attributes size ++ (("data-popup-name", name) ∷ [])))
          []
popup_attributes none name = refl
popup_attributes (some (width, height)) name = refl

kind_text-attributes :
    (fuel : ℕ) (fs : Fields) (l : LinkTemplate)
    → IsFitName fuel fs l.popup_name
    → kind_text fuel (link_of l) (structure fs) ≡ formatted (attributes (kind_attributes l) [])
unfolding kind_text
kind_text-attributes fuel fs l h = elim (Bool-cases l.is_popup) [
  | inl e ↦
      rw (kind_text, e, name_of-name_text fuel fs l h)
        (ap formatted (popup_attributes l.popup_size (name_text l)))
  | inr e ↦ elim (Bool-cases l.new_tab) [
    | inl k ↦ rw (kind_text, e, k) refl
    | inr k ↦ rw (kind_text, e, k) refl
  ]
]

make_link-anchor :
    (fuel : ℕ) (fs : Fields) (l : LinkTemplate)
    → IsFitLink fuel fs l
    → make_link fuel (link_of l) (structure fs) ≡ formatted (anchor l)
unfolding make_link
make_link-anchor fuel fs l (u, t, n) =
    rw
      (
        make_link,
        format-filled fuel fs l.url u,
        format-filled fuel fs l.title t,
        kind_text-attributes fuel fs l n,
      )
      (ap
        (λ t. formatted (
          codes "<a href='"
          ++ (filled_in l.url ++ (codes "' title='" ++ (source_of l.title ++ (codes "' " ++ t))))))
        (attributes-append (kind_attributes l) (codes ">" ++ (filled_in l.title ++ codes "</a>"))))

-- For links whose addresses, titles and names of popups are templates that fit, with the properties
-- of the node or link that is shown: the loop of the panel ends with no exception, and adds to the
-- container exactly the element of each link, in order, with a separator between any two. An
-- element's attributes and its text have the values in place of the tags, but for the attribute
-- `title` and the name of a popup that has none of its own, where the title stands as in the
-- settings.
pub panel_links_lem :
    (fuel : ℕ) (fs : Fields) (ls : List LinkTemplate) (shown : List (List ℕ))
    → All (IsFitLink fuel fs) ls
    → append_links fuel (structure fs) (map link_of ls) shown ≡ all_appended (shown ++ separated ls)
unfolding append_links
panel_links_lem fuel fs [] shown h = ap all_appended (sym (append-nil shown))
panel_links_lem fuel fs (l ∷ []) shown h = rw (append_links, make_link-anchor fuel fs l h.0) refl
panel_links_lem fuel fs (l ∷ m ∷ ls) shown h =
    rw (append_links, make_link-anchor fuel fs l h.0)
      (panel_links_lem fuel fs (m ∷ ls) (shown ++ (anchor l ∷ make_separator ∷ [])) h.1
        ∙ ap all_appended
            (append_assoc shown (anchor l ∷ make_separator ∷ []) (separated (m ∷ ls))))
