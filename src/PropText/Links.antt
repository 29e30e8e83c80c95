-- ===== src/PropText/Links.antt =====
-- `make_link`, and the loop of both panels over the links of the settings
-- (web-phalcon/public/js/netgraphz/{graph_utils,ui.panel,ui.link_panel}.js).
use netgraphz2_gpl.Common.{Bool, List, Option, [], if◌then◌else◌, none, some, ℕ, ◌++◌, ◌∷◌}
use netgraphz2_gpl.Common.Text.{codes}
use netgraphz2_gpl.PropText.Defs.{
  Formatting, PropValue, format_prop_str, formatted, running, thrown,
}

-- A link of the settings; a size has a width and a height.
pub record PanelLink : Type 0 where
  pub url : List ℕ
  pub title : List ℕ
  pub is_popup : Bool
  pub popup_size : Option (List ℕ × List ℕ)
  pub popup_name : Option (List ℕ)
  pub new_tab : Bool

-- What follows once a text is formatted.
abbrev pub after_format : Formatting → (List ℕ → Formatting) → Formatting
after_format running next = running
after_format thrown next = thrown
after_format (formatted t) next = next t

-- Texts behind one another.
abbrev pub written : List (List ℕ) → List ℕ
written [] = []
written (t ∷ ts) = t ++ written ts

abbrev pub size_texts : Option (List ℕ × List ℕ) → List (List ℕ)
size_texts none = []
size_texts (some (width, height)) =
    codes "data-popup-width='"
    ∷ width
    ∷ codes "' "
    ∷ codes "data-popup-height='"
    ∷ height
    ∷ codes "' "
    ∷ []

-- The name of a popup; a title is used as it is for a missing name.
unfoldable pub name_of : ℕ → PanelLink → PropValue → Formatting
name_of fuel link obj = elim link.popup_name [
  | none ↦ formatted link.title
  | some n ↦ format_prop_str fuel n obj
]

-- What `make_link` writes of the kind of the link.
unfoldable pub kind_text : ℕ → PanelLink → PropValue → Formatting
unfolding name_of
kind_text fuel link obj =
    if link.is_popup
    then after_format (name_of fuel link obj) (λ n. formatted (
        written (
          codes "data-popup='true' "
          ∷ (size_texts link.popup_size ++ (codes "data-popup-name='" ∷ n ∷ codes "' " ∷ [])))))
    else formatted
        (codes "data-popup='false' " ++ (if link.new_tab then codes "target='_blank' " else []))

unfoldable pub make_link : ℕ → PanelLink → PropValue → Formatting
unfolding kind_text
make_link fuel link obj = after_format (format_prop_str fuel link.url obj) λ url.
    after_format (kind_text fuel link obj) λ kind.
      after_format (format_prop_str fuel link.title obj) λ title. formatted (
        written (
          codes "<a href='"
          ∷ url
          ∷ codes "' title='"
          ∷ link.title
          ∷ codes "' "
          ∷ kind
          ∷ codes ">"
          ∷ title
          ∷ codes "</a>"
          ∷ []))

unfoldable pub make_separator : List ℕ
make_separator = codes "<span class='link_separator'> | </span>"

-- What has become of the loop, and what the container of the links holds.
pub data Appending : Type 0 where
  all_appended exception_thrown still_running : List (List ℕ) → Appending

-- The loop over the links.
unfoldable pub append_links : ℕ → PropValue → List PanelLink → List (List ℕ) → Appending
unfolding make_link make_separator
append_links fuel obj [] shown = all_appended shown
append_links fuel obj (link ∷ []) shown = elim (make_link fuel link obj) [
  | running ↦ still_running shown
  | thrown ↦ exception_thrown shown
  | formatted t ↦ all_appended (shown ++ t ∷ [])
]
append_links fuel obj (link ∷ next ∷ links) shown = elim (make_link fuel link obj) [
  | running ↦ still_running shown
  | thrown ↦ exception_thrown shown
  | formatted t ↦ append_links fuel obj (next ∷ links) (shown ++ t ∷ make_separator ∷ [])
]
