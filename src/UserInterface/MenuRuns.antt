-- ===== src/UserInterface/MenuRuns.antt =====
-- The menus after any calls, and what the commands of a node open
-- (web-phalcon/public/js/netgraphz/ui.js).
use netgraphz2_gpl.Model.{Node}
use netgraphz2_gpl.PropText.Defs.{
  Fields, Formatting, format_prop_str, formatted, structure, undefined_prop,
}
use netgraphz2_gpl.PropText.Panel.{IsFit, format-filled, Template, filled_in, source_of}
use netgraphz2_gpl.Store.Defs.{Store, get_node_by_id}
use mathlib.Core.List.{append-nil, append_assoc, map-append}
use netgraphz2_gpl.Common.{
  Bool, List, Option, String, [], arith, false, if◌then◌else◌, map, none, refl, some, suc, sym,
  zero, ℕ, ◌++◌, ◌+◌, ◌∙◌, ◌∷◌, ◌≡◌, All, ap, true,
}
use netgraphz2_gpl.UserInterface.Menus.{
  MenuCall, MenuCommand, Menus, NodeCommand, add_core_context_menu_command, adds_command,
  core_commands, opened_address, init_menus, inits_menus, menu_run, node_commands, show_menus,
  no_menus, prerender, CoreAction, clear_positions, layout_start, layout_stop,
  reset_zoom_and_center, save_node_positions,
}

-- The plugins' commands among the calls, in order.
abbrev pub registered : List MenuCall → List MenuCommand
registered [] = []
registered (adds_command none ∷ calls) = registered calls
registered (adds_command (some c) ∷ calls) = c ∷ registered calls
registered (inits_menus l ∷ calls) = registered calls

-- The last Boolean that `init` was called with, or `log` if there is none.
abbrev pub last_login : Bool → List MenuCall → Bool
last_login log [] = log
last_login log (adds_command c ∷ calls) = last_login log calls
last_login log (inits_menus none ∷ calls) = last_login log calls
last_login log (inits_menus (some l) ∷ calls) = last_login l calls

abbrev pub inits : List MenuCall → ℕ
inits [] = 0
inits (adds_command c ∷ calls) = inits calls
inits (inits_menus l ∷ calls) = suc (inits calls)

-- The same menu so many times.
abbrev pub copies {ℓ} : {A : Type ℓ} → ℕ → A → List A
copies zero x = []
copies (suc n) x = x ∷ copies n x

abbrev pub text_action : MenuCommand → String × CoreAction
text_action c = (c.content, c.select)

-- The texts of the graph's menu, each with what it does.
abbrev pub menu_texts : Bool → List MenuCommand → List (String × CoreAction)
menu_texts log plugins =
    ("Reset zoom", reset_zoom_and_center)
    ∷ ("Layout start", layout_start)
    ∷ ("Layout stop", layout_stop)
    ∷ (map text_action plugins
        ++ (if log
            then ("Save positions", save_node_positions) ∷ ("Clear positions", clear_positions) ∷ []
            else []))

-- The commands of a graph's menu, and the menu of the nodes with it.
abbrev pub with_texts :
    List MenuCommand × List NodeCommand → List (String × CoreAction) × List NodeCommand
with_texts (core, nodes) = (map text_action core, nodes)

menu_run-fields :
    (calls : List MenuCall) (m : Menus)
    → ((menu_run calls m).plugin_core_context_menu_cmds
        ≡ m.plugin_core_context_menu_cmds ++ registered calls)
      × ((menu_run calls m).logged_in ≡ last_login m.logged_in calls)
      × ((menu_run calls m).attached ≡ m.attached + inits calls)
      × ((menu_run calls m).menus ≡ m.menus)
unfolding menu_run add_core_context_menu_command init_menus
menu_run-fields [] m = (sym (append-nil m.plugin_core_context_menu_cmds), refl, omega arith, refl)
menu_run-fields (adds_command none ∷ calls) m = menu_run-fields calls m
menu_run-fields (adds_command (some c) ∷ calls) m =
    let (a, b, n, d) = menu_run-fields calls (add_core_context_menu_command (some c) m) in
    (a ∙ append_assoc m.plugin_core_context_menu_cmds (c ∷ []) (registered calls), b, n, d)
menu_run-fields (inits_menus none ∷ calls) m =
    let (a, b, n, d) = menu_run-fields calls (init_menus none m) in (a, b, omega (arith, n), d)
menu_run-fields (inits_menus (some l) ∷ calls) m =
    let (a, b, n, d) = menu_run-fields calls (init_menus (some l) m) in (a, b, omega (arith, n), d)

show_menus-copies :
    (n : ℕ) (links : Option (List NodeCommand)) (m : Menus)
    → (show_menus n links m).menus ≡ m.menus ++ copies n (core_commands m, node_commands links)
unfolding show_menus core_commands
show_menus-copies zero links m = sym (append-nil m.menus)
show_menus-copies (suc n) links m =
    show_menus-copies n links
      (record m { menus = m.menus ++ (core_commands m, node_commands links) ∷ [] })
    ∙ append_assoc m.menus ((core_commands m, node_commands links) ∷ [])
        (copies n (core_commands m, node_commands links))

core_commands-menu_texts :
    (m : Menus) (log : Bool)
    → m.logged_in ≡ log
    → map text_action (core_commands m) ≡ menu_texts log m.plugin_core_context_menu_cmds
unfolding core_commands
core_commands-menu_texts m true l =
    rw (core_commands, l)
      (ap
        (λ t.
          ("Reset zoom", reset_zoom_and_center)
          ∷ ("Layout start", layout_start)
          ∷ ("Layout stop", layout_stop)
          ∷ t)
        (map-append text_action m.plugin_core_context_menu_cmds _))
core_commands-menu_texts m false l =
    rw (core_commands, l)
      (ap
        (λ t.
          ("Reset zoom", reset_zoom_and_center)
          ∷ ("Layout start", layout_start)
          ∷ ("Layout stop", layout_stop)
          ∷ t)
        (sym (append-nil (map text_action m.plugin_core_context_menu_cmds))))

map-copies {ℓ κ} :
    {A : Type ℓ} {B : Type κ} (f : A → B) (n : ℕ) (x : A) → map f (copies n x) ≡ copies n (f x)
map-copies f zero x = refl
map-copies f (suc n) x = ap (◌∷◌ (f x)) (map-copies f n x)

-- A link of the settings whose address is a template.
abbrev pub link_command : String × Template → NodeCommand
link_command (text, t) = record { content = text; url = source_of t }

-- The address with the values of the node that is stored, or as it is in the settings.
abbrev pub expected_address : Option Node → Template → List ℕ
expected_address none t = source_of t
expected_address (some n) t = filled_in t

abbrev pub IsFitNode : (Node → Fields) → ℕ → List (String × Template) → Option Node → Type 0
IsFitNode properties fuel ls none = Unit
IsFitNode properties fuel ls (some n) = All (λ l. IsFit fuel (properties n) l.1) ls

module _ (properties : Node → Fields) (fuel : ℕ) where
  address_of : Option Node → List ℕ → Formatting
  unfolding format_prop_str
  address_of found url =
      format_prop_str fuel url
        (elim found [ none ↦ undefined_prop | some n ↦ structure (properties n) ])

  address_of-expected :
      (found : Option Node) (ls : List (String × Template))
      → IsFitNode properties fuel ls found
      → map (λ l. address_of found (source_of l.1)) ls
        ≡ map (λ l. formatted (expected_address found l.1)) ls
  unfolding address_of format_prop_str
  address_of-expected none [] h = refl
  address_of-expected (some n) [] h = refl
  address_of-expected none (l ∷ ls) h =
      ap (◌∷◌ (formatted (source_of l.1))) (address_of-expected none ls h)
  address_of-expected (some n) (l ∷ ls) h =
      rw (format-filled fuel (properties n) l.1 h.0)
        (ap (◌∷◌ (formatted (filled_in l.1))) (address_of-expected (some n) ls h.1))

  opened-address_of :
      (real_id : ℕ) (s : Store) (ls : List (String × Template))
      → map (λ c. opened_address properties fuel c real_id s) (map link_command ls)
        ≡ map (λ l. address_of (get_node_by_id real_id s) (source_of l.1)) ls
  unfolding address_of opened_address
  opened-address_of real_id s [] = refl
  opened-address_of real_id s ((text, t) ∷ ls) =
      ap (◌∷◌ (address_of (get_node_by_id real_id s) (source_of t)))
        (opened-address_of real_id s ls)

  -- After any calls of `init` and registrations by plugins, the event "prerender" makes a menu of
  -- the graph for each call of `init`, all the same: the commands that reset the zoom and start and
  -- stop the layout, then those of the plugins in the order of registration, and the two that save
  -- and clear the positions exactly if the last Boolean that `init` was called with is true; with
  -- each it makes a menu of the nodes from the links of the settings. Their commands, on an
  -- element of a node that is stored with properties that fit the addresses, open each address
  -- with the values in place of the tags, and on an element of a node that is not stored each
  -- address as it is in the settings.
  pub prerender_lem :
      (calls : List MenuCall) (ls : List (String × Template)) (real_id : ℕ) (s : Store)
      → IsFitNode properties fuel ls (get_node_by_id real_id s)
      → let m = prerender (some (map link_command ls)) (menu_run calls no_menus) in
        (map with_texts m.menus
          ≡ copies
              (inits calls)
              (menu_texts (last_login false calls) (registered calls), map link_command ls))
        × (map (λ c. opened_address properties fuel c real_id s) (map link_command ls)
            ≡ map (λ l. formatted (expected_address (get_node_by_id real_id s) l.1)) ls)
  unfolding prerender node_commands
  prerender_lem calls ls real_id s h =
      let (plugins, log, n, menus) = menu_run-fields calls no_menus in
      let now = menu_run calls no_menus in
      let commands = map link_command ls in
      (
        ap (map with_texts) (
              show_menus-copies now.attached (some commands) now
              ∙ ap (λ ms. ms ++ copies now.attached (core_commands now, commands)) menus
              ∙ ap (λ k. copies k (core_commands now, commands)) (n ∙ omega arith))
            ∙ map-copies with_texts (inits calls) (core_commands now, commands)
            ∙ ap (λ t. copies (inits calls) (t, commands))
                (core_commands-menu_texts now (last_login false calls) log
                  ∙ ap (menu_texts (last_login false calls)) plugins),
        opened-address_of real_id s ls ∙ address_of-expected (get_node_by_id real_id s) ls h,
      )
