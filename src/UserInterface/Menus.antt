-- ===== src/UserInterface/Menus.antt =====
-- The menus of the graph and of its nodes (web-phalcon/public/js/netgraphz/ui.js). A node is sent
-- with more properties than the ones that Model has: `properties` gives all of them.
use netgraphz2_gpl.Common.{
  Bool, List, Option, String, [], false, if◌then◌else◌, none, some, suc, zero, ℕ, ◌++◌, ◌+◌, ◌∷◌,
}
use netgraphz2_gpl.Model.{Node}
use netgraphz2_gpl.PropText.Defs.{Fields, Formatting, format_prop_str, structure, undefined_prop}
use netgraphz2_gpl.Store.Defs.{Store, get_node_by_id}

-- What a command of the graph's menu does; `plugin` is what a plugin has registered.
pub data CoreAction : Type 0 where
  reset_zoom_and_center layout_start layout_stop save_node_positions clear_positions : CoreAction
  plugin : ℕ → CoreAction

pub record MenuCommand : Type 0 where
  pub content : String
  pub select : CoreAction

-- `settings.node_cxt_links`, where `none` is no array; a link has its text and its address.
pub record NodeCommand : Type 0 where
  pub content : String
  pub url : List ℕ

-- `attached` counts the subscriptions to "prerender"; `menus` are the calls of `init_context_menu`.
pub record Menus : Type 0 where
  pub plugin_core_context_menu_cmds : List MenuCommand
  pub logged_in : Bool
  pub attached : ℕ
  pub menus : List (List MenuCommand × List NodeCommand)

abbrev pub no_menus : Menus
no_menus = record {
  plugin_core_context_menu_cmds = [];
  logged_in = false;
  attached = 0;
  menus = [];
}

-- `addCoreContextMenuCommand`; `none` is a command that is no object.
unfoldable pub add_core_context_menu_command : Option MenuCommand → Menus → Menus
add_core_context_menu_command none m = m
add_core_context_menu_command (some command) m = record m {
  plugin_core_context_menu_cmds = m.plugin_core_context_menu_cmds ++ command ∷ [];
}

-- `init`; `none` is an argument that is no Boolean.
unfoldable pub init_menus : Option Bool → Menus → Menus
init_menus none m = record m { attached = m.attached + 1 }
init_menus (some log_in) m = record m { logged_in = log_in; attached = m.attached + 1 }

abbrev command : String → CoreAction → MenuCommand
command content select = record { content = content; select = select }

unfoldable pub core_commands : Menus → List MenuCommand
core_commands m =
    let first =
      command "Reset zoom" reset_zoom_and_center
      ∷ command "Layout start" layout_start
      ∷ command "Layout stop" layout_stop
      ∷ [] in
    let positions =
      command "Save positions" save_node_positions
      ∷ command "Clear positions" clear_positions
      ∷ [] in
    let all = first ++ m.plugin_core_context_menu_cmds in
    if m.logged_in then all ++ positions else all

unfoldable pub node_commands : Option (List NodeCommand) → List NodeCommand
node_commands none = []
node_commands (some links) = links

-- The handlers of one "prerender".
unfoldable pub show_menus : ℕ → Option (List NodeCommand) → Menus → Menus
unfolding core_commands node_commands
show_menus zero node_cxt_links m = m
show_menus (suc n) node_cxt_links m =
    show_menus n node_cxt_links
      (record m { menus = m.menus ++ (core_commands m, node_commands node_cxt_links) ∷ [] })

unfoldable pub prerender : Option (List NodeCommand) → Menus → Menus
unfolding show_menus
prerender node_cxt_links m = show_menus m.attached node_cxt_links m

pub data MenuCall : Type 0 where
  adds_command : Option MenuCommand → MenuCall
  inits_menus : Option Bool → MenuCall

unfoldable pub menu_run : List MenuCall → Menus → Menus
unfolding add_core_context_menu_command init_menus
menu_run [] m = m
menu_run (adds_command c ∷ calls) m = menu_run calls (add_core_context_menu_command c m)
menu_run (inits_menus log_in ∷ calls) m = menu_run calls (init_menus log_in m)

-- The address that a command opens for an element of a node; `real_id` is the data of the element.
unfoldable pub opened_address : (Node → Fields) → ℕ → NodeCommand → ℕ → Store → Formatting
unfolding format_prop_str get_node_by_id
opened_address properties fuel c real_id s =
    format_prop_str fuel c.url (elim (get_node_by_id real_id s) [
      | none ↦ undefined_prop
      | some n ↦ structure (properties n)
    ])
