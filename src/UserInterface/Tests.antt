-- ===== src/UserInterface/Tests.antt =====
-- The events of a drawn node (web-phalcon/public/js/netgraphz/ui.js).
use netgraphz2_gpl.Communication.Defs.{error, notice, update}
use netgraphz2_gpl.UserInterface.Notices.{expected_notices, toast_run_lem}
use netgraphz2_gpl.UserInterface.Toasts.{
  ToastEvent, by_permission, init_toasts, message_handled, not_sent, create_notification,
  permission_answered, permission_denied, send_notice, send_notices, set_up, toast_run, toast_step,
  user_answered,
}
use netgraphz2_gpl.Common.NumMap
use netgraphz2_gpl.Store.Invariant.{StoreInv, loads, perform, perform_all, perform_all-StoreInv}
use netgraphz2_gpl.UserInterface.Search.{
  is_found, item_of, search_items, search_items_lem, select_item,
}
use netgraphz2_gpl.Common.Text.{decimal}
use netgraphz2_gpl.Model.{Node}
use netgraphz2_gpl.Renderer.Elements.{NodeElement, element_id, node_classes, node_elements}
use netgraphz2_gpl.Store.Defs.{
  Store, empty_store, get_node_by_id, load_all, search_nodes_by_name, keep, put_links, put_node,
  put_nodes,
}
use netgraphz2_gpl.UserInterface.Dispatch.{about_node, dispatch, node_select, on_node, position_id}
use netgraphz2_gpl.UserInterface.Targets.{drawn_targets_lem}
use netgraphz2_gpl.Utils.{get_node_pref_effective_state}
use mathlib.Core.List.{Memᴰ}
use netgraphz2_gpl.Common.{[], none, refl, some, ◌∷◌, ◌≡◌, Bool, String, true, List}

abbrev core_switch : Node
core_switch = record {
  id = some 12;
  name = some "core";
  type = some 1;
  status = none;
  metrics = none;
}

abbrev stored_switch : Store
stored_switch = load_all (core_switch ∷ []) [] empty_store

abbrev core_element : NodeElement
core_element = record { id = "n12"; real_id = some 12; name = some "core"; classes = some "" }

core_element-drawn : Memᴰ core_element (node_elements none (core_switch ∷ []))
unfolding node_elements element_id decimal node_classes get_node_pref_effective_state
core_element-drawn = Memᴰ.head refl

drawn_targets_lem_example :
    (position_id "n12" ≡ some 12)
    × (dispatch (on_node node_select "n12") stored_switch ≡ (
      elim (get_node_by_id 12 stored_switch) [ none ↦ [] | some n ↦ about_node node_select n ∷ [] ],
      stored_switch,
    ))
drawn_targets_lem_example =
    drawn_targets_lem none (core_switch ∷ []) core_element 12 node_select stored_switch
      core_element-drawn refl

stored_switch-StoreInv : StoreInv stored_switch
unfolding perform_all perform
stored_switch-StoreInv = perform_all-StoreInv (loads (core_switch ∷ []) [] ∷ [])

abbrev any_name : String → String → Bool
any_name term name = true

switch-found : Memᴰ (item_of core_switch) (search_items any_name "co" stored_switch)
unfolding search_items search_nodes_by_name load_all keep NumMap.values put_links put_nodes put_node
    NumMap.insert
switch-found = Memᴰ.head refl

search_items_lem_example :
    (n : Node) × (item_of core_switch ≡ item_of n)
    × (is_found any_name "co" n ≡ true)
    × (select_item (item_of core_switch) stored_switch ≡ about_node node_select n ∷ [])
search_items_lem_example =
    search_items_lem any_name "co" stored_switch (item_of core_switch) stored_switch-StoreInv
      switch-found

abbrev toast_events : List ToastEvent
toast_events =
    set_up true true permission_denied
    ∷ user_answered
    ∷ message_handled true (update 12 true ∷ notice error "Graph node goes DOWN!" "Node: core" ∷ [])
    ∷ []

toast_run_lem_example : (toast_run toast_events not_sent).sent ≡ expected_notices [] toast_events
toast_run_lem_example = toast_run_lem toast_events

-- Although the user denies the permission, the notice is handed to the desktop.
denied_desktop :
    (toast_run toast_events not_sent).sent
    ≡ record {
      level = error;
      call = create_notification "Graph node goes DOWN!" "Node: core";
      sound = none;
    }
      ∷ []
unfolding toast_run toast_step init_toasts by_permission permission_answered send_notices
    send_notice
denied_desktop = refl
