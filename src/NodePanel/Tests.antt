-- ===== src/NodePanel/Tests.antt =====
-- The node panel on a run (web-phalcon/public/js/netgraphz/ui.panel.js).
use netgraphz2_gpl.Model.{Node}
use netgraphz2_gpl.NodePanel.Events.{
  node_mouseover, node_mouseout, node_select, node_unselect, timeout_runs, PanelEvent, find_timeout,
  is_node, is_other, on_node_mouseout, on_node_mouseover, on_node_select, on_node_unselect,
  panel_run, panel_step, run_panel_task, run_panel_timeout, same_id,
}
use netgraphz2_gpl.NodePanel.Invariant.{PanelInv}
use netgraphz2_gpl.NodePanel.Runs.{panel_run-PanelInv}
use netgraphz2_gpl.NodePanel.State.{
  clear_panel_timeout, fade_in, hidden_panel, remove_timeout, set_content, set_panel_timeout,
  set_selected_node, show_node_panel, start_node_panel_timer, stop_node_panel_timer, wait_callback,
}
use netgraphz2_gpl.Common.{List, [], false, none, refl, some, ℕ, ◌∷◌, ◌≡◌, Bool}

abbrev pub panel_node : ℕ → Node
panel_node id = record {
  id = some id;
  name = some "core";
  type = none;
  status = some [];
  metrics = none;
}

abbrev panel_events : List PanelEvent
panel_events =
    node_mouseover false (panel_node 1)
    ∷ node_mouseout false (panel_node 1)
    ∷ node_mouseover false (panel_node 2)
    ∷ node_mouseover false (panel_node 1)
    ∷ node_select (panel_node 2)
    ∷ timeout_runs 3
    ∷ node_unselect
    ∷ []

abbrev no_link_throws : Node → Bool
no_link_throws n = false

panel_run-PanelInv_example : PanelInv (panel_run panel_events (hidden_panel no_link_throws))
panel_run-PanelInv_example = panel_run-PanelInv no_link_throws panel_events

-- The wait of the second node is gone, and the panel shows the first again.
panel_run-shown : (panel_run panel_events (hidden_panel no_link_throws)).shown ≡ some (panel_node 1)
unfolding panel_run panel_step on_node_mouseover on_node_mouseout on_node_select on_node_unselect
    wait_callback show_node_panel set_content fade_in stop_node_panel_timer start_node_panel_timer
    clear_panel_timeout set_panel_timeout set_selected_node run_panel_timeout run_panel_task is_node
    is_other same_id find_timeout remove_timeout
panel_run-shown = refl
