-- ===== src/LinkPanel/Tests.antt =====
-- The link panel on a run (web-phalcon/public/js/netgraphz/ui.link_panel.js).
use netgraphz2_gpl.Common.Text.{codes}
use netgraphz2_gpl.PropText.Defs.{Fields}
use netgraphz2_gpl.PropText.Panel.{link_of, separated}
use netgraphz2_gpl.PropText.Tests.{
  icinga_link, icinga_link-IsFitLink, ping_link, ping_link-IsFitLink, switch_fields,
}
use netgraphz2_gpl.LinkPanel.Texts.{LinkTexts, fill_content, completed}
use netgraphz2_gpl.LinkPanel.View.{fill_content_lem, link_view, read_texts}
use netgraphz2_gpl.Renderer.Tests.{whole}
use netgraphz2_gpl.Store.Defs.{empty_store}
use netgraphz2_gpl.Model.{Link}
use netgraphz2_gpl.NodePanel.State.{hold_over, remove_timeout}
use netgraphz2_gpl.NodePanel.Events.{find_timeout, same_id}
use netgraphz2_gpl.NodePanel.Tests.{panel_node}
use netgraphz2_gpl.LinkPanel.State.{
  clear_link_timeout, fade_in_link, hidden_link_panel, link_hold_callback, set_link_content,
  set_link_timeout, set_selected_link, show_link_panel, start_link_panel_timer,
  stop_link_panel_timer, stop_mouse_timer,
}
use netgraphz2_gpl.LinkPanel.Events.{
  LinkPanelEvent, edge_mouseout, edge_mouseover, edge_tap, edge_unselect, has_end, is_shown_link,
  link_panel_run, link_panel_step, on_edge_mouseout, on_edge_mouseover, on_edge_tap,
  on_edge_unselect, on_link_update_node, refresh, run_link_task, run_link_timeout, timeout_runs,
  update_node,
}
use netgraphz2_gpl.LinkPanel.Invariant.{LinkPanelInv}
use netgraphz2_gpl.LinkPanel.Runs.{link_panel_run-LinkPanelInv}
use netgraphz2_gpl.Common.{List, [], none, refl, some, true, ℕ, ◌∷◌, ◌≡◌, Bool, false, map, ◌++◌}

abbrev panel_link : ℕ → Link
panel_link id = record {
  id = some id;
  link_speed = none;
  rx_octets = none;
  tx_octets = none;
  duplex = none;
  src = record { id = 1; port_id = none; node = some (panel_node 1) };
  dst = record { id = 2; port_id = none; node = some (panel_node 2) };
}

abbrev link_panel_events : List LinkPanelEvent
link_panel_events =
    edge_mouseover (some (panel_link 7))
    ∷ timeout_runs 0
    ∷ edge_mouseout (some (panel_link 7))
    ∷ edge_tap (some (panel_link 8))
    ∷ edge_mouseover (some (panel_link 7))
    ∷ update_node (panel_node 2) (some (panel_link 8))
    ∷ edge_unselect (some (panel_link 8))
    ∷ []

abbrev no_link_throws : Link → Bool
no_link_throws l = false

link_panel_run-LinkPanelInv_example :
    LinkPanelInv true (link_panel_run true link_panel_events (hidden_link_panel no_link_throws))
link_panel_run-LinkPanelInv_example =
    link_panel_run-LinkPanelInv no_link_throws true link_panel_events

-- The link that was tapped is shown, and the panel is to be closed by the second hold.
link_panel_run-shown :
    ((link_panel_run true link_panel_events (hidden_link_panel no_link_throws)).shown
      ≡ some (panel_link 8))
    × ((link_panel_run true link_panel_events (hidden_link_panel no_link_throws)).timeouts
        ≡ (2, hold_over) ∷ [])
unfolding link_panel_run link_panel_step on_edge_mouseover on_edge_mouseout on_edge_tap
    on_edge_unselect on_link_update_node refresh has_end is_shown_link same_id run_link_timeout
    run_link_task link_hold_callback show_link_panel set_link_content fade_in_link
    stop_link_panel_timer start_link_panel_timer clear_link_timeout set_link_timeout
    set_selected_link stop_mouse_timer find_timeout remove_timeout
link_panel_run-shown = (refl, refl)

abbrev old_texts : LinkTexts
old_texts = record {
  load = record { visible = true; left = "1 bps"; right = "1 bps" };
  capacity = record { visible = true; left = "1 bps"; right = "No" };
  src_name = "";
  dst_name = "";
  src_port = record { visible = true; text = "9" };
  dst_port = record { visible = true; text = "9" };
  links = true;
  container = codes "<a>" ∷ [];
}

abbrev wired_link : Link
wired_link = record (panel_link 7) {
  link_speed = some 100;
  src = record { id = 1; port_id = some 3; node = some (panel_node 1) };
}

-- The properties of the link that the settings' links name.
abbrev link_fields : Link → Fields
link_fields l = switch_fields

fill_content_lem_example :
    let (after, ending) =
      fill_content whole empty_store 2 link_fields
        (map link_of (icinga_link ∷ ping_link ∷ []))
        wired_link
        old_texts in
    (read_texts after ≡ link_view whole empty_store wired_link "core" "core" true)
    × (after.container ≡ old_texts.container ++ separated (icinga_link ∷ ping_link ∷ []))
    × (ending ≡ completed)
fill_content_lem_example =
    fill_content_lem whole empty_store 2 link_fields (icinga_link ∷ ping_link ∷ []) wired_link
      (panel_node 1) (panel_node 2) "core" "core" old_texts refl refl refl refl
      (icinga_link-IsFitLink, (ping_link-IsFitLink, tt))
