-- ===== src/LinkPanel/Events.antt =====
-- The events that the link panel handles (web-phalcon/public/js/netgraphz/ui.link_panel.js).
use netgraphz2_gpl.Model.{Link, Node}
use netgraphz2_gpl.NodePanel.State.{Fade, PanelTask, hold_over, wait_over}
use netgraphz2_gpl.NodePanel.Events.{find_timeout, same_id}
use netgraphz2_gpl.LinkPanel.State.{
  LinkPanel, clear_link_timeout, close_link_panel, link_fade_callback, link_hold_callback,
  set_link_content, set_link_timeout, set_selected_link, show_link_panel, start_link_panel_timer,
  stop_link_panel_timer, stop_mouse_timer,
}
use netgraphz2_gpl.Common.{
  List, Bool, Option, [], false, if◌then◌else◌, is_some, none, not, some, true, ℕ, ◌∷◌,
}

-- The handler of `edge_mouseover`; `enabled` is `cfg.mouseoverEnabled`.
unfoldable pub on_edge_mouseover : Bool → Option Link → LinkPanel → LinkPanel
unfolding set_link_timeout stop_mouse_timer
on_edge_mouseover enabled l s =
    let s₁ = stop_mouse_timer s in
    let s₂ = record (set_link_timeout (wait_over l) s₁) {
      mouseover_timer = some s₁.next_timeout;
    } in
    if not enabled then s else if is_some s.selected then s else s₂

-- The handler of `edge_tap`.
unfoldable pub on_edge_tap : Option Link → LinkPanel → LinkPanel
unfolding show_link_panel set_selected_link stop_mouse_timer
on_edge_tap l s =
    let (s', finished) = show_link_panel l (stop_mouse_timer s) in
    if finished then set_selected_link l s' else s'

-- `shown != null && link.id == shown.id`; at a link that is `null` it throws, and nothing follows.
unfoldable pub is_shown_link : Option Link → Option Link → Bool
unfolding same_id
is_shown_link none l = false
is_shown_link (some p) none = false
is_shown_link (some p) (some l) = same_id l.id p.id

-- The handler of `edge_unselect`.
unfoldable pub on_edge_unselect : Option Link → LinkPanel → LinkPanel
unfolding is_shown_link set_selected_link start_link_panel_timer
on_edge_unselect l s =
    if is_shown_link s.shown l then set_selected_link none (start_link_panel_timer s) else s

-- The handler of `edge_mouseout`.
unfoldable pub on_edge_mouseout : Bool → Option Link → LinkPanel → LinkPanel
unfolding is_shown_link start_link_panel_timer stop_mouse_timer
on_edge_mouseout enabled l s =
    let s' = stop_mouse_timer s in
    if not enabled
    then s
    else if is_some s.selected
    then s'
    else if is_shown_link s.shown l
    then start_link_panel_timer s'
    else s'

-- If a node is at an end of the link; `none` if it throws, where an end has no node.
unfoldable pub has_end : Link → Node → Option Bool
unfolding same_id
has_end l n = elim (l.src).node [
  | none ↦ none
  | some a ↦
      if same_id n.id a.id
      then some true
      else elim (l.dst).node [ none ↦ none | some b ↦ some (same_id n.id b.id) ]
]

-- What is done for a node of an update; `n_link` is what `getLinkById` gives. `false` if it throws.
unfoldable pub refresh : Option Bool → Option Link → LinkPanel → LinkPanel × Bool
unfolding set_link_content
refresh none n_link s = (s, false)
refresh (some false) n_link s = (s, true)
refresh (some true) n_link s = set_link_content n_link s

-- The handler of the store's `update_node`.
unfoldable pub on_link_update_node : Node → Option Link → LinkPanel → LinkPanel
unfolding refresh has_end
on_link_update_node n n_link s = elim s.shown [
  | none ↦ s
  | some l ↦ (refresh (has_end l n) n_link s).0
]

-- The `forEach` of the handler of `update_nodes`, which no result of its function ends.
unfoldable pub link_nodes_loop : Link → Option Link → List Node → LinkPanel → LinkPanel
unfolding refresh has_end
link_nodes_loop l n_link [] s = s
link_nodes_loop l n_link (n ∷ ns) s =
    let (s', finished) = refresh (has_end l n) n_link s in
    let rest = link_nodes_loop l n_link ns s' in if finished then rest else s'

-- The handler of the store's `update_nodes`.
unfoldable pub on_link_update_nodes : List Node → Option Link → LinkPanel → LinkPanel
unfolding link_nodes_loop
on_link_update_nodes ns n_link s = elim s.shown [
  | none ↦ s
  | some l ↦ link_nodes_loop l n_link ns s
]

-- What happens: the subscriptions, the mouse on the panel, its button, a timeout, a fading's end.
pub data LinkPanelEvent : Type 0 where
  edge_mouseover : Option Link → LinkPanelEvent
  edge_tap : Option Link → LinkPanelEvent
  edge_unselect : Option Link → LinkPanelEvent
  edge_mouseout : Option Link → LinkPanelEvent
  update_node : Node → Option Link → LinkPanelEvent
  update_nodes : List Node → Option Link → LinkPanelEvent
  mouseover : LinkPanelEvent
  mouseout : LinkPanelEvent
  close_click : LinkPanelEvent
  timeout_runs : ℕ → LinkPanelEvent
  fade_ends : LinkPanelEvent

unfoldable pub run_link_task : PanelTask (Option Link) → LinkPanel → LinkPanel
unfolding link_hold_callback show_link_panel
run_link_task hold_over s = link_hold_callback s.selected s
run_link_task (wait_over l) s = (show_link_panel l s).0

-- A timeout that is set runs, and is set no more.
unfoldable pub run_link_timeout : ℕ → Option (PanelTask (Option Link)) → LinkPanel → LinkPanel
unfolding run_link_task clear_link_timeout
run_link_timeout h none s = s
run_link_timeout h (some t) s = run_link_task t (clear_link_timeout (some h) s)

unfoldable pub end_link_fade : List Fade → LinkPanel → LinkPanel
unfolding link_fade_callback
end_link_fade [] s = s
end_link_fade (f ∷ fs) s = link_fade_callback f (record s { fades = fs })

unfoldable pub link_panel_step : Bool → LinkPanelEvent → LinkPanel → LinkPanel
unfolding run_link_timeout end_link_fade find_timeout
link_panel_step enabled (edge_mouseover l) s = on_edge_mouseover enabled l s
link_panel_step enabled (edge_tap l) s = on_edge_tap l s
link_panel_step enabled (edge_unselect l) s = on_edge_unselect l s
link_panel_step enabled (edge_mouseout l) s = on_edge_mouseout enabled l s
link_panel_step enabled (update_node n n_link) s = on_link_update_node n n_link s
link_panel_step enabled (update_nodes ns n_link) s = on_link_update_nodes ns n_link s
link_panel_step enabled mouseover s = stop_link_panel_timer s
link_panel_step enabled mouseout s = start_link_panel_timer s
link_panel_step enabled close_click s = close_link_panel s
link_panel_step enabled (timeout_runs h) s = run_link_timeout h (find_timeout h s.timeouts) s
link_panel_step enabled fade_ends s = end_link_fade s.fades s

unfoldable pub link_panel_run : Bool → List LinkPanelEvent → LinkPanel → LinkPanel
unfolding link_panel_step
link_panel_run enabled [] s = s
link_panel_run enabled (e ∷ es) s = link_panel_run enabled es (link_panel_step enabled e s)
