-- ===== src/NodePanel/Events.antt =====
-- The events that the node panel handles (web-phalcon/public/js/netgraphz/ui.panel.js).
use netgraphz2_gpl.Model.{Node}
use netgraphz2_gpl.NodePanel.State.{
  Fade, Panel, PanelTask, clear_panel_timeout, close_node_panel, fade_callback, hold_callback,
  hold_over, set_content, set_panel_timeout, set_selected_node, show_node_panel,
  start_node_panel_timer, stop_node_panel_timer, wait_callback, wait_over,
}
use netgraphz2_gpl.Common.{
  List, Bool, Option, [], false, if◌then◌else◌, is_some, none, not, some, true, ℕ, ◌==◌, ◌||◌, ◌∷◌,
}

-- `a.id == b.id`.
unfoldable pub same_id : Option ℕ → Option ℕ → Bool
same_id none none = true
same_id none (some b) = false
same_id (some a) none = false
same_id (some a) (some b) = a == b

-- `p != null && n.id == p.id`.
unfoldable pub is_node : Option Node → Node → Bool
unfolding same_id
is_node none n = false
is_node (some p) n = same_id n.id p.id

-- `p != null && n.id != p.id`.
unfoldable pub is_other : Option Node → Node → Bool
unfolding same_id
is_other none n = false
is_other (some p) n = not (same_id n.id p.id)

-- The handler of `node_mouseover`; `disabled` is `ui.isNodePanelDisabled()`.
unfoldable pub on_node_mouseover : Bool → Node → Panel → Panel
unfolding wait_callback set_panel_timeout
on_node_mouseover disabled n s =
    let s₁ = clear_panel_timeout s.mouseover_timer s in
    let (s₂, finished) = if is_some s.shown then (s₁, true) else wait_callback n s₁ in
    let s₃ = record (set_panel_timeout (wait_over n) s₂) {
      mouseover_timer = some s₂.next_timeout;
    } in
    if disabled then s else if finished then s₃ else s₂

-- The handler of `node_select`.
unfoldable pub on_node_select : Node → Panel → Panel
unfolding show_node_panel set_selected_node
on_node_select n s =
    let (s', finished) = show_node_panel n s in
    if finished then stop_node_panel_timer (set_selected_node (some n) s') else s'

-- The handler of `node_unselect`.
unfoldable pub on_node_unselect : Panel → Panel
unfolding set_selected_node
on_node_unselect s =
    let both : Bool = elim s.selected [ none ↦ false | some p ↦ is_node s.shown p ] in
    let s' = set_selected_node none s in if both then start_node_panel_timer s' else s'

-- The handler of `node_mouseout`.
unfoldable pub on_node_mouseout : Bool → Node → Panel → Panel
unfolding is_node is_other
on_node_mouseout disabled n s =
    let s' = clear_panel_timeout s.mouseover_timer s in
    if disabled
    then s
    else if is_other s.selected n || is_node s.shown n
    then start_node_panel_timer s'
    else s'

-- The handler of the store's `update_node`.
unfoldable pub on_update_node : Node → Panel → Panel
on_update_node n s =
    let s' = if is_node s.selected n then set_selected_node (some n) s else s in
    if is_some s.shown then if is_node s.shown n then (set_content n s').0 else s' else s

-- The loop of the handler of `update_nodes`, with `node` (`shown_node`) and `selected` as they were before it.
-- `e.node` is `undefined` there. It stops if `setContent` throws.
unfoldable pub update_nodes_loop : Option Node → Option Node → List Node → Panel → Panel
update_nodes_loop shown_node selected [] s = s
update_nodes_loop shown_node selected (n ∷ ns) s =
    let s₁ = if is_node selected n then set_selected_node none s else s in
    let (s₂, finished) = if is_node shown_node n then set_content n s₁ else (s₁, true) in
    let rest = update_nodes_loop shown_node selected ns s₂ in if finished then rest else s₂

unfoldable pub on_update_nodes : List Node → Panel → Panel
unfolding update_nodes_loop
on_update_nodes ns s = if is_some s.shown then update_nodes_loop s.shown s.selected ns s else s

-- What happens: the subscriptions, the mouse on the panel, its button, a timeout, a fading's end.
pub data PanelEvent : Type 0 where
  node_mouseover : Bool → Node → PanelEvent
  node_select : Node → PanelEvent
  node_unselect : PanelEvent
  node_mouseout : Bool → Node → PanelEvent
  node_updated : Node → PanelEvent
  nodes_updated : List Node → PanelEvent
  panel_mouseover : PanelEvent
  panel_mouseout : PanelEvent
  close_click : PanelEvent
  timeout_runs : ℕ → PanelEvent
  fade_ends : PanelEvent

unfoldable pub run_panel_task : PanelTask Node → Panel → Panel
unfolding hold_callback
run_panel_task hold_over s = hold_callback s.selected s
run_panel_task (wait_over n) s = (wait_callback n s).0

unfoldable pub find_timeout : {A : Type 0} → ℕ → List (ℕ × PanelTask A) → Option (PanelTask A)
find_timeout h [] = none
find_timeout h ((k, t) ∷ ts) = if k == h then some t else find_timeout h ts

-- A timeout that is set runs, and is set no more.
unfoldable pub run_panel_timeout : ℕ → Option (PanelTask Node) → Panel → Panel
unfolding run_panel_task
run_panel_timeout h none s = s
run_panel_timeout h (some t) s = run_panel_task t (clear_panel_timeout (some h) s)

unfoldable pub end_fade : List Fade → Panel → Panel
unfolding fade_callback
end_fade [] s = s
end_fade (f ∷ fs) s = fade_callback f (record s { fades = fs })

unfoldable pub panel_step : PanelEvent → Panel → Panel
unfolding run_panel_timeout end_fade find_timeout
panel_step (node_mouseover disabled n) s = on_node_mouseover disabled n s
panel_step (node_select n) s = on_node_select n s
panel_step node_unselect s = on_node_unselect s
panel_step (node_mouseout disabled n) s = on_node_mouseout disabled n s
panel_step (node_updated n) s = on_update_node n s
panel_step (nodes_updated ns) s = on_update_nodes ns s
panel_step panel_mouseover s = stop_node_panel_timer s
panel_step panel_mouseout s = start_node_panel_timer s
panel_step close_click s = close_node_panel s
panel_step (timeout_runs h) s = run_panel_timeout h (find_timeout h s.timeouts) s
panel_step fade_ends s = end_fade s.fades s

unfoldable pub panel_run : List PanelEvent → Panel → Panel
panel_run [] s = s
panel_run (e ∷ es) s = panel_run es (panel_step e s)
