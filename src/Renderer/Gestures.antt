-- ===== src/Renderer/Gestures.antt =====
-- What the keys, the mouse and the taps do to the drawn graph, and its layout
-- (web-phalcon/public/js/netgraphz/renderer.js).
use netgraphz2_gpl.Common.{
  List, Bool, Option, [], false, if◌then◌else◌, none, some, true, ℕ, ◌&&◌, ◌+◌, ◌++◌, ◌==◌, ◌∷◌,
}

-- What `_publish_renderer_event` is called with.
pub data RendererTopic : Type 0 where
  edge_mouseover edge_mouseout edge_tap edge_select edge_unselect : RendererTopic
  node_select node_unselect node_mouseover node_mouseout : RendererTopic

-- Calls of `_cy_follow_node`, of `select` and of `_publish_renderer_event`.
pub data GestureEffect : Type 0 where
  follow : ℕ → GestureEffect
  select_again : ℕ → GestureEffect
  publish : RendererTopic → ℕ → GestureEffect

-- The variables of `Renderer`, with `cy.boxSelectionEnabled()`, the nodes of the class "mouseover",
-- the timeouts that are set, and what was done. An element is a number.
pub record Gestures : Type 0 where
  pub shift_hold : Bool
  pub box_selection : Bool
  pub cy_selected : Option ℕ
  pub double_tap_target : Option ℕ
  pub double_tap_timer : Option ℕ
  pub hovered : List ℕ
  pub timeouts : List ℕ
  pub next_timeout : ℕ
  pub effects : List GestureEffect

-- The state when the events are attached; whether boxes select then is the library's choice.
abbrev pub attached : Bool → Gestures
attached box_selection = record {
  shift_hold = false;
  box_selection = box_selection;
  cy_selected = none;
  double_tap_target = none;
  double_tap_timer = none;
  hovered = [];
  timeouts = [];
  next_timeout = 0;
  effects = [];
}

unfoldable pub emit_effect : GestureEffect → Gestures → Gestures
emit_effect e s = record s { effects = s.effects ++ e ∷ [] }

unfoldable pub remove_element : ℕ → List ℕ → List ℕ
remove_element n [] = []
remove_element n (m ∷ ms) = let rest = remove_element n ms in if m == n then rest else m ∷ rest

unfoldable pub clear_tap_timer : Option ℕ → Gestures → Gestures
unfolding remove_element
clear_tap_timer none s = s
clear_tap_timer (some h) s = record s { timeouts = remove_element h s.timeouts }

abbrev pub is_target : Option ℕ → ℕ → Bool
is_target none n = false
is_target (some t) n = t == n

-- The second tap on the target.
unfoldable pub double_tap : ℕ → Gestures → Gestures
unfolding emit_effect clear_tap_timer
double_tap n s =
    clear_tap_timer s.double_tap_timer
      (record (emit_effect (follow n) s) { double_tap_target = none })

-- The handler of a node's `tap`, which goes on after a second tap.
unfoldable pub on_node_tap : ℕ → Gestures → Gestures
unfolding double_tap
on_node_tap n s =
    let s' = if is_target s.double_tap_target n then double_tap n s else s in
    record s' {
      double_tap_target = some n;
      double_tap_timer = some s'.next_timeout;
      timeouts = s'.timeouts ++ s'.next_timeout ∷ [];
      next_timeout = s'.next_timeout + 1;
    }

-- The handlers of `window_keydown` and `window_keyup`; 17 is Ctrl, 16 is Shift.
unfoldable pub on_key : Bool → ℕ → Gestures → Gestures
on_key down key s =
    if key == 17
    then record s { box_selection = down }
    else if key == 16
    then record s { shift_hold = down }
    else s

-- The handler of an edge's `select`.
unfoldable pub on_edge_select : ℕ → Gestures → Gestures
unfolding emit_effect
on_edge_select e s = if s.box_selection then s else emit_effect (publish edge_select e) s

-- The handler of a node's `unselect`.
unfoldable pub on_unselect : ℕ → Gestures → Gestures
unfolding emit_effect
on_unselect n s =
    emit_effect (publish node_unselect n)
      (if s.shift_hold && s.box_selection then emit_effect (select_again n) s else s)

-- The handlers of a node's `mouseover` and `mouseout`.
unfoldable pub on_node_hover : Bool → ℕ → Gestures → Gestures
unfolding emit_effect remove_element
on_node_hover true n s =
    emit_effect (publish node_mouseover n) (record s { hovered = n ∷ remove_element n s.hovered })
on_node_hover false n s =
    emit_effect (publish node_mouseout n) (record s { hovered = remove_element n s.hovered })

-- A timeout that is set runs.
unfoldable pub run_tap_timeout : ℕ → List ℕ → Gestures → Gestures
unfolding clear_tap_timer
run_tap_timeout h [] s = s
run_tap_timeout h (k ∷ ks) s =
    let later = run_tap_timeout h ks s in
    if k == h then record (clear_tap_timer (some h) s) { double_tap_target = none } else later

-- What happens: `container_click` says if Ctrl was held, `edge_event` has the events of an edge that
-- are only published.
pub data Gesture : Type 0 where
  visibility_change : Gesture
  container_click : Bool → Gesture
  key : Bool → ℕ → Gesture
  tap : ℕ → Gesture
  edge_event : RendererTopic → ℕ → Gesture
  edge_selected : ℕ → Gesture
  node_selected : ℕ → Gesture
  node_unselected : ℕ → Gesture
  node_hover : Bool → ℕ → Gesture
  tap_timeout : ℕ → Gesture

-- `attach_events`.
unfoldable pub gesture_step : Gesture → Gestures → Gestures
unfolding emit_effect on_node_tap on_key on_edge_select on_unselect on_node_hover run_tap_timeout
gesture_step visibility_change s = record s { box_selection = false; shift_hold = false }
gesture_step (container_click ctrl) s = if ctrl then s else record s { box_selection = false }
gesture_step (key down k) s = on_key down k s
gesture_step (tap n) s = on_node_tap n s
gesture_step (edge_event topic e) s = emit_effect (publish topic e) s
gesture_step (edge_selected e) s = on_edge_select e s
gesture_step (node_selected n) s =
    emit_effect (publish node_select n) (record s { cy_selected = some n })
gesture_step (node_unselected n) s = on_unselect n s
gesture_step (node_hover over n) s = on_node_hover over n s
gesture_step (tap_timeout h) s = run_tap_timeout h s.timeouts s

unfoldable pub gesture_run : List Gesture → Gestures → Gestures
unfolding gesture_step
gesture_run [] s = s
gesture_run (g ∷ gs) s = gesture_run gs (gesture_step g s)
