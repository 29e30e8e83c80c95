-- ===== src/NodePanel/State.antt =====
-- The state of the node panel and its functions (web-phalcon/public/js/netgraphz/ui.panel.js).
-- Its place and the texts at its head are left out.
use netgraphz2_gpl.Model.{Node}
use netgraphz2_gpl.Common.{
  List, Bool, Option, [], false, if◌then◌else◌, is_some, none, not, some, true, ℕ, ◌++◌, ◌+◌, ◌==◌,
  ◌∷◌,
}

-- What a timeout does: the end of the time that the panel is held, or of the wait for a node.
pub data PanelTask (A : Type 0) : Type 0 where
  hold_over : PanelTask A
  wait_over : A → PanelTask A

-- What follows when a fading is complete.
pub data Fade : Type 0 where
  faded_in : Fade
  faded_out : Fade

-- The variables of `Interactor` and of the module, `none` for `null` and `undefined`, the node whose
-- statuses the rows of the panel show, whether `make_link` throws for a node at one of the links of
-- the settings, the timeouts that are set, and the fadings under way in their order.
pub record Panel : Type 0 where
  pub panel_show : Bool
  pub shown : Option Node
  pub selected : Option Node
  pub fade_timer : Option ℕ
  pub timer_started : Bool
  pub mouseover_timer : Option ℕ
  pub rows : Option Node
  pub links_throw : Node → Bool
  pub timeouts : List (ℕ × PanelTask Node)
  pub next_timeout : ℕ
  pub fades : List Fade

abbrev pub hidden_panel : (Node → Bool) → Panel
hidden_panel links_throw = record {
  panel_show = false;
  shown = none;
  selected = none;
  fade_timer = none;
  timer_started = false;
  mouseover_timer = none;
  rows = none;
  links_throw = links_throw;
  timeouts = [];
  next_timeout = 0;
  fades = [];
}

unfoldable pub remove_timeout : {A : Type 0} → ℕ → List (ℕ × PanelTask A) → List (ℕ × PanelTask A)
remove_timeout h [] = []
remove_timeout h ((k, t) ∷ ts) =
    let rest = remove_timeout h ts in if k == h then rest else (k, t) ∷ rest

-- `clearTimeout`.
unfoldable pub clear_panel_timeout : Option ℕ → Panel → Panel
unfolding remove_timeout
clear_panel_timeout none s = s
clear_panel_timeout (some h) s = record s { timeouts = remove_timeout h s.timeouts }

-- `setTimeout`; its result is the old `next_timeout`.
unfoldable pub set_panel_timeout : PanelTask Node → Panel → Panel
set_panel_timeout t s = record s {
  timeouts = s.timeouts ++ (s.next_timeout, t) ∷ [];
  next_timeout = s.next_timeout + 1;
}

-- `stopNodePanelTimer`.
unfoldable pub stop_node_panel_timer : Panel → Panel
unfolding clear_panel_timeout
stop_node_panel_timer s =
    record (if s.timer_started then clear_panel_timeout s.fade_timer s else s) {
      timer_started = false;
    }

-- `startNodePanelTimer`.
unfoldable pub start_node_panel_timer : Panel → Panel
unfolding set_panel_timeout
start_node_panel_timer s = record (set_panel_timeout hold_over s) {
  fade_timer = some s.next_timeout;
  timer_started = true;
}

unfoldable pub set_selected_node : Option Node → Panel → Panel
set_selected_node n s = record s { selected = n }

-- `setContent`; `false` if it throws. If the node has no statuses it throws before the rows, which
-- stay those of an earlier node; at a link of the settings it throws with the rows replaced. The
-- loss and the times of every status are numbers.
unfoldable pub set_content : Node → Panel → Panel × Bool
set_content n s =
    let s' = record s { shown = some n } in
    if is_some n.status then (record s' { rows = some n }, not (s.links_throw n)) else (s', false)

-- The end of `showNodePanel`.
unfoldable pub fade_in : Panel → Panel
fade_in s = record s { fades = if s.panel_show then s.fades else s.fades ++ faded_in ∷ [] }

-- `showNodePanel`, called by `handle_node_info`; `false` if it throws.
unfoldable pub show_node_panel : Node → Panel → Panel × Bool
unfolding stop_node_panel_timer set_content fade_in
show_node_panel n s =
    let s₁ = record s { shown = some n } in
    let s₂ = if s.timer_started then stop_node_panel_timer s₁ else s₁ in
    let (s₃, finished) = set_content n s₂ in (if finished then fade_in s₃ else s₃, finished)

-- `closeNodePanel`.
unfoldable pub close_node_panel : Panel → Panel
close_node_panel s = record s { panel_show = false }

-- The callback of `startNodePanelTimer`.
unfoldable pub hold_callback : Option Node → Panel → Panel
unfolding set_content
hold_callback none s = record s { fades = s.fades ++ faded_out ∷ []; timer_started = false }
hold_callback (some n) s =
    let (s', finished) = set_content n s in
    if finished then record s' { timer_started = false } else s'

-- `fn` of the handler of `node_mouseover`.
unfoldable pub wait_callback : Node → Panel → Panel × Bool
unfolding show_node_panel
wait_callback n s = show_node_panel n (record s { mouseover_timer = none })

-- The callbacks of `fadeIn` and `fadeOut`.
unfoldable pub fade_callback : Fade → Panel → Panel
fade_callback faded_in s = record s { panel_show = true }
fade_callback faded_out s = record s { panel_show = false; shown = none; selected = none }
