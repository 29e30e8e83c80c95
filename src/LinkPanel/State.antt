-- ===== src/LinkPanel/State.antt =====
-- The state of the link panel and its functions (web-phalcon/public/js/netgraphz/ui.link_panel.js).
-- Its place is left out; its texts are in Texts.
use netgraphz2_gpl.Model.{Link}
use netgraphz2_gpl.NodePanel.State.{Fade, PanelTask, faded_in, faded_out, hold_over, remove_timeout}
use netgraphz2_gpl.Common.{
  List, Bool, Option, [], false, if◌then◌else◌, is_some, none, not, some, true, ℕ, ◌&&◌, ◌++◌, ◌+◌,
  ◌∷◌,
}

-- The variables of `Interactor` and of the module, `none` for `null` and `undefined`, the link
-- whose load and capacity the panel has, whether `make_link` throws for a link at one of the links of
-- the settings, the timeouts that are set, and the fadings under way in their order. A wait
-- has the event's link, which can be `null`.
pub record LinkPanel : Type 0 where
  pub panel_show : Bool
  pub shown : Option Link
  pub selected : Option Link
  pub fade_timer : Option ℕ
  pub timer_started : Bool
  pub mouseover_timer : Option ℕ
  pub loaded : Option Link
  pub links_throw : Link → Bool
  pub timeouts : List (ℕ × PanelTask (Option Link))
  pub next_timeout : ℕ
  pub fades : List Fade

abbrev pub hidden_link_panel : (Link → Bool) → LinkPanel
hidden_link_panel links_throw = record {
  panel_show = false;
  shown = none;
  selected = none;
  fade_timer = none;
  timer_started = false;
  mouseover_timer = none;
  loaded = none;
  links_throw = links_throw;
  timeouts = [];
  next_timeout = 0;
  fades = [];
}

-- `clearTimeout`.
unfoldable pub clear_link_timeout : Option ℕ → LinkPanel → LinkPanel
unfolding remove_timeout
clear_link_timeout none s = s
clear_link_timeout (some h) s = record s { timeouts = remove_timeout h s.timeouts }

-- `setTimeout`; its result is the old `next_timeout`.
unfoldable pub set_link_timeout : PanelTask (Option Link) → LinkPanel → LinkPanel
set_link_timeout t s = record s {
  timeouts = s.timeouts ++ (s.next_timeout, t) ∷ [];
  next_timeout = s.next_timeout + 1;
}

-- `stopLinkPanelTimer`.
unfoldable pub stop_link_panel_timer : LinkPanel → LinkPanel
unfolding clear_link_timeout
stop_link_panel_timer s =
    record (if s.timer_started then clear_link_timeout s.fade_timer s else s) {
      timer_started = false;
    }

-- `startLinkPanelTimer`.
unfoldable pub start_link_panel_timer : LinkPanel → LinkPanel
unfolding set_link_timeout
start_link_panel_timer s = record (set_link_timeout hold_over s) {
  fade_timer = some s.next_timeout;
  timer_started = true;
}

-- `setSelectedLink`.
unfoldable pub set_selected_link : Option Link → LinkPanel → LinkPanel
set_selected_link l s = record s { selected = l }

-- `setContent`; `false` if it throws: at a link that is `null`, with the blocks hidden, at one with no
-- node at an end, behind the load and the capacity, or at a link of the settings.
unfoldable pub set_link_content : Option Link → LinkPanel → LinkPanel × Bool
set_link_content none s = (record s { shown = none; loaded = none }, false)
set_link_content (some l) s = (
  record s { shown = some l; loaded = some l },
  is_some (l.src).node && (is_some (l.dst).node && not (s.links_throw l)),
)

-- The end of `showLinkPanel`.
unfoldable pub fade_in_link : LinkPanel → LinkPanel
fade_in_link s = record s { fades = if s.panel_show then s.fades else s.fades ++ faded_in ∷ [] }

-- `showLinkPanel`, called by `handle_link_info`; `false` if it throws.
unfoldable pub show_link_panel : Option Link → LinkPanel → LinkPanel × Bool
unfolding stop_link_panel_timer set_link_content fade_in_link
show_link_panel l s =
    let s₁ = record s { shown = l } in
    let s₂ = if s.timer_started then stop_link_panel_timer s₁ else s₁ in
    let (s₃, finished) = set_link_content l s₂ in
    (if finished then fade_in_link s₃ else s₃, finished)

-- `closeLinkPanel`.
unfoldable pub close_link_panel : LinkPanel → LinkPanel
close_link_panel s = record s { panel_show = false; selected = none }

-- The callback of `startLinkPanelTimer`.
unfoldable pub link_hold_callback : Option Link → LinkPanel → LinkPanel
unfolding set_link_content
link_hold_callback none s = record s { fades = s.fades ++ faded_out ∷ []; timer_started = false }
link_hold_callback (some l) s =
    let (s', finished) = set_link_content (some l) s in
    if finished then record s' { timer_started = false } else s'

-- The callbacks of `fadeIn` and `fadeOut`.
unfoldable pub link_fade_callback : Fade → LinkPanel → LinkPanel
link_fade_callback faded_in s = record s { panel_show = true }
link_fade_callback faded_out s = record s { panel_show = false; shown = none; selected = none }

-- `stop_mouse_timer`.
unfoldable pub stop_mouse_timer : LinkPanel → LinkPanel
unfolding clear_link_timeout
stop_mouse_timer s = record (clear_link_timeout s.mouseover_timer s) { mouseover_timer = none }
