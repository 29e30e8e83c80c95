-- ===== src/LinkPanel/Invariant.antt =====
-- What holds of the link panel at all times (web-phalcon/public/js/netgraphz/ui.link_panel.js).
use mathlib.Core.Path.{subst}
use netgraphz2_gpl.Model.{Link}
use netgraphz2_gpl.LinkPanel.State.{
  LinkPanel, clear_link_timeout, set_link_timeout, set_selected_link, start_link_panel_timer,
  stop_link_panel_timer, stop_mouse_timer,
}
use netgraphz2_gpl.LinkPanel.Events.{
  is_shown_link, on_edge_mouseout, on_edge_mouseover, on_edge_tap,
}
use netgraphz2_gpl.LinkPanel.Timers.{
  Shows, Timers, none-Timers, show-Shows, start-Timers, stop-Timers, stop_mouse_timer-Timers,
  wait-Timers,
}
use netgraphz2_gpl.Common.{
  Bool, Option, arith, false, if_cases, is_some, none, not, refl, some, sym, true, ℕ, ◌≡◌, ◌≤◌,
}

-- How many waits there can be: none while a link is selected or if `mouseoverEnabled` is off.
abbrev pub allowed_waits : Bool → Option Link → ℕ
allowed_waits enabled (some l) = 0
allowed_waits false none = 0
allowed_waits true none = 1

-- The waits are those allowed, and if a link is shown, the panel has its load
-- and capacity.
abbrev pub LinkPanelInv : Bool → LinkPanel → Type 0
LinkPanelInv enabled s = Shows (allowed_waits enabled s.selected) s.selected s

pub LinkPanelInv-selected :
    (enabled : Bool) (sel : Option Link) (s : LinkPanel)
    → Shows (allowed_waits enabled sel) sel s
    → LinkPanelInv enabled s
LinkPanelInv-selected enabled sel s v =
    subst (λ (l : Option Link). Shows (allowed_waits enabled l) l s) (sym v.timers.picked) v

allowed_waits-none :
    (enabled : Bool) (l : Option Link) → allowed_waits enabled l ≤ allowed_waits enabled none
allowed_waits-none enabled none = omega arith
allowed_waits-none enabled (some l) = omega arith

allowed_waits-one :
    (enabled : Bool) (l : Option Link)
    → not enabled ≡ false
    → is_some l ≡ false
    → allowed_waits enabled l ≡ 1
allowed_waits-one true none e i = refl
allowed_waits-one false none e i = cc
allowed_waits-one enabled (some l) e i = cc

-- With no wait, the selection can be any.
select-LinkPanelInv :
    (enabled : Bool) (l sel : Option Link) (s : LinkPanel)
    → Shows 0 sel s
    → LinkPanelInv enabled (set_selected_link l s)
unfolding set_selected_link
select-LinkPanelInv enabled l sel s v = record {
  timers = record { current = v.timers.current; few = omega (arith, v.timers.few); picked = refl };
  has_link = v.has_link;
}

pub unselect-Timers :
    (enabled : Bool) (s s' : LinkPanel)
    → LinkPanelInv enabled s
    → s'.mouseover_timer ≡ s.mouseover_timer
    → s'.timeouts ≡ s.timeouts
    → s'.selected ≡ none
    → Timers (allowed_waits enabled none) none s'
unselect-Timers enabled s s' v same_timer same_timeouts e = record {
  current = rw (same_timer, same_timeouts) v.timers.current;
  few = rw same_timeouts (omega (arith, allowed_waits-none enabled s.selected, v.timers.few));
  picked = e;
}

-- An operation on the timers that leaves what is shown.
retime-LinkPanelInv :
    (enabled : Bool) (s s' : LinkPanel)
    → LinkPanelInv enabled s
    → Timers (allowed_waits enabled s.selected) s.selected s'
    → s'.shown ≡ s.shown
    → s'.loaded ≡ s.loaded
    → LinkPanelInv enabled s'
retime-LinkPanelInv enabled s s' v timers same_shown same_loaded =
    LinkPanelInv-selected enabled s.selected s'
      (record { timers = timers; has_link = rw (same_shown, same_loaded) v.has_link })

-- Whether what is shown, and whose load and capacity the panel has, are the same in both.
abbrev SameView : LinkPanel → LinkPanel → Type 0
SameView s s' = (s'.shown ≡ s.shown) × (s'.loaded ≡ s.loaded)

clear-SameView : (timer : Option ℕ) (s : LinkPanel) → SameView s (clear_link_timeout timer s)
unfolding clear_link_timeout
clear-SameView none s = (refl, refl)
clear-SameView (some h) s = (refl, refl)

pub start-LinkPanelInv :
    (enabled : Bool) (s : LinkPanel)
    → LinkPanelInv enabled s
    → LinkPanelInv enabled (start_link_panel_timer s)
unfolding start_link_panel_timer set_link_timeout
start-LinkPanelInv enabled s v =
    retime-LinkPanelInv enabled s (start_link_panel_timer s) v (start-Timers _ s v.timers) refl refl

pub stop-LinkPanelInv :
    (enabled : Bool) (s : LinkPanel)
    → LinkPanelInv enabled s
    → LinkPanelInv enabled (stop_link_panel_timer s)
unfolding stop_link_panel_timer
stop-LinkPanelInv enabled s v =
    let kept =
      if_cases (SameView s) s.timer_started (λ _. clear-SameView s.fade_timer s)
        (λ _. (refl, refl)) in
    retime-LinkPanelInv enabled s (stop_link_panel_timer s) v (stop-Timers _ s v.timers) kept.0
      kept.1

stop_mouse_timer-Shows :
    (enabled : Bool) (s : LinkPanel)
    → LinkPanelInv enabled s
    → Shows 0 s.selected (stop_mouse_timer s)
unfolding stop_mouse_timer
stop_mouse_timer-Shows enabled s v =
    let (same_shown, same_loaded) = clear-SameView s.mouseover_timer s in
    record {
      timers = stop_mouse_timer-Timers _ s v.timers;
      has_link = rw (same_shown, same_loaded) v.has_link;
    }

waitless-LinkPanelInv :
    (enabled : Bool) (sel : Option Link) (s : LinkPanel) → Shows 0 sel s → LinkPanelInv enabled s
waitless-LinkPanelInv enabled sel s v =
    LinkPanelInv-selected enabled sel s
      (record { timers = none-Timers _ s v.timers; has_link = v.has_link })

pub on_edge_mouseover-LinkPanelInv :
    (enabled : Bool) (l : Option Link) (s : LinkPanel)
    → LinkPanelInv enabled s
    → LinkPanelInv enabled (on_edge_mouseover enabled l s)
unfolding on_edge_mouseover set_link_timeout
on_edge_mouseover-LinkPanelInv enabled l s v =
    let stopped = stop_mouse_timer-Shows enabled s v in
    let timers = wait-Timers l _ stopped.timers in
    if_cases (LinkPanelInv enabled) (not enabled) (λ _. v)
      (λ on.
        if_cases (LinkPanelInv enabled) (is_some s.selected) (λ _. v)
          (λ free. LinkPanelInv-selected enabled s.selected _ (record {
            timers = record {
              current = timers.current;
              few = omega (arith, timers.few, allowed_waits-one enabled s.selected on free);
              picked = timers.picked;
            };
            has_link = stopped.has_link;
          })))

pub on_edge_tap-LinkPanelInv :
    (enabled : Bool) (l : Option Link) (s : LinkPanel)
    → LinkPanelInv enabled s
    → LinkPanelInv enabled (on_edge_tap l s)
unfolding on_edge_tap
on_edge_tap-LinkPanelInv enabled l s v =
    let shown = show-Shows 0 l _ (stop_mouse_timer-Shows enabled s v).timers in
    if_cases (LinkPanelInv enabled) _ (λ _. select-LinkPanelInv enabled l s.selected _ shown)
      (λ _. waitless-LinkPanelInv enabled s.selected _ shown)

pub on_edge_mouseout-LinkPanelInv :
    (enabled : Bool) (l : Option Link) (s : LinkPanel)
    → LinkPanelInv enabled s
    → LinkPanelInv enabled (on_edge_mouseout enabled l s)
unfolding on_edge_mouseout
on_edge_mouseout-LinkPanelInv enabled l s v =
    let stopped = waitless-LinkPanelInv enabled s.selected _ (stop_mouse_timer-Shows enabled s v) in
    if_cases (LinkPanelInv enabled) (not enabled) (λ _. v)
      (λ _.
        if_cases (LinkPanelInv enabled) (is_some s.selected) (λ _. stopped)
          (λ _.
            if_cases (LinkPanelInv enabled) (is_shown_link s.shown l)
              (λ _. start-LinkPanelInv enabled _ stopped) (λ _. stopped)))
