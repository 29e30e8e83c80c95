-- ===== src/LinkPanel/Timers.antt =====
-- The waits among the timeouts of the link panel (web-phalcon/public/js/netgraphz/ui.link_panel.js).
use netgraphz2_gpl.Model.{Link}
use netgraphz2_gpl.NodePanel.State.{hold_over, wait_over}
use netgraphz2_gpl.NodePanel.Waits.{
  IsCurrent, no_timer-waits, remove_timeout-WaitsMatch, remove_timeout-waits, waits, waits-append,
  waits-zero,
}
use netgraphz2_gpl.LinkPanel.State.{
  LinkPanel, clear_link_timeout, fade_in_link, set_link_content, set_link_timeout, show_link_panel,
  start_link_panel_timer, stop_link_panel_timer, stop_mouse_timer,
}
use netgraphz2_gpl.Common.{
  All, All-append, Option, [], arith, if_cases, none, refl, some, ℕ, ◌∷◌, ◌≡◌, ◌≤◌,
}

-- Every wait is the one that `mouseover_timer` names, and there are at most `b`; the link `sel` is selected.
pub record Timers (b : ℕ) (sel : Option Link) (s : LinkPanel) : Type 0 where
  pub current : All (IsCurrent s.mouseover_timer) s.timeouts
  pub few : waits s.timeouts ≤ b
  pub picked : s.selected ≡ sel

pub none-Timers : (b : ℕ) {sel : Option Link} (s : LinkPanel) → Timers 0 sel s → Timers b sel s
none-Timers b s v = record { current = v.current; picked = v.picked; few = omega (arith, v.few) }

pub clear-Timers :
    (b : ℕ) {sel : Option Link} (timer : Option ℕ) (s : LinkPanel)
    → Timers b sel s
    → Timers b sel (clear_link_timeout timer s)
unfolding clear_link_timeout
clear-Timers b none s v = v
clear-Timers b (some h) s v =
    let (current, le) = remove_timeout-WaitsMatch h s.mouseover_timer s.timeouts v.current in
    record { current = current; picked = v.picked; few = omega (arith, le, v.few) }

-- Clearing what `mouseover_timer` names leaves no wait.
clear_current-waits :
    (timer : Option ℕ) (s : LinkPanel)
    → All (IsCurrent timer) s.timeouts
    → waits (clear_link_timeout timer s).timeouts ≡ 0
unfolding clear_link_timeout
clear_current-waits none s v = no_timer-waits s.timeouts v
clear_current-waits (some h) s v = remove_timeout-waits h s.timeouts v

pub stop_mouse_timer-Timers :
    (b : ℕ) {sel : Option Link} (s : LinkPanel) → Timers b sel s → Timers 0 sel (stop_mouse_timer s)
unfolding stop_mouse_timer
stop_mouse_timer-Timers b s v =
    let zero = clear_current-waits s.mouseover_timer s v.current in
    record {
      current = waits-zero none _ zero;
      picked = (clear-Timers b s.mouseover_timer s v).picked;
      few = omega (arith, zero);
    }

pub wait-Timers :
    {sel : Option Link} (l : Option Link) (s : LinkPanel)
    → Timers 0 sel s
    → Timers 1 sel
        (record (set_link_timeout (wait_over l) s) { mouseover_timer = some s.next_timeout })
unfolding set_link_timeout
wait-Timers l s v = record {
  current =
      All-append (IsCurrent (some s.next_timeout)) s.timeouts ((s.next_timeout, wait_over l) ∷ [])
        (waits-zero (some s.next_timeout) s.timeouts (omega (arith, v.few))) (refl, tt);
  picked = v.picked;
  few = omega (arith, waits-append s.timeouts ((s.next_timeout, wait_over l) ∷ []), v.few);
}

pub stop-Timers :
    (b : ℕ) {sel : Option Link} (s : LinkPanel)
    → Timers b sel s
    → Timers b sel (stop_link_panel_timer s)
unfolding stop_link_panel_timer
stop-Timers b {sel = sel} s v =
    let kept =
      if_cases (Timers b sel) s.timer_started (λ _. clear-Timers b s.fade_timer s v) (λ _. v) in
    record { current = kept.current; picked = kept.picked; few = kept.few }

pub start-Timers :
    (b : ℕ) {sel : Option Link} (s : LinkPanel)
    → Timers b sel s
    → Timers b sel (start_link_panel_timer s)
unfolding start_link_panel_timer set_link_timeout
start-Timers b s v = record {
  current =
      All-append (IsCurrent s.mouseover_timer) s.timeouts ((s.next_timeout, hold_over) ∷ [])
        v.current (tt, tt);
  picked = v.picked;
  few = omega (arith, waits-append s.timeouts ((s.next_timeout, hold_over) ∷ []), v.few);
}

-- If a link is shown, the panel has its load and capacity.
abbrev pub HasLink : Option Link → Option Link → Type 0
HasLink none loaded = Unit {0}
HasLink (some l) loaded = loaded ≡ some l

-- The timers, and what is shown.
pub record Shows (b : ℕ) (sel : Option Link) (s : LinkPanel) : Type 0 where
  pub timers : Timers b sel s
  pub has_link : HasLink s.shown s.loaded

pub set_content-Shows :
    (b : ℕ) {sel : Option Link} (l : Option Link) (s : LinkPanel)
    → Timers b sel s
    → Shows b sel (set_link_content l s).0
unfolding set_link_content
set_content-Shows b none s v = record {
  timers = record { current = v.current; picked = v.picked; few = v.few };
  has_link = tt;
}
set_content-Shows b (some l) s v = record {
  timers = record { current = v.current; picked = v.picked; few = v.few };
  has_link = refl;
}

fade_in-Shows :
    (b : ℕ) {sel : Option Link} (s : LinkPanel) → Shows b sel s → Shows b sel (fade_in_link s)
unfolding fade_in_link
fade_in-Shows b s v = record {
  timers = record { current = v.timers.current; picked = v.timers.picked; few = v.timers.few };
  has_link = v.has_link;
}

pub show-Shows :
    (b : ℕ) {sel : Option Link} (l : Option Link) (s : LinkPanel)
    → Timers b sel s
    → Shows b sel (show_link_panel l s).0
unfolding show_link_panel
show-Shows b {sel = sel} l s v =
    let begun : Timers b sel (record s { shown = l }) = record {
      current = v.current;
      picked = v.picked;
      few = v.few;
    } in
    let stopped =
      if_cases (Timers b sel) s.timer_started (λ _. stop-Timers b _ begun) (λ _. begun) in
    let shown = set_content-Shows b l _ stopped in
    if_cases (Shows b sel) _ (λ _. fade_in-Shows b _ shown) (λ _. shown)
