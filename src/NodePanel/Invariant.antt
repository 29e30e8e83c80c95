-- ===== src/NodePanel/Invariant.antt =====
-- What holds of the node panel at all times (web-phalcon/public/js/netgraphz/ui.panel.js).
use netgraphz2_gpl.Model.{Node}
use netgraphz2_gpl.NodePanel.State.{
  Panel, PanelTask, clear_panel_timeout, hold_over, remove_timeout, show_node_panel,
  stop_node_panel_timer, wait_over, fade_in, set_content, set_panel_timeout, start_node_panel_timer,
}
use netgraphz2_gpl.NodePanel.Waits.{
  IsCurrent, WaitsMatch, remove_timeout-WaitsMatch, waits, waits-append, waits-zero, no_timer-waits,
  remove_timeout-waits,
}
use netgraphz2_gpl.Common.{
  List, All-append, Option, [], arith, none, refl, some, ℕ, ◌++◌, ◌∷◌, ◌≡◌, if_cases, Option-cases,
  inl, inr, ap, if◌then◌else◌, ◌∙◌,
}

abbrev pub HasRowsOf : {A : Type 0} → Option A → Node → Option Node → Type 0
HasRowsOf none n rows = Unit {0}
HasRowsOf (some statuses) n rows = rows ≡ some n

-- If a node with statuses is shown, the rows are of its statuses.
abbrev pub HasRows : Option Node → Option Node → Type 0
HasRows none rows = Unit {0}
HasRows (some n) rows = HasRowsOf n.status n rows

pub record PanelInv (s : Panel) : Type 0 where
  pub matching : WaitsMatch s.mouseover_timer s.timeouts
  pub has_rows : HasRows s.shown s.rows

remove-WaitsMatch :
    {A : Type 0} (h : ℕ) (timer : Option ℕ) (ts : List (ℕ × PanelTask A))
    → WaitsMatch timer ts
    → WaitsMatch timer (remove_timeout h ts)
remove-WaitsMatch h timer ts v =
    let (current, le) = remove_timeout-WaitsMatch h timer ts v.current in
    record { current = current; one = omega (arith, le, v.one) }

hold-WaitsMatch :
    {A : Type 0} (h : ℕ) (timer : Option ℕ) (ts : List (ℕ × PanelTask A))
    → WaitsMatch timer ts
    → WaitsMatch timer (ts ++ (h, hold_over) ∷ [])
hold-WaitsMatch h timer ts v = record {
  current = All-append (IsCurrent timer) ts ((h, hold_over) ∷ []) v.current (tt, tt);
  one = omega (arith, waits-append ts ((h, hold_over) ∷ []), v.one);
}

pub wait-WaitsMatch :
    {A : Type 0} (h : ℕ) (n : A) (ts : List (ℕ × PanelTask A))
    → waits ts ≡ 0
    → WaitsMatch (some h) (ts ++ (h, wait_over n) ∷ [])
wait-WaitsMatch h n ts e = record {
  current =
      All-append (IsCurrent (some h)) ts ((h, wait_over n) ∷ []) (waits-zero (some h) ts e)
        (refl, tt);
  one = omega (arith, waits-append ts ((h, wait_over n) ∷ []), e);
}

pub zero-WaitsMatch :
    {A : Type 0} (timer : Option ℕ) (ts : List (ℕ × PanelTask A))
    → waits ts ≡ 0
    → WaitsMatch timer ts
zero-WaitsMatch timer ts e = record { current = waits-zero timer ts e; one = omega arith }

remove_timeout-zero :
    {A : Type 0} (h : ℕ) (ts : List (ℕ × PanelTask A))
    → waits ts ≡ 0
    → waits (remove_timeout h ts) ≡ 0
remove_timeout-zero h ts e =
    omega (arith, (remove_timeout-WaitsMatch h none ts (waits-zero none ts e)).1, e)

abbrev pub Match : Panel → Type 0
Match s = WaitsMatch s.mouseover_timer s.timeouts

-- Clearing the timeout that the variable names leaves no wait.
pub clear-waits :
    (timer : Option ℕ) (s : Panel)
    → WaitsMatch timer s.timeouts
    → waits (clear_panel_timeout timer s).timeouts ≡ 0
unfolding clear_panel_timeout
clear-waits none s v = no_timer-waits s.timeouts v.current
clear-waits (some h) s v = remove_timeout-waits h s.timeouts v.current

clear-zero :
    (timer : Option ℕ) (s : Panel)
    → waits s.timeouts ≡ 0
    → waits (clear_panel_timeout timer s).timeouts ≡ 0
unfolding clear_panel_timeout
clear-zero none s e = e
clear-zero (some h) s e = remove_timeout-zero h s.timeouts e

clear-Match : (timer : Option ℕ) (s : Panel) → Match s → Match (clear_panel_timeout timer s)
unfolding clear_panel_timeout
clear-Match none s v = v
clear-Match (some h) s v = remove-WaitsMatch h s.mouseover_timer s.timeouts v

clear_keeps :
    (timer : Option ℕ) (s : Panel)
    → ((clear_panel_timeout timer s).shown ≡ s.shown)
      × ((clear_panel_timeout timer s).rows ≡ s.rows)
unfolding clear_panel_timeout
clear_keeps none s = (refl, refl)
clear_keeps (some h) s = (refl, refl)

pub clear-PanelInv :
    (timer : Option ℕ) (s : Panel) → PanelInv s → PanelInv (clear_panel_timeout timer s)
unfolding clear_panel_timeout
clear-PanelInv none s v = v
clear-PanelInv (some h) s v = record {
  matching = remove-WaitsMatch h s.mouseover_timer s.timeouts v.matching;
  has_rows = v.has_rows;
}

pub stop-PanelInv : (s : Panel) → PanelInv s → PanelInv (stop_node_panel_timer s)
unfolding stop_node_panel_timer
stop-PanelInv s v =
    let kept = if_cases PanelInv s.timer_started (λ _. clear-PanelInv s.fade_timer s v) (λ _. v) in
    record { matching = kept.matching; has_rows = kept.has_rows }

pub start-PanelInv : (s : Panel) → PanelInv s → PanelInv (start_node_panel_timer s)
unfolding start_node_panel_timer set_panel_timeout
start-PanelInv s v = record {
  matching = hold-WaitsMatch s.next_timeout s.mouseover_timer s.timeouts v.matching;
  has_rows = v.has_rows;
}

stop-Match : (s : Panel) → Match s → Match (stop_node_panel_timer s)
unfolding stop_node_panel_timer
stop-Match s v = if_cases Match s.timer_started (λ _. clear-Match s.fade_timer s v) (λ _. v)

pub set_content-PanelInv : (n : Node) (s : Panel) → Match s → PanelInv (set_content n s).0
unfolding set_content
set_content-PanelInv n s v = elim (Option-cases n.status) [
  | inl e ↦ rw (e, set_content) (record { matching = v; has_rows = tt })
  | inr (statuses, e) ↦ rw (e, set_content) (record { matching = v; has_rows = refl })
]

fade_in-PanelInv : (s : Panel) → PanelInv s → PanelInv (fade_in s)
unfolding fade_in
fade_in-PanelInv s v = record { matching = v.matching; has_rows = v.has_rows }

set_content-timeouts : (n : Node) (s : Panel) → (set_content n s).0.timeouts ≡ s.timeouts
unfolding set_content
set_content-timeouts n s = ground arith

fade_in-timeouts : (s : Panel) → (fade_in s).timeouts ≡ s.timeouts
unfolding fade_in
fade_in-timeouts s = refl

-- The state that `setContent` is called in.
abbrev at_content : Node → Panel → Panel
at_content n s =
    let s₁ = record s { shown = some n } in if s.timer_started then stop_node_panel_timer s₁ else s₁

pub show-PanelInv : (n : Node) (s : Panel) → Match s → PanelInv (show_node_panel n s).0
unfolding show_node_panel
show-PanelInv n s v =
    let kept : Match (at_content n s) =
      if_cases Match s.timer_started (λ _. stop-Match (record s { shown = some n }) v) (λ _. v) in
    let t : Panel = (set_content n (at_content n s)).0 in
    let filled : PanelInv t = set_content-PanelInv n (at_content n s) kept in
    if_cases PanelInv (set_content n (at_content n s)).1 {x = fade_in t} {y = t}
      (λ _. fade_in-PanelInv t filled) (λ _. filled)

pub show-waits :
    (n : Node) (s : Panel) → waits s.timeouts ≡ 0 → waits (show_node_panel n s).0.timeouts ≡ 0
unfolding show_node_panel stop_node_panel_timer
show-waits n s e =
    let begun : Panel = record s { shown = some n } in
    let kept : waits (at_content n s).timeouts ≡ 0 =
      if_cases (λ (x : Panel). waits x.timeouts ≡ 0) s.timer_started
        (λ _.
          if_cases (λ (x : Panel). waits x.timeouts ≡ 0) s.timer_started
            (λ _. clear-zero s.fade_timer begun e) (λ _. e))
        (λ _. e) in
    let t : Panel = (set_content n (at_content n s)).0 in
    let filled : waits t.timeouts ≡ 0 = ap waits (set_content-timeouts n (at_content n s)) ∙ kept in
    if_cases (λ (x : Panel). waits x.timeouts ≡ 0) (set_content n (at_content n s)).1
      {x = fade_in t} {y = t} (λ _. ap waits (fade_in-timeouts t) ∙ filled) (λ _. filled)
