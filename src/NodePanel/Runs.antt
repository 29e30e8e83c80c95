-- ===== src/NodePanel/Runs.antt =====
-- Every event keeps the node panel's invariant (web-phalcon/public/js/netgraphz/ui.panel.js).
use mathlib.Core.Path.{subst}
use netgraphz2_gpl.Model.{Node}
use netgraphz2_gpl.NodePanel.Events.{
  on_update_nodes, node_mouseover, node_mouseout, node_select, node_unselect, timeout_runs,
  PanelEvent, close_click, end_fade, fade_ends, find_timeout, is_node, node_updated, nodes_updated,
  on_node_mouseout, on_node_mouseover, on_node_select, on_node_unselect, on_update_node,
  panel_mouseout, panel_mouseover, panel_run, panel_step, run_panel_task, run_panel_timeout,
  update_nodes_loop,
}
use netgraphz2_gpl.NodePanel.Invariant.{
  PanelInv, clear-PanelInv, clear-waits, show-PanelInv, show-waits, start-PanelInv, stop-PanelInv,
  wait-WaitsMatch, zero-WaitsMatch, set_content-PanelInv,
}
use netgraphz2_gpl.NodePanel.State.{
  Fade, Panel, PanelTask, clear_panel_timeout, close_node_panel, fade_callback, faded_in, faded_out,
  hidden_panel, hold_callback, hold_over, set_content, set_panel_timeout, set_selected_node,
  show_node_panel, wait_callback, wait_over,
}
use netgraphz2_gpl.NodePanel.Waits.{WaitsMatch, find_timeout-current, waits}
use netgraphz2_gpl.Common.{
  List, Bool, Option, [], arith, if_cases, if◌then◌else◌, is_some, none, refl, some, true, ℕ, ◌∷◌,
  ◌≡◌,
}

select-PanelInv : (n : Option Node) (s : Panel) → PanelInv s → PanelInv (set_selected_node n s)
unfolding set_selected_node
select-PanelInv n s v = record { matching = v.matching; has_rows = v.has_rows }

-- No wait is left.
abbrev Waitless : Panel × Bool → Type 0
Waitless (s, finished) = PanelInv s × (waits s.timeouts ≡ 0)

wait_callback-Waitless :
    (n : Node) (s : Panel) → waits s.timeouts ≡ 0 → Waitless (wait_callback n s)
unfolding wait_callback
wait_callback-Waitless n s e =
    let t = record s { mouseover_timer = none } in
    (show-PanelInv n t (zero-WaitsMatch none s.timeouts e), show-waits n t e)

on_node_mouseover-PanelInv :
    (disabled : Bool) (n : Node) (s : Panel)
    → PanelInv s
    → PanelInv (on_node_mouseover disabled n s)
unfolding on_node_mouseover set_panel_timeout
on_node_mouseover-PanelInv disabled n s v =
    let s₁ = clear_panel_timeout s.mouseover_timer s in
    let zero = clear-waits s.mouseover_timer s v.matching in
    let second : Panel × Bool = if is_some s.shown then (s₁, true) else wait_callback n s₁ in
    let (inv, no_wait) =
      if_cases Waitless (is_some s.shown) (λ _. (clear-PanelInv s.mouseover_timer s v, zero))
        (λ _. wait_callback-Waitless n s₁ zero) in
    if_cases PanelInv disabled (λ _. v)
      (λ _.
        if_cases PanelInv second.1
          (λ _. record {
            matching = wait-WaitsMatch second.0.next_timeout n second.0.timeouts no_wait;
            has_rows = inv.has_rows;
          })
          (λ _. inv))

on_node_select-PanelInv : (n : Node) (s : Panel) → PanelInv s → PanelInv (on_node_select n s)
unfolding on_node_select
on_node_select-PanelInv n s v =
    let shown = show-PanelInv n s v.matching in
    if_cases PanelInv (show_node_panel n s).1
      (λ _. stop-PanelInv _ (select-PanelInv (some n) _ shown)) (λ _. shown)

on_node_unselect-PanelInv : (s : Panel) → PanelInv s → PanelInv (on_node_unselect s)
unfolding on_node_unselect
on_node_unselect-PanelInv s v =
    let dropped = select-PanelInv none s v in
    if_cases PanelInv _ (λ _. start-PanelInv _ dropped) (λ _. dropped)

on_node_mouseout-PanelInv :
    (disabled : Bool) (n : Node) (s : Panel) → PanelInv s → PanelInv (on_node_mouseout disabled n s)
unfolding on_node_mouseout
on_node_mouseout-PanelInv disabled n s v =
    let cleared = clear-PanelInv s.mouseover_timer s v in
    if_cases PanelInv disabled (λ _. v)
      (λ _. if_cases PanelInv _ (λ _. start-PanelInv _ cleared) (λ _. cleared))

on_update_node-PanelInv : (n : Node) (s : Panel) → PanelInv s → PanelInv (on_update_node n s)
unfolding on_update_node
on_update_node-PanelInv n s v =
    let kept =
      if_cases PanelInv (is_node s.selected n) (λ _. select-PanelInv (some n) s v) (λ _. v) in
    if_cases PanelInv (is_some s.shown)
      (λ _.
        if_cases PanelInv (is_node s.shown n) (λ _. set_content-PanelInv n _ kept.matching)
          (λ _. kept))
      (λ _. v)

update_nodes_loop-PanelInv :
    (shown_node selected : Option Node) (ns : List Node) (s : Panel)
    → PanelInv s
    → PanelInv (update_nodes_loop shown_node selected ns s)
unfolding update_nodes_loop
update_nodes_loop-PanelInv shown_node selected [] s v = v
update_nodes_loop-PanelInv shown_node selected (n ∷ ns) s v =
    let kept = if_cases PanelInv (is_node selected n) (λ _. select-PanelInv none s v) (λ _. v) in
    let next =
      if_cases (λ (p : Panel × Bool). PanelInv p.0) (is_node shown_node n)
        (λ _. set_content-PanelInv n _ kept.matching) (λ _. kept) in
    if_cases PanelInv _ (λ _. update_nodes_loop-PanelInv shown_node selected ns _ next) (λ _. next)

hold_callback-PanelInv : (n : Option Node) (s : Panel) → PanelInv s → PanelInv (hold_callback n s)
unfolding hold_callback
hold_callback-PanelInv none s v = record { matching = v.matching; has_rows = v.has_rows }
hold_callback-PanelInv (some n) s v =
    let shown = set_content-PanelInv n s v.matching in
    if_cases PanelInv (set_content n s).1
      (λ _. record { matching = shown.matching; has_rows = shown.has_rows }) (λ _. shown)

run_panel_timeout-PanelInv :
    (h : ℕ) (o : Option (PanelTask Node)) (s : Panel)
    → find_timeout h s.timeouts ≡ o
    → PanelInv s
    → PanelInv (run_panel_timeout h o s)
unfolding run_panel_timeout run_panel_task
run_panel_timeout-PanelInv h none s e v = v
run_panel_timeout-PanelInv h (some hold_over) s e v =
    hold_callback-PanelInv _ _ (clear-PanelInv (some h) s v)
run_panel_timeout-PanelInv h (some (wait_over n)) s e v =
    let named = find_timeout-current h n s.mouseover_timer s.timeouts v.matching.current e in
    let zero = clear-waits (some h) s (subst (λ t. WaitsMatch t s.timeouts) named v.matching) in
    (wait_callback-Waitless n (clear_panel_timeout (some h) s) zero).0

end_fade-PanelInv : (fs : List Fade) (s : Panel) → PanelInv s → PanelInv (end_fade fs s)
unfolding end_fade fade_callback
end_fade-PanelInv [] s v = v
end_fade-PanelInv (faded_in ∷ fs) s v = record { matching = v.matching; has_rows = v.has_rows }
end_fade-PanelInv (faded_out ∷ fs) s v = record { matching = v.matching; has_rows = tt }

panel_step-PanelInv : (e : PanelEvent) (s : Panel) → PanelInv s → PanelInv (panel_step e s)
unfolding panel_step close_node_panel on_update_nodes
panel_step-PanelInv (node_mouseover disabled n) s v = on_node_mouseover-PanelInv disabled n s v
panel_step-PanelInv (node_select n) s v = on_node_select-PanelInv n s v
panel_step-PanelInv node_unselect s v = on_node_unselect-PanelInv s v
panel_step-PanelInv (node_mouseout disabled n) s v = on_node_mouseout-PanelInv disabled n s v
panel_step-PanelInv (node_updated n) s v = on_update_node-PanelInv n s v
panel_step-PanelInv (nodes_updated ns) s v =
    if_cases PanelInv (is_some s.shown) (λ _. update_nodes_loop-PanelInv _ _ ns s v) (λ _. v)
panel_step-PanelInv panel_mouseover s v = stop-PanelInv s v
panel_step-PanelInv panel_mouseout s v = start-PanelInv s v
panel_step-PanelInv close_click s v = record { matching = v.matching; has_rows = v.has_rows }
panel_step-PanelInv (timeout_runs h) s v = run_panel_timeout-PanelInv h _ s refl v
panel_step-PanelInv fade_ends s v = end_fade-PanelInv s.fades s v

run_from-PanelInv : (es : List PanelEvent) (s : Panel) → PanelInv s → PanelInv (panel_run es s)
unfolding panel_run
run_from-PanelInv [] s v = v
run_from-PanelInv (e ∷ es) s v = run_from-PanelInv es (panel_step e s) (panel_step-PanelInv e s v)

-- From the hidden panel, after any sequence of events of the mouse, the selection, the store, the
-- timeouts and the fadings: at most one timeout waits to show a node, and it is the one that
-- `mouseover_node_timer` names, and if a node with statuses is shown, the rows of the panel are those
-- of its statuses, even where `setContent` has thrown at a link of the settings.
pub panel_run-PanelInv :
    (links_throw : Node → Bool) (es : List PanelEvent)
    → PanelInv (panel_run es (hidden_panel links_throw))
panel_run-PanelInv links_throw es =
    run_from-PanelInv es (hidden_panel links_throw)
      (record { matching = record { current = tt; one = omega arith }; has_rows = tt })
