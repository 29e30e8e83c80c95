-- ===== src/LinkPanel/Runs.antt =====
-- Every event keeps the link panel's invariant (web-phalcon/public/js/netgraphz/ui.link_panel.js).
use netgraphz2_gpl.Model.{Link, Node}
use netgraphz2_gpl.NodePanel.State.{Fade, PanelTask, faded_in, faded_out, hold_over, wait_over}
use netgraphz2_gpl.LinkPanel.State.{
  LinkPanel, clear_link_timeout, close_link_panel, hidden_link_panel, link_fade_callback,
  link_hold_callback, set_link_content, set_selected_link, start_link_panel_timer,
}
use netgraphz2_gpl.LinkPanel.Events.{
  LinkPanelEvent, close_click, edge_mouseout, edge_mouseover, edge_tap, edge_unselect,
  end_link_fade, fade_ends, has_end, is_shown_link, link_nodes_loop, link_panel_run,
  link_panel_step, mouseout, mouseover, on_edge_unselect, on_link_update_node, on_link_update_nodes,
  refresh, run_link_task, run_link_timeout, timeout_runs, update_node, update_nodes,
}
use netgraphz2_gpl.LinkPanel.Timers.{Shows, Timers, clear-Timers, set_content-Shows, show-Shows}
use netgraphz2_gpl.LinkPanel.Invariant.{
  LinkPanelInv, LinkPanelInv-selected, on_edge_mouseout-LinkPanelInv,
  on_edge_mouseover-LinkPanelInv, on_edge_tap-LinkPanelInv, start-LinkPanelInv, stop-LinkPanelInv,
  unselect-Timers,
}
use netgraphz2_gpl.Common.{
  List, Bool, Option, [], arith, false, if_cases, none, refl, some, true, ℕ, ◌∷◌,
}

on_edge_unselect-LinkPanelInv :
    (enabled : Bool) (l : Option Link) (s : LinkPanel)
    → LinkPanelInv enabled s
    → LinkPanelInv enabled (on_edge_unselect l s)
unfolding on_edge_unselect set_selected_link
on_edge_unselect-LinkPanelInv enabled l s v =
    let started = start-LinkPanelInv enabled s v in
    if_cases (LinkPanelInv enabled) (is_shown_link s.shown l)
      (λ _. record {
        timers = unselect-Timers enabled (start_link_panel_timer s) _ started refl refl refl;
        has_link = started.has_link;
      })
      (λ _. v)

-- By whether a link is shown.
shown_cases :
    (P : LinkPanel → Type 0) (o : Option Link) {x : LinkPanel} {f : Link → LinkPanel}
    → P x
    → ((l : Link) → P (f l))
    → P (elim o [ none ↦ x | some l ↦ f l ])
shown_cases P none v w = v
shown_cases P (some l) v w = w l

refresh-Shows :
    (b : ℕ) (sel : Option Link) (o : Option Bool) (n_link : Option Link) (s : LinkPanel)
    → Shows b sel s
    → Shows b sel (refresh o n_link s).0
unfolding refresh
refresh-Shows b sel none n_link s v = v
refresh-Shows b sel (some false) n_link s v = v
refresh-Shows b sel (some true) n_link s v = set_content-Shows b n_link s v.timers

on_link_update_node-Shows :
    (b : ℕ) (sel : Option Link) (n : Node) (n_link : Option Link) (s : LinkPanel)
    → Shows b sel s
    → Shows b sel (on_link_update_node n n_link s)
unfolding on_link_update_node
on_link_update_node-Shows b sel n n_link s v =
    shown_cases (Shows b sel) s.shown v (λ l. refresh-Shows b sel (has_end l n) n_link s v)

link_nodes_loop-Shows :
    (b : ℕ) (sel : Option Link) (l : Link) (n_link : Option Link) (ns : List Node) (s : LinkPanel)
    → Shows b sel s
    → Shows b sel (link_nodes_loop l n_link ns s)
unfolding link_nodes_loop
link_nodes_loop-Shows b sel l n_link [] s v = v
link_nodes_loop-Shows b sel l n_link (n ∷ ns) s v =
    let next = refresh-Shows b sel (has_end l n) n_link s v in
    if_cases (Shows b sel) _ (λ _. link_nodes_loop-Shows b sel l n_link ns _ next) (λ _. next)

on_link_update_nodes-Shows :
    (b : ℕ) (sel : Option Link) (ns : List Node) (n_link : Option Link) (s : LinkPanel)
    → Shows b sel s
    → Shows b sel (on_link_update_nodes ns n_link s)
unfolding on_link_update_nodes
on_link_update_nodes-Shows b sel ns n_link s v =
    shown_cases (Shows b sel) s.shown v (λ l. link_nodes_loop-Shows b sel l n_link ns s v)

hold_callback-Shows :
    (b : ℕ) (sel o : Option Link) (s : LinkPanel)
    → Timers b sel s
    → Shows b sel s
    → Shows b sel (link_hold_callback o s)
unfolding link_hold_callback
hold_callback-Shows b sel none s t v = record {
  timers = record { current = t.current; few = t.few; picked = t.picked };
  has_link = v.has_link;
}
hold_callback-Shows b sel (some l) s t v =
    let shown = set_content-Shows b (some l) s t in
    let timers = shown.timers in
    if_cases (Shows b sel) (set_link_content (some l) s).1
      (λ _. record {
        timers = record { current = timers.current; few = timers.few; picked = timers.picked };
        has_link = shown.has_link;
      })
      (λ _. shown)

clear-Shows :
    (b : ℕ) (sel : Option Link) (h : ℕ) (s : LinkPanel)
    → Shows b sel s
    → Shows b sel (clear_link_timeout (some h) s)
unfolding clear_link_timeout
clear-Shows b sel h s v = record {
  timers = clear-Timers b (some h) s v.timers;
  has_link = v.has_link;
}

run_link_timeout-Shows :
    (b : ℕ) (sel : Option Link) (h : ℕ) (o : Option (PanelTask (Option Link))) (s : LinkPanel)
    → Shows b sel s
    → Shows b sel (run_link_timeout h o s)
unfolding run_link_timeout run_link_task
run_link_timeout-Shows b sel h none s v = v
run_link_timeout-Shows b sel h (some hold_over) s v =
    let cleared = clear-Shows b sel h s v in hold_callback-Shows b sel _ _ cleared.timers cleared
run_link_timeout-Shows b sel h (some (wait_over l)) s v =
    show-Shows b l _ (clear-Shows b sel h s v).timers

end_link_fade-LinkPanelInv :
    (enabled : Bool) (fs : List Fade) (s : LinkPanel)
    → LinkPanelInv enabled s
    → LinkPanelInv enabled (end_link_fade fs s)
unfolding end_link_fade link_fade_callback
end_link_fade-LinkPanelInv enabled [] s v = v
end_link_fade-LinkPanelInv enabled (faded_in ∷ fs) s v = record {
  timers = record { current = v.timers.current; few = v.timers.few; picked = refl };
  has_link = v.has_link;
}
end_link_fade-LinkPanelInv enabled (faded_out ∷ fs) s v = record {
  timers = unselect-Timers enabled s _ v refl refl refl;
  has_link = tt;
}

close-LinkPanelInv :
    (enabled : Bool) (s : LinkPanel)
    → LinkPanelInv enabled s
    → LinkPanelInv enabled (close_link_panel s)
unfolding close_link_panel
close-LinkPanelInv enabled s v = record {
  timers = unselect-Timers enabled s _ v refl refl refl;
  has_link = v.has_link;
}

link_panel_step-LinkPanelInv :
    (enabled : Bool) (e : LinkPanelEvent) (s : LinkPanel)
    → LinkPanelInv enabled s
    → LinkPanelInv enabled (link_panel_step enabled e s)
unfolding link_panel_step
link_panel_step-LinkPanelInv enabled (edge_mouseover l) s v =
    on_edge_mouseover-LinkPanelInv enabled l s v
link_panel_step-LinkPanelInv enabled (edge_tap l) s v = on_edge_tap-LinkPanelInv enabled l s v
link_panel_step-LinkPanelInv enabled (edge_unselect l) s v =
    on_edge_unselect-LinkPanelInv enabled l s v
link_panel_step-LinkPanelInv enabled (edge_mouseout l) s v =
    on_edge_mouseout-LinkPanelInv enabled l s v
link_panel_step-LinkPanelInv enabled (update_node n n_link) s v =
    LinkPanelInv-selected enabled _ _ (on_link_update_node-Shows _ _ n n_link s v)
link_panel_step-LinkPanelInv enabled (update_nodes ns n_link) s v =
    LinkPanelInv-selected enabled _ _ (on_link_update_nodes-Shows _ _ ns n_link s v)
link_panel_step-LinkPanelInv enabled mouseover s v = stop-LinkPanelInv enabled s v
link_panel_step-LinkPanelInv enabled mouseout s v = start-LinkPanelInv enabled s v
link_panel_step-LinkPanelInv enabled close_click s v = close-LinkPanelInv enabled s v
link_panel_step-LinkPanelInv enabled (timeout_runs h) s v =
    LinkPanelInv-selected enabled _ _ (run_link_timeout-Shows _ _ h _ s v)
link_panel_step-LinkPanelInv enabled fade_ends s v = end_link_fade-LinkPanelInv enabled s.fades s v

run_from-LinkPanelInv :
    (enabled : Bool) (es : List LinkPanelEvent) (s : LinkPanel)
    → LinkPanelInv enabled s
    → LinkPanelInv enabled (link_panel_run enabled es s)
unfolding link_panel_run
run_from-LinkPanelInv enabled [] s v = v
run_from-LinkPanelInv enabled (e ∷ es) s v =
    run_from-LinkPanelInv enabled es (link_panel_step enabled e s)
      (link_panel_step-LinkPanelInv enabled e s v)

-- From the hidden panel, after any sequence of events of the mouse, of the edges, the store, the
-- timeouts and the fadings: at most one timeout waits to show a link, and it is the one that
-- `mouseover_timer` names; none waits while a link is selected, or if `mouseoverEnabled` is off; and
-- if a link is shown, the load and the capacity of the panel were filled in for that link last, even
-- where `setContent` has thrown behind them.
pub link_panel_run-LinkPanelInv :
    (links_throw : Link → Bool) (enabled : Bool) (es : List LinkPanelEvent)
    → LinkPanelInv enabled (link_panel_run enabled es (hidden_link_panel links_throw))
link_panel_run-LinkPanelInv links_throw enabled es =
    run_from-LinkPanelInv enabled es (hidden_link_panel links_throw)
      (record { timers = record { current = tt; few = omega arith; picked = refl }; has_link = tt })
