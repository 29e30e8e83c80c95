-- ===== src/Renderer/Layout.antt =====
-- The layout of the drawn graph (web-phalcon/public/js/netgraphz/renderer.js). The graph is drawn.
use netgraphz2_gpl.Common.{
  Bool, Bool-cases, List, Option, [], ap, false, if_cases, if◌then◌else◌, inl, inr, none, not, refl,
  some, true, ◌++◌, ◌∙◌, ◌∷◌, ◌≡◌,
}

-- Calls of `_layout.run` and `_layout.stop`, and the layout's event "layoutstop".
pub data LayoutMark : Type 0 where
  runs stops is_over : LayoutMark

pub record Layout : Type 0 where
  pub layout_started : Bool
  pub marks : List LayoutMark

abbrev pub no_layout : Layout
no_layout = record { layout_started = false; marks = [] }

-- `startLayout`.
unfoldable pub start_layout : Layout → Layout
start_layout s =
    if s.layout_started then s else record { layout_started = true; marks = s.marks ++ runs ∷ [] }

-- `stopLayout`.
unfoldable pub stop_layout : Layout → Layout
stop_layout s = if not s.layout_started then s else record s { marks = s.marks ++ stops ∷ [] }

-- The handler of "layoutstop".
unfoldable pub layout_over : Layout → Layout
layout_over s = record { layout_started = false; marks = s.marks ++ is_over ∷ [] }

pub data LayoutEvent : Type 0 where
  start_asked stop_asked over : LayoutEvent

unfoldable pub layout_step : LayoutEvent → Layout → Layout
unfolding start_layout stop_layout layout_over
layout_step start_asked s = start_layout s
layout_step stop_asked s = stop_layout s
layout_step over s = layout_over s

unfoldable pub layout_run : List LayoutEvent → Layout → Layout
unfolding layout_step
layout_run [] s = s
layout_run (e ∷ es) s = layout_run es (layout_step e s)

-- A run is only called for with no layout running, and a stop with one.
abbrev pub next_running : Option Bool → LayoutMark → Option Bool
next_running (some false) runs = some true
next_running (some true) runs = none
next_running (some true) stops = some true
next_running (some false) stops = none
next_running (some running) is_over = some false
next_running none mark = none

-- Whether a layout is running after the marks; `none` if a call came at a wrong time.
abbrev pub running_after : Option Bool → List LayoutMark → Option Bool
running_after o [] = o
running_after o (m ∷ ms) = running_after (next_running o m) ms

running_after-append :
    (o : Option Bool) (ms : List LayoutMark) (m : LayoutMark)
    → running_after o (ms ++ m ∷ []) ≡ next_running (running_after o ms) m
running_after-append o [] m = refl
running_after-append o (x ∷ ms) m = running_after-append (next_running o x) ms m

abbrev LayoutInv : Layout → Type 0
LayoutInv s = running_after (some false) s.marks ≡ some s.layout_started

append-LayoutInv :
    (m : LayoutMark) (before after : Bool) (s : Layout)
    → LayoutInv s
    → s.layout_started ≡ before
    → next_running (some before) m ≡ some after
    → LayoutInv (record { layout_started = after; marks = s.marks ++ m ∷ [] })
append-LayoutInv m before after s v e moves =
    running_after-append (some false) s.marks m ∙ ap (λ o. next_running o m) (v ∙ ap some e) ∙ moves

layout_step-LayoutInv : (e : LayoutEvent) (s : Layout) → LayoutInv s → LayoutInv (layout_step e s)
unfolding layout_step start_layout stop_layout layout_over
layout_step-LayoutInv start_asked s v =
    if_cases LayoutInv s.layout_started (λ _. v) (λ e. append-LayoutInv runs false true s v e refl)
layout_step-LayoutInv stop_asked s v = elim (Bool-cases s.layout_started) [
  | inl e ↦ rw e (append-LayoutInv stops true true s v e refl)
  | inr e ↦ rw e (v ∙ ap some e)
]
layout_step-LayoutInv over s v = elim (Bool-cases s.layout_started) [
  | inl e ↦ append-LayoutInv is_over true false s v e refl
  | inr e ↦ append-LayoutInv is_over false false s v e refl
]

run_from-LayoutInv :
    (es : List LayoutEvent) (s : Layout) → LayoutInv s → LayoutInv (layout_run es s)
unfolding layout_run
run_from-LayoutInv [] s v = v
run_from-LayoutInv (e ∷ es) s v =
    run_from-LayoutInv es (layout_step e s) (layout_step-LayoutInv e s v)

-- However often the layout is started and stopped by the buttons and the menu, and whenever it ends:
-- it is only run while none is running and only stopped while one is, and `layout_started` says
-- whether one is running.
pub layout_run_lem :
    (es : List LayoutEvent)
    → let s = layout_run es no_layout in running_after (some false) s.marks ≡ some s.layout_started
layout_run_lem es = run_from-LayoutInv es no_layout refl
