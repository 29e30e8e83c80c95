-- ===== src/Renderer/GestureTests.antt =====
-- Taps and layouts on a run (web-phalcon/public/js/netgraphz/renderer.js).
use netgraphz2_gpl.Common.{List, [], false, refl, some, true, ◌++◌, ◌∷◌, ◌≡◌}
use netgraphz2_gpl.Renderer.Gestures.{
  Gesture, attached, gesture_run, gesture_step, key, tap, tap_timeout, on_node_tap, double_tap,
  emit_effect, clear_tap_timer, remove_element, run_tap_timeout, on_key, node_hover, on_node_hover,
}
use netgraphz2_gpl.Renderer.Taps.{TapInv, followed, gesture_run_lem, repeats}
use netgraphz2_gpl.Renderer.Layout.{
  LayoutEvent, layout_run, layout_run_lem, no_layout, over, running_after, start_asked, stop_asked,
}

abbrev first_taps : List Gesture
first_taps = tap 3 ∷ tap_timeout 0 ∷ tap 4 ∷ key true 16 ∷ []

abbrev later_taps : List Gesture
later_taps = tap 4 ∷ node_hover true 5 ∷ tap 4 ∷ tap 5 ∷ []

gesture_run_lem_example :
    let s = gesture_run first_taps (attached false) in
    TapInv s
    × (followed (gesture_run later_taps s).effects
        ≡ followed s.effects ++ repeats s.double_tap_target later_taps)
gesture_run_lem_example = gesture_run_lem false first_taps later_taps (tt, (tt, (tt, (tt, tt))))

-- Three taps on a node are followed twice.
three_taps :
    followed (gesture_run later_taps (gesture_run first_taps (attached false))).effects ≡ 4 ∷ 4 ∷ []
unfolding gesture_run gesture_step on_node_tap double_tap emit_effect clear_tap_timer remove_element
    run_tap_timeout on_key on_node_hover
three_taps = refl

-- The timeout of an earlier tap on another node ends the wait for the second tap.
lost_double_tap :
    followed (gesture_run (tap 3 ∷ tap 4 ∷ tap_timeout 0 ∷ tap 4 ∷ []) (attached false)).effects
    ≡ []
unfolding gesture_run gesture_step on_node_tap double_tap emit_effect clear_tap_timer remove_element
    run_tap_timeout
lost_double_tap = refl

abbrev layout_events : List LayoutEvent
layout_events = start_asked ∷ start_asked ∷ stop_asked ∷ over ∷ stop_asked ∷ start_asked ∷ []

layout_run_lem_example :
    let s = layout_run layout_events no_layout in
    running_after (some false) s.marks ≡ some s.layout_started
layout_run_lem_example = layout_run_lem layout_events
