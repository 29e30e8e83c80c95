-- ===== src/Renderer/Taps.antt =====
-- Which taps the graph follows (web-phalcon/public/js/netgraphz/renderer.js).
use mathlib.Core.Path.{ap₂}
use mathlib.Core.List.{Memᴰ, append-nil, append_assoc}
use netgraphz2_gpl.Common.{
  Bool, List, Option, [], ap, false, if_cases, if◌then◌else◌, none, refl, some, true, ℕ, ◌&&◌, ◌++◌,
  ◌==◌, ◌∙◌, ◌∷◌, ◌≡◌, All, Bool-cases, inl, inr, sym,
}
use netgraphz2_gpl.Renderer.Gestures.{
  Gesture, GestureEffect, Gestures, container_click, edge_event, edge_selected, emit_effect, follow,
  gesture_run, gesture_step, is_target, key, node_hover, node_selected, node_unselected,
  on_edge_select, on_key, on_node_hover, on_node_tap, publish, run_tap_timeout, select_again, tap,
  tap_timeout, visibility_change, edge_select, node_select, node_unselect, node_mouseover,
  node_mouseout, attached, clear_tap_timer, double_tap, on_unselect, remove_element,
}

-- The nodes that are followed, in order.
abbrev pub followed : List GestureEffect → List ℕ
followed [] = []
followed (follow n ∷ es) = n ∷ followed es
followed (select_again n ∷ es) = followed es
followed (publish topic n ∷ es) = followed es

followed-append : (xs ys : List GestureEffect) → followed (xs ++ ys) ≡ followed xs ++ followed ys
followed-append [] ys = refl
followed-append (follow n ∷ xs) ys = ap (λ l. n ∷ l) (followed-append xs ys)
followed-append (select_again n ∷ xs) ys = followed-append xs ys
followed-append (publish topic n ∷ xs) ys = followed-append xs ys

-- The taps on the node that was tapped last before, `last` at first; a timeout among the events
-- is left out.
abbrev pub repeats : Option ℕ → List Gesture → List ℕ
repeats last [] = []
repeats last (visibility_change ∷ gs) = repeats last gs
repeats last (container_click ctrl ∷ gs) = repeats last gs
repeats last (key down k ∷ gs) = repeats last gs
repeats last (tap n ∷ gs) =
    let more = repeats (some n) gs in if is_target last n then n ∷ more else more
repeats last (edge_event topic e ∷ gs) = repeats last gs
repeats last (edge_selected e ∷ gs) = repeats last gs
repeats last (node_selected n ∷ gs) = repeats last gs
repeats last (node_unselected n ∷ gs) = repeats last gs
repeats last (node_hover over n ∷ gs) = repeats last gs
repeats last (tap_timeout h ∷ gs) = repeats last gs

abbrev pub IsNoTimeout : Gesture → Type 0
IsNoTimeout (tap_timeout h) = ⊥
IsNoTimeout visibility_change = Unit {0}
IsNoTimeout (container_click ctrl) = Unit {0}
IsNoTimeout (key down k) = Unit {0}
IsNoTimeout (tap n) = Unit {0}
IsNoTimeout (edge_event topic e) = Unit {0}
IsNoTimeout (edge_selected e) = Unit {0}
IsNoTimeout (node_selected n) = Unit {0}
IsNoTimeout (node_unselected n) = Unit {0}
IsNoTimeout (node_hover over n) = Unit {0}

-- The target is named by a timer that is set.
abbrev pub TargetIsTimed : Option ℕ → Option ℕ → List ℕ → Type 0
TargetIsTimed none timer timeouts = Unit {0}
TargetIsTimed (some n) none timeouts = ⊥
TargetIsTimed (some n) (some h) timeouts = Memᴰ h timeouts

abbrev pub TapInv : Gestures → Type 0
TapInv s = TargetIsTimed s.double_tap_target s.double_tap_timer s.timeouts

-- Neither the taps nor what is followed are touched.
abbrev Same : Gestures → Gestures → Type 0
Same s x =
    (followed x.effects ≡ followed s.effects)
    × (x.double_tap_target ≡ s.double_tap_target)
    × (x.double_tap_timer ≡ s.double_tap_timer)
    × (x.timeouts ≡ s.timeouts)

abbrev is_follow : GestureEffect → Bool
is_follow (follow n) = true
is_follow (select_again n) = false
is_follow (publish topic n) = false

emit-Same :
    (e : GestureEffect) (s x : Gestures) → is_follow e ≡ false → Same s x → Same s (emit_effect e x)
unfolding emit_effect
emit-Same (follow n) s x h v = cc
emit-Same (select_again n) s x h v =
    (followed-append x.effects (select_again n ∷ []) ∙ append-nil _ ∙ v.0, v.1, v.2, v.3)
emit-Same (publish topic n) s x h v =
    (followed-append x.effects (publish topic n ∷ []) ∙ append-nil _ ∙ v.0, v.1, v.2, v.3)

Same-refl : (s : Gestures) → Same s s
Same-refl s = (refl, refl, refl, refl)

-- Every event but a tap and a timeout leaves the taps alone.
abbrev IsOther : Gesture → Type 0
IsOther (tap n) = ⊥
IsOther (tap_timeout h) = ⊥
IsOther visibility_change = Unit {0}
IsOther (container_click ctrl) = Unit {0}
IsOther (key down k) = Unit {0}
IsOther (edge_event topic e) = Unit {0}
IsOther (edge_selected e) = Unit {0}
IsOther (node_selected n) = Unit {0}
IsOther (node_unselected n) = Unit {0}
IsOther (node_hover over n) = Unit {0}

gesture_step-Same : (g : Gesture) (s : Gestures) → IsOther g → Same s (gesture_step g s)
unfolding gesture_step on_key on_edge_select on_unselect on_node_hover
gesture_step-Same (tap n) s h = absurd h
gesture_step-Same (tap_timeout n) s h = absurd h
gesture_step-Same visibility_change s h = Same-refl s
gesture_step-Same (container_click ctrl) s h =
    if_cases (Same s) ctrl (λ _. Same-refl s) (λ _. Same-refl s)
gesture_step-Same (key down k) s h =
    if_cases (Same s) (k == 17) (λ _. Same-refl s)
      (λ _. if_cases (Same s) (k == 16) (λ _. Same-refl s) (λ _. Same-refl s))
gesture_step-Same (edge_event topic e) s h = emit-Same (publish topic e) s s refl (Same-refl s)
gesture_step-Same (edge_selected e) s h =
    if_cases (Same s) s.box_selection (λ _. Same-refl s)
      (λ _. emit-Same (publish edge_select e) s s refl (Same-refl s))
gesture_step-Same (node_selected n) s h =
    emit-Same (publish node_select n) s (record s { cy_selected = some n }) refl (Same-refl s)
gesture_step-Same (node_unselected n) s h =
    let s' : Gestures =
      if s.shift_hold && s.box_selection then emit_effect (select_again n) s else s in
    emit-Same (publish node_unselect n) s s' refl (
      if_cases (Same s) (s.shift_hold && s.box_selection)
        (λ _. emit-Same (select_again n) s s refl (Same-refl s)) (λ _. Same-refl s))
gesture_step-Same (node_hover true n) s h =
    emit-Same (publish node_mouseover n) s (record s { hovered = n ∷ remove_element n s.hovered })
      refl (Same-refl s)
gesture_step-Same (node_hover false n) s h =
    emit-Same (publish node_mouseout n) s (record s { hovered = remove_element n s.hovered }) refl
      (Same-refl s)

Same-TapInv : (s x : Gestures) → Same s x → TapInv s → TapInv x
Same-TapInv s x v inv = rw (v.1, v.2, v.3) inv

mem-last : (h : ℕ) (xs : List ℕ) → Memᴰ h (xs ++ h ∷ [])
mem-last h [] = Memᴰ.head refl
mem-last h (x ∷ xs) = Memᴰ.tail (mem-last h xs)

on_node_tap-TapInv : (n : ℕ) (s : Gestures) → TapInv (on_node_tap n s)
unfolding on_node_tap
on_node_tap-TapInv n s = mem-last _ _

run_tap_timeout-TapInv :
    (h : ℕ) (ks : List ℕ) (s : Gestures) → TapInv s → TapInv (run_tap_timeout h ks s)
unfolding run_tap_timeout
run_tap_timeout-TapInv h [] s v = v
run_tap_timeout-TapInv h (k ∷ ks) s v =
    if_cases TapInv (k == h) (λ _. tt) (λ _. run_tap_timeout-TapInv h ks s v)

other-TapInv : (g : Gesture) (s : Gestures) → IsOther g → TapInv s → TapInv (gesture_step g s)
other-TapInv g s h v = Same-TapInv s (gesture_step g s) (gesture_step-Same g s h) v

gesture_step-TapInv : (g : Gesture) (s : Gestures) → TapInv s → TapInv (gesture_step g s)
unfolding gesture_step
gesture_step-TapInv (tap n) s v = on_node_tap-TapInv n s
gesture_step-TapInv (tap_timeout h) s v = run_tap_timeout-TapInv h s.timeouts s v
gesture_step-TapInv visibility_change s v = other-TapInv visibility_change s tt v
gesture_step-TapInv (container_click ctrl) s v = other-TapInv (container_click ctrl) s tt v
gesture_step-TapInv (key down k) s v = other-TapInv (key down k) s tt v
gesture_step-TapInv (edge_event topic e) s v = other-TapInv (edge_event topic e) s tt v
gesture_step-TapInv (edge_selected e) s v = other-TapInv (edge_selected e) s tt v
gesture_step-TapInv (node_selected n) s v = other-TapInv (node_selected n) s tt v
gesture_step-TapInv (node_unselected n) s v = other-TapInv (node_unselected n) s tt v
gesture_step-TapInv (node_hover over n) s v = other-TapInv (node_hover over n) s tt v

gesture_run-TapInv : (gs : List Gesture) (s : Gestures) → TapInv s → TapInv (gesture_run gs s)
unfolding gesture_run
gesture_run-TapInv [] s v = v
gesture_run-TapInv (g ∷ gs) s v = gesture_run-TapInv gs _ (gesture_step-TapInv g s v)

clear_tap_timer-Same : (o : Option ℕ) (s : Gestures) → (clear_tap_timer o s).effects ≡ s.effects
unfolding clear_tap_timer
clear_tap_timer-Same none s = refl
clear_tap_timer-Same (some h) s = refl

on_node_tap-followed :
    (n : ℕ) (s : Gestures)
    → followed (on_node_tap n s).effects
      ≡ followed s.effects ++ (if is_target s.double_tap_target n then n ∷ [] else [])
unfolding on_node_tap double_tap emit_effect
on_node_tap-followed n s = elim (Bool-cases (is_target s.double_tap_target n)) [
  | inl e ↦ rw e (
      ap followed (clear_tap_timer-Same s.double_tap_timer _)
      ∙ followed-append s.effects (follow n ∷ []))
  | inr e ↦ rw e (sym (append-nil _))
]

if-append :
    (b : Bool) (n : ℕ) (xs more : List ℕ)
    → (xs ++ (if b then n ∷ [] else [])) ++ more ≡ xs ++ (if b then n ∷ more else more)
if-append true n xs more = append_assoc xs (n ∷ []) more
if-append false n xs more = append_assoc xs [] more

tap-followed :
    (n : ℕ) (gs : List Gesture) (s : Gestures)
    → followed (gesture_step (tap n) s).effects ++ repeats (some n) gs
      ≡ followed s.effects ++ repeats s.double_tap_target (tap n ∷ gs)
unfolding gesture_step
tap-followed n gs s =
    ap (λ xs. xs ++ repeats (some n) gs) (on_node_tap-followed n s)
    ∙ if-append (is_target s.double_tap_target n) n (followed s.effects) (repeats (some n) gs)

-- An event that is neither a tap nor a timeout leaves the taps to come as they are.
other-followed :
    (g : Gesture) (gs : List Gesture) (s : Gestures)
    → IsOther g
    → followed (gesture_run gs (gesture_step g s)).effects
      ≡ followed (gesture_step g s).effects ++ repeats (gesture_step g s).double_tap_target gs
    → followed (gesture_run gs (gesture_step g s)).effects
      ≡ followed s.effects ++ repeats s.double_tap_target gs
other-followed g gs s h ih =
    let same = gesture_step-Same g s h in ih ∙ ap₂ (λ xs t. xs ++ repeats t gs) same.0 same.1

gesture_run-followed :
    (gs : List Gesture) (s : Gestures)
    → All IsNoTimeout gs
    → followed (gesture_run gs s).effects ≡ followed s.effects ++ repeats s.double_tap_target gs
unfolding gesture_run
gesture_run-followed [] s h = sym (append-nil _)
gesture_run-followed (tap_timeout n ∷ gs) s h = absurd h.0
gesture_run-followed (tap n ∷ gs) s h =
    gesture_run-followed gs (gesture_step (tap n) s) h.1 ∙ tap-followed n gs s
gesture_run-followed (visibility_change ∷ gs) s h =
    other-followed visibility_change gs s tt (gesture_run-followed gs _ h.1)
gesture_run-followed (container_click ctrl ∷ gs) s h =
    other-followed (container_click ctrl) gs s tt (gesture_run-followed gs _ h.1)
gesture_run-followed (key down k ∷ gs) s h =
    other-followed (key down k) gs s tt (gesture_run-followed gs _ h.1)
gesture_run-followed (edge_event topic e ∷ gs) s h =
    other-followed (edge_event topic e) gs s tt (gesture_run-followed gs _ h.1)
gesture_run-followed (edge_selected e ∷ gs) s h =
    other-followed (edge_selected e) gs s tt (gesture_run-followed gs _ h.1)
gesture_run-followed (node_selected n ∷ gs) s h =
    other-followed (node_selected n) gs s tt (gesture_run-followed gs _ h.1)
gesture_run-followed (node_unselected n ∷ gs) s h =
    other-followed (node_unselected n) gs s tt (gesture_run-followed gs _ h.1)
gesture_run-followed (node_hover over n ∷ gs) s h =
    other-followed (node_hover over n) gs s tt (gesture_run-followed gs _ h.1)

-- After any events a node that was tapped last is the target only while a timeout is set that ends
-- this. From then on, as long as no timeout runs, the graph follows exactly the taps on the node
-- that was tapped last before: the second tap on a node, and every further one.
pub gesture_run_lem :
    (box_selection : Bool) (gs more : List Gesture)
    → All IsNoTimeout more
    → let s = gesture_run gs (attached box_selection) in
      TapInv s
      × (followed (gesture_run more s).effects
          ≡ followed s.effects ++ repeats s.double_tap_target more)
gesture_run_lem box_selection gs more h =
    (gesture_run-TapInv gs (attached box_selection) tt, gesture_run-followed more _ h)
