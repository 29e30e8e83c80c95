-- ===== src/UserInterface/Notices.antt =====
-- What every notice is handed to (web-phalcon/public/js/netgraphz/ui.notifications.js).
use mathlib.Core.List.{append-nil, append_assoc}
use netgraphz2_gpl.Common.{
  Bool, List, String, [], ap, arith, false, if◌then◌else◌, ltb, map, none, refl, some, suc, sym,
  true, zero, ℕ, ◌++◌, ◌+◌, ◌-◌, ◌||◌, ◌∙◌, ◌∷◌, ◌≡◌,
}
use netgraphz2_gpl.Communication.Defs.{Effect, Level, notice, update}
use netgraphz2_gpl.UserInterface.Toasts.{
  Permission, SentNotice, ToastEvent, Toasts, by_permission, create_notification, init_toasts,
  message_handled, not_sent, permission_answered, permission_default, permission_denied,
  permission_granted, permission_other, send_notice, send_notices, set_up, toast_run, toast_step,
  toastr_call, user_answered,
}

-- A notice with its level, its title and its text.
abbrev pub Notice : Type 0
Notice = Level × String × String

abbrev pub notices : List Effect → List Notice
notices [] = []
notices (update id problem ∷ es) = notices es
notices (notice level title text ∷ es) = (level, title, text) ∷ notices es

-- The requests for a permission that are open after what happened, the last event first.
abbrev pub open_requests : List ToastEvent → ℕ
open_requests [] = 0
open_requests (message_handled m es ∷ h) = open_requests h
open_requests (user_answered ∷ h) = open_requests h - 1
open_requests (set_up true true permission_denied ∷ h) = open_requests h + 1
open_requests (set_up true true permission_default ∷ h) = open_requests h + 1
open_requests (set_up true true permission_granted ∷ h) = open_requests h
open_requests (set_up true true permission_other ∷ h) = open_requests h
open_requests (set_up true false p ∷ h) = open_requests h
open_requests (set_up false i p ∷ h) = open_requests h

-- Notices go to the desktop from a set-up with the permission granted, or from any answer to a
-- request, until a set-up that finds no support or the permission denied.
abbrev pub to_desktop : List ToastEvent → Bool
to_desktop [] = false
to_desktop (message_handled m es ∷ h) = to_desktop h
to_desktop (user_answered ∷ h) = ltb 0 (open_requests h) || to_desktop h
to_desktop (set_up true true permission_denied ∷ h) = false
to_desktop (set_up true true permission_default ∷ h) = to_desktop h
to_desktop (set_up true true permission_granted ∷ h) = true
to_desktop (set_up true true permission_other ∷ h) = false
to_desktop (set_up true false p ∷ h) = false
to_desktop (set_up false i p ∷ h) = to_desktop h

abbrev pub was_set_up : List ToastEvent → Bool
was_set_up [] = false
was_set_up (message_handled m es ∷ h) = was_set_up h
was_set_up (user_answered ∷ h) = was_set_up h
was_set_up (set_up t i p ∷ h) = true

-- The call for a notice after what happened, and its sound.
abbrev pub expected_notice : List ToastEvent → Bool → Notice → SentNotice
expected_notice h muted (level, title, text) = record {
  level = level;
  call = if to_desktop h then create_notification title text else toastr_call title text;
  sound = if muted then none else if was_set_up h then some level else none;
}

-- What is sent for the events that are to come, after what happened.
abbrev pub expected_notices : List ToastEvent → List ToastEvent → List SentNotice
expected_notices h [] = []
expected_notices h (set_up t i p ∷ es) = expected_notices (set_up t i p ∷ h) es
expected_notices h (user_answered ∷ es) = expected_notices (user_answered ∷ h) es
expected_notices h (message_handled muted effects ∷ es) =
    map (expected_notice h muted) (notices effects)
    ++ expected_notices (message_handled muted effects ∷ h) es

-- The variables of the module are as what happened says.
pub record Matches (h : List ToastEvent) (s : Toasts) : Type 0 where
  pub desktop : s.use_desktop ≡ to_desktop h
  pub requested : s.requests ≡ open_requests h
  pub sounds : s.has_sounds ≡ was_set_up h

init_toasts-Matches :
    (t i : Bool) (p : Permission) (h : List ToastEvent) (s : Toasts)
    → Matches h s
    → Matches (set_up t i p ∷ h) (init_toasts t i p s) × ((init_toasts t i p s).sent ≡ s.sent)
unfolding init_toasts by_permission
init_toasts-Matches false i p h s m =
    (record { desktop = m.desktop; requested = m.requested; sounds = refl }, refl)
init_toasts-Matches true false p h s m =
    (record { desktop = refl; requested = m.requested; sounds = refl }, refl)
init_toasts-Matches true true permission_denied h s m =
    (record { desktop = refl; requested = ap (λ n. n + 1) m.requested; sounds = refl }, refl)
init_toasts-Matches true true permission_default h s m =
    (record { desktop = m.desktop; requested = ap (λ n. n + 1) m.requested; sounds = refl }, refl)
init_toasts-Matches true true permission_granted h s m =
    (record { desktop = refl; requested = m.requested; sounds = refl }, refl)
init_toasts-Matches true true permission_other h s m =
    (record { desktop = refl; requested = m.requested; sounds = refl }, refl)

permission_answered-Matches :
    (n : ℕ) (h : List ToastEvent) (s : Toasts)
    → s.requests ≡ n
    → Matches h s
    → Matches (user_answered ∷ h) (permission_answered n s)
      × ((permission_answered n s).sent ≡ s.sent)
unfolding permission_answered
permission_answered-Matches zero h s e m =
    let none_open : open_requests h ≡ 0 = sym m.requested ∙ e in
    (
      record {
        desktop = ground (arith, m.desktop, none_open);
        requested = omega (arith, e, none_open);
        sounds = m.sounds;
      },
      refl,
    )
permission_answered-Matches (suc n) h s e m =
    let some_open : open_requests h ≡ suc n = sym m.requested ∙ e in
    (
      record {
        desktop = ground (arith, some_open);
        requested = omega (arith, some_open);
        sounds = m.sounds;
      },
      refl,
    )

send_notice-expected :
    (muted : Bool) (level : Level) (title text : String) (h : List ToastEvent) (s : Toasts)
    → Matches h s
    → Matches h (send_notice muted level title text s)
      × ((send_notice muted level title text s).sent
          ≡ s.sent ++ expected_notice h muted (level, title, text) ∷ [])
unfolding send_notice
send_notice-expected true level title text h s m = (
  record { desktop = m.desktop; requested = m.requested; sounds = m.sounds },
  λ i.
      s.sent
      ++ record {
        level = level;
        call = if m.desktop i then create_notification title text else toastr_call title text;
        sound = none;
      }
        ∷ [],
)
send_notice-expected false level title text h s m = (
  record { desktop = m.desktop; requested = m.requested; sounds = m.sounds },
  λ i.
      s.sent
      ++ record {
        level = level;
        call = if m.desktop i then create_notification title text else toastr_call title text;
        sound = if m.sounds i then some level else none;
      }
        ∷ [],
)

send_notices-expected :
    (muted : Bool) (es : List Effect) (h : List ToastEvent) (s : Toasts)
    → Matches h s
    → Matches h (send_notices muted es s)
      × ((send_notices muted es s).sent ≡ s.sent ++ map (expected_notice h muted) (notices es))
unfolding send_notices
send_notices-expected muted [] h s m = (m, sym (append-nil s.sent))
send_notices-expected muted (update id problem ∷ es) h s m = send_notices-expected muted es h s m
send_notices-expected muted (notice level title text ∷ es) h s m =
    let (m₁, one) = send_notice-expected muted level title text h s m in
    let (m₂, more) = send_notices-expected muted es h (send_notice muted level title text s) m₁ in
    (
      m₂,
      more
          ∙ ap (λ l. l ++ map (expected_notice h muted) (notices es)) one
          ∙ append_assoc s.sent (expected_notice h muted (level, title, text) ∷ []) _,
    )

run_from-expected :
    (h es : List ToastEvent) (s : Toasts)
    → Matches h s
    → (toast_run es s).sent ≡ s.sent ++ expected_notices h es
unfolding toast_run toast_step
run_from-expected h [] s m = sym (append-nil s.sent)
run_from-expected h (set_up t i p ∷ es) s m =
    let (m', same) = init_toasts-Matches t i p h s m in
    run_from-expected (set_up t i p ∷ h) es (init_toasts t i p s) m'
    ∙ ap (λ l. l ++ expected_notices (set_up t i p ∷ h) es) same
run_from-expected h (user_answered ∷ es) s m =
    let (m', same) = permission_answered-Matches s.requests h s refl m in
    run_from-expected (user_answered ∷ h) es (permission_answered s.requests s) m'
    ∙ ap (λ l. l ++ expected_notices (user_answered ∷ h) es) same
run_from-expected h (message_handled muted effects ∷ es) s m =
    let (m', sent) = send_notices-expected muted effects h s m in
    let m'' : Matches (message_handled muted effects ∷ h) (send_notices muted effects s) = record {
      desktop = m'.desktop;
      requested = m'.requested;
      sounds = m'.sounds;
    } in
    run_from-expected (message_handled muted effects ∷ h) es (send_notices muted effects s) m''
    ∙ ap (λ l. l ++ expected_notices (message_handled muted effects ∷ h) es) sent
    ∙ append_assoc s.sent (map (expected_notice h muted) (notices effects)) _

-- Whenever the module is set up, the user answers and messages are handled, each notice of a message
-- is handed on once and in order, with its level. It goes to the desktop, with its title and text,
-- from a set-up that tries the desktop and finds the permission granted, or from the user's answer to
-- an open request, whatever the answer, until such a set-up finds no support, the permission denied
-- or an unknown one; else it goes to `toastr`, with the title as the message and the text as the
-- title. Its sound is played if the sounds are not muted and the module was set up before.
pub toast_run_lem : (es : List ToastEvent) → (toast_run es not_sent).sent ≡ expected_notices [] es
toast_run_lem es =
    run_from-expected [] es not_sent (record { desktop = refl; requested = refl; sounds = refl })
