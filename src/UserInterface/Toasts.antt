-- ===== src/UserInterface/Toasts.antt =====
-- The notices (web-phalcon/public/js/netgraphz/ui.notifications.js). `win` is declared nowhere, so
-- `isIE` is never set.
use netgraphz2_gpl.Communication.Defs.{Level, Effect, notice, update}
use netgraphz2_gpl.Common.{
  List, Bool, Option, String, [], false, if◌then◌else◌, none, some, true, ℕ, zero, suc, not, ◌&&◌,
  ◌++◌, ◌+◌, ◌∷◌, suc,
}

-- `notify.permissionLevel()`.
pub data Permission : Type 0 where
  permission_denied permission_default permission_granted permission_other : Permission

-- What a notice is handed to: `notify.createNotification`, with a title and a body, or `toastr`, with
-- its first argument, which it takes as the message, and its second, which it takes as the title.
-- Whether the desktop then shows it is up to the permission that the user has given.
pub data NoticeCall : Type 0 where
  create_notification toastr_call : String → String → NoticeCall

-- A notice that was sent, and the sound that is played, if any.
pub record SentNotice : Type 0 where
  pub level : Level
  pub call : NoticeCall
  pub sound : Option Level

-- `use_desktop`, whether the sounds are loaded, the requests for a permission that are not
-- answered, and what was sent.
pub record Toasts : Type 0 where
  pub use_desktop : Bool
  pub has_sounds : Bool
  pub requests : ℕ
  pub sent : List SentNotice

abbrev pub not_sent : Toasts
not_sent = record { use_desktop = false; has_sounds = false; requests = 0; sent = [] }

abbrev request_permission : Toasts → Toasts
request_permission s = record s { requests = s.requests + 1 }

-- The `switch(perm)`; the case of a denied permission has no `break`.
unfoldable pub by_permission : Permission → Toasts → Toasts
by_permission permission_denied s = request_permission (record s { use_desktop = false })
by_permission permission_default s = request_permission s
by_permission permission_granted s = record s { use_desktop = true }
by_permission permission_other s = record s { use_desktop = false }

-- `init`, by `settings.tryUseDesktop`, `notify.isSupported` and the permission.
unfoldable pub init_toasts : Bool → Bool → Permission → Toasts → Toasts
unfolding by_permission
init_toasts try_use_desktop is_supported permission s =
    let s' = record s { has_sounds = true } in
    if not try_use_desktop
    then s'
    else if is_supported
    then by_permission permission s'
    else record s' { use_desktop = false }

-- The callback of `requestPermission`: it tests a constant and not the answer.
unfoldable pub permission_answered : ℕ → Toasts → Toasts
permission_answered zero s = s
permission_answered (suc n) s = record s { use_desktop = true; requests = n }

-- `playSound`.
abbrev play_sound : Bool → Bool → Level → Option Level
play_sound muted has_sounds level = if not muted && has_sounds then some level else none

-- `sendError`, `sendSuccess`, `sendWarning` and `send`; `muted` is `ui.isSoundMuted()`.
unfoldable pub send_notice : Bool → Level → String → String → Toasts → Toasts
send_notice muted level title text s = record s {
  sent =
      s.sent
      ++ record {
        level = level;
        call = if s.use_desktop then create_notification title text else toastr_call title text;
        sound = play_sound muted s.has_sounds level;
      }
        ∷ [];
}

-- What happens: the set-up, an answer of the user to a request, and the effects of a message.
pub data ToastEvent : Type 0 where
  set_up : Bool → Bool → Permission → ToastEvent
  user_answered : ToastEvent
  message_handled : Bool → List Effect → ToastEvent

-- The notices among the effects of a message.
unfoldable pub send_notices : Bool → List Effect → Toasts → Toasts
unfolding send_notice
send_notices muted [] s = s
send_notices muted (update id problem ∷ es) s = send_notices muted es s
send_notices muted (notice level title text ∷ es) s =
    send_notices muted es (send_notice muted level title text s)

unfoldable pub toast_step : ToastEvent → Toasts → Toasts
unfolding init_toasts permission_answered send_notices
toast_step (set_up try_use_desktop is_supported permission) s =
    init_toasts try_use_desktop is_supported permission s
toast_step user_answered s = permission_answered s.requests s
toast_step (message_handled muted es) s = send_notices muted es s

unfoldable pub toast_run : List ToastEvent → Toasts → Toasts
unfolding toast_step
toast_run [] s = s
toast_run (e ∷ es) s = toast_run es (toast_step e s)
