-- ===== src/IcingaScripts/Lengths.antt =====
-- The length that the scripts announce, and the bytes that they write
-- (icinga/scripts/notify_icinga_host.js, icinga/scripts/notify_icinga_service.js).
use netgraphz2_gpl.Common.Text.{codes}
use netgraphz2_gpl.Notifications.Body.{NotificationType}
use netgraphz2_gpl.Common.{
  Bool, List, [], arith, if◌then◌else◌, ltb, refl, true, ℕ, ◌&&◌, ◌+◌, ◌==◌, ◌∷◌, ◌≡◌, ◌≤◌, String,
}
use netgraphz2_gpl.IcingaScripts.Defs.{
  utf16_length, Environment, Field, ScriptConfig, script_notification, script_request,
}

-- The bytes of a text in UTF-8, which is what a request writes.
abbrev pub utf8_length : List ℕ → ℕ
utf8_length [] = 0
utf8_length (c ∷ cs) =
    (if ltb c 128 then 1 else if ltb c 2048 then 2 else if ltb c 65536 then 3 else 4)
    + utf8_length cs

abbrev pub is_ascii : List ℕ → Bool
is_ascii [] = true
is_ascii (c ∷ cs) = ltb c 128 && is_ascii cs

utf16-utf8 : (cs : List ℕ) → utf16_length cs ≤ utf8_length cs
unfolding utf16_length
utf16-utf8 [] = omega arith
utf16-utf8 (c ∷ cs) = ground (arith, utf16-utf8 cs)

-- The length that is announced is that of the bytes exactly for a text in ASCII.
pub is_ascii_lem : (cs : List ℕ) → is_ascii cs ≡ (utf8_length cs == utf16_length cs)
unfolding utf16_length
is_ascii_lem [] = refl
is_ascii_lem (c ∷ cs) = ground (arith, is_ascii_lem cs, utf16-utf8 cs)

-- The scripts never announce more than they write; what they announce is the length of what they
-- write exactly if the text is in ASCII.
pub script_length_lem :
    (stringify : List (String × Field) → String) (config : ScriptConfig) (type : NotificationType)
    (env : Environment)
    → let r = script_request stringify config type env in
      (r.content_length ≤ utf8_length (codes r.written))
      × (is_ascii (codes r.written) ≡ (utf8_length (codes r.written) == r.content_length))
unfolding script_request
script_length_lem stringify config type env =
    let text = stringify (script_notification type env) in
    (utf16-utf8 (codes text), is_ascii_lem (codes text))
