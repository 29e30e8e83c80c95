-- ===== src/IcingaScripts/Tests.antt =====
-- The scripts on a run (icinga/scripts/notify_icinga_host.js).
use netgraphz2_gpl.Api.Defs.{Express, HttpRequest}
use netgraphz2_gpl.Api.Guarded.{Passes}
use netgraphz2_gpl.Authenticator.Defs.{Libraries}
use netgraphz2_gpl.Common.{
  List, Option, String, [], ap, arith, if◌then◌else◌, inr, none, refl, some, str_eq, true, ◌==◌,
  ◌∙◌, ◌∷◌, ◌≡◌, ◌≤◌,
}
use netgraphz2_gpl.Common.Text.{codes}
use netgraphz2_gpl.IcingaScripts.Defs.{
  ClientRequest, Environment, Field, ScriptConfig, host_notification, script_notification,
  script_request, utf16_length,
}
use netgraphz2_gpl.IcingaScripts.Delivery.{Documented, script_lem}
use netgraphz2_gpl.IcingaScripts.Lengths.{is_ascii, script_length_lem, utf8_length}
use netgraphz2_gpl.Notifications.Body.{Event, host}
use Prim.Native.String.{◌++◌ as join}
use Prim.Native.Char.{code}
use Prim.Native.String.append

-- What is left of a text behind its head.
strip : String → String → Option String
strip String.[] s = some s
strip (String.◌∷◌ c p) String.[] = none
strip (String.◌∷◌ c p) (String.◌∷◌ d s) = if code c == code d then strip p s else none

strip-join : (p s : String) → strip p (join p s) ≡ some s
unfolding strip
strip-join String.[] s = ap (strip "") (λ i. append.nil s i) ∙ refl
strip-join (String.◌∷◌ c p) s =
    ap (strip (String.◌∷◌ c p)) (λ i. append.cons c p s i) ∙ ground (arith, strip-join p s)

abbrev host_variables : Environment
host_variables name =
    if str_eq name "HOSTNAME"
    then some "core"
    else if str_eq name "HOSTSTATEID"
    then some "1"
    else some "0"

abbrev host_event : Event
host_event = record {
  name = "core";
  host_name = "";
  state_id = "1";
  last_state_id = "0";
  output = "0";
  user = record { name = "0"; email = "0" };
}

abbrev local_config : ScriptConfig
local_config = record {
  hostname = "localhost";
  port = "3434";
  use_basic_auth = true;
  username = "icinga";
  password = "secret";
}

abbrev prefix_express : Express
prefix_express = record {
  mount = strip;
  matches = str_eq;
  parse_body = λ body. inr (some host_event);
}

abbrev basic_only : Libraries
basic_only = record {
  parse = λ h. some (record { scheme = "Basic"; token = some h } ∷ []);
  decode = λ t. t;
  starts_with = str_eq;
}

abbrev empty_object : List (String × Field) → String
empty_object fs = "{}"

abbrev plain_auth : String → String
plain_auth a = a

abbrev sent_whole : ClientRequest → HttpRequest
sent_whole r = record { header = r.auth; method = r.method; path = r.path; body = r.written }

auth_header : (o : Option String) → o ≡ (elim o [ none ↦ none | some a ↦ some (plain_auth a) ])
auth_header none = refl
auth_header (some a) = refl

libraries-Documented :
    Documented prefix_express basic_only empty_object plain_auth sent_whole
      (script_notification host host_variables)
unfolding script_notification host_notification
libraries-Documented = record {
  mount_api = λ rest. strip-join "/api" (join "/" rest);
  mount_icinga = λ rest. strip-join "/icinga" (join "/" rest);
  same_host = refl;
  same_service = refl;
  matches_host = refl;
  parse_stringify = λ e h. ap inr h;
  parse_basic = λ a. (record { scheme = "Basic"; token = some a }, refl, refl, refl);
  arrives = λ r h.
      ap
        (λ (o : Option String). record {
          header = o;
          method = r.method;
          path = r.path;
          body = r.written;
        })
        (auth_header r.auth);
}

script_lem_example :
    Passes prefix_express basic_only true []
      (sent_whole (script_request empty_object local_config host host_variables))
      host
      (some host_event)
script_lem_example =
    script_lem prefix_express basic_only empty_object plain_auth sent_whole host host_variables
      libraries-Documented local_config host_event true [] refl refl refl

script_length_lem_example :
    let r = script_request empty_object local_config host host_variables in
    (r.content_length ≤ utf8_length (codes r.written))
    × (is_ascii (codes r.written) ≡ (utf8_length (codes r.written) == r.content_length))
script_length_lem_example = script_length_lem empty_object local_config host host_variables

-- With a letter that is not in ASCII one byte less is announced than is written.
short_length :
    let r = script_request (λ fs. "ü") local_config host host_variables in
    (r.content_length ≡ 1) × (utf8_length (codes r.written) ≡ 2)
unfolding script_request utf16_length
short_length = (refl, refl)
