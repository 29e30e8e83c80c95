-- ===== src/IcingaScripts/Delivery.antt =====
-- What becomes of a script's request (icinga/scripts/notify_icinga_host.js,
-- icinga/scripts/notify_icinga_service.js, notifications/notifications_api.js).
use mathlib.Core.Path.{subst}
use netgraphz2_gpl.Api.Guarded.{Passes}
use netgraphz2_gpl.Api.Defs.{Express, HttpRequest, api_route, icinga_route}
use netgraphz2_gpl.Authenticator.Admission.{has_colon}
use netgraphz2_gpl.Authenticator.Defs.{AuthValue, Libraries, Token}
use netgraphz2_gpl.Common.Text.{codes}
use netgraphz2_gpl.IcingaScripts.Lengths.{utf8_length, is_ascii, is_ascii_lem}
use netgraphz2_gpl.Common.{
  List, Option, String, [], if◌then◌else◌, none, some, str_eq, ◌>>=◌, ◌∷◌, ◌≡◌, refl, arith, false,
  inr, true, ap, ◌∙◌, Bool, inl, sym,
}
use netgraphz2_gpl.IcingaScripts.Defs.{
  Environment, Field, fields, host_notification, leaf, script_notification, service_notification,
  ClientRequest, ScriptConfig, script_path, script_request,
}
use netgraphz2_gpl.Notifications.Body.{Event, NotificationType, host, service}
use Prim.Native.String.{◌++◌ as join}
use Prim.Native.String.append

-- A property of an object; of two with the name the later one counts.
abbrev pub property_of : String → List (String × Field) → Option Field
property_of key [] = none
property_of key ((name, field) ∷ rest) = elim (property_of key rest) [
  | some later ↦ some later
  | none ↦ if str_eq name key then some field else none
]

-- A property of an object that has each name once.
abbrev pub text_of : String → List (String × Option String) → Option String
text_of key [] = none
text_of key ((name, t) ∷ rest) =
    let later = text_of key rest in if str_eq name key then t else later

abbrev pub leaf_text : Option Field → Option String
leaf_text none = none
leaf_text (some (leaf t)) = t
leaf_text (some (fields fs)) = none

abbrev pub sub_text : String → Option Field → Option String
sub_text key none = none
sub_text key (some (leaf t)) = none
sub_text key (some (fields fs)) = text_of key fs

-- `body.host.name`, where there is a `body.host`.
abbrev pub host_name_of : Option Field → Option String
host_name_of none = some ""
host_name_of (some f) = sub_text "name" (some f)

-- What the server reads of a body.
abbrev pub event_of : List (String × Field) → Option Event
event_of fs = do
  name ← leaf_text (property_of "name" fs)
  host_name ← host_name_of (property_of "host" fs)
  state_id ← leaf_text (property_of "state_id" fs)
  last_state_id ← leaf_text (property_of "last_state_id" fs)
  output ← leaf_text (property_of "output" fs)
  user ← sub_text "name" (property_of "user" fs)
  email ← sub_text "email" (property_of "user" fs)
  some (record {
    name = name;
    host_name = host_name;
    state_id = state_id;
    last_state_id = last_state_id;
    output = output;
    user = record { name = user; email = email };
  })

-- The event that the variables of the environment describe.
abbrev pub described : NotificationType → Environment → Option Event
described host env = do
  name ← env "HOSTNAME"
  state_id ← env "HOSTSTATEID"
  last_state_id ← env "LASTSTATEID"
  output ← env "HOSTOUTPUT"
  user ← env "USERNAME"
  email ← env "USEREMAIL"
  some (record {
    name = name;
    host_name = "";
    state_id = state_id;
    last_state_id = last_state_id;
    output = output;
    user = record { name = user; email = email };
  })
described service env = do
  name ← env "SERVICENAME"
  host_name ← env "HOSTNAME"
  state_id ← env "SERVICESTATEID"
  last_state_id ← env "LASTSTATEID"
  output ← env "SERVICEOUTPUT"
  user ← env "USERNAME"
  email ← env "USEREMAIL"
  some (record {
    name = name;
    host_name = host_name;
    state_id = state_id;
    last_state_id = last_state_id;
    output = output;
    user = record { name = user; email = email };
  })

event_of_lem :
    (type : NotificationType) (env : Environment)
    → event_of (script_notification type env) ≡ described type env
unfolding script_notification host_notification service_notification
event_of_lem host env = refl
event_of_lem service env = refl

has_colon-append : (s t : String) → has_colon s ≡ true → has_colon (join s t) ≡ true
unfolding has_colon
has_colon-append String.[] t e = cc
has_colon-append (String.◌∷◌ c s) t e =
    ap has_colon (λ i. append.cons c s t i) ∙ ground (arith, e, has_colon-append s t)

has_colon-last : (u : String) → has_colon (join u ":") ≡ true
unfolding has_colon
has_colon-last String.[] = ap has_colon (λ i. append.nil ":" i) ∙ refl
has_colon-last (String.◌∷◌ c u) =
    ap has_colon (λ i. append.cons c u ":" i) ∙ ground (arith, has_colon-last u)

has_colon-credentials : (u p : String) → has_colon (join (join u ":") p) ≡ true
unfolding has_colon
has_colon-credentials u p = has_colon-append (join u ":") p (has_colon-last u)

-- What the scripts and the server rely on in their libraries: that Express takes the four paths of the
-- server, which have no pattern characters, as they are written, the two
-- directions of JSON, the header that `http.request` makes of `auth`, and that a request whose
-- `Content-Length` is the length of what is written arrives whole.
pub record Documented (express : Express) (lib : Libraries)
    (stringify : List (String × Field) → String) (basic : String → String)
    (transport : ClientRequest → HttpRequest) (fs : List (String × Field)) : Type 0 where
  pub mount_api :
      (rest : String) → express.mount "/api" (join "/api" (join "/" rest)) ≡ some (join "/" rest)
  pub mount_icinga :
      (rest : String)
      → express.mount "/icinga" (join "/icinga" (join "/" rest)) ≡ some (join "/" rest)
  pub same_host : express.matches "/notify_host" "/notify_host" ≡ true
  pub same_service : express.matches "/notify_service" "/notify_service" ≡ true
  pub matches_host : express.matches "/notify_host" "/notify_service" ≡ false
  pub parse_stringify :
      (e : Event) → event_of fs ≡ some e → express.parse_body (stringify fs) ≡ inr (some e)
  pub parse_basic :
      (auth : String)
      → (v : AuthValue) × (lib.parse (basic auth) ≡ some (v ∷ []))
        × (v.scheme ≡ "Basic")
        × (lib.decode v.token ≡ some auth)
  pub arrives :
      (r : ClientRequest)
      → utf8_length (codes r.written) ≡ r.content_length
      → transport r ≡ record {
        header = elim r.auth [ none ↦ none | some auth ↦ some (basic auth) ];
        method = r.method;
        path = r.path;
        body = r.written;
      }

module _ (express : Express) (lib : Libraries) (stringify : List (String × Field) → String)
    (basic : String → String) (transport : ClientRequest → HttpRequest) (type : NotificationType)
    (env : Environment)
    (documented : Documented express lib stringify basic transport
      (script_notification type env)) where
  mounted :
      (rest : String)
      → (express.mount "/api" (join "/api" (join "/" (join "icinga" (join "/" rest))))
          ≡ some (join "/" (join "icinga" (join "/" rest))))
        × (express.mount "/icinga" (join "/icinga" (join "/" rest)) ≡ some (join "/" rest))
  mounted rest =
      (documented.mount_api (join "icinga" (join "/" rest)), documented.mount_icinga rest)

  script_route :
      (wanted : NotificationType) (header : Option String) (body : String)
      → api_route express
          (record { header = header; method = "POST"; path = script_path wanted; body = body })
        ≡ some wanted
  unfolding api_route icinga_route
  script_route host header body =
      let (api, icinga) = mounted "notify_host" in rw (api, icinga, documented.same_host) refl
  script_route service header body =
      let (api, icinga) = mounted "notify_service" in
      rw (api, icinga, documented.matches_host, documented.same_service) refl

  -- Where the script's text is in ASCII and the script sends its credentials, whatever they are: its
  -- request passes the authenticator, whatever tokens are on file, and comes to the route of its
  -- type with the event that the variables of Icinga describe.
  pub script_lem :
      (config : ScriptConfig) (e : Event) (auth_enabled : Bool) (tokens : List Token)
      → described type env ≡ some e
      → config.use_basic_auth ≡ true
      → is_ascii (codes (stringify (script_notification type env))) ≡ true
      → Passes express lib auth_enabled tokens
          (transport (script_request stringify config type env))
          type
          (some e)
  unfolding script_request
  script_lem config e auth_enabled tokens h sends ascii =
      let text = stringify (script_notification type env) in
      let auth = join (join config.username ":") config.password in
      let q : HttpRequest = record {
        header = some (basic auth);
        method = "POST";
        path = script_path type;
        body = text;
      } in
      let whole : transport (script_request stringify config type env) ≡ q =
        documented.arrives (script_request stringify config type env)
          (ground (arith, is_ascii_lem (codes text)))
        ∙ rw sends refl in
      let (v, accepted, scheme, decoded) = documented.parse_basic auth in
      let credentials = has_colon-credentials config.username config.password in
      subst (λ (r : HttpRequest). Passes express lib auth_enabled tokens r type (some e))
        (sym whole)
        (
          inr (basic auth, v, [], refl, accepted, (auth, decoded, inl (scheme, credentials))),
          documented.parse_stringify e (event_of_lem type env ∙ h),
          script_route type (some (basic auth)) text,
        )
