-- ===== src/IcingaScripts/Defs.antt =====
-- What the scripts send (icinga/scripts/notify_icinga_host.js,
-- icinga/scripts/notify_icinga_service.js).
use netgraphz2_gpl.Common.{
  Bool, List, Option, String, [], if◌then◌else◌, ltb, none, some, ℕ, ◌+◌, ◌∷◌,
}
use netgraphz2_gpl.Common.Text.{codes}
use netgraphz2_gpl.Notifications.Body.{NotificationType, host, service}
use Prim.Native.String.{◌++◌ as join}

-- `process.env`; `none` is `undefined`.
abbrev pub Environment : Type 0
Environment = String → Option String

-- The value of a property of `notification`.
pub data Field : Type 0 where
  leaf : Option String → Field
  fields : List (String × Option String) → Field

-- `notification` of the script for hosts.
unfoldable pub host_notification : Environment → List (String × Field)
host_notification env =
    ("type", leaf (env "NOTIFICATIONTYPE"))
    ∷ ("alias", leaf (env "HOSTALIAS"))
    ∷ ("name", leaf (env "HOSTNAME"))
    ∷ ("address", leaf (env "HOSTADDRESS"))
    ∷ ("state", leaf (env "HOSTSTATE"))
    ∷ ("state_id", leaf (env "HOSTSTATEID"))
    ∷ ("state_type", leaf (env "HOSTSTATETYPE"))
    ∷ ("check_attempt", leaf (env "CHECKATTEMPT"))
    ∷ ("max_check_attempts", leaf (env "MAXCHECKATTEMPTS"))
    ∷ ("last_state", leaf (env "LASTSTATE"))
    ∷ ("last_state_id", leaf (env "LASTSTATEID"))
    ∷ ("last_state_type", leaf (env "LASTSTATETYPE"))
    ∷ ("last_state_change", leaf (env "LASTSTATECHANGE"))
    ∷ ("downtime_depth", leaf (env "DOWNTIMEDEPTH"))
    ∷ ("duration", leaf (env "DURATIONSEC"))
    ∷ ("latency", leaf (env "LATENCY"))
    ∷ ("execution_time", leaf (env "EXECUTIONTIME"))
    ∷ ("perfdata", leaf (env "PERFDATA"))
    ∷ ("last_check", leaf (env "LASTCHECK"))
    ∷ ("check_source", leaf (env "CHECKSOURCE"))
    ∷ ("num_services", leaf (env "NUMSERVICES"))
    ∷ ("num_services_ok", leaf (env "NUMSERVICESOK"))
    ∷ ("num_services_warning", leaf (env "NUMSERVICESWARNING"))
    ∷ ("num_services_unknown", leaf (env "NUMSERVICEUNKNOWN"))
    ∷ ("num_services_critical", leaf (env "NUMSERVICESCRITICAL"))
    ∷ ("date_long", leaf (env "LONGDATETIME"))
    ∷ ("output", leaf (env "HOSTOUTPUT"))
    ∷ ("author", leaf (env "NOTIFICATIONAUTHORNAME"))
    ∷ ("comment", leaf (env "NOTIFICATIONCOMMENT"))
    ∷ ("display_name", leaf (env "HOSTDISPLAYNAME"))
    ∷ ("user", fields (("email", env "USEREMAIL") ∷ ("name", env "USERNAME") ∷ []))
    ∷ []

-- `notification` of the script for services; of two properties of one name the later one counts.
unfoldable pub service_notification : Environment → List (String × Field)
service_notification env =
    ("type", leaf (env "NOTIFICATIONTYPE"))
    ∷ (
      "host",
      fields (
          ("alias", env "HOSTALIAS")
          ∷ ("name", env "HOSTNAME")
          ∷ ("address", env "HOSTADDRESS")
          ∷ []),
    )
    ∷ ("name", leaf (env "SERVICENAME"))
    ∷ ("state", leaf (env "SERVICESTATE"))
    ∷ ("date_long", leaf (env "LONGDATETIME"))
    ∷ ("author", leaf (env "NOTIFICATIONAUTHORNAME"))
    ∷ ("comment", leaf (env "NOTIFICATIONCOMMENT"))
    ∷ ("display_name", leaf (env "SERVICEDISPLAYNAME"))
    ∷ ("latency", leaf (env "SERVICELATENCY"))
    ∷ ("last_state", leaf (env "SERVICELASTSTATE"))
    ∷ ("state_type", leaf (env "SERVICESTATETYPE"))
    ∷ ("state_id", leaf (env "SERVICESTATEID"))
    ∷ ("execution_time", leaf (env "EXECUTIONTIME"))
    ∷ ("duration", leaf (env "DURATIONSEC"))
    ∷ ("last_check", leaf (env "LASTCHECK"))
    ∷ ("downtime_depth", leaf (env "DOWNTIMEDEPTH"))
    ∷ ("check_source", leaf (env "CHECKSOURCE"))
    ∷ ("last_state", leaf (env "LASTSTATE"))
    ∷ ("last_state_id", leaf (env "LASTSTATEID"))
    ∷ ("last_state_type", leaf (env "LASTSTATETYPE"))
    ∷ ("last_state_change", leaf (env "LASTSTATECHANGE"))
    ∷ ("output", leaf (env "SERVICEOUTPUT"))
    ∷ ("perfdata", leaf (env "PERFDATA"))
    ∷ ("user", fields (("email", env "USEREMAIL") ∷ ("name", env "USERNAME") ∷ []))
    ∷ ("check_attempt", leaf (env "CHECKATTEMPT"))
    ∷ ("max_check_attempts", leaf (env "MAXCHECKATTEMPTS"))
    ∷ ("check_command", leaf (env "CHECKCOMMAND"))
    ∷ []

unfoldable pub script_notification : NotificationType → Environment → List (String × Field)
unfolding host_notification service_notification
script_notification host env = host_notification env
script_notification service env = service_notification env

-- What `nconf` has under the scripts' keys.
pub record ScriptConfig : Type 0 where
  pub hostname : String
  pub port : String
  pub use_basic_auth : Bool
  pub username : String
  pub password : String

-- `client_options`, with what is written to the request.
pub record ClientRequest : Type 0 where
  pub hostname : String
  pub port : String
  pub path : String
  pub method : String
  pub content_length : ℕ
  pub auth : Option String
  pub written : String

-- `length` of a text, which counts the units of UTF-16.
unfoldable pub utf16_length : List ℕ → ℕ
utf16_length [] = 0
utf16_length (c ∷ cs) = (if ltb c 65536 then 1 else 2) + utf16_length cs

abbrev pub script_path : NotificationType → String
script_path host = "/api/icinga/notify_host"
script_path service = "/api/icinga/notify_service"

-- The request of a script; `stringify` is `JSON.stringify`.
unfoldable pub script_request :
    (List (String × Field) → String) → ScriptConfig → NotificationType → Environment → ClientRequest
unfolding script_notification utf16_length
script_request stringify config type env =
    let notification_str = stringify (script_notification type env) in
    record {
      hostname = config.hostname;
      port = config.port;
      path = script_path type;
      method = "POST";
      content_length = utf16_length (codes notification_str);
      auth =
          if config.use_basic_auth
          then some (join (join config.username ":") config.password)
          else none;
      written = notification_str;
    }
