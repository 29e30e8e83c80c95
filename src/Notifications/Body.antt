-- ===== src/Notifications/Body.antt =====
-- What Icinga reports and what the event handler passes on (notifications/event_handler.js).
use netgraphz2_gpl.Common.{String, List, Option}

-- `NOTIFICATION_HOST` and `NOTIFICATION_SERVICE`.
pub data NotificationType : Type 0 where
  host service : NotificationType

pub record User : Type 0 where
  pub name : String
  pub email : String

-- The body of a request: the variables of the Icinga script that the server reads. `host_name` is
-- `body.host.name`, which only a service notification has.
pub record Event : Type 0 where
  pub name : String
  pub host_name : String
  pub state_id : String
  pub last_state_id : String
  pub output : String
  pub user : User

-- `agg_body`.
pub record Aggregate : Type 0 where
  pub agg_type : NotificationType
  pub agg_state_id : String
  pub agg_last_state_id : String
  pub agg_user : String
  pub agg_user_email : String
  pub host_names : List String
  pub service_names : Option (List String)

-- Told apart by `isAggregated`.
pub data Body : Type 0 where
  plain : Event → Body
  aggregated : Aggregate → Body

-- An entry of the queue, and a call of `_process_host_notification` or
-- `_process_service_notification`.
pub record Notification : Type 0 where
  pub body : Body
  pub type : NotificationType
