-- ===== src/Notifications/State.antt =====
-- The variables of notifications/event_handler.js, the part of the configuration that it reads, and
-- the timers of the event loop.
use netgraphz2_gpl.Common.{ℕ, suc, Bool, String, List, [], Option, none, some}
use netgraphz2_gpl.Common.NumMap
use netgraphz2_gpl.Notifications.Body.{NotificationType, Event, Notification}

-- `config.getConfiguration().api`: `rate_limit` is `rateLimit.enabled`, `drop_overrate` is
-- `rateLimit.overrate == "drop"`, `aggregation` is `aggregation.enabled`.
pub record Config : Type 0 where
  pub rate_limit : Bool
  pub rate : ℕ
  pub rate_time : ℕ
  pub drop_overrate : Bool
  pub aggregation : Bool
  pub aggregation_time : ℕ
  pub broadcast_user : String

-- The three callbacks that are given to `setInterval`.
pub data Task : Type 0 where
  drop_counter : Task
  throttle : Task
  aggregate : String → Task

-- A running interval.
pub record Interval : Type 0 where
  pub task : Task
  pub period : ℕ

-- An entry of `_agg_event_topics`.
pub record AggEvents : Type 0 where
  pub events : List Event
  pub agg_state_id : String
  pub agg_last_state_id : String
  pub agg_user : String
  pub agg_user_email : String
  pub type : NotificationType
  pub timer : ℕ

-- `processed` is the log of the notifications that were handed to the database lookup, oldest
-- first. `timers` are the running intervals by their identifiers.
pub record State : Type 0 where
  pub ratelimit_timer : Option ℕ
  pub throttle_timer : Option ℕ
  pub req_curr : ℕ
  pub topics : List (String × AggEvents)
  pub queue : List Notification
  pub processed : List Notification
  pub timers : List (ℕ × Interval)
  pub next_timer : ℕ

-- The module's variables as they are declared.
abbrev pub start : State
start = record {
  ratelimit_timer = none;
  throttle_timer = none;
  req_curr = 0;
  topics = [];
  queue = [];
  processed = [];
  timers = [];
  next_timer = 0;
}

-- `setInterval`; the identifier is the old `next_timer`.
unfoldable pub set_interval : Task → ℕ → State → State
set_interval task period s = record s {
  timers = NumMap.insert s.next_timer (record { task = task; period = period }) s.timers;
  next_timer = suc s.next_timer;
}

-- `clearInterval`, which ignores `null`.
unfoldable pub clear_interval : Option ℕ → State → State
clear_interval none s = s
clear_interval (some id) s = record s { timers = NumMap.delete id s.timers }
