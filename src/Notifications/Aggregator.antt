-- ===== src/Notifications/Aggregator.antt =====
-- The aggregation of events by topic (notifications/event_handler.js).
use netgraphz2_gpl.Common.{
  ℕ, List, Option, Bool, true, false, not, String, [], ◌∷◌, ◌++◌, none, some, map, if◌then◌else◌,
}
use netgraphz2_gpl.Common.StrMap
use Prim.Native.String.{◌++◌ as join}
use netgraphz2_gpl.Notifications.Body.{
  NotificationType, host, service, Event, Body, plain, aggregated,
}
use netgraphz2_gpl.Notifications.State.{
  State, Config, AggEvents, aggregate, set_interval, clear_interval,
}
use netgraphz2_gpl.Notifications.Limiter.Defs.{submit}

abbrev pub type_text : NotificationType → String
type_text host = "host"
type_text service = "service"

-- `_get_aggregate_topic`.
unfoldable pub aggregate_topic : Event → NotificationType → String
aggregate_topic body type =
    join (join (join (type_text type) "/") (join (join body.state_id "/") body.last_state_id))
      (join "/" body.user.name)

-- The object of a topic's first event.
abbrev pub new_topic : Event → NotificationType → ℕ → AggEvents
new_topic body type timer = record {
  events = body ∷ [];
  agg_state_id = body.state_id;
  agg_last_state_id = body.last_state_id;
  agg_user = body.user.name;
  agg_user_email = body.user.email;
  type = type;
  timer = timer;
}

-- The two branches of `_aggregate_event`: the topic is known, or it gets an interval of its own.
unfoldable pub add_to_topic :
    Config → String → Event → NotificationType → State → Option AggEvents → State
unfolding set_interval
add_to_topic c topic body type s (some obj) = record s {
  topics = StrMap.insert topic (record obj { events = obj.events ++ body ∷ [] }) s.topics;
}
add_to_topic c topic body type s none =
    record (set_interval (aggregate topic) c.aggregation_time s) {
      topics = StrMap.insert topic (new_topic body type s.next_timer) s.topics;
    }

-- `_aggregate_event`; the result says whether the event went into aggregation.
unfoldable pub aggregate_event : Config → Event → NotificationType → State → Bool × State
aggregate_event c body type s =
    if not c.aggregation
    then (false, s)
    else let topic = aggregate_topic body type in
      (true, add_to_topic c topic body type s (StrMap.lookup topic s.topics))

-- `agg_body` for events of hosts and of services; both have `agg_type` 0.
unfoldable pub aggregate_body : AggEvents → Body
aggregate_body obj = elim obj.type [
  | host ↦ aggregated (record {
    agg_type = host;
    agg_state_id = obj.agg_state_id;
    agg_last_state_id = obj.agg_last_state_id;
    agg_user = obj.agg_user;
    agg_user_email = obj.agg_user_email;
    host_names = map (λ e. e.name) obj.events;
    service_names = none;
  })
  | service ↦ aggregated (record {
    agg_type = host;
    agg_state_id = obj.agg_state_id;
    agg_last_state_id = obj.agg_last_state_id;
    agg_user = obj.agg_user;
    agg_user_email = obj.agg_user_email;
    host_names = map (λ e. e.host_name) obj.events;
    service_names = some (map (λ e. e.name) obj.events);
  })
]

-- `agg_obj.events = []`.
abbrev pub empty_topic : String → AggEvents → State → State
empty_topic topic obj s = record s {
  topics = StrMap.insert topic (record obj { events = [] }) s.topics;
}

-- The three cases of `_agg_event_process`: `events` is `agg_obj.events`.
unfoldable pub process_events : Config → String → AggEvents → State → List Event → State
unfolding clear_interval
process_events c topic obj s [] = record (clear_interval (some obj.timer) s) {
  topics = StrMap.delete topic s.topics;
}
process_events c topic obj s (e ∷ []) =
    empty_topic topic obj (submit c (record { body = plain e; type = obj.type }) s)
process_events c topic obj s (e ∷ e' ∷ es) =
    empty_topic topic obj (submit c (record { body = aggregate_body obj; type = obj.type }) s)

-- `_agg_event_process`.
unfoldable pub agg_event_process : Config → String → AggEvents → State → State
agg_event_process c topic obj s = process_events c topic obj s obj.events
