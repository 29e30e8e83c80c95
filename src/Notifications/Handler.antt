-- ===== src/Notifications/Handler.antt =====
-- The entry points of notifications/event_handler.js and the event loop that calls them.
pub mod Conservation
pub mod Timers
pub mod Owners
pub mod Topics
pub mod TopicRuns
pub mod Invariant
pub mod Order
use netgraphz2_gpl.Common.{ℕ, List, [], ◌∷◌, none, some, if◌then◌else◌}
use netgraphz2_gpl.Common.NumMap
use netgraphz2_gpl.Common.StrMap
use netgraphz2_gpl.Notifications.Body.{NotificationType, Event, plain}
use netgraphz2_gpl.Notifications.State.{State, Config, Task, drop_counter, throttle, aggregate}
use netgraphz2_gpl.Notifications.Limiter.Defs.{
  submit, start_timer, timer_callback, throttle_callback,
}
use netgraphz2_gpl.Notifications.Aggregator.{aggregate_event, agg_event_process}

-- `handle_host_notification` and `handle_service_notification`.
unfoldable pub handle_notification : Config → NotificationType → Event → State → State
handle_notification c type body s =
    let (passed, s') = aggregate_event c body type s in
    if passed then s' else submit c (record { body = plain body; type = type }) s'

-- `init`.
unfoldable pub init : Config → State → State
init c s = if c.rate_limit then start_timer c s else s

-- What the event loop delivers: a request, or a run of an interval that may be over.
pub data Input : Type 0 where
  arrive : NotificationType → Event → Input
  fire : ℕ → Input

unfoldable pub run_task : Config → Task → State → State
run_task c drop_counter s = timer_callback s
run_task c throttle s = throttle_callback c s
run_task c (aggregate topic) s = elim (StrMap.lookup topic s.topics) [
  | none ↦ s
  | some obj ↦ agg_event_process c topic obj s
]

unfoldable pub step : Config → Input → State → State
step c (arrive type body) s = handle_notification c type body s
step c (fire id) s = elim (NumMap.lookup id s.timers) [
  | none ↦ s
  | some interval ↦ run_task c interval.task s
]

unfoldable pub run : Config → List Input → State → State
run c [] s = s
run c (i ∷ is) s = run c is (step c i s)
