-- ===== src/Notifications/Handler/Conservation.antt =====
-- No event is lost or doubled by aggregation and rate limiting (notifications/event_handler.js).
use netgraphz2_gpl.Common.{
  ℕ, suc, ◌+◌, ◌≡◌, refl, false, List, [], ◌∷◌, ◌++◌, none, some, arith, length, length-map,
  length-append, String, Option, Bool-cases, Option-cases, inl, inr,
}
use netgraphz2_gpl.Common.StrMap
use netgraphz2_gpl.Notifications.Body.{NotificationType, Event, plain, aggregated, Notification}
use netgraphz2_gpl.Notifications.State.{
  State, Task, Config, AggEvents, drop_counter, throttle, aggregate,
}
use netgraphz2_gpl.Notifications.Limiter.Defs.{submit, enqueue, timer_callback, throttle_callback}
use netgraphz2_gpl.Notifications.Limiter.Order.{pipeline, pipeline-throttle_callback}
use netgraphz2_gpl.Notifications.Limiter.Rate.{throttle_loop_lem}
use netgraphz2_gpl.Notifications.Aggregator.{
  add_to_topic, new_topic, process_events, aggregate_event, aggregate_body, agg_event_process,
  aggregate_topic,
}
use netgraphz2_gpl.Notifications.Handler.{
  Input, arrive, fire, handle_notification, run_task, step, run,
}
use netgraphz2_gpl.Common.NumMap

-- How many events a notification stands for.
abbrev pub weight : Notification → ℕ
weight n = elim n.body [ plain e ↦ 1 | aggregated a ↦ length a.host_names ]

abbrev pub total_weight : List Notification → ℕ
total_weight [] = 0
total_weight (n ∷ ns) = weight n + total_weight ns

abbrev pub pending : AggEvents → ℕ
pending obj = length obj.events

-- The events that wait for aggregation, that are handed on and that are queued.
abbrev pub total : State → ℕ
total s = StrMap.sum_by pending s.topics + total_weight (pipeline s)

abbrev pub arrivals : List Input → ℕ
arrivals [] = 0
arrivals (arrive type e ∷ is) = suc (arrivals is)
arrivals (fire id ∷ is) = arrivals is

total_weight-append :
    (xs ys : List Notification) → total_weight (xs ++ ys) ≡ total_weight xs + total_weight ys
total_weight-append [] ys = omega arith
total_weight-append (x ∷ xs) ys = omega (arith, total_weight-append xs ys)

submit-total_weight :
    (c : Config) (n : Notification) (s : State)
    → c.drop_overrate ≡ false
    → total_weight (pipeline (submit c n s)) ≡ total_weight (pipeline s) + weight n
unfolding submit enqueue
submit-total_weight c n s d = ground (
  arith,
  total_weight-append s.processed s.queue,
  total_weight-append (s.processed ++ n ∷ []) s.queue,
  total_weight-append s.processed (n ∷ []),
  total_weight-append s.processed (s.queue ++ n ∷ []),
  total_weight-append s.queue (n ∷ []),
)

pub submit-topics : (c : Config) (n : Notification) (s : State) → (submit c n s).topics ≡ s.topics
unfolding submit enqueue
submit-topics c n s = ground arith

pub throttle_callback-topics : (c : Config) (s : State) → (throttle_callback c s).topics ≡ s.topics
unfolding throttle_callback
throttle_callback-topics c s = ground (arith, throttle_loop_lem c 0 c.rate s.queue s)

weight-aggregate_body :
    (obj : AggEvents)
    → weight (record { body = aggregate_body obj; type = obj.type }) ≡ length obj.events
unfolding aggregate_body
weight-aggregate_body obj = ground (
  arith,
  length-map (λ (e : Event). e.name) obj.events,
  length-map (λ (e : Event). e.host_name) obj.events,
)

add_to_topic-total :
    (c : Config) (topic : String) (e : Event) (type : NotificationType) (s : State)
    (o : Option AggEvents)
    → StrMap.lookup topic s.topics ≡ o
    → total (add_to_topic c topic e type s o) ≡ suc (total s)
unfolding add_to_topic
add_to_topic-total c topic e type s none l =
    ground (arith, l, StrMap.sum_by-insert pending topic (new_topic e type s.next_timer) s.topics)
add_to_topic-total c topic e type s (some obj) l =
    let obj' = record obj { events = obj.events ++ e ∷ [] } in
    ground (
      arith,
      l,
      StrMap.sum_by-insert pending topic obj' s.topics,
      length-append obj.events (e ∷ []),
    )

process_events-total :
    (c : Config) (topic : String) (obj : AggEvents) (s : State) (es : List Event)
    → c.drop_overrate ≡ false
    → StrMap.lookup topic s.topics ≡ some obj
    → obj.events ≡ es
    → total (process_events c topic obj s es) ≡ total s
unfolding process_events
process_events-total c topic obj s [] d l e =
    ground (arith, l, StrMap.sum_by-delete pending topic s.topics)
process_events-total c topic obj s (x ∷ []) d l e =
    let n : Notification = record { body = plain x; type = obj.type } in
    ground (
      arith,
      l,
      submit-topics c n s,
      submit-total_weight c n s d,
      StrMap.sum_by-insert pending topic (record obj { events = [] }) s.topics,
    )
process_events-total c topic obj s (x ∷ y ∷ es) d l e =
    let n : Notification = record { body = aggregate_body obj; type = obj.type } in
    ground (
      arith,
      l,
      submit-topics c n s,
      submit-total_weight c n s d,
      weight-aggregate_body obj,
      StrMap.sum_by-insert pending topic (record obj { events = [] }) s.topics,
    )

run_task-total :
    (c : Config) (t : Task) (s : State) → c.drop_overrate ≡ false → total (run_task c t s) ≡ total s
unfolding run_task timer_callback agg_event_process
run_task-total c drop_counter s d = refl
run_task-total c throttle s d = cc (throttle_callback-topics c s, pipeline-throttle_callback c s)
run_task-total c (aggregate topic) s d = elim (Option-cases (StrMap.lookup topic s.topics)) [
  | inl e ↦ rw (e, run_task) refl
  | inr (obj, e) ↦
      rw (e, run_task, agg_event_process) (process_events-total c topic obj s obj.events d e refl)
]

handle_notification-total :
    (c : Config) (type : NotificationType) (e : Event) (s : State)
    → c.drop_overrate ≡ false
    → total (handle_notification c type e s) ≡ suc (total s)
unfolding handle_notification aggregate_event
handle_notification-total c type e s d =
    let topic = aggregate_topic e type in
    let n : Notification = record { body = plain e; type = type } in
    elim (Bool-cases c.aggregation) [
      | inl on ↦
          ground (arith, add_to_topic-total c topic e type s (StrMap.lookup topic s.topics) refl)
      | inr off ↦ ground (arith, submit-topics c n s, submit-total_weight c n s d)
    ]

step-total :
    (c : Config) (i : Input) (s : State)
    → c.drop_overrate ≡ false
    → total (step c i s) ≡ total s + arrivals (i ∷ [])
unfolding step
step-total c (arrive type e) s d = omega (arith, handle_notification-total c type e s d)
step-total c (fire id) s d = elim (Option-cases (NumMap.lookup id s.timers)) [
  | inl e ↦ rw (e, step) (omega arith)
  | inr (interval, e) ↦ rw (e, step) (omega (arith, run_task-total c interval.task s d))
]

arrivals-cons : (i : Input) (is : List Input) → arrivals (i ∷ is) ≡ arrivals (i ∷ []) + arrivals is
arrivals-cons (arrive type e) is = omega arith
arrivals-cons (fire id) is = omega arith

-- Whatever the requests and the runs of timers, while `overrate` is not "drop": the events that
-- wait in a topic, those in the queue and those handed on add up to the events that were there
-- before and those that arrived. An aggregated notification counts as the events that it names.
pub run-total :
    (c : Config) (is : List Input) (s : State)
    → c.drop_overrate ≡ false
    → total (run c is s) ≡ total s + arrivals is
unfolding run
run-total c [] s d = omega arith
run-total c (i ∷ is) s d =
    omega (arith, run-total c is (step c i s) d, step-total c i s d, arrivals-cons i is)
