-- ===== src/Notifications/Handler/TopicRuns.antt =====
-- In every run each topic is processed by its own interval (notifications/event_handler.js).
use netgraphz2_gpl.Common.NumMap
use netgraphz2_gpl.Common.StrMap
use netgraphz2_gpl.Common.StrMap.{at}
use netgraphz2_gpl.Notifications.Aggregator.{
  add_to_topic, agg_event_process, aggregate_event, aggregate_topic, empty_topic, new_topic,
  process_events,
}
use netgraphz2_gpl.Notifications.Body.{Event, Notification, NotificationType, plain}
use netgraphz2_gpl.Notifications.Handler.{
  init, Input, arrive, fire, handle_notification, run, run_task, step,
}
use netgraphz2_gpl.Notifications.Handler.Invariant.{
  HandlerInv, QueueMode, step-HandlerInv, init-HandlerInv,
}
use netgraphz2_gpl.Notifications.Handler.Owners.{Owners-eq, delete-Owners, set-Owners}
use netgraphz2_gpl.Notifications.Handler.Timers.{stop_throttle_timer-ratelimit_timer, interval}
use netgraphz2_gpl.Notifications.Handler.Topics.{
  TopicInv, own_delete, own_insert, own_kept, own_of, start_throttle_timer-TopicInv,
  start_timer-TopicInv, stop_throttle_timer-TopicInv, stop_timer-TopicInv, timer_of,
}
use netgraphz2_gpl.Notifications.Limiter.Cases.{submit_cases, throttle_callback_cases}
use netgraphz2_gpl.Notifications.Limiter.Defs.{
  enqueue, process, rate_limited, start_throttle_timer, stop_throttle_timer, stop_timer, submit,
  throttle_callback, timer_callback,
}
use netgraphz2_gpl.Notifications.Limiter.Rate.{drained}
use netgraphz2_gpl.Notifications.State.{
  AggEvents, Config, State, Task, aggregate, drop_counter, start, throttle, Interval,
}
use netgraphz2_gpl.Common.{
  List, Bool, Option, Option-cases, String, [], ap, arith, if_cases, if◌then◌else◌, inl, inr,
  is_some, is_some-false, none, not, refl, some, ℕ, ◌++◌, ◌∙◌, ◌∷◌, ◌≡◌,
}

enqueue-TopicInv :
    (c : Config) (n : Notification) (s : State) → TopicInv s → TopicInv (enqueue c n s)
unfolding enqueue
enqueue-TopicInv c n s v =
    let s₁ = record s { queue = s.queue ++ n ∷ [] } in
    let v₁ : TopicInv s₁ = record { owners = v.owners; unique = v.unique } in
    let s₂ = if is_some s₁.ratelimit_timer then stop_timer s₁ else s₁ in
    let w : TopicInv s₂ =
      if_cases TopicInv (is_some s₁.ratelimit_timer) (λ e. stop_timer-TopicInv s₁ v₁) (λ e. v₁) in
    if_cases TopicInv (is_some s₂.throttle_timer) (λ e. w)
      (λ e. start_throttle_timer-TopicInv c s₂ (is_some-false _ e) w)

submit-TopicInv : (c : Config) (n : Notification) (s : State) → TopicInv s → TopicInv (submit c n s)
unfolding process
submit-TopicInv c n s v =
    submit_cases TopicInv c n s (λ _. record { owners = v.owners; unique = v.unique })
      (λ _. record { owners = v.owners; unique = v.unique })
      (λ _. record { owners = v.owners; unique = v.unique })
      (λ _ _. enqueue-TopicInv c n _ (record { owners = v.owners; unique = v.unique }))

throttle_callback-TopicInv :
    (c : Config) (s : State)
    → s.ratelimit_timer ≡ none
    → TopicInv s
    → TopicInv (throttle_callback c s)
throttle_callback-TopicInv c s e v =
    let s' = record (drained c.rate s.queue s) { req_curr = 0 } in
    throttle_callback_cases TopicInv c s
      (start_timer-TopicInv c (stop_throttle_timer s') (stop_throttle_timer-ratelimit_timer s' ∙ e)
        (stop_throttle_timer-TopicInv s' (record { owners = v.owners; unique = v.unique })))
      (record { owners = v.owners; unique = v.unique })

submit-topics : (c : Config) (n : Notification) (s : State) → (submit c n s).topics ≡ s.topics
unfolding submit rate_limited enqueue process stop_timer start_throttle_timer
submit-topics c n s = ground arith

add_to_topic-TopicInv :
    (c : Config) (topic : String) (e : Event) (type : NotificationType) (s : State)
    (o : Option AggEvents)
    → StrMap.lookup topic s.topics ≡ o
    → TopicInv s
    → TopicInv (add_to_topic c topic e type s o)
unfolding add_to_topic
add_to_topic-TopicInv c topic e type s none at v = record {
  owners =
      set-Owners v.owners (aggregate topic) c.aggregation_time
        (unfold own_of timer_of in ap timer_of at)
        (own_insert s.ratelimit_timer s.throttle_timer s.topics topic
          (new_topic e type s.next_timer));
  unique = StrMap.insert-Unique topic _ s.topics v.unique;
}
add_to_topic-TopicInv c topic e type s (some obj) at v = record {
  owners =
      Owners-eq (λ k. own_kept s.ratelimit_timer s.throttle_timer s.topics topic obj _ k at refl)
        v.owners;
  unique = StrMap.insert-Unique topic _ s.topics v.unique;
}

-- The events of a topic are emptied, which keeps its interval.
empty_topic-TopicInv :
    (topic : String) (obj : AggEvents) (s : State)
    → StrMap.lookup topic s.topics ≡ some obj
    → TopicInv s
    → TopicInv (empty_topic topic obj s)
empty_topic-TopicInv topic obj s at v = record {
  owners =
      Owners-eq (λ k. own_kept s.ratelimit_timer s.throttle_timer s.topics topic obj _ k at refl)
        v.owners;
  unique = StrMap.insert-Unique topic _ s.topics v.unique;
}

process_events-TopicInv :
    (c : Config) (topic : String) (obj : AggEvents) (s : State) (es : List Event)
    → StrMap.lookup topic s.topics ≡ some obj
    → TopicInv s
    → TopicInv (process_events c topic obj s es)
unfolding process_events
process_events-TopicInv c topic obj s [] at v = record {
  owners =
      delete-Owners v.owners (aggregate topic) obj.timer (unfold own_of timer_of in ap timer_of at)
        (λ k. own_delete s.ratelimit_timer s.throttle_timer s.topics topic k v.unique);
  unique = StrMap.delete-Unique topic s.topics v.unique;
}
process_events-TopicInv c topic obj s (e ∷ []) at v =
    empty_topic-TopicInv topic obj _ (ap (StrMap.lookup topic) (submit-topics c _ s) ∙ at)
      (submit-TopicInv c _ s v)
process_events-TopicInv c topic obj s (e ∷ e' ∷ es) at v =
    empty_topic-TopicInv topic obj _ (ap (StrMap.lookup topic) (submit-topics c _ s) ∙ at)
      (submit-TopicInv c _ s v)

run_task-TopicInv :
    (c : Config) (id p : ℕ) (t : Task) (s : State)
    → NumMap.lookup id s.timers ≡ some (record { task = t; period = p })
    → HandlerInv c s
    → TopicInv s
    → TopicInv (run_task c t s)
unfolding run_task agg_event_process timer_callback
run_task-TopicInv c id p drop_counter s l w v = record { owners = v.owners; unique = v.unique }
run_task-TopicInv c id p throttle s l w v =
    let on = w.timers_match.throttles id p l in
    throttle_callback-TopicInv c s
      (is_some-false s.ratelimit_timer (ground (arith, w.limiter.one_timer, on))) v
run_task-TopicInv c id p (aggregate topic) s l w v =
    elim (Option-cases (StrMap.lookup topic s.topics)) [
      | inl e ↦ rw (e, run_task) v
      | inr (obj, e) ↦ rw (e, run_task) (process_events-TopicInv c topic obj s obj.events e v)
    ]

step-TopicInv :
    (c : Config) (i : Input) (s : State) → HandlerInv c s → TopicInv s → TopicInv (step c i s)
unfolding step handle_notification aggregate_event
step-TopicInv c (arrive type e) s w v =
    let n : Notification = record { body = plain e; type = type } in
    let topic = aggregate_topic e type in
    if_cases {A = Bool × State} (λ r. TopicInv (if r.0 then r.1 else submit c n r.1))
      (not c.aggregation) (λ _. submit-TopicInv c n s v)
      (λ _. add_to_topic-TopicInv c topic e type s (StrMap.lookup topic s.topics) refl v)
step-TopicInv c (fire id) s w v = elim (Option-cases (NumMap.lookup id s.timers)) [
  | inl e ↦ rw (e, step) v
  | inr (i, e) ↦ rw (e, step) (run_task-TopicInv c id i.period i.task s e w v)
]

run-TopicInv :
    (c : Config) (q : QueueMode c) (is : List Input) (s : State)
    → HandlerInv c s
    → TopicInv s
    → TopicInv (run c is s)
unfolding run
run-TopicInv c q [] s w v = v
run-TopicInv c q (i ∷ is) s w v =
    run-TopicInv c q is (step c i s) (step-HandlerInv c q i s w) (step-TopicInv c i s w v)

nothing_owned : (id : ℕ) (k : Task) → own_of none none [] k ≡ some id → ⊥
unfolding own_of timer_of StrMap.lookup
nothing_owned id drop_counter e = cc
nothing_owned id throttle e = cc
nothing_owned id (aggregate topic) e = cc

start-TopicInv : TopicInv start
unfolding NumMap.lookup
start-TopicInv = record {
  owners = record {
    free = λ id h. refl;
    owned = λ id p k e. cc;
    running = λ id k e. absurd (nothing_owned id k e);
  };
  unique = tt;
}

init-TopicInv : (c : Config) → TopicInv (init c start)
unfolding init
init-TopicInv c =
    if_cases TopicInv c.rate_limit (λ _. start_timer-TopicInv c start refl start-TopicInv)
      (λ _. start-TopicInv)

run_task-aggregate :
    (c : Config) (topic : String) (obj : AggEvents) (s : State)
    → StrMap.lookup topic s.topics ≡ some obj
    → run_task c (aggregate topic) s ≡ agg_event_process c topic obj s
unfolding run_task agg_event_process
run_task-aggregate c topic obj s e = rw (run_task, e) refl

step-fire :
    (c : Config) (id : ℕ) (i : Interval) (s : State)
    → NumMap.lookup id s.timers ≡ some i
    → step c (fire id) s ≡ run_task c i.task s
unfolding step
step-fire c id i s e = rw (step, e) refl

-- In queue mode, in the state after any sequence of requests and interval runs from the start, the
-- timer of every topic is an interval that runs for this topic, and when it is over
-- `_agg_event_process` is called for the topic and nothing else is: no topic waits for ever.
pub topic_timer_lem :
    (c : Config) (q : QueueMode c) (is : List Input) (topic : String) (obj : AggEvents)
    → StrMap.lookup topic (run c is (init c start)).topics ≡ some obj
    → let s = run c is (init c start) in
      ((p : ℕ) × (NumMap.lookup obj.timer s.timers
          ≡ some (record { task = aggregate topic; period = p })))
      × (step c (fire obj.timer) s ≡ agg_event_process c topic obj s)
unfolding own_of timer_of
topic_timer_lem c q is topic obj at =
    let s = run c is (init c start) in
    let v = run-TopicInv c q is (init c start) (init-HandlerInv c q) (init-TopicInv c) in
    let (p, running) = v.owners.running obj.timer (aggregate topic) (ap timer_of at) in
    (
      (p, running),
      step-fire c obj.timer (interval (aggregate topic) p) s running
          ∙ run_task-aggregate c topic obj s at,
    )
