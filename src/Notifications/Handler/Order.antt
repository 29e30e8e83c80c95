-- ===== src/Notifications/Handler/Order.antt =====
-- The order in which the event handler hands notifications on in queue mode, when aggregation is
-- off (notifications/event_handler.js).
use netgraphz2_gpl.Common.StrMap
use netgraphz2_gpl.Common.NumMap
use mathlib.Core.List.{append-nil, append_assoc}
use netgraphz2_gpl.Common.{
  List, Option-cases, [], ap, arith, false, inl, inr, refl, sym, ◌++◌, ◌∙◌, ◌∷◌, ◌≡◌,
}
use netgraphz2_gpl.Notifications.Aggregator.{aggregate_event}
use netgraphz2_gpl.Notifications.Body.{Notification, plain, Event, NotificationType}
use netgraphz2_gpl.Notifications.Handler.{
  Input, arrive, fire, handle_notification, init, run, run_task, step,
}
use netgraphz2_gpl.Notifications.Handler.Conservation.{submit-topics, throttle_callback-topics}
use netgraphz2_gpl.Notifications.Handler.Invariant.{
  HandlerInv, QueueMode, init-HandlerInv, step-HandlerInv,
}
use netgraphz2_gpl.Notifications.Limiter.Defs.{start_timer, timer_callback, submit}
use netgraphz2_gpl.Notifications.Limiter.Order.{
  pipeline, pipeline-submit, pipeline-throttle_callback,
}
use netgraphz2_gpl.Notifications.State.{
  Config, State, Task, aggregate, drop_counter, start, throttle,
}

-- The requests among the inputs, each as the notification that it brings.
abbrev pub requests : List Input → List Notification
requests [] = []
requests (arrive type e ∷ is) = record { body = plain e; type = type } ∷ requests is
requests (fire id ∷ is) = requests is

requests-cons : (i : Input) (is : List Input) → requests (i ∷ []) ++ requests is ≡ requests (i ∷ is)
requests-cons (arrive type e) is = refl
requests-cons (fire id) is = refl

init-empty : (c : Config) → (pipeline (init c start) ≡ []) × ((init c start).topics ≡ [])
unfolding init start_timer
init-empty c = ground arith

handle_notification-direct :
    (c : Config) (type : NotificationType) (e : Event) (s : State)
    → c.aggregation ≡ false
    → handle_notification c type e s ≡ submit c (record { body = plain e; type = type }) s
unfolding handle_notification aggregate_event
handle_notification-direct c type e s a = ground arith

module _ (c : Config) (q : QueueMode c) (a : c.aggregation ≡ false) where
  run_task-pipeline :
      (k : Task) (s : State)
      → s.topics ≡ []
      → (pipeline (run_task c k s) ≡ pipeline s) × ((run_task c k s).topics ≡ [])
  unfolding run_task timer_callback StrMap.lookup
  run_task-pipeline drop_counter s t = (refl, t)
  run_task-pipeline throttle s t =
      (pipeline-throttle_callback c s, throttle_callback-topics c s ∙ t)
  run_task-pipeline (aggregate topic) s t = rw (ap (StrMap.lookup topic) t, run_task) (refl, t)

  step-pipeline :
      (i : Input) (s : State)
      → HandlerInv c s
      → s.topics ≡ []
      → (pipeline (step c i s) ≡ pipeline s ++ requests (i ∷ [])) × ((step c i s).topics ≡ [])
  unfolding step
  step-pipeline (arrive type e) s v t =
      let n : Notification = record { body = plain e; type = type } in
      rw (handle_notification-direct c type e s a) (
        pipeline-submit c n s q.queues v.limiter (λ off. absurd (ground (arith, q.limits))),
        submit-topics c n s ∙ t,
      )
  step-pipeline (fire id) s v t = elim (Option-cases (NumMap.lookup id s.timers)) [
    | inl e ↦ rw (e, step) (sym (append-nil _), t)
    | inr (i, e) ↦
        let (p, t') = run_task-pipeline i.task s t in rw (e, step) (p ∙ sym (append-nil _), t')
  ]

  run-pipeline :
      (is : List Input) (s : State)
      → HandlerInv c s
      → s.topics ≡ []
      → pipeline (run c is s) ≡ pipeline s ++ requests is
  unfolding run
  run-pipeline [] s v t = sym (append-nil _)
  run-pipeline (i ∷ is) s v t =
      let (p, t') = step-pipeline i s v t in
      run-pipeline is (step c i s) (step-HandlerInv c q i s v) t'
      ∙ ap (λ xs. xs ++ requests is) p
      ∙ append_assoc (pipeline s) (requests (i ∷ [])) (requests is)
      ∙ ap (◌++◌ (pipeline s)) (requests-cons i is)

  -- From the start, in queue mode and with aggregation off, what was handed on followed by what
  -- waits in the queue is what was requested, in the order of the requests.
  pub run-order : (is : List Input) → pipeline (run c is (init c start)) ≡ requests is
  run-order is =
      let (p, t) = init-empty c in
      run-pipeline is (init c start) (init-HandlerInv c q) t ∙ ap (λ xs. xs ++ requests is) p
