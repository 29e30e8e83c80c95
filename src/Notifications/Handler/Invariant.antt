-- ===== src/Notifications/Handler/Invariant.antt =====
-- The invariant of the whole event handler in queue mode (notifications/event_handler.js).
use netgraphz2_gpl.Common.{
  if◌then◌else◌, not, ℕ, ◌≡◌, refl, true, false, List, [], ◌∷◌, none, some, Option, String, arith,
  Option-cases, inl, inr, if_cases, is_some-false, Bool,
}
use netgraphz2_gpl.Common.NumMap
use netgraphz2_gpl.Common.StrMap
use netgraphz2_gpl.Notifications.Body.{NotificationType, Event, plain, Notification}
use netgraphz2_gpl.Notifications.State.{
  State, Config, AggEvents, Task, drop_counter, throttle, aggregate, start,
}
use netgraphz2_gpl.Notifications.Limiter.Defs.{submit, timer_callback}
use netgraphz2_gpl.Notifications.Limiter.Invariant.{
  LimiterInv, start_timer-LimiterInv, submit-LimiterInv, throttle_callback-LimiterInv,
  timer_callback-LimiterInv,
}
use netgraphz2_gpl.Notifications.Aggregator.{
  aggregate_event, add_to_topic, process_events, agg_event_process, aggregate_topic,
}
use netgraphz2_gpl.Notifications.Handler.{
  Input, arrive, fire, handle_notification, init, run_task, step, run,
}
use netgraphz2_gpl.Notifications.Handler.Timers.{
  TimersMatch, start-TimersMatch, start_timer-TimersMatch, submit-TimersMatch,
  throttle_callback-TimersMatch, set_aggregate-Match, delete-Match,
}

-- Queue mode: rate limiting is on, and what is above the rate is queued.
pub record QueueMode (c : Config) : Type 0 where
  pub limits : c.rate_limit ≡ true
  pub queues : c.drop_overrate ≡ false

pub record HandlerInv (c : Config) (s : State) : Type 0 where
  pub limiter : LimiterInv c s
  pub timers_match : TimersMatch s

pub init-HandlerInv : (c : Config) → QueueMode c → HandlerInv c (init c start)
unfolding init
init-HandlerInv c q =
    if_cases (HandlerInv c) c.rate_limit
      (λ _. record {
        limiter = start_timer-LimiterInv c;
        timers_match = start_timer-TimersMatch c start refl start-TimersMatch;
      })
      (λ off. absurd (ground (arith, q.limits)))

module _ (c : Config) (q : QueueMode c) where
  pub submit-HandlerInv :
      (n : Notification) (s : State) → HandlerInv c s → HandlerInv c (submit c n s)
  submit-HandlerInv n s v = record {
    limiter = submit-LimiterInv c n s q.limits q.queues v.limiter;
    timers_match = submit-TimersMatch c n s v.timers_match;
  }

  add_to_topic-HandlerInv :
      (topic : String) (e : Event) (type : NotificationType) (s : State) (o : Option AggEvents)
      → HandlerInv c s
      → HandlerInv c (add_to_topic c topic e type s o)
  unfolding add_to_topic
  add_to_topic-HandlerInv topic e type s none v = record {
    limiter = record {
      one_timer = v.limiter.one_timer;
      idle = v.limiter.idle;
      busy = v.limiter.busy;
    };
    timers_match = set_aggregate-Match v.timers_match c.aggregation_time topic;
  }
  add_to_topic-HandlerInv topic e type s (some obj) v = record {
    limiter = record {
      one_timer = v.limiter.one_timer;
      idle = v.limiter.idle;
      busy = v.limiter.busy;
    };
    timers_match = v.timers_match;
  }

  set_topics :
      (m : List (String × AggEvents)) (s : State)
      → HandlerInv c s
      → HandlerInv c (record s { topics = m })
  set_topics m s v = record {
    limiter = record {
      one_timer = v.limiter.one_timer;
      idle = v.limiter.idle;
      busy = v.limiter.busy;
    };
    timers_match = v.timers_match;
  }

  process_events-HandlerInv :
      (topic : String) (obj : AggEvents) (s : State) (es : List Event)
      → HandlerInv c s
      → HandlerInv c (process_events c topic obj s es)
  unfolding process_events
  process_events-HandlerInv topic obj s [] v = record {
    limiter = record {
      one_timer = v.limiter.one_timer;
      idle = v.limiter.idle;
      busy = v.limiter.busy;
    };
    timers_match = delete-Match v.timers_match obj.timer;
  }
  process_events-HandlerInv topic obj s (e ∷ []) v = set_topics _ _ (submit-HandlerInv _ s v)
  process_events-HandlerInv topic obj s (e ∷ e' ∷ es) v = set_topics _ _ (submit-HandlerInv _ s v)

  -- The callback of a running interval keeps the invariant.
  pub run_task-HandlerInv :
      (id p : ℕ) (t : Task) (s : State)
      → NumMap.lookup id s.timers ≡ some (record { task = t; period = p })
      → HandlerInv c s
      → HandlerInv c (run_task c t s)
  unfolding run_task agg_event_process
  run_task-HandlerInv id p drop_counter s l v =
      let on = v.timers_match.counters id p l in
      record {
        limiter = timer_callback-LimiterInv c s (ground (arith, v.limiter.one_timer, on)) v.limiter;
        timers_match = unfold timer_callback in v.timers_match;
      }
  run_task-HandlerInv id p throttle s l v =
      let on = v.timers_match.throttles id p l in
      record {
        limiter = throttle_callback-LimiterInv c s (ground (arith, on)) v.limiter;
        timers_match =
            throttle_callback-TimersMatch c s
              (is_some-false s.ratelimit_timer (ground (arith, v.limiter.one_timer, on)))
              v.timers_match;
      }
  run_task-HandlerInv id p (aggregate topic) s l v =
      elim (Option-cases (StrMap.lookup topic s.topics)) [
        | inl e ↦ rw (e, run_task) v
        | inr (obj, e) ↦ rw (e, run_task) (process_events-HandlerInv topic obj s obj.events v)
      ]

  -- Every request and every run of a timer, also of one that was cleared, keeps the invariant.
  pub step-HandlerInv : (i : Input) (s : State) → HandlerInv c s → HandlerInv c (step c i s)
  unfolding step handle_notification aggregate_event
  step-HandlerInv (arrive type e) s v =
      let n : Notification = record { body = plain e; type = type } in
      let topic = aggregate_topic e type in
      if_cases {A = Bool × State} (λ r. HandlerInv c (if r.0 then r.1 else submit c n r.1))
        (not c.aggregation) (λ _. submit-HandlerInv n s v)
        (λ _. add_to_topic-HandlerInv topic e type s (StrMap.lookup topic s.topics) v)
  step-HandlerInv (fire id) s v = elim (Option-cases (NumMap.lookup id s.timers)) [
    | inl e ↦ rw (e, step) v
    | inr (i, e) ↦ rw (e, step) (run_task-HandlerInv id i.period i.task s e v)
  ]

  -- In queue mode every sequence of requests and interval runs keeps the invariant: exactly one of
  -- the two timers of the limiter is on; nothing is queued while the throttle timer is off, and
  -- while it is on the counter is at least `rate - 1` more than what is queued; an interval
  -- of one of the two tasks that runs is the one that its variable names, so none is left running.
  pub run-HandlerInv : (is : List Input) (s : State) → HandlerInv c s → HandlerInv c (run c is s)
  unfolding run
  run-HandlerInv [] s v = v
  run-HandlerInv (i ∷ is) s v = run-HandlerInv is (step c i s) (step-HandlerInv i s v)
