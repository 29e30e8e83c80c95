-- ===== src/Notifications/Tests.antt =====
-- The event handler's theorems on small runs (notifications/event_handler.js).
use netgraphz2_gpl.Common.StrMap
use netgraphz2_gpl.Common.NumMap
use netgraphz2_gpl.Notifications.Aggregator.{
  add_to_topic, agg_event_process, aggregate_event, aggregate_topic, new_topic,
}
use netgraphz2_gpl.Notifications.Handler.TopicRuns.{topic_timer_lem}
use netgraphz2_gpl.Notifications.Routes.{fired, fresh, happen_all, happen_all_lem, posted}
use netgraphz2_gpl.Notifications.Body.{Event, Notification, host, plain}
use netgraphz2_gpl.Notifications.Handler.{init, Input, arrive, fire, run, handle_notification, step}
use netgraphz2_gpl.Notifications.Handler.Conservation.{arrivals, run-total, total}
use netgraphz2_gpl.Notifications.Handler.Invariant.{
  HandlerInv, QueueMode, init-HandlerInv, run-HandlerInv,
}
use netgraphz2_gpl.Notifications.Handler.Order.{requests, run-order}
use netgraphz2_gpl.Notifications.Limiter.Defs.{enqueue, start_timer, submit}
use netgraphz2_gpl.Notifications.Limiter.Invariant.{LimiterInv}
use netgraphz2_gpl.Notifications.Limiter.Order.{pipeline, throttle_periods, throttle_periods_drain}
use netgraphz2_gpl.Notifications.Limiter.Rate.{submit_all, submit_all-rate}
use netgraphz2_gpl.Notifications.Response.{Database}
use netgraphz2_gpl.Notifications.State.{Config, State, start, aggregate, set_interval}
use netgraphz2_gpl.Common.{
  List, [], none, some, true, false, String, ℕ, refl, arith, ◌++◌, ◌≡◌, ◌+◌, ◌∷◌, ◌-◌, is_some,
  if◌then◌else◌, str_eq, take,
}

abbrev config : Config
config = record {
  rate_limit = true;
  rate = 3;
  rate_time = 1000;
  drop_overrate = false;
  aggregation = true;
  aggregation_time = 5000;
  broadcast_user = "broadcast";
}

-- As `config`, with aggregation off.
abbrev direct : Config
direct = record config { aggregation = false }

abbrev queue_mode : QueueMode config
queue_mode = record { limits = refl; queues = refl }

abbrev direct_queue_mode : QueueMode direct
direct_queue_mode = record { limits = refl; queues = refl }

abbrev event : String → Event
event name = record {
  name = name;
  host_name = "";
  state_id = "1";
  last_state_id = "0";
  output = "";
  user = record { name = "broadcast"; email = "" };
}

abbrev private_event : Event
private_event = record (event "a") { user = record { name = "admin"; email = "admin@host" } }

abbrev note : Event → Notification
note e = record { body = plain e; type = host }

-- Interval 0 resets the counter, 1 is the first topic's.
abbrev inputs : List Input
inputs =
    arrive host (event "a")
    ∷ arrive host (event "b")
    ∷ fire 1
    ∷ arrive host (event "c")
    ∷ fire 1
    ∷ fire 1
    ∷ []

-- The third and the fourth are over the rate; interval 1 is then the throttle's.
abbrev burst : List Input
burst =
    arrive host (event "a")
    ∷ arrive host (event "b")
    ∷ arrive host (event "c")
    ∷ arrive host (event "d")
    ∷ fire 1
    ∷ []

abbrev burst_notes : List Notification
burst_notes = note (event "a") ∷ note (event "b") ∷ note (event "c") ∷ note (event "d") ∷ []

abbrev started : State
started = init config start

abbrev throttled : State
throttled = submit_all config burst_notes started

abbrev database : Database ℕ
database = record {
  get_by_icinga_name = λ name. if str_eq name "a" then some (some 7) else some none;
  get_ids_by_icinga_names = λ names. some (7 ∷ []);
}

run-total_example : total (run config inputs start) ≡ total start + arrivals inputs
run-total_example = run-total config inputs start refl

run-order_example : pipeline (run direct burst (init direct start)) ≡ requests burst
run-order_example = run-order direct direct_queue_mode refl burst

run-HandlerInv_example : HandlerInv config (run config inputs (init config start))
run-HandlerInv_example =
    run-HandlerInv config queue_mode inputs (init config start) (init-HandlerInv config queue_mode)

throttled-LimiterInv : LimiterInv config throttled
unfolding submit_all submit enqueue init start_timer
throttled-LimiterInv = record { one_timer = refl; idle = λ e. cc; busy = λ e. omega arith }

throttle_periods_drain_example :
    let s' = throttle_periods config 1 throttled in
    (is_some s'.throttle_timer ≡ false)
    × (is_some s'.ratelimit_timer ≡ true)
    × (s'.processed ≡ throttled.processed ++ throttled.queue)
unfolding submit_all submit enqueue init start_timer
throttle_periods_drain_example =
    throttle_periods_drain config 1 throttled throttled-LimiterInv (omega arith) (omega arith)

submit_all-rate_example :
    (submit_all config burst_notes started).processed
    ≡ started.processed ++ take (config.rate - 1 - started.req_curr) burst_notes
submit_all-rate_example = submit_all-rate config burst_notes started refl

happen_all_lem_example :
    happen_all config (fired 0 ∷ posted host (some (event "a")) ∷ fired 0 ∷ []) fresh ≡ record {
      has_init = true;
      handler = run config (arrive host (event "a") ∷ fire 0 ∷ []) (init config start);
    }
happen_all_lem_example =
    happen_all_lem config (fired 0 ∷ posted host (some (event "a")) ∷ fired 0 ∷ [])

abbrev one_event : List Input
one_event = arrive host (event "a") ∷ []

topic_timer_lem_example :
    let s = run config one_event (init config start) in
    ((p : ℕ) × (NumMap.lookup 1 s.timers
        ≡ some (record { task = aggregate (aggregate_topic (event "a") host); period = p })))
    × (step config (fire 1) s
        ≡ agg_event_process config
            (aggregate_topic (event "a") host)
            (new_topic (event "a") host 1)
            s)
unfolding run step handle_notification aggregate_event add_to_topic init start_timer set_interval
    aggregate_topic StrMap.lookup StrMap.insert
topic_timer_lem_example =
    topic_timer_lem config queue_mode one_event (aggregate_topic (event "a") host)
      (new_topic (event "a") host 1) refl
