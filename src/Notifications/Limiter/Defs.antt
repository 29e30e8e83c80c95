-- ===== src/Notifications/Limiter/Defs.antt =====
-- The rate limiter's functions (notifications/event_handler.js).
use netgraphz2_gpl.Common.{
  ℕ, ◌+◌, ◌-◌, Bool, true, false, not, List, [], ◌∷◌, ◌++◌, none, some, ltb, leb, is_some,
  if◌then◌else◌,
}
use netgraphz2_gpl.Notifications.Body.{Notification}
use netgraphz2_gpl.Notifications.State.{
  State, Config, drop_counter, throttle, set_interval, clear_interval,
}

-- `_process_host_notification` and `_process_service_notification`, up to the database request.
unfoldable pub process : Notification → State → State
process n s = record s { processed = s.processed ++ n ∷ [] }

unfoldable pub start_throttle_timer : Config → State → State
unfolding set_interval
start_throttle_timer c s = record (set_interval throttle c.rate_time s) {
  throttle_timer = some s.next_timer;
}

unfoldable pub stop_throttle_timer : State → State
unfolding clear_interval
stop_throttle_timer s = record (clear_interval s.throttle_timer s) { throttle_timer = none }

unfoldable pub start_timer : Config → State → State
unfolding set_interval
start_timer c s = record (set_interval drop_counter c.rate_time s) {
  ratelimit_timer = some s.next_timer;
}

unfoldable pub stop_timer : State → State
unfolding clear_interval
stop_timer s = record (clear_interval s.ratelimit_timer s) { ratelimit_timer = none }

-- `_ratelimit_timer_callback`.
unfoldable pub timer_callback : State → State
timer_callback s = record s { req_curr = 0 }

-- The `while` of `_ratelimit_throttle_timer_callback`: `queue` is the queue of `s`. It returns
-- `nProc`. The counter is at least the queue's length wherever this runs, so `-` does not stop at
-- 0.
unfoldable pub throttle_loop : Config → ℕ → List Notification → State → ℕ × State
unfolding process
throttle_loop c n_proc [] s = (n_proc, s)
throttle_loop c n_proc (x ∷ rest) s =
    if ltb n_proc c.rate
    then throttle_loop c (n_proc + 1) rest
        (record (process x (record s { queue = rest })) { req_curr = s.req_curr - 1 })
    else (n_proc, s)

-- `_ratelimit_throttle_timer_callback`.
unfoldable pub throttle_callback : Config → State → State
unfolding start_timer stop_throttle_timer
throttle_callback c s =
    let (n_proc, s') = throttle_loop c 0 s.queue s in
    if ltb n_proc c.rate
    then start_timer c (stop_throttle_timer (record s' { req_curr = 0 }))
    else s'

-- The end of `_notification_rate_limited`, where the event is put in the queue.
unfoldable pub enqueue : Config → Notification → State → State
unfolding start_throttle_timer stop_timer
enqueue c n s =
    let s₁ = record s { queue = s.queue ++ n ∷ [] } in
    let s₂ = if is_some s₁.ratelimit_timer then stop_timer s₁ else s₁ in
    if is_some s₂.throttle_timer then s₂ else start_throttle_timer c s₂

-- `_notification_rate_limited`.
unfoldable pub rate_limited : Config → Notification → State → Bool × State
rate_limited c n s =
    if not c.rate_limit
    then (false, s)
    else let s' = record s { req_curr = s.req_curr + 1 } in
      if leb c.rate s'.req_curr
      then (true, if c.drop_overrate then s' else enqueue c n s')
      else (false, s')

-- `if(!_notification_rate_limited(…)) _process_…_notification(…)`.
unfoldable pub submit : Config → Notification → State → State
unfolding rate_limited process
submit c n s = let (limited, s') = rate_limited c n s in if limited then s' else process n s'
