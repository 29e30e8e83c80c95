-- ===== src/Notifications/Limiter/Invariant.antt =====
-- The invariant of the rate limiter in queue mode (notifications/event_handler.js).
use netgraphz2_gpl.Common.{
  ◌+◌, ◌≤◌, ◌≡◌, true, false, not, [], ◌∷◌, arith, length, length-append, length-drop, drop-eq-nil,
  is_some,
}
use netgraphz2_gpl.Notifications.Body.{Notification}
use netgraphz2_gpl.Notifications.State.{State, Config, start}
use netgraphz2_gpl.Notifications.Limiter.Defs.{
  throttle_callback, start_timer, timer_callback, submit, enqueue,
}
use netgraphz2_gpl.Notifications.Limiter.Rate.{throttle_loop_lem}

-- Either the throttle timer is off and nothing is queued, or it is on and the counter counts at
-- least what is queued and `rate - 1` more. Exactly one of the two timers runs.
pub record LimiterInv (c : Config) (s : State) : Type 0 where
  pub one_timer : is_some s.ratelimit_timer ≡ not (is_some s.throttle_timer)
  pub idle : is_some s.throttle_timer ≡ false → s.queue ≡ []
  pub busy : is_some s.throttle_timer ≡ true → c.rate + length s.queue ≤ s.req_curr + 1

pub start_timer-LimiterInv : (c : Config) → LimiterInv c (start_timer c start)
unfolding start_timer
start_timer-LimiterInv c = ground arith

pub submit-LimiterInv :
    (c : Config) (n : Notification) (s : State)
    → c.rate_limit ≡ true
    → c.drop_overrate ≡ false
    → LimiterInv c s
    → LimiterInv c (submit c n s)
unfolding submit enqueue
submit-LimiterInv c n s e d v = ground (arith, length-append s.queue (n ∷ []))

pub throttle_callback-LimiterInv :
    (c : Config) (s : State)
    → is_some s.throttle_timer ≡ true
    → LimiterInv c s
    → LimiterInv c (throttle_callback c s)
unfolding throttle_callback
throttle_callback-LimiterInv c s on v = ground (
  arith,
  throttle_loop_lem c 0 c.rate s.queue s,
  length-drop c.rate s.queue,
  drop-eq-nil c.rate s.queue,
)

pub timer_callback-LimiterInv :
    (c : Config) (s : State)
    → is_some s.throttle_timer ≡ false
    → LimiterInv c s
    → LimiterInv c (timer_callback s)
unfolding timer_callback
timer_callback-LimiterInv c s off v = ground arith
