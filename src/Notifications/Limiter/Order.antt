-- ===== src/Notifications/Limiter/Order.antt =====
-- The rate limiter in queue mode hands notifications on in the order of their arrival
-- (notifications/event_handler.js).
use mathlib.Core.List.{append-nil, append_assoc}
use netgraphz2_gpl.Common.{
  ℕ, zero, suc, ◌-◌, ◌*◌, ◌<◌, ◌≡◌, refl, true, false, List, [], ◌∷◌, ◌++◌, arith, length,
  length-drop, drop-eq-nil, take, drop, take-append-drop, is_some, Bool-cases, inl, inr,
  if◌then◌else◌, ltb, ltb→lt, ◌∙◌,
}
use netgraphz2_gpl.Notifications.Body.{Notification}
use netgraphz2_gpl.Notifications.State.{State, Config}
use netgraphz2_gpl.Notifications.Limiter.Defs.{throttle_callback, submit, enqueue}
use netgraphz2_gpl.Notifications.Limiter.Rate.{throttle_loop_lem, throttle_callback_batch}
use netgraphz2_gpl.Notifications.Limiter.Invariant.{LimiterInv, throttle_callback-LimiterInv}

-- What was handed on, followed by what waits.
abbrev pub pipeline : State → List Notification
pipeline s = s.processed ++ s.queue

-- A notification goes to the end of the pipeline, whether it waits or not.
pub pipeline-submit :
    (c : Config) (n : Notification) (s : State)
    → c.drop_overrate ≡ false
    → LimiterInv c s
    → (c.rate_limit ≡ false → s.queue ≡ [])
    → pipeline (submit c n s) ≡ pipeline s ++ n ∷ []
unfolding submit enqueue
pipeline-submit c n s d v off = ground (
  arith,
  append-nil s.processed,
  append-nil (s.processed ++ n ∷ []),
  append_assoc s.processed s.queue (n ∷ []),
)

pub pipeline-throttle_callback :
    (c : Config) (s : State) → pipeline (throttle_callback c s) ≡ pipeline s
pipeline-throttle_callback c s = ground (
  arith,
  throttle_callback_batch c s,
  append_assoc s.processed (take c.rate s.queue) (drop c.rate s.queue),
  take-append-drop c.rate s.queue,
)

-- `k` periods of the throttle timer, which runs while it is on.
unfoldable pub throttle_periods : Config → ℕ → State → State
throttle_periods c zero s = s
throttle_periods c (suc k) s =
    throttle_periods c k (if is_some s.throttle_timer then throttle_callback c s else s)

-- A run that finds less than `rate` notifications empties the queue and stops the throttle timer.
throttle_callback_last :
    (c : Config) (s : State)
    → length s.queue < c.rate
    → let s' = throttle_callback c s in
      (is_some s'.throttle_timer ≡ false)
      × (is_some s'.ratelimit_timer ≡ true)
      × (s'.processed ≡ s.processed ++ s.queue)
unfolding throttle_callback
throttle_callback_last c s h = ground (
  arith,
  throttle_loop_lem c 0 c.rate s.queue s,
  drop-eq-nil c.rate s.queue,
  take-append-drop c.rate s.queue,
  append-nil (take c.rate s.queue),
)

length-throttle_callback :
    (c : Config) (s : State) → length (throttle_callback c s).queue ≡ length s.queue - c.rate
length-throttle_callback c s =
    ground (arith, throttle_callback_batch c s, length-drop c.rate s.queue)

throttle_periods_on :
    (c : Config) (k : ℕ) (s : State)
    → is_some s.throttle_timer ≡ true
    → throttle_periods c (suc k) s ≡ throttle_periods c k (throttle_callback c s)
unfolding throttle_periods
throttle_periods_on c k s h = ground arith

throttle_periods_idle :
    (c : Config) (k : ℕ) (s : State) → is_some s.throttle_timer ≡ false → throttle_periods c k s ≡ s
unfolding throttle_periods
throttle_periods_idle c zero s h = refl
throttle_periods_idle c (suc k) s h = ground (arith, throttle_periods_idle c k s h)

-- In a state with the limiter's invariant, and with a positive `rate`: once the throttle timer has
-- run `k` times with `k * rate` above the length of the queue, and nothing was submitted meanwhile,
-- the throttle timer is off, the other timer is on, and all that waited was handed on in order.
pub throttle_periods_drain :
    (c : Config) (k : ℕ) (s : State)
    → LimiterInv c s
    → 0 < c.rate
    → length s.queue < k * c.rate
    → let s' = throttle_periods c k s in
      (is_some s'.throttle_timer ≡ false)
      × (is_some s'.ratelimit_timer ≡ true)
      × (s'.processed ≡ s.processed ++ s.queue)
throttle_periods_drain c zero s v r h = absurd (omega arith)
throttle_periods_drain c (suc k) s v r h = elim (Bool-cases (is_some s.throttle_timer)) [
  | inl on ↦ rw (throttle_periods_on c k s on) (elim (Bool-cases (ltb (length s.queue) c.rate)) [
    | inl last ↦
        let t = throttle_callback_last c s (ltb→lt _ _ last) in
        rw (throttle_periods_idle c k (throttle_callback c s) t.0) t
    | inr more ↦
        let (off, runs, all) =
          throttle_periods_drain c k (throttle_callback c s) (throttle_callback-LimiterInv c s on v)
            r (ground (arith, length-throttle_callback c s)) in
        (off, runs, all ∙ pipeline-throttle_callback c s)
  ])
  | inr off ↦
      rw (throttle_periods_idle c (suc k) s off)
        (off, ground (arith, v.one_timer), ground (arith, v.idle off, append-nil s.processed))
]
