-- ===== src/Notifications/Limiter/Cases.antt =====
-- Case rules for the rate limiter's functions (notifications/event_handler.js).
use netgraphz2_gpl.Common.{
  ◌+◌, ◌≡◌, refl, arith, Bool, true, false, not, leb, ltb, length, min, if◌then◌else◌, if_cases,
}
use netgraphz2_gpl.Notifications.Body.{Notification}
use netgraphz2_gpl.Notifications.State.{State, Config}
use netgraphz2_gpl.Notifications.Limiter.Defs.{
  process, start_timer, stop_throttle_timer, throttle_callback, enqueue, submit,
}
use netgraphz2_gpl.Notifications.Limiter.Rate.{drained, throttle_loop_lem}

abbrev counted : State → State
counted s = record s { req_curr = s.req_curr + 1 }

abbrev Outcome {ℓ} : (State → Type ℓ) → Notification → Bool × State → Type ℓ
Outcome P n r = P (if r.0 then r.1 else process n r.1)

-- A submission is handed on, dropped or queued.
pub submit_cases {ℓ} :
    (P : State → Type ℓ) (c : Config) (n : Notification) (s : State)
    → (c.rate_limit ≡ false → P (process n s))
    → (c.rate_limit ≡ true → P (process n (counted s)))
    → (c.drop_overrate ≡ true → P (counted s))
    → (c.drop_overrate ≡ false → c.rate_limit ≡ true → P (enqueue c n (counted s)))
    → P (submit c n s)
unfolding submit
submit_cases P c n s off pass drop queue =
    if_cases (Outcome P n) (not c.rate_limit) (λ e. off (ground arith))
      (λ e.
        if_cases (Outcome P n) (leb c.rate (s.req_curr + 1))
          (λ over. if_cases P c.drop_overrate drop (λ d. queue d (ground arith)))
          (λ under. pass (ground arith)))

-- The throttle callback hands on a batch, and after a short one the timers change.
pub throttle_callback_cases {ℓ} :
    (P : State → Type ℓ) (c : Config) (s : State)
    → P (start_timer c (stop_throttle_timer (record (drained c.rate s.queue s) { req_curr = 0 })))
    → P (drained c.rate s.queue s)
    → P (throttle_callback c s)
unfolding throttle_callback
throttle_callback_cases P c s short full =
    rw (throttle_loop_lem c 0 c.rate s.queue s (omega arith) refl)
      (if_cases P (ltb (0 + min c.rate (length s.queue)) c.rate) (λ _. short) (λ _. full))
