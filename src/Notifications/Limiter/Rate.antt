-- ===== src/Notifications/Limiter/Rate.antt =====
-- How many notifications the rate limiter lets through (notifications/event_handler.js).
use mathlib.Core.List.{append-nil, append_assoc}
use netgraphz2_gpl.Common.{
  ℕ, zero, suc, ◌+◌, ◌-◌, ◌≡◌, min, true, List, [], ◌∷◌, ◌++◌, arith, length, take, drop, ap, refl,
  sym, ◌∙◌,
}
use netgraphz2_gpl.Notifications.Body.{Notification}
use netgraphz2_gpl.Notifications.State.{State, Config}
use netgraphz2_gpl.Notifications.Limiter.Defs.{
  process, throttle_loop, throttle_callback, submit, enqueue,
}

-- The state after `m` entries of the queue `q` were handed on.
abbrev pub drained : ℕ → List Notification → State → State
drained m q s = record s {
  processed = s.processed ++ take m q;
  queue = drop m q;
  req_curr = s.req_curr - min m (length q);
}

drained-nil : (m : ℕ) (s : State) → s.queue ≡ [] → drained m [] s ≡ s
drained-nil zero s e = ground (arith, append-nil s.processed)
drained-nil (suc m) s e = ground (arith, append-nil s.processed)

pub throttle_loop_lem :
    (c : Config) (k m : ℕ) (q : List Notification) (s : State)
    → c.rate ≡ k + m
    → s.queue ≡ q
    → throttle_loop c k q s ≡ (k + min m (length q), drained m q s)
unfolding throttle_loop
throttle_loop_lem c k m [] s r e = ground (arith, drained-nil m s e)
throttle_loop_lem c k zero (x ∷ q) s r e = ground (arith, append-nil s.processed)
throttle_loop_lem c k (suc m) (x ∷ q) s r e = ground (
  arith,
  throttle_loop_lem c (k + 1) m q
      (record (process x (record s { queue = q })) { req_curr = s.req_curr - 1 }),
  append_assoc s.processed (x ∷ []) (take m q),
)

-- One run of the throttle timer hands on the first `rate` entries of the queue, and keeps the rest.
pub throttle_callback_batch :
    (c : Config) (s : State)
    → ((throttle_callback c s).processed ≡ s.processed ++ take c.rate s.queue)
      × ((throttle_callback c s).queue ≡ drop c.rate s.queue)
unfolding throttle_callback
throttle_callback_batch c s = ground (arith, throttle_loop_lem c 0 c.rate s.queue s)

submit_full :
    (c : Config) (n : Notification) (s : State)
    → c.rate_limit ≡ true
    → c.rate - 1 - s.req_curr ≡ 0
    → ((submit c n s).req_curr ≡ s.req_curr + 1) × ((submit c n s).processed ≡ s.processed)
unfolding submit enqueue
submit_full c n s e full = ground arith

submit_free :
    (c : Config) (n : Notification) (s : State) (m : ℕ)
    → c.rate_limit ≡ true
    → c.rate - 1 - s.req_curr ≡ suc m
    → ((submit c n s).req_curr ≡ s.req_curr + 1)
      × ((submit c n s).processed ≡ s.processed ++ n ∷ [])
unfolding submit enqueue
submit_free c n s m e free = ground arith

unfoldable pub submit_all : Config → List Notification → State → State
submit_all c [] s = s
submit_all c (n ∷ ns) s = submit_all c ns (submit c n s)

submit_all_from :
    (c : Config) (ns : List Notification) (s : State) (m : ℕ)
    → c.rate_limit ≡ true
    → c.rate - 1 - s.req_curr ≡ m
    → (submit_all c ns s).processed ≡ s.processed ++ take m ns
unfolding submit_all
submit_all_from c [] s zero e h = sym (append-nil s.processed)
submit_all_from c [] s (suc m) e h = sym (append-nil s.processed)
submit_all_from c (n ∷ ns) s zero e h =
    let (curr, same) = submit_full c n s e h in
    submit_all_from c ns (submit c n s) zero e (omega (arith, curr, h)) ∙ ap (λ l. l ++ []) same
submit_all_from c (n ∷ ns) s (suc m) e h =
    let (curr, one) = submit_free c n s m e h in
    submit_all_from c ns (submit c n s) m e (omega (arith, curr, h))
    ∙ ap (λ l. l ++ take m ns) one
    ∙ append_assoc s.processed (n ∷ []) (take m ns)

-- With rate limiting on, of the notifications that are submitted one after the other with no run of
-- a timer between, exactly the first `rate - 1`, less those that the counter has counted before, are
-- handed on at once, unchanged and in order.
pub submit_all-rate :
    (c : Config) (ns : List Notification) (s : State)
    → c.rate_limit ≡ true
    → (submit_all c ns s).processed ≡ s.processed ++ take (c.rate - 1 - s.req_curr) ns
submit_all-rate c ns s e = submit_all_from c ns s (c.rate - 1 - s.req_curr) e refl
