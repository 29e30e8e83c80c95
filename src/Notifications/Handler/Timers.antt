-- ===== src/Notifications/Handler/Timers.antt =====
-- The limiter's two timers are those that run (notifications/event_handler.js).
use netgraphz2_gpl.Common.{
  if◌then◌else◌, if_cases, is_some-false, ℕ, suc, ◌≤◌, ◌≡◌, ◌∙◌, refl, List, [], ◌∷◌, ◌++◌, none,
  some, Option, arith, is_some,
}
use netgraphz2_gpl.Common.NumMap
use netgraphz2_gpl.Common.NumMap.{lookup-insert, lookup-delete}
use netgraphz2_gpl.Notifications.Body.{Notification}
use netgraphz2_gpl.Notifications.State.{
  State, Config, Interval, Task, drop_counter, throttle, aggregate, start, clear_interval,
}
use netgraphz2_gpl.Notifications.Limiter.Defs.{
  throttle_callback, start_timer, start_throttle_timer, stop_timer, stop_throttle_timer, submit,
  enqueue, process,
}
use netgraphz2_gpl.Notifications.Limiter.Rate.{drained}
use netgraphz2_gpl.Notifications.Limiter.Cases.{submit_cases, throttle_callback_cases}

abbrev pub interval : Task → ℕ → Interval
interval task p = record { task = task; period = p }

-- `r` and `t` are `_ratelimit_timer` and `_ratelimit_throttle_timer`, `m` the running intervals and
-- `next` the next identifier.
pub record Match (r t : Option ℕ) (m : List (ℕ × Interval)) (next : ℕ) : Type 0 where
  pub fresh : (id : ℕ) → next ≤ id → NumMap.lookup id m ≡ none
  pub counters : (id p : ℕ) → NumMap.lookup id m ≡ some (interval drop_counter p) → r ≡ some id
  pub throttles : (id p : ℕ) → NumMap.lookup id m ≡ some (interval throttle p) → t ≡ some id

abbrev pub TimersMatch : State → Type 0
TimersMatch s = Match s.ratelimit_timer s.throttle_timer s.timers s.next_timer

pub start-TimersMatch : TimersMatch start
unfolding NumMap.lookup
start-TimersMatch = record {
  fresh = λ id h. refl;
  counters = λ id p e. cc;
  throttles = λ id p e. cc;
}

module _ {r t : Option ℕ} {m : List (ℕ × Interval)} {next : ℕ} (v : Match r t m next) (p : ℕ) where
  set_throttle-Match :
      t ≡ none → Match r (some next) (NumMap.insert next (interval throttle p) m) (suc next)
  set_throttle-Match off = record {
    fresh = λ id h. ground (arith, lookup-insert next id (interval throttle p) m, v.fresh id);
    counters =
        λ id q e. ground (arith, lookup-insert next id (interval throttle p) m, v.counters id q);
    throttles =
        λ id q e. ground (arith, lookup-insert next id (interval throttle p) m, v.throttles id q);
  }

  set_counter-Match :
      r ≡ none → Match (some next) t (NumMap.insert next (interval drop_counter p) m) (suc next)
  set_counter-Match off = record {
    fresh = λ id h. ground (arith, lookup-insert next id (interval drop_counter p) m, v.fresh id);
    counters = λ id q e.
        ground (arith, lookup-insert next id (interval drop_counter p) m, v.counters id q);
    throttles = λ id q e.
        ground (arith, lookup-insert next id (interval drop_counter p) m, v.throttles id q);
  }

  pub set_aggregate-Match :
      (topic : _) → Match r t (NumMap.insert next (interval (aggregate topic) p) m) (suc next)
  set_aggregate-Match topic = record {
    fresh =
        λ id h. ground (arith, lookup-insert next id (interval (aggregate topic) p) m, v.fresh id);
    counters = λ id q e.
        ground (arith, lookup-insert next id (interval (aggregate topic) p) m, v.counters id q);
    throttles = λ id q e.
        ground (arith, lookup-insert next id (interval (aggregate topic) p) m, v.throttles id q);
  }

  -- Clearing an interval; `p` is its identifier.
  pub delete-Match : Match r t (NumMap.delete p m) next
  delete-Match = record {
    fresh = λ id h. ground (arith, lookup-delete p id m, v.fresh id);
    counters = λ id q e. ground (arith, lookup-delete p id m, v.counters id q);
    throttles = λ id q e. ground (arith, lookup-delete p id m, v.throttles id q);
  }

stop_timer-TimersMatch : (s : State) → TimersMatch s → TimersMatch (stop_timer s)
unfolding stop_timer
stop_timer-TimersMatch s v = go s.ratelimit_timer refl
  where
    go :
        (o : Option ℕ)
        → s.ratelimit_timer ≡ o
        → TimersMatch (record (clear_interval o s) { ratelimit_timer = none })
    go none e = record {
      fresh = v.fresh;
      counters = λ id q l. ground (arith, v.counters id q);
      throttles = v.throttles;
    }
    go (some p) e = record {
      fresh = (delete-Match v p).fresh;
      counters = λ id q l. ground (arith, lookup-delete p id s.timers, v.counters id q);
      throttles = (delete-Match v p).throttles;
    }

stop_throttle_timer-TimersMatch : (s : State) → TimersMatch s → TimersMatch (stop_throttle_timer s)
unfolding stop_throttle_timer
stop_throttle_timer-TimersMatch s v = go s.throttle_timer refl
  where
    go :
        (o : Option ℕ)
        → s.throttle_timer ≡ o
        → TimersMatch (record (clear_interval o s) { throttle_timer = none })
    go none e = record {
      fresh = v.fresh;
      counters = v.counters;
      throttles = λ id q l. ground (arith, v.throttles id q);
    }
    go (some p) e = record {
      fresh = (delete-Match v p).fresh;
      counters = (delete-Match v p).counters;
      throttles = λ id q l. ground (arith, lookup-delete p id s.timers, v.throttles id q);
    }

pub stop_throttle_timer-ratelimit_timer :
    (s : State) → (stop_throttle_timer s).ratelimit_timer ≡ s.ratelimit_timer
unfolding stop_throttle_timer
stop_throttle_timer-ratelimit_timer s = ground arith

pub start_timer-TimersMatch :
    (c : Config) (s : State)
    → s.ratelimit_timer ≡ none
    → TimersMatch s
    → TimersMatch (start_timer c s)
unfolding start_timer
start_timer-TimersMatch c s e v = set_counter-Match v c.rate_time e

start_throttle_timer-TimersMatch :
    (c : Config) (s : State)
    → s.throttle_timer ≡ none
    → TimersMatch s
    → TimersMatch (start_throttle_timer c s)
unfolding start_throttle_timer
start_throttle_timer-TimersMatch c s e v = set_throttle-Match v c.rate_time e

enqueue-TimersMatch :
    (c : Config) (n : Notification) (s : State) → TimersMatch s → TimersMatch (enqueue c n s)
unfolding enqueue
enqueue-TimersMatch c n s v =
    let s₁ = record s { queue = s.queue ++ n ∷ [] } in
    let s₂ = if is_some s₁.ratelimit_timer then stop_timer s₁ else s₁ in
    let w : TimersMatch s₂ =
      if_cases TimersMatch (is_some s₁.ratelimit_timer) (λ e. stop_timer-TimersMatch s₁ v)
        (λ e. v) in
    if_cases TimersMatch (is_some s₂.throttle_timer) (λ e. w)
      (λ e. start_throttle_timer-TimersMatch c s₂ (is_some-false _ e) w)

pub submit-TimersMatch :
    (c : Config) (n : Notification) (s : State) → TimersMatch s → TimersMatch (submit c n s)
unfolding process
submit-TimersMatch c n s v =
    submit_cases TimersMatch c n s (λ _. v) (λ _. v) (λ _. v) (λ _ _. enqueue-TimersMatch c n _ v)

pub throttle_callback-TimersMatch :
    (c : Config) (s : State)
    → s.ratelimit_timer ≡ none
    → TimersMatch s
    → TimersMatch (throttle_callback c s)
throttle_callback-TimersMatch c s e v =
    let s' = record (drained c.rate s.queue s) { req_curr = 0 } in
    throttle_callback_cases TimersMatch c s
      (start_timer-TimersMatch c (stop_throttle_timer s')
        (stop_throttle_timer-ratelimit_timer s' ∙ e) (stop_throttle_timer-TimersMatch s' v))
      v
