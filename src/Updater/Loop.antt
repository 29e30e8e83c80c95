-- ===== src/Updater/Loop.antt =====
-- How many loops of the updater run at once (web-phalcon/public/js/netgraphz/updater.js).
use netgraphz2_gpl.Common.NumMap
use netgraphz2_gpl.Updater.Defs.{
  not_started, Occurrence, Updater, UpdaterSettings, answer, occur, timeout, Callback, Timeout,
  clear_timeout, cleared, part_updated, set_timeout, update_part_start, next_part, store_part,
  update_callback, wait_time, occur_all, part_start, rotation_started, run_callback, start_updater,
  stop_updater,
}
use netgraphz2_gpl.Common.{
  List, inl, inr, length, ℕ, ◌+◌, ◌≡◌, Option, [], ap, arith, none, refl, some, ◌<◌, ◌∙◌, ◌∷◌,
  if_cases, ltb, ◌-◌, Bool, Bool-cases, false, is_some, not, true, ◌==◌, sym,
}

pub cleared-nil : (o : Option ℕ) → cleared o [] ≡ []
unfolding NumMap.delete
cleared-nil none = refl
cleared-nil (some id) = refl

-- The timer is not among the timeouts.
abbrev pub not_set : Option ℕ → List (ℕ × Timeout) → Bool
not_set none ts = true
not_set (some id) ts = not (is_some (NumMap.lookup id ts))

cleared-absent :
    (o : Option ℕ) (id : ℕ) (t : Timeout)
    → not_set o ((id, t) ∷ []) ≡ true
    → cleared o ((id, t) ∷ []) ≡ (id, t) ∷ []
unfolding NumMap.lookup NumMap.delete
cleared-absent none id t h = refl
cleared-absent (some i) id t h = ground arith

abbrev first_timeout : UpdaterSettings → Timeout
first_timeout c = record { callback = update_callback; wait = c.update_interval }

module _ {ℓ} {A : Type ℓ} (c : UpdaterSettings) where
  -- What will go on by itself: timeouts that have not run, and requests that are not answered.
  abbrev pub activity : Updater A → ℕ
  activity s = length s.timeouts + s.requests

  -- The one thing that goes on is a request or a timeout.
  pub data OneLoop (s : Updater A) : Type ℓ where
    asking : s.timeouts ≡ [] → s.requests ≡ 1 → OneLoop s
    sleeping :
        (id : ℕ) (t : Timeout)
        → s.timeouts ≡ (id, t) ∷ []
        → id < s.next_timeout
        → s.requests ≡ 0
        → OneLoop s

  set_timeout-OneLoop :
      (f : Callback) (w : ℕ) (g p : Option ℕ) (s : Updater A)
      → s.timeouts ≡ []
      → s.requests ≡ 0
      → OneLoop (record (set_timeout f w s) { global_timer = g; part_timer = p })
  unfolding NumMap.insert
  set_timeout-OneLoop f w g p s e r =
      sleeping s.next_timeout (record { callback = f; wait = w })
        (ap (NumMap.insert s.next_timeout (record { callback = f; wait = w })) e) (omega arith) r

  store_part-timeouts :
      (nodes : List (ℕ × A)) (s : Updater A)
      → ((store_part nodes s).timeouts ≡ s.timeouts) × ((store_part nodes s).requests ≡ s.requests)
  unfolding store_part
  store_part-timeouts nodes s = ground arith

  next_part-OneLoop :
      (now size : ℕ) (s : Updater A)
      → s.timeouts ≡ []
      → s.requests ≡ 0
      → OneLoop (next_part c now size s)
  unfolding next_part
  next_part-OneLoop now size s e r =
      if_cases OneLoop (ltb size c.part_size)
        (λ _.
          set_timeout-OneLoop update_callback (wait_time c (now - s.rotation_start_time))
            (some s.next_timeout) s.part_timer (record s { rotation_end_time = now; last_id = 0 }) e
            r)
        (λ _.
          set_timeout-OneLoop update_part_start c.part_interval s.global_timer (some s.next_timeout)
            s e r)

  part_updated-OneLoop :
      (now : ℕ) (nodes : Option (List (ℕ × A))) (s : Updater A)
      → s.timeouts ≡ []
      → s.requests ≡ 0
      → OneLoop (part_updated c now nodes s)
  unfolding part_updated
  part_updated-OneLoop now none s e r =
      set_timeout-OneLoop update_part_start 35000 s.global_timer (some s.next_timeout)
        (clear_timeout s.part_timer s) (ap (cleared s.part_timer) e ∙ cleared-nil s.part_timer) r
  part_updated-OneLoop now (some nodes) s e r =
      let (t, q) = store_part-timeouts nodes s in
      next_part-OneLoop now (length nodes) (store_part nodes s) (t ∙ e) (q ∙ r)

  run_callback-OneLoop :
      (f : Callback) (now : ℕ) (s : Updater A)
      → s.timeouts ≡ []
      → s.requests ≡ 0
      → OneLoop (run_callback c f now s)
  unfolding rotation_started part_start
  run_callback-OneLoop update_callback now s e r =
      set_timeout-OneLoop update_part_start c.part_interval s.global_timer (some s.next_timeout)
        (record s { rotation_start_time = now }) e r
  run_callback-OneLoop update_part_start now s e r = asking e (omega arith)

  occur-OneLoop : (o : Occurrence A) (s : Updater A) → OneLoop s → OneLoop (occur c o s)
  unfolding occur NumMap.lookup NumMap.delete
  occur-OneLoop (timeout id now) s (asking e r) = rw (ap (NumMap.lookup id) e, occur) (asking e r)
  occur-OneLoop (timeout id now) s (sleeping i t e l r) = elim (Bool-cases (i == id)) [
    | inl hit ↦
        let found : NumMap.lookup id s.timeouts ≡ some t = ap (NumMap.lookup id) e ∙ ground arith in
        rw (found, occur)
          (run_callback-OneLoop t.callback now (record s { timeouts = NumMap.delete id s.timeouts })
            (ap (NumMap.delete id) e ∙ ground arith) r)
    | inr miss ↦
        let absent : NumMap.lookup id s.timeouts ≡ none = ap (NumMap.lookup id) e ∙ ground arith in
        rw (absent, occur) (sleeping i t e l r)
  ]
  occur-OneLoop (answer now nodes) s (asking e r) =
      let some_request : ltb 0 s.requests ≡ true = ground arith in
      rw (some_request, occur)
        (part_updated-OneLoop now nodes (record s { requests = s.requests - 1 }) e (omega arith))
  occur-OneLoop (answer now nodes) s (sleeping i t e l r) =
      let no_request : ltb 0 s.requests ≡ false = ground arith in
      rw (no_request, occur) (sleeping i t e l r)

  occur_all-OneLoop :
      (os : List (Occurrence A)) (s : Updater A) → OneLoop s → OneLoop (occur_all c os s)
  unfolding occur_all
  occur_all-OneLoop [] s v = v
  occur_all-OneLoop (o ∷ os) s v = occur_all-OneLoop os (occur c o s) (occur-OneLoop o s v)

  -- After the first `start`, and while nothing calls `stop`, whatever timeouts run and however the
  -- requests are answered or fail: either one request is not answered and no timeout is set, or one
  -- timeout is set and no request is open. So the updater neither ends nor runs twice.
  pub one_loop_lem :
      (os : List (Occurrence A)) → OneLoop (occur_all c os (start_updater c not_started))
  unfolding start_updater
  one_loop_lem os = occur_all-OneLoop os (start_updater c not_started) (
      set_timeout-OneLoop update_callback c.update_interval (some 0) none
        (record not_started { updater_started = true }) refl refl)

  -- A rotation is going on: a request is open, or the timeout that is set is not the one that
  -- `stop` clears.
  abbrev pub in_rotation : Updater A → Bool
  in_rotation s = not_set s.global_timer s.timeouts

  restarted :
      (s : Updater A)
      → s.updater_started ≡ true
      → activity (start_updater c (stop_updater s))
        ≡ length
            (NumMap.insert s.next_timeout (first_timeout c) (cleared s.global_timer s.timeouts))
          + s.requests
  unfolding start_updater stop_updater
  restarted s on = rw (on, stop_updater) refl

  -- If the updater is started and runs one loop, and it is stopped in a rotation and started again,
  -- the rotation goes on and a second loop runs beside it.
  pub restart_lem :
      (s : Updater A)
      → OneLoop s
      → s.updater_started ≡ true
      → in_rotation s ≡ true
      → activity (start_updater c (stop_updater s)) ≡ 2
  unfolding NumMap.insert
  restart_lem s (asking e r) on rotation =
      let ts : cleared s.global_timer s.timeouts ≡ [] =
        ap (cleared s.global_timer) e ∙ cleared-nil s.global_timer in
      restarted s on
      ∙ ap (λ l. length (NumMap.insert s.next_timeout (first_timeout c) l) + s.requests) ts
      ∙ omega arith
  restart_lem s (sleeping id t e l r) on rotation =
      let ts : cleared s.global_timer s.timeouts ≡ (id, t) ∷ [] =
        ap (cleared s.global_timer) e
        ∙ cleared-absent s.global_timer id t (ap (not_set s.global_timer) (sym e) ∙ rotation) in
      restarted s on
      ∙ ap (λ l. length (NumMap.insert s.next_timeout (first_timeout c) l) + s.requests) ts
      ∙ ground arith
