-- ===== src/Updater/Defs.antt =====
-- The variables, the timers and the functions of web-phalcon/public/js/netgraphz/updater.js.
use netgraphz2_gpl.Common.NumMap
use netgraphz2_gpl.Pager.{advance}
use netgraphz2_gpl.Common.{
  List, Bool, Option, [], false, if◌then◌else◌, length, ltb, none, not, some, true, ℕ, ◌++◌, ◌+◌,
  ◌-◌, ◌∷◌,
}

-- `settings.updater`, in milliseconds and nodes.
pub record UpdaterSettings : Type 0 where
  pub update_interval : ℕ
  pub part_interval : ℕ
  pub part_size : ℕ

-- The functions that are given to `setTimeout`.
pub data Callback : Type 0 where
  update_callback update_part_start : Callback

-- A timeout that has not run.
pub record Timeout : Type 0 where
  pub callback : Callback
  pub wait : ℕ

-- The variables of the module, with the event loop's timeouts by identifier, the number of requests
-- that are not answered and the lists that were given to `updateNodes`.
pub record Updater {ℓ} (A : Type ℓ) : Type ℓ where
  pub global_timer : Option ℕ
  pub part_timer : Option ℕ
  pub updater_started : Bool
  pub rotation_start_time : ℕ
  pub rotation_end_time : ℕ
  pub last_id : ℕ
  pub timeouts : List (ℕ × Timeout)
  pub next_timeout : ℕ
  pub requests : ℕ
  pub updated : List (List (ℕ × A))

-- What the event loop does next: the timeout `id` runs at the time `now`, or a request is answered
-- at that time, with an error for `none`.
pub data Occurrence {ℓ} (A : Type ℓ) : Type ℓ where
  timeout : ℕ → ℕ → Occurrence A
  answer : ℕ → Option (List (ℕ × A)) → Occurrence A

abbrev pub cleared : Option ℕ → List (ℕ × Timeout) → List (ℕ × Timeout)
cleared none ts = ts
cleared (some id) ts = NumMap.delete id ts

-- What is left of the interval after a rotation that took `delta`.
abbrev pub wait_time : UpdaterSettings → ℕ → ℕ
wait_time c delta = if ltb c.update_interval delta then 0 else c.update_interval - delta

module _ {ℓ} {A : Type ℓ} where
  abbrev pub not_started : Updater A
  not_started = record {
    global_timer = none;
    part_timer = none;
    updater_started = false;
    rotation_start_time = 0;
    rotation_end_time = 0;
    last_id = 0;
    timeouts = [];
    next_timeout = 0;
    requests = 0;
    updated = [];
  }

  -- `setTimeout`; the identifier is the old `next_timeout`.
  abbrev pub set_timeout : Callback → ℕ → Updater A → Updater A
  set_timeout f wait s = record s {
    timeouts = NumMap.insert s.next_timeout (record { callback = f; wait = wait }) s.timeouts;
    next_timeout = s.next_timeout + 1;
  }

  -- `clearTimeout`.
  abbrev pub clear_timeout : Option ℕ → Updater A → Updater A
  clear_timeout timer s = record s { timeouts = cleared timer s.timeouts }

  abbrev pub set_global_timer : Callback → ℕ → Updater A → Updater A
  set_global_timer f wait s = record (set_timeout f wait s) { global_timer = some s.next_timeout }

  abbrev pub set_part_timer : Callback → ℕ → Updater A → Updater A
  set_part_timer f wait s = record (set_timeout f wait s) { part_timer = some s.next_timeout }

  -- `updatePartStart`, up to the request, which asks for the nodes from `last_id`.
  unfoldable pub part_start : Updater A → Updater A
  part_start s = record s { requests = s.requests + 1 }

  -- What the callback does with nodes that have come.
  unfoldable pub store_part : List (ℕ × A) → Updater A → Updater A
  store_part nodes s =
      if ltb 0 (length nodes)
      then record s { last_id = advance s.last_id nodes; updated = s.updated ++ nodes ∷ [] }
      else s

  -- What follows a part with `size` nodes.
  unfoldable pub next_part : UpdaterSettings → ℕ → ℕ → Updater A → Updater A
  next_part c now size s =
      if ltb size c.part_size
      then set_global_timer update_callback (wait_time c (now - s.rotation_start_time))
          (record s { rotation_end_time = now; last_id = 0 })
      else set_part_timer update_part_start c.part_interval s

  -- The callback of the request.
  unfoldable pub part_updated : UpdaterSettings → ℕ → Option (List (ℕ × A)) → Updater A → Updater A
  unfolding store_part next_part
  part_updated c now none s = set_part_timer update_part_start 35000 (clear_timeout s.part_timer s)
  part_updated c now (some nodes) s = next_part c now (length nodes) (store_part nodes s)

  -- `updateCallback`.
  unfoldable pub rotation_started : UpdaterSettings → ℕ → Updater A → Updater A
  rotation_started c now s =
      set_part_timer update_part_start c.part_interval (record s { rotation_start_time = now })

  -- `start`.
  unfoldable pub start_updater : UpdaterSettings → Updater A → Updater A
  start_updater c s =
      if s.updater_started
      then s
      else set_global_timer update_callback c.update_interval
          (record s { last_id = 0; updater_started = true })

  -- `stop`, which leaves the part timer and the requests.
  unfoldable pub stop_updater : Updater A → Updater A
  stop_updater s =
      if not s.updater_started
      then s
      else clear_timeout s.global_timer (record s { last_id = 0; updater_started = false })

  abbrev pub run_callback : UpdaterSettings → Callback → ℕ → Updater A → Updater A
  run_callback c update_callback now s = rotation_started c now s
  run_callback c update_part_start now s = part_start s

  -- A timeout that has run or was cleared does not run, and there is no answer without a request.
  unfoldable pub occur : UpdaterSettings → Occurrence A → Updater A → Updater A
  unfolding part_start part_updated rotation_started
  occur c (timeout id now) s = elim (NumMap.lookup id s.timeouts) [
    | none ↦ s
    | some t ↦ run_callback c t.callback now (record s { timeouts = NumMap.delete id s.timeouts })
  ]
  occur c (answer now nodes) s =
      if ltb 0 s.requests
      then part_updated c now nodes (record s { requests = s.requests - 1 })
      else s

  unfoldable pub occur_all : UpdaterSettings → List (Occurrence A) → Updater A → Updater A
  occur_all c [] s = s
  occur_all c (o ∷ os) s = occur_all c os (occur c o s)
