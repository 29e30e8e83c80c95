-- ===== src/Transport/Status.antt =====
-- The fetch of the status and those who wait for it (web-phalcon/public/js/netgraphz/status.js).
-- A handler is a number.
use netgraphz2_gpl.Common.{List, Bool, [], false, if◌then◌else◌, map, true, ℕ, ◌&&◌, ◌++◌, ◌∷◌}

-- A call of a handler that was attached for success, or for failure.
pub data HandlerCall : Type 0 where
  on_success : ℕ → HandlerCall
  on_failure : ℕ → HandlerCall

-- The module's variables, the timeouts that have not run yet and the calls that were made.
pub record StatusState : Type 0 where
  pub is_complete : Bool
  pub is_success : Bool
  pub is_failed : Bool
  pub success_handlers : List ℕ
  pub fail_handlers : List ℕ
  pub timeouts : List HandlerCall
  pub called : List HandlerCall

abbrev pub unfetched : StatusState
unfetched = record {
  is_complete = false;
  is_success = false;
  is_failed = false;
  success_handlers = [];
  fail_handlers = [];
  timeouts = [];
  called = [];
}

-- What happens: a handler is attached, the callback of the fetch is called, or a timeout runs.
pub data StatusEvent : Type 0 where
  attach_complete : ℕ → StatusEvent
  attach_fail : ℕ → StatusEvent
  fetched_error : StatusEvent
  fetched_data : StatusEvent
  timeout_runs : StatusEvent

-- `attachStatusFetchComplete`, of a function.
unfoldable pub attach_status_fetch_complete : ℕ → StatusState → StatusState
attach_status_fetch_complete h s = record s {
  success_handlers = s.success_handlers ++ h ∷ [];
  timeouts = if s.is_complete && s.is_success then s.timeouts ++ on_success h ∷ [] else s.timeouts;
}

-- `attachStatusFetchFail`, of a function.
unfoldable pub attach_status_fetch_fail : ℕ → StatusState → StatusState
attach_status_fetch_fail h s = record s {
  fail_handlers = s.fail_handlers ++ h ∷ [];
  timeouts = if s.is_complete && s.is_failed then s.timeouts ++ on_failure h ∷ [] else s.timeouts;
}

-- The callback of `fetchStatus`, with an error and without.
unfoldable pub status_error : StatusState → StatusState
status_error s = record s {
  is_complete = true;
  is_failed = true;
  called = s.called ++ map on_failure s.fail_handlers;
}

unfoldable pub status_data : StatusState → StatusState
status_data s = record s {
  is_complete = true;
  is_success = true;
  called = s.called ++ map on_success s.success_handlers;
}

unfoldable pub run_timeout : List HandlerCall → StatusState → StatusState
run_timeout [] s = s
run_timeout (c ∷ cs) s = record s { timeouts = cs; called = s.called ++ c ∷ [] }

unfoldable pub status_step : StatusEvent → StatusState → StatusState
unfolding attach_status_fetch_complete attach_status_fetch_fail status_error status_data run_timeout
status_step (attach_complete h) s = attach_status_fetch_complete h s
status_step (attach_fail h) s = attach_status_fetch_fail h s
status_step fetched_error s = status_error s
status_step fetched_data s = status_data s
status_step timeout_runs s = run_timeout s.timeouts s

unfoldable pub status_run : List StatusEvent → StatusState → StatusState
status_run [] s = s
status_run (e ∷ es) s = status_run es (status_step e s)
