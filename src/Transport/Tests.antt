-- ===== src/Transport/Tests.antt =====
-- A request and the status on small runs (web-phalcon/public/js/netgraphz/{fetcher,status}.js).
use netgraphz2_gpl.Transport.Calls.{Answered, fetch_json_lem}
use netgraphz2_gpl.Transport.Fetcher.{CallbackCall, Xhr, fetch_json, ready_state_change}
use netgraphz2_gpl.Transport.Handlers.{
  attached_failure, attached_success, failure_calls, status_run_lem, success_calls,
}
use netgraphz2_gpl.Transport.Status.{
  run_timeout, attach_complete, attach_status_fetch_complete, fetched_data, status_data, status_run,
  status_step, timeout_runs, unfetched,
}
use netgraphz2_gpl.Common.{
  Bool, Option, String, [], if◌then◌else◌, none, refl, some, str_eq, true, ℕ, ◌+◌, ◌∷◌, ◌≡◌,
}

-- A parser of one text, and a callback that throws at what it gives.
abbrev ok_json : String → Option ℕ
ok_json text = if str_eq text "7" then some 7 else none

abbrev always_throws : CallbackCall ℕ → Bool
always_throws c = true

abbrev at_state : ℕ → String → Xhr
at_state n text = record { ready_state = n; response = some text; status = 200; status_text = "OK" }

fetch_json_lem_example : Answered ok_json always_throws "OK" (some "7") 200 (some 7) (
    fetch_json ok_json always_throws
      (ready_state_change (at_state 2 "") ∷ ready_state_change (at_state 4 "7") ∷ []))
fetch_json_lem_example =
    fetch_json_lem ok_json always_throws (ready_state_change (at_state 2 "") ∷ []) (at_state 4 "7")
      (refl, tt) refl

status_run_lem_example :
    let s =
      status_run
        (attach_complete 1 ∷ fetched_data ∷ attach_complete 1 ∷ timeout_runs ∷ [])
        unfetched in
    (success_calls 1 s.called + success_calls 1 s.timeouts ≡ (
      if s.is_success
      then attached_success 1
          (attach_complete 1 ∷ fetched_data ∷ attach_complete 1 ∷ timeout_runs ∷ [])
      else 0))
    × (failure_calls 1 s.called + failure_calls 1 s.timeouts ≡ (
        if s.is_failed
        then attached_failure 1
            (attach_complete 1 ∷ fetched_data ∷ attach_complete 1 ∷ timeout_runs ∷ [])
        else 0))
status_run_lem_example =
    status_run_lem (attach_complete 1 ∷ fetched_data ∷ attach_complete 1 ∷ timeout_runs ∷ []) 1
      (refl, tt)

-- After a success both calls were made.
status_run-twice :
    success_calls 1
      (status_run
        (attach_complete 1 ∷ fetched_data ∷ attach_complete 1 ∷ timeout_runs ∷ [])
        unfetched).called
    ≡ 2
unfolding status_run status_step attach_status_fetch_complete status_data run_timeout
status_run-twice = refl
