-- ===== src/Transport/Handlers.antt =====
-- Each handler of the status is called single (web-phalcon/public/js/netgraphz/status.js).
use mathlib.Core.Path.{subst}
use native.Mathlib.Nat.{add-zero}
use netgraphz2_gpl.Transport.Status.{
  HandlerCall, StatusEvent, StatusState, attach_complete, attach_fail, fetched_data, fetched_error,
  on_failure, on_success, timeout_runs, attach_status_fetch_complete, attach_status_fetch_fail,
  run_timeout, status_data, status_error, status_run, status_step, unfetched,
}
use netgraphz2_gpl.Common.{
  List, Bool, [], arith, false, if◌then◌else◌, map, refl, suc, true, ℕ, ◌++◌, ◌+◌, ◌==◌, ◌||◌, ◌∷◌,
  ◌≡◌, sym,
}

-- The callback of the fetch is called single at most; `complete` says whether it was.
abbrev pub FetchedOnce : Bool → List StatusEvent → Type 0
FetchedOnce complete [] = Unit {0}
FetchedOnce complete (fetched_error ∷ es) = (complete ≡ false) × FetchedOnce true es
FetchedOnce complete (fetched_data ∷ es) = (complete ≡ false) × FetchedOnce true es
FetchedOnce complete (attach_complete h ∷ es) = FetchedOnce complete es
FetchedOnce complete (attach_fail h ∷ es) = FetchedOnce complete es
FetchedOnce complete (timeout_runs ∷ es) = FetchedOnce complete es

-- How often a handler is called for success, or for failure.
abbrev pub success_calls : ℕ → List HandlerCall → ℕ
success_calls h [] = 0
success_calls h (on_success k ∷ cs) =
    if k == h then suc (success_calls h cs) else success_calls h cs
success_calls h (on_failure k ∷ cs) = success_calls h cs

abbrev pub failure_calls : ℕ → List HandlerCall → ℕ
failure_calls h [] = 0
failure_calls h (on_failure k ∷ cs) =
    if k == h then suc (failure_calls h cs) else failure_calls h cs
failure_calls h (on_success k ∷ cs) = failure_calls h cs

-- How often a handler is attached for success, or for failure.
abbrev pub attached_success : ℕ → List StatusEvent → ℕ
attached_success h [] = 0
attached_success h (attach_complete k ∷ es) =
    if k == h then suc (attached_success h es) else attached_success h es
attached_success h (e ∷ es) = attached_success h es

abbrev pub attached_failure : ℕ → List StatusEvent → ℕ
attached_failure h [] = 0
attached_failure h (attach_fail k ∷ es) =
    if k == h then suc (attached_failure h es) else attached_failure h es
attached_failure h (e ∷ es) = attached_failure h es

success_calls-append :
    (h : ℕ) (xs ys : List HandlerCall)
    → success_calls h (xs ++ ys) ≡ success_calls h xs + success_calls h ys
success_calls-append h [] ys = omega arith
success_calls-append h (on_success k ∷ xs) ys = ground (arith, success_calls-append h xs ys)
success_calls-append h (on_failure k ∷ xs) ys = success_calls-append h xs ys

failure_calls-append :
    (h : ℕ) (xs ys : List HandlerCall)
    → failure_calls h (xs ++ ys) ≡ failure_calls h xs + failure_calls h ys
failure_calls-append h [] ys = omega arith
failure_calls-append h (on_failure k ∷ xs) ys = ground (arith, failure_calls-append h xs ys)
failure_calls-append h (on_success k ∷ xs) ys = failure_calls-append h xs ys

times : ℕ → List ℕ → ℕ
times h [] = 0
times h (k ∷ ks) = if k == h then suc (times h ks) else times h ks

times-append : (h : ℕ) (xs ys : List ℕ) → times h (xs ++ ys) ≡ times h xs + times h ys
unfolding times
times-append h [] ys = omega arith
times-append h (k ∷ xs) ys = ground (arith, times-append h xs ys)

success_calls-on_success :
    (h : ℕ) (ks : List ℕ)
    → (success_calls h (map on_success ks) ≡ times h ks) × (failure_calls h (map on_success ks) ≡ 0)
unfolding times
success_calls-on_success h [] = (refl, refl)
success_calls-on_success h (k ∷ ks) =
    let ih = success_calls-on_success h ks in (ground arith, ground arith)

failure_calls-on_failure :
    (h : ℕ) (ks : List ℕ)
    → (failure_calls h (map on_failure ks) ≡ times h ks) × (success_calls h (map on_failure ks) ≡ 0)
unfolding times
failure_calls-on_failure h [] = (refl, refl)
failure_calls-on_failure h (k ∷ ks) =
    let ih = failure_calls-on_failure h ks in (ground arith, ground arith)

-- `a` and `b` are how often `h` was attached for success and for failure.
record StatusInv (h a b : ℕ) (s : StatusState) : Type 0 where
  pub on_success_called :
      success_calls h s.called + success_calls h s.timeouts ≡ (if s.is_success then a else 0)
  pub on_failure_called :
      failure_calls h s.called + failure_calls h s.timeouts ≡ (if s.is_failed then b else 0)
  pub success_attached : times h s.success_handlers ≡ a
  pub failure_attached : times h s.fail_handlers ≡ b
  pub complete : s.is_complete ≡ s.is_success || s.is_failed

attach_complete-StatusInv :
    (h a b k : ℕ) (s : StatusState)
    → StatusInv h a b s
    → StatusInv h (if k == h then suc a else a) b (attach_status_fetch_complete k s)
unfolding attach_status_fetch_complete times
attach_complete-StatusInv h a b k s v = ground (
  arith,
  times-append h s.success_handlers (k ∷ []),
  success_calls-append h s.timeouts (on_success k ∷ []),
  failure_calls-append h s.timeouts (on_success k ∷ []),
)

attach_fail-StatusInv :
    (h a b k : ℕ) (s : StatusState)
    → StatusInv h a b s
    → StatusInv h a (if k == h then suc b else b) (attach_status_fetch_fail k s)
unfolding attach_status_fetch_fail times
attach_fail-StatusInv h a b k s v = ground (
  arith,
  times-append h s.fail_handlers (k ∷ []),
  success_calls-append h s.timeouts (on_failure k ∷ []),
  failure_calls-append h s.timeouts (on_failure k ∷ []),
)

status_error-StatusInv :
    (h a b : ℕ) (s : StatusState)
    → s.is_complete ≡ false
    → StatusInv h a b s
    → StatusInv h a b (status_error s)
unfolding status_error
status_error-StatusInv h a b s e v = ground (
  arith,
  success_calls-append h s.called (map on_failure s.fail_handlers),
  failure_calls-append h s.called (map on_failure s.fail_handlers),
  failure_calls-on_failure h s.fail_handlers,
)

status_data-StatusInv :
    (h a b : ℕ) (s : StatusState)
    → s.is_complete ≡ false
    → StatusInv h a b s
    → StatusInv h a b (status_data s)
unfolding status_data
status_data-StatusInv h a b s e v = ground (
  arith,
  success_calls-append h s.called (map on_success s.success_handlers),
  failure_calls-append h s.called (map on_success s.success_handlers),
  success_calls-on_success h s.success_handlers,
)

run_timeout-StatusInv :
    (h a b : ℕ) (cs : List HandlerCall) (s : StatusState)
    → s.timeouts ≡ cs
    → StatusInv h a b s
    → StatusInv h a b (run_timeout cs s)
unfolding run_timeout
run_timeout-StatusInv h a b [] s e v = v
run_timeout-StatusInv h a b (c ∷ cs) s e v =
    ground
      (arith, success_calls-append h s.called (c ∷ []), failure_calls-append h s.called (c ∷ []))

run_timeout_complete :
    (cs : List HandlerCall) (s : StatusState) → (run_timeout cs s).is_complete ≡ s.is_complete
unfolding run_timeout
run_timeout_complete [] s = refl
run_timeout_complete (c ∷ cs) s = refl

status_run-StatusInv :
    (es : List StatusEvent) (h a b : ℕ) (s : StatusState)
    → FetchedOnce s.is_complete es
    → StatusInv h a b s
    → StatusInv h (a + attached_success h es) (b + attached_failure h es) (status_run es s)
unfolding status_run status_step attach_status_fetch_complete attach_status_fetch_fail status_error
    status_data
status_run-StatusInv [] h a b s single v = rw (add-zero a, add-zero b) v
status_run-StatusInv (attach_complete k ∷ es) h a b s single v =
    subst
      (λ c.
        StatusInv h c (b + attached_failure h es)
          (status_run es (attach_status_fetch_complete k s)))
      (ground arith)
      (status_run-StatusInv es h (if k == h then suc a else a) b (attach_status_fetch_complete k s)
        single (attach_complete-StatusInv h a b k s v))
status_run-StatusInv (attach_fail k ∷ es) h a b s single v =
    subst
      (λ c.
        StatusInv h (a + attached_success h es) c (status_run es (attach_status_fetch_fail k s)))
      (ground arith)
      (status_run-StatusInv es h a (if k == h then suc b else b) (attach_status_fetch_fail k s)
        single (attach_fail-StatusInv h a b k s v))
status_run-StatusInv (fetched_error ∷ es) h a b s single v =
    status_run-StatusInv es h a b (status_error s) single.1
      (status_error-StatusInv h a b s single.0 v)
status_run-StatusInv (fetched_data ∷ es) h a b s single v =
    status_run-StatusInv es h a b (status_data s) single.1
      (status_data-StatusInv h a b s single.0 v)
status_run-StatusInv (timeout_runs ∷ es) h a b s single v =
    status_run-StatusInv es h a b (run_timeout s.timeouts s)
      (subst (λ c. FetchedOnce c es) (sym (run_timeout_complete s.timeouts s)) single)
      (run_timeout-StatusInv h a b s.timeouts s refl v)

-- In any order of attaching, of the fetch, which calls back once at most, and of the timeouts: a
-- handler that was attached for success has been called, or will be by a timeout, exactly as often as
-- it was attached if the fetch has succeeded, and never else; and so it is for failure.
pub status_run_lem :
    (es : List StatusEvent) (h : ℕ)
    → FetchedOnce false es
    → let s = status_run es unfetched in
      (success_calls h s.called + success_calls h s.timeouts
        ≡ (if s.is_success then attached_success h es else 0))
      × (failure_calls h s.called + failure_calls h s.timeouts
          ≡ (if s.is_failed then attached_failure h es else 0))
unfolding times
status_run_lem es h single =
    let v = status_run-StatusInv es h 0 0 unfetched single record {
      on_success_called = refl;
      on_failure_called = refl;
      success_attached = refl;
      failure_attached = refl;
      complete = refl;
    } in
    (ground arith, ground arith)
