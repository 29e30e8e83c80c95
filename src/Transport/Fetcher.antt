-- ===== src/Transport/Fetcher.antt =====
-- One request (web-phalcon/public/js/netgraphz/fetcher.js). The parser of JSON and whether the
-- callback throws are parameters.
use netgraphz2_gpl.Common.{
  List, Bool, Option, String, [], if◌then◌else◌, none, some, str_eq, ℕ, ◌++◌, ◌==◌, ◌∷◌,
}

-- `xhr`, when an event of it is handled; `response` is `none` for `null`.
pub record Xhr : Type 0 where
  pub ready_state : ℕ
  pub response : Option String
  pub status : ℕ
  pub status_text : String

pub data XhrEvent : Type 0 where
  ready_state_change : Xhr → XhrEvent
  xhr_error : Xhr → XhrEvent

-- The third argument of the callback.
pub data FetchError : Type 0 where
  no_error : FetchError
  message : String → FetchError
  caught_parser_error : FetchError
  caught_callback_error : FetchError
  true_error : FetchError

-- The first argument: `null`, `{}`, what is parsed, or the response itself.
pub data Payload (J : Type 0) : Type 0 where
  null_payload : Payload J
  empty_payload : Payload J
  parsed : J → Payload J
  unparsed : Option String → Payload J

pub record CallbackCall (J : Type 0) : Type 0 where
  pub payload : Payload J
  pub code : ℕ
  pub error_given : FetchError

module _ {J : Type 0} (parse_json : String → Option J)
    (callback_throws : CallbackCall J → Bool) where
  -- The `try` block: the call stands inside it, so what the callback throws is caught too.
  unfoldable pub try_callback : ℕ → Option J → List (CallbackCall J)
  try_callback status none =
      record { payload = empty_payload; code = status; error_given = caught_parser_error } ∷ []
  try_callback status (some j) =
      let call : CallbackCall J = record {
        payload = parsed j;
        code = status;
        error_given = no_error;
      } in
      let again : CallbackCall J = record {
        payload = empty_payload;
        code = status;
        error_given = caught_callback_error;
      } in
      if callback_throws call then call ∷ again ∷ [] else call ∷ []

  -- The response of a request that is done.
  unfoldable pub respond : Xhr → Option String → List (CallbackCall J)
  unfolding try_callback
  respond xhr none =
      record { payload = null_payload; code = xhr.status; error_given = message xhr.status_text }
      ∷ []
  respond xhr (some text) =
      if str_eq text ""
      then record {
        payload = empty_payload;
        code = xhr.status;
        error_given = message "Server retuned empty response";
      }
        ∷ []
      else try_callback xhr.status (parse_json text)

  -- `xhr.onreadystatechange`: the calls of the callback.
  unfoldable pub on_ready_state_change : Xhr → List (CallbackCall J)
  unfolding respond
  on_ready_state_change xhr = if xhr.ready_state == 4 then respond xhr xhr.response else []

  -- The calls that an event leads to; the second is `xhr.onerror`.
  unfoldable pub handle_xhr : XhrEvent → List (CallbackCall J)
  unfolding on_ready_state_change
  handle_xhr (ready_state_change xhr) = on_ready_state_change xhr
  handle_xhr (xhr_error xhr) =
      record { payload = unparsed xhr.response; code = xhr.status; error_given = true_error } ∷ []

  -- `_fetch_json`: the calls of the callback in a sequence of events of the request.
  unfoldable pub fetch_json : List XhrEvent → List (CallbackCall J)
  unfolding handle_xhr
  fetch_json [] = []
  fetch_json (e ∷ es) = handle_xhr e ++ fetch_json es
