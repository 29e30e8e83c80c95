-- ===== src/Transport/Calls.antt =====
-- How often, and with what, the callback of a request is called
-- (web-phalcon/public/js/netgraphz/fetcher.js).
use mathlib.Core.List.{append-nil}
use mathlib.Core.Path.{subst}
use netgraphz2_gpl.Transport.Fetcher.{
  XhrEvent, no_error, parsed, ready_state_change, xhr_error, CallbackCall, Xhr, fetch_json,
  handle_xhr, on_ready_state_change, empty_payload, message, respond, true_error, try_callback,
  unparsed, FetchError, Payload, caught_callback_error, caught_parser_error, null_payload,
}
use netgraphz2_gpl.Common.{
  List, Option, String, [], false, if◌then◌else◌, none, some, str_eq, ◌==◌, ◌∷◌, ◌≡◌, All, Bool,
  length, refl, ℕ, ◌++◌, Bool-cases, arith, inl, inr, sym, ◌∙◌, Option-cases, map, ap, true,
}

-- The request is not done.
abbrev pub IsPending : XhrEvent → Type 0
IsPending (ready_state_change xhr) = (xhr.ready_state == 4) ≡ false
IsPending (xhr_error xhr) = ⊥

-- The text of a response is JSON.
abbrev pub parsed_text : {J : Type 0} → (String → Option J) → Option String → Option J
parsed_text parse_json none = none
parsed_text parse_json (some text) = if str_eq text "" then none else parse_json text

-- The values that are given with no error.
abbrev pub delivered : {J : Type 0} → List (CallbackCall J) → List J
delivered [] = []
delivered (c ∷ cs) = elim c.error_given [
  | no_error ↦ elim c.payload [ parsed j ↦ j ∷ delivered cs | _ ↦ delivered cs ]
  | _ ↦ delivered cs
]

-- The error of a response that is missing, empty or no JSON.
abbrev pub failure : String → Option String → FetchError
failure status_text none = message status_text
failure status_text (some text) =
    if str_eq text "" then message "Server retuned empty response" else caught_parser_error

other_failure :
    (b : Bool) (text : String)
    → str_eq text "" ≡ b
    → (if b then message "Server retuned empty response" else caught_parser_error) ∷ []
      ≡ (if str_eq text "" then message "Server retuned empty response" else caught_parser_error)
        ∷ []
other_failure b text e =
    ap (λ c. (if c then message "Server retuned empty response" else caught_parser_error) ∷ [])
      (sym e)

abbrev pub nothing_in : {J : Type 0} → Option String → Payload J
nothing_in none = null_payload
nothing_in (some text) = empty_payload

abbrev pub HasCode : {J : Type 0} → ℕ → List (CallbackCall J) → Type 0
HasCode code calls = All (λ c. c.code ≡ code) calls

module _ {J : Type 0} (parse_json : String → Option J)
    (callback_throws : CallbackCall J → Bool) where
  -- The call with the value of the response.
  abbrev pub with_value : ℕ → J → CallbackCall J
  with_value code j = record { payload = parsed j; code = code; error_given = no_error }

  -- The calls for a response that is JSON, or not, with the payloads, the errors and the codes.
  abbrev pub Answered : String → Option String → ℕ → Option J → List (CallbackCall J) → Type 0
  Answered status_text response code none calls =
      (length calls ≡ 1)
      × (delivered calls ≡ [])
      × (map (λ c. c.error_given) calls ≡ failure status_text response ∷ [])
      × (map (λ c. c.payload) calls ≡ nothing_in response ∷ [])
      × HasCode code calls
  Answered status_text response code (some j) calls =
      let again = callback_throws (with_value code j) in
      (length calls ≡ (if again then 2 else 1))
      × (delivered calls ≡ j ∷ [])
      × (map (λ c. c.error_given) calls
          ≡ no_error ∷ (if again then caught_callback_error ∷ [] else []))
      × (map (λ c. c.payload) calls ≡ parsed j ∷ (if again then empty_payload ∷ [] else []))
      × HasCode code calls

  respond-Answered :
      (xhr : Xhr) (response : Option String)
      → Answered xhr.status_text response xhr.status
          (parsed_text parse_json response)
          (respond parse_json callback_throws xhr response)
  unfolding respond try_callback
  respond-Answered xhr none = (refl, refl, refl, refl, (refl, tt))
  respond-Answered xhr (some text) = elim (Bool-cases (str_eq text "")) [
    | inl e ↦ rw e (refl, refl, other_failure true text e, refl, (refl, tt))
    | inr e ↦ elim (Option-cases (parse_json text)) [
      | inl p ↦ rw (e, p) (refl, refl, other_failure false text e, refl, (refl, tt))
      | inr (j, p) ↦ elim (Bool-cases (callback_throws (with_value xhr.status j))) [
        | inl q ↦ rw (e, p, q) (refl, refl, refl, refl, (refl, (refl, tt)))
        | inr q ↦ rw (e, p, q) (refl, refl, refl, refl, (refl, tt))
      ]
    ]
  ]

  fetch_json-pending :
      (es fs : List XhrEvent)
      → All IsPending es
      → fetch_json parse_json callback_throws (es ++ fs) ≡ fetch_json parse_json callback_throws fs
  unfolding fetch_json handle_xhr on_ready_state_change
  fetch_json-pending [] fs h = refl
  fetch_json-pending (ready_state_change xhr ∷ es) fs h = rw h.0 (fetch_json-pending es fs h.1)
  fetch_json-pending (xhr_error xhr ∷ es) fs h = absurd h.0

  fetch_json-done :
      (xhr : Xhr)
      → xhr.ready_state ≡ 4
      → fetch_json parse_json callback_throws (ready_state_change xhr ∷ [])
        ≡ respond parse_json callback_throws xhr xhr.response
  unfolding fetch_json handle_xhr on_ready_state_change
  fetch_json-done xhr e = rw e (append-nil _)

  -- A request whose events end with its being done calls the callback once, and each call has the
  -- status of the answer. If the response is JSON the call has its value and no error; only if the
  -- callback throws at it is there a second call, with nothing in it and what was thrown as its
  -- error. Else nothing is given, with the text of the status as the error of a missing response,
  -- a message as that of an empty one, and what the parser throws as that of any other.
  pub fetch_json_lem :
      (es : List XhrEvent) (xhr : Xhr)
      → All IsPending es
      → xhr.ready_state ≡ 4
      → Answered xhr.status_text xhr.response xhr.status
          (parsed_text parse_json xhr.response)
          (fetch_json parse_json callback_throws (es ++ ready_state_change xhr ∷ []))
  fetch_json_lem es xhr pending e =
      subst (Answered xhr.status_text xhr.response xhr.status (parsed_text parse_json xhr.response))
        (sym (fetch_json-pending es (ready_state_change xhr ∷ []) pending ∙ fetch_json-done xhr e))
        (respond-Answered xhr xhr.response)

  -- A request that fails in the network is done with an empty response before its error event, and
  -- calls the callback twice, each time with an error.
  pub fetch_json_network_error :
      (es : List XhrEvent) (xhr : Xhr)
      → All IsPending es
      → xhr.ready_state ≡ 4
      → xhr.response ≡ some ""
      → fetch_json parse_json callback_throws (es ++ ready_state_change xhr ∷ xhr_error xhr ∷ [])
        ≡ record {
          payload = empty_payload;
          code = xhr.status;
          error_given = message "Server retuned empty response";
        }
          ∷ record { payload = unparsed (some ""); code = xhr.status; error_given = true_error }
          ∷ []
  unfolding fetch_json handle_xhr on_ready_state_change respond
  fetch_json_network_error es xhr pending e blank =
      fetch_json-pending es (ready_state_change xhr ∷ xhr_error xhr ∷ []) pending ∙ ground arith
