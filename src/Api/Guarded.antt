-- ===== src/Api/Guarded.antt =====
-- Which requests reach the event handler (notifications/notifications_api.js,
-- notifications/authenticator.js).
use netgraphz2_gpl.Api.Defs.{
  Express, HttpRequest, api_route, api_run, api_step, routed, after_authentication, after_body,
  serve_request,
}
use netgraphz2_gpl.Authenticator.Admission.{Accepted, authenticate_request_lem}
use netgraphz2_gpl.Authenticator.Defs.{
  AuthValue, Libraries, Token, authenticate_request, Reply, failed, next, required, throws,
}
use netgraphz2_gpl.Common.{
  Bool, List, Option, String, [], ap, false, inl, inr, none, refl, some, ℕ, ◌↔◌, ◌∙◌, ◌∷◌, ◌≡◌, ◌⊎◌,
}
use netgraphz2_gpl.Notifications.Body.{Event, NotificationType}
use netgraphz2_gpl.Notifications.Routes.{Happening, Router, fired, happen, happen_all, posted}
use netgraphz2_gpl.Notifications.State.{Config}

module _ (express : Express) (lib : Libraries) (auth_enabled : Bool) (tokens : List Token) where
  -- The header is accepted, or authentication is switched off.
  abbrev pub IsAuthenticated : HttpRequest → Type 0
  IsAuthenticated q =
      (auth_enabled ≡ false)
      ⊎ ((h : String) × (v : AuthValue) × (vs : List AuthValue) × (q.header ≡ some h)
          × (lib.parse h ≡ some (v ∷ vs))
          × Accepted lib q.path v tokens)

  -- An authenticated request for a route, with what the body parsers make of its body.
  abbrev pub Passes : HttpRequest → NotificationType → Option Event → Type 0
  Passes q type body =
      IsAuthenticated q × (express.parse_body q.body ≡ inr body) × (api_route express q ≡ some type)

  -- What is left for the routes of what happens to the server.
  pub data Admits : List (HttpRequest ⊎ ℕ) → List Happening → Type 0 where
    nothing_left : Admits [] []
    interval :
        {id : ℕ} {is : List (HttpRequest ⊎ ℕ)} {hs : List Happening}
        → Admits is hs
        → Admits (inr id ∷ is) (fired id ∷ hs)
    let_in :
        {q : HttpRequest} {type : NotificationType} {body : Option Event}
        {is : List (HttpRequest ⊎ ℕ)} {hs : List Happening}
        → Passes q type body
        → Admits is hs
        → Admits (inl q ∷ is) (posted type body ∷ hs)
    kept_out :
        {q : HttpRequest} {is : List (HttpRequest ⊎ ℕ)} {hs : List Happening}
        → ((type : NotificationType) (body : Option Event) → ¬ Passes q type body)
        → Admits is hs
        → Admits (inl q ∷ is) hs

  module _ (c : Config) where
    -- A request is let in, or changes nothing.
    abbrev Served : HttpRequest → Router → Router → Type 0
    Served q r r' =
        ((type : NotificationType) × (body : Option Event) × Passes q type body
          × (r' ≡ happen c (posted type body) r))
        ⊎ (((type : NotificationType) (body : Option Event) → ¬ Passes q type body) × (r' ≡ r))

    routed-Served :
        (q : HttpRequest) (o : Option NotificationType) (body : Option Event) (r : Router)
        → IsAuthenticated q
        → express.parse_body q.body ≡ inr body
        → api_route express q ≡ o
        → Served q r (routed express lib auth_enabled tokens c o body r).1
    unfolding routed happen
    routed-Served q none body r a p e = inr (λ type body' (_, _, e'). cc, refl)
    routed-Served q (some type) body r a p e = inl (type, body, (a, p, e), refl)

    after_body-Served :
        (q : HttpRequest) (o : ℕ ⊎ Option Event) (r : Router)
        → IsAuthenticated q
        → express.parse_body q.body ≡ o
        → Served q r (after_body express lib auth_enabled tokens c q o r).1
    unfolding after_body
    after_body-Served q (inl status) r a p = inr (λ type body (_, p', _). cc, refl)
    after_body-Served q (inr body) r a p = routed-Served q (api_route express q) body r a p refl

    after_authentication-Served :
        (q : HttpRequest) (reply : Reply) (r : Router)
        → ((reply ≡ next) ↔ IsAuthenticated q)
        → Served q r (after_authentication express lib auth_enabled tokens c q reply r).1
    unfolding after_authentication
    after_authentication-Served q required r h = inr (λ type body (a, _, _). cc (h.1 a), refl)
    after_authentication-Served q failed r h = inr (λ type body (a, _, _). cc (h.1 a), refl)
    after_authentication-Served q throws r h = inr (λ type body (a, _, _). cc (h.1 a), refl)
    after_authentication-Served q next r h =
        after_body-Served q (express.parse_body q.body) r (h.0 refl) refl

    serve_request-Served :
        (q : HttpRequest) (r : Router)
        → Served q r (serve_request express lib auth_enabled tokens c q r).1
    unfolding serve_request
    serve_request-Served q r =
        after_authentication-Served q (authenticate_request lib auth_enabled q.header q.path tokens)
          r (authenticate_request_lem lib q.path auth_enabled q.header tokens)

    -- Whatever requests come and intervals run: the state of the server is what the routes make of
    -- the interval runs and of the requests that are authenticated, have a body that is parsed and
    -- are for one of the two routes; no other request changes anything.
    pub api_run_lem :
        (is : List (HttpRequest ⊎ ℕ)) (r : Router)
        → (hs : List Happening) × Admits is hs
          × (api_run express lib auth_enabled tokens c is r ≡ happen_all c hs r)
    unfolding api_run api_step happen_all
    api_run_lem [] r = ([], nothing_left, refl)
    api_run_lem (inr id ∷ is) r =
        let (hs, left, e) = api_run_lem is (happen c (fired id) r) in
        (fired id ∷ hs, interval left, e)
    api_run_lem (inl q ∷ is) r =
        let r' = (serve_request express lib auth_enabled tokens c q r).1 in
        let (hs, left, e) = api_run_lem is r' in
        elim (serve_request-Served q r) [
          | inl (type, body, pass, same) ↦
              (posted type body ∷ hs, let_in pass left, e ∙ ap (happen_all c hs) same)
          | inr (none_passes, same) ↦ (hs, kept_out none_passes left, e ∙ ap (happen_all c hs) same)
        ]
