-- ===== src/Api/Defs.antt =====
-- The HTTP server of the notifications, with its routes (notifications/notifications_api.js,
-- notifications/routes/api.js). Express and body-parser are libraries.
use netgraphz2_gpl.Authenticator.Defs.{
  Libraries, Reply, Token, authenticate_request, failed, next, required, throws,
}
use netgraphz2_gpl.Common.{
  Bool, List, Option, String, [], if◌then◌else◌, inl, inr, none, not, some, str_eq, ℕ, ◌>>=◌, ◌∷◌,
  ◌⊎◌,
}
use netgraphz2_gpl.Notifications.Body.{Event, NotificationType, host, service}
use netgraphz2_gpl.Notifications.Routes.{Router, fired, happen, post}
use netgraphz2_gpl.Notifications.State.{Config}

pub record HttpRequest : Type 0 where
  pub header : Option String
  pub method : String
  pub path : String
  pub body : String

-- Express' test of a mount's path, which gives the rest of it, and of a route's path; what the body
-- parsers make of a body: the status of an error, or `req.body`, `none` if it is no object.
pub record Express : Type 0 where
  pub mount : String → String → Option String
  pub matches : String → String → Bool
  pub parse_body : String → ℕ ⊎ Option Event

module _ (express : Express) where
  -- The routes of `routes/api/icinga.js`.
  unfoldable pub icinga_route : String → String → Option NotificationType
  icinga_route method path =
      if not (str_eq method "POST")
      then none
      else if express.matches "/notify_host" path
      then some host
      else if express.matches "/notify_service" path
      then some service
      else none

  -- `app.use('/api', api)` and `router.use('/icinga', icinga)`.
  unfoldable pub api_route : HttpRequest → Option NotificationType
  unfolding icinga_route
  api_route q = do
    rest ← express.mount "/api" q.path
    path ← express.mount "/icinga" rest
    icinga_route q.method path

  module _ (lib : Libraries) (auth_enabled : Bool) (tokens : List Token) (c : Config) where
    -- The routes and the handler of what they do not answer.
    unfoldable pub routed : Option NotificationType → Option Event → Router → ℕ × Router
    unfolding post
    routed none body r = (404, r)
    routed (some type) body r = post c type body r

    -- What follows the body parsers.
    unfoldable pub after_body : HttpRequest → ℕ ⊎ Option Event → Router → ℕ × Router
    unfolding routed api_route
    after_body q (inl status) r = (status, r)
    after_body q (inr body) r = routed (api_route q) body r

    -- What follows the authenticator. An exception ends in the error handler, with 500.
    unfoldable pub after_authentication : HttpRequest → Reply → Router → ℕ × Router
    unfolding after_body
    after_authentication q required r = (401, r)
    after_authentication q failed r = (403, r)
    after_authentication q throws r = (500, r)
    after_authentication q next r = after_body q (express.parse_body q.body) r

    -- The functions of `app` in their order, with the status of the response.
    unfoldable pub serve_request : HttpRequest → Router → ℕ × Router
    unfolding authenticate_request after_authentication
    serve_request q r =
        after_authentication q (authenticate_request lib auth_enabled q.header q.path tokens) r

    -- A request, or a run of an interval.
    unfoldable pub api_step : HttpRequest ⊎ ℕ → Router → Router
    unfolding serve_request happen
    api_step (inl q) r = (serve_request q r).1
    api_step (inr id) r = happen c (fired id) r

    unfoldable pub api_run : List (HttpRequest ⊎ ℕ) → Router → Router
    unfolding api_step
    api_run [] r = r
    api_run (i ∷ is) r = api_run is (api_step i r)
