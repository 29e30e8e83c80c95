-- ===== src/Api/Tests.antt =====
-- Requests to the server, on a run (notifications/notifications_api.js).
use netgraphz2_gpl.Api.Defs.{
  Express, HttpRequest, after_authentication, after_body, api_route, api_run, icinga_route, routed,
  serve_request,
}
use netgraphz2_gpl.Api.Guarded.{Admits, api_run_lem}
use netgraphz2_gpl.Authenticator.Defs.{
  authenticate_bearer, authenticate_request, bearer_loop, by_scheme, valid_for_url,
}
use netgraphz2_gpl.Common.{
  List, Option, String, [], inl, inr, none, refl, some, str_eq, true, ℕ, ◌&&◌, ◌∷◌, ◌≡◌, ◌⊎◌,
}
use netgraphz2_gpl.Notifications.Routes.{Happening, fresh, happen_all, post}
use netgraphz2_gpl.Authenticator.Tests.{libraries, on_file}
use netgraphz2_gpl.Pipeline.Tests.{direct_config}

abbrev pub server : Express
server = record {
  mount = λ pattern path. some path;
  matches = λ pattern path. str_eq "/api/icinga/" path && str_eq pattern "/notify_host";
  parse_body = λ body. inr none;
}

abbrev request_with : Option String → HttpRequest
request_with header = record { header = header; method = "POST"; path = "/api/icinga/"; body = "" }

abbrev happenings : List (HttpRequest ⊎ ℕ)
happenings = inl (request_with none) ∷ inr 4 ∷ inl (request_with (some "b1")) ∷ []

api_run_lem_example :
    (hs : List Happening) × Admits server libraries true on_file happenings hs
    × (api_run server libraries true on_file direct_config happenings fresh
        ≡ happen_all direct_config hs fresh)
api_run_lem_example = api_run_lem server libraries true on_file direct_config happenings fresh

-- The request without a header is refused, and the one with the bearer on file reaches the route.
statuses :
    ((serve_request server libraries true on_file direct_config (request_with none) fresh).0 ≡ 401)
    × ((serve_request server libraries true on_file direct_config
          (request_with (some "b1"))
          fresh).0
        ≡ 500)
unfolding serve_request after_authentication after_body routed post api_route icinga_route
    authenticate_request by_scheme authenticate_bearer bearer_loop valid_for_url
statuses = (refl, refl)
