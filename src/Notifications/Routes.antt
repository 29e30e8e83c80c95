-- ===== src/Notifications/Routes.antt =====
-- The routes that Icinga's scripts call (notifications/routes/api/icinga.js).
use netgraphz2_gpl.Common.NumMap
use netgraphz2_gpl.Notifications.Body.{Event, NotificationType}
use netgraphz2_gpl.Notifications.State.{Config, State, start}
use netgraphz2_gpl.Notifications.Handler.{init, Input, arrive, fire, handle_notification, run, step}
use netgraphz2_gpl.Common.{
  List, Bool, Option, [], false, if◌then◌else◌, none, refl, some, true, ℕ, ◌∷◌, ◌≡◌,
}

-- The route's variable `init`, with the state of the event handler.
pub record Router : Type 0 where
  pub has_init : Bool
  pub handler : State

abbrev pub fresh : Router
fresh = record { has_init = false; handler = start }

-- The first two statements of both routes: `handler.init` is called once.
unfoldable pub initialised : Config → Router → Router
initialised c r = if r.has_init then r else record { has_init = true; handler = init c r.handler }

-- `router.post` of `/notify_host` and `/notify_service`, with the HTTP status; `none` is a body that
-- is no object.
unfoldable pub post : Config → NotificationType → Option Event → Router → ℕ × Router
unfolding initialised
post c type none r = (500, initialised c r)
post c type (some body) r =
    let r' = initialised c r in
    (200, record r' { handler = handle_notification c type body r'.handler })

-- What happens to the server: a request, or a run of an interval.
pub data Happening : Type 0 where
  posted : NotificationType → Option Event → Happening
  fired : ℕ → Happening

unfoldable pub happen : Config → Happening → Router → Router
unfolding post
happen c (posted type body) r = (post c type body r).1
happen c (fired id) r = record r { handler = step c (fire id) r.handler }

unfoldable pub happen_all : Config → List Happening → Router → Router
happen_all c [] r = r
happen_all c (h ∷ hs) r = happen_all c hs (happen c h r)

-- The inputs of the event handler; a body that is no object is none.
abbrev pub inputs : List Happening → List Input
inputs [] = []
inputs (posted type none ∷ hs) = inputs hs
inputs (posted type (some body) ∷ hs) = arrive type body ∷ inputs hs
inputs (fired id ∷ hs) = fire id ∷ inputs hs

abbrev pub requested : List Happening → Bool
requested [] = false
requested (posted type body ∷ hs) = true
requested (fired id ∷ hs) = requested hs

-- What happens from the first request on.
abbrev pub from_first : List Happening → List Happening
from_first [] = []
from_first (posted type body ∷ hs) = posted type body ∷ hs
from_first (fired id ∷ hs) = from_first hs

happen_all-initialised :
    (c : Config) (hs : List Happening) (s : State)
    → happen_all c hs (record { has_init = true; handler = s })
      ≡ record { has_init = true; handler = run c (inputs hs) s }
unfolding happen_all happen post initialised run step
happen_all-initialised c [] s = refl
happen_all-initialised c (posted type none ∷ hs) s = happen_all-initialised c hs s
happen_all-initialised c (posted type (some body) ∷ hs) s =
    happen_all-initialised c hs (handle_notification c type body s)
happen_all-initialised c (fired id ∷ hs) s = happen_all-initialised c hs (step c (fire id) s)

-- The event handler is set up once, at the first request, whatever its body: from then on its state
-- is that of a run from the set-up state on the requests with a body and the interval runs. Before
-- the first request nothing runs.
pub happen_all_lem :
    (c : Config) (hs : List Happening)
    → happen_all c hs fresh ≡ (
        if requested hs
        then record { has_init = true; handler = run c (inputs (from_first hs)) (init c start) }
        else fresh)
unfolding happen_all happen post initialised run step NumMap.lookup
happen_all_lem c [] = refl
happen_all_lem c (posted type none ∷ hs) = happen_all-initialised c hs (init c start)
happen_all_lem c (posted type (some body) ∷ hs) =
    happen_all-initialised c hs (handle_notification c type body (init c start))
happen_all_lem c (fired id ∷ hs) = happen_all_lem c hs
