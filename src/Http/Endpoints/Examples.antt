-- ===== src/Http/Endpoints/Examples.antt =====
-- A router with the documented behaviour, and requests as in pkg/api/httpserver/server_test.go.
use text.Mathlib.Text.{◌==◌ as str_eq}
use text.Mathlib.TextEquality.{eq_iff}
use final_weave.Prelude.{
  ◌↔◌, ◌⊎◌, ◌||◌, true, arith, ◌≡◌, refl, inl, inr, Option, none, some, if◌then◌else◌, Bool-cases,
}
use final_weave.Health.{new_tracker}
use final_weave.Http.Pipeline.{Exchange, Handler, Outcome, fiber_error, stable_error_handler, app}
use final_weave.Http.Config.{default_config}
use final_weave.Http.Construction.{fiber_config}
use Prim.Native.String.{String}
use final_weave.Http.Sample.{request}
use final_weave.Http.Endpoints.{Fiber, handler_at, refused, serve_request}
use final_weave.Http.Endpoints.Answers.{Endpoint, IsGuarded, TurnedAway, http_endpoints}

dispatch_to : Option Handler → Exchange → Exchange × Outcome
dispatch_to none x = refused 404 "/" x
dispatch_to (some h) x =
    if str_eq x.method "GET" then h (record x { route_path = x.path }) else refused 405 "/" x

either_read :
    (method : String)
    → ((str_eq method "GET" || str_eq method "HEAD") ≡ true)
      ↔ ((method ≡ "GET") ⊎ (method ≡ "HEAD"))
either_read method = ground (arith, eq_iff method "GET", eq_iff method "HEAD")

-- A table that is searched for the exact path.
exact_router : Fiber
unfolding dispatch_to
exact_router = record {
  is_read = λ method. str_eq method "GET" || str_eq method "HEAD";
  read_methods = either_read;
  get_only_error = fiber_error 405;
  get_only_refuses = refl;
  dispatch = λ routes x. dispatch_to (handler_at x.path routes) x;
  unmatched = "/";
  matched = λ routes x h get here. rw (here, (eq_iff x.method "GET").1 get) refl;
  other_method = λ routes x h other here. elim (Bool-cases (str_eq x.method "GET")) [
    | inl get ↦ absurd (other ((eq_iff x.method "GET").0 get))
    | inr not_get ↦ rw (here, not_get) refl
  ];
  no_route = λ routes x here. rw here refl;
}

abbrev answer : Exchange → Exchange
answer x = (serve_request exact_router (fiber_config default_config) new_tracker x).0

-- A tracker that has not been told anything is not ready.
http_endpoints_example :
    (Endpoint new_tracker "GET" "/readyz" (answer (request "/readyz" 0))
      × IsGuarded (answer (request "/readyz" 0)))
    ⊎ TurnedAway (request "/readyz" 0) (answer (request "/readyz" 0))
http_endpoints_example =
    http_endpoints exact_router default_config new_tracker (request "/readyz" 0) refl

-- A trailing slash makes another path.
trailing_slash : (answer (request "/livez/" 0)).status ≡ 404
unfolding serve_request fiber_config app exact_router dispatch_to handler_at
trailing_slash = refl

-- A POST of an unknown path is refused before the middlewares.
posted : (answer (record (request "/missing" 0) { method = "POST" })).status ≡ 405
unfolding serve_request fiber_config stable_error_handler app exact_router dispatch_to handler_at
posted = refl
