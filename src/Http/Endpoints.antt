-- ===== src/Http/Endpoints.antt =====
-- pkg/api/httpserver/server.go: the routes that `New` registers, and the service behind the
-- middlewares. Fiber is not part of the repository: it is a record of what its documentation says of
-- the configuration of `New`. Under GETOnly it turns every method but GET and HEAD away before any
-- handler, with an error 405 for the configured error handler. Its router takes exact paths (strict
-- and case-sensitive routing, no automatic HEAD routes): a path that is not registered is an error
-- 404, and one that is registered for GET alone is an error 405 under another method.
pub mod Answers
mod Examples
use Prim.Native.String.{String}
use text.Mathlib.Text.{◌==◌ as str_eq}
use mathlib.Core.Bool.{not}
use final_weave.Prelude.{
  ◌↔◌, ◌⊎◌, ◌&&◌, true, Bool, ℕ, ◌≡◌, ◌≢◌, Option, none, some, List, [], ◌∷◌, if◌then◌else◌,
}
use final_weave.Health.{Tracker}
use final_weave.Http.Construction.{FiberConfig}
use final_weave.Http.Pipeline.{
  HandlerError, stable_error_handler, Exchange, Handler, Outcome, fiber_error, returned,
  live_handler, ready_handler, app,
}

-- `app.Get` of each pair, in order.
abbrev pub Routes : Type 0
Routes = List (String × Handler)

-- The first route of exactly this path.
unfoldable pub handler_at : String → Routes → Option Handler
handler_at path [] = none
handler_at path ((p, h) ∷ routes) = if str_eq path p then some h else handler_at path routes

abbrev pub refused : ℕ → String → Exchange → Exchange × Outcome
refused code route x = (record x { route_path = route }, returned (some (fiber_error code)))

pub record Fiber : Type 0 where
  pub is_read : String → Bool
  pub read_methods :
      (method : String) → (is_read method ≡ true) ↔ ((method ≡ "GET") ⊎ (method ≡ "HEAD"))
  pub get_only_error : HandlerError
  pub get_only_refuses : get_only_error ≡ fiber_error 405
  pub dispatch : Routes → Handler
  pub unmatched : String
  pub matched :
      (routes : Routes) (x : Exchange) (h : Handler)
      → x.method ≡ "GET"
      → handler_at x.path routes ≡ some h
      → dispatch routes x ≡ h (record x { route_path = x.path })
  pub other_method :
      (routes : Routes) (x : Exchange) (h : Handler)
      → x.method ≢ "GET"
      → handler_at x.path routes ≡ some h
      → dispatch routes x ≡ refused 405 unmatched x
  pub no_route :
      (routes : Routes) (x : Exchange)
      → handler_at x.path routes ≡ none
      → dispatch routes x ≡ refused 404 unmatched x

abbrev pub livez_path : String
livez_path = "/livez"

abbrev pub readyz_path : String
readyz_path = "/readyz"

abbrev pub routes : Tracker → Routes
routes t = (livez_path, live_handler) ∷ (readyz_path, ready_handler t) ∷ []

-- What a request meets: the test of GETOnly, and then the middlewares and the router with the two
-- probes.
unfoldable pub serve_request : Fiber → FiberConfig → Tracker → Handler
serve_request fiber config t x =
    if config.get_only && not (fiber.is_read x.method)
    then (stable_error_handler x fiber.get_only_error, returned none)
    else app (fiber.dispatch (routes t)) x
