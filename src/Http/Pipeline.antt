-- ===== src/Http/Pipeline.antt =====
-- pkg/api/httpserver/server.go: the middlewares that `New` installs, the two probes and the error
-- handler. A Fiber context is the record of what the code reads and writes of it. Fiber's router is
-- not part of the repository: it is the argument `route`, the handler behind the last middleware, and
-- may answer, return an error or panic. `ctx.JSON` of a struct of strings does not fail. A request
-- context is done or not: it is from the start if the root is, and when its request has been answered;
-- that it may also end by its timeout in between is left out, since no code of this file waits on it.
pub mod LogVocabulary
pub mod Answers
pub mod Probes
mod Examples
use Prim.Native.String.{String}
use mathlib.Core.Bool.{not}
use text.Mathlib.Text.{◌==◌ as str_eq}
use final_weave.Prelude.{
  ℕ, ◌<◌, Bool, true, false, ◌&&◌, ◌||◌, Option, none, some, List, [], ◌∷◌, leb, ltb, ◌==◌,
  if◌then◌else◌, ℤ, pos, ltb_ℤ,
}
use final_weave.Health.{Readiness, Tracker, decode}
use final_weave.Http.RequestId.{request_id}

-- An error that a handler returns: a `*fiber.Error` with its code, or any other.
pub data HandlerError : Type 0 where
  fiber_error : ℕ → HandlerError
  other : HandlerError

pub data Outcome : Type 0 where
  returned : Option HandlerError → Outcome
  panicked : Outcome

-- `probeResponse` with its status and reason, and `errorResponse`.
pub data Body : Type 0 where
  empty : Body
  probe_response : String → String → Body
  error_response : String → Body

pub data LogLine : Type 0 where
  request_completed : (method route : String) (status : ℕ) (request_id : List ℕ) → LogLine
  request_panicked : (method route : String) (request_id : List ℕ) → LogLine

-- One request: what came in, the response so far, the request's context, the shared sequence of
-- request IDs and the log, newest line first.
pub record Exchange : Type 0 where
  pub id_header : List ℕ
  pub method : String
  pub path : String
  pub route_path : String
  pub content_length : ℤ
  pub body_length : ℕ
  pub status : ℕ
  pub body : Body
  pub response_id : List ℕ
  pub cache_control : String
  pub content_type_options : String
  pub context_id : List ℕ
  pub root_done : Bool
  pub context_done : Bool
  pub sequence : ℕ
  pub log : List LogLine

abbrev pub Handler : Type 0
Handler = Exchange → Exchange × Outcome

-- `ctx.Status(status).JSON(body)`
abbrev pub respond : ℕ → Body → Exchange → Exchange
respond status body x = record x { status = status; body = body }

unfoldable pub error_status : HandlerError → ℕ
error_status (fiber_error code) = if leb 400 code && leb code 599 then code else 500
error_status other = 500

unfoldable pub error_code : ℕ → String
error_code status =
    if status == 400
    then "invalid_request"
    else if status == 404
    then "not_found"
    else if status == 405
    then "method_not_allowed"
    else if status == 408
    then "request_timeout"
    else if status == 413
    then "request_too_large"
    else if status == 431
    then "request_headers_too_large"
    else if status == 503
    then "service_unavailable"
    else "internal_error"

unfoldable pub stable_error_handler : Exchange → HandlerError → Exchange
unfolding error_status error_code
stable_error_handler x e = respond (error_status e) (error_response (error_code (error_status e))) x

unfoldable pub is_one_of : String → List String → Bool
is_one_of s [] = false
is_one_of s (t ∷ ts) = str_eq s t || is_one_of s ts

-- The methods that are logged as they are.
abbrev pub known_methods : List String
known_methods =
    "GET" ∷ "HEAD" ∷ "POST" ∷ "PUT" ∷ "PATCH" ∷ "DELETE" ∷ "OPTIONS" ∷ "CONNECT" ∷ "TRACE" ∷ []

unfoldable pub safe_method : String → String
unfolding is_one_of
safe_method method = if is_one_of method known_methods then method else "OTHER"

unfoldable pub safe_route : String → String
safe_route path =
    if str_eq path "/livez"
    then "/livez"
    else if str_eq path "/readyz"
    then "/readyz"
    else "unmatched"

-- The deferred `cancel`, whether the handlers behind it returned or panicked.
abbrev pub canceled : Exchange × Outcome → Exchange × Outcome
canceled (x, outcome) = (record x { context_done = true }, outcome)

unfoldable pub request_context_middleware : Handler → Handler
request_context_middleware next x =
    let (id, sequence) = request_id x.id_header x.sequence in
    canceled (
      next (record x {
        sequence = sequence;
        context_id = id;
        context_done = x.root_done;
        response_id = id;
        cache_control = "no-store";
        content_type_options = "nosniff";
      }))

abbrev pub completion : Exchange → LogLine
completion x =
    request_completed (safe_method x.method) (safe_route x.route_path) x.status x.context_id

abbrev pub log_completion : Exchange → Exchange
log_completion x = record x { log = completion x ∷ x.log }

-- What `accessLogMiddleware` does after `ctx.Next()`.
unfoldable pub finish_access : Exchange → Outcome → Exchange × Outcome
unfolding stable_error_handler
finish_access x (returned none) = (log_completion x, returned none)
finish_access x (returned (some e)) = (log_completion (stable_error_handler x e), returned none)
finish_access x panicked = (x, panicked)

unfoldable pub access_log_middleware : Handler → Handler
unfolding finish_access
access_log_middleware next x = let (y, outcome) = next x in finish_access y outcome

abbrev pub panic_line : Exchange → LogLine
panic_line x = request_panicked (safe_method x.method) (safe_route x.route_path) x.context_id

-- The deferred function of `recoverMiddleware`.
unfoldable pub recovered : Exchange → Outcome → Exchange × Outcome
recovered x (returned e) = (x, returned e)
recovered x panicked = (record x { log = panic_line x ∷ x.log }, returned (some (fiber_error 500)))

unfoldable pub recover_middleware : Handler → Handler
unfolding recovered
recover_middleware next x = let (y, outcome) = next x in recovered y outcome

unfoldable pub reject_probe_body_middleware : Handler → Handler
reject_probe_body_middleware next x =
    if ltb_ℤ (pos 0) x.content_length || ltb 0 x.body_length
    then (x, returned (some (fiber_error 400)))
    else next x

-- The handler that `New` builds, around the router.
unfoldable pub app : Handler → Handler
unfolding request_context_middleware access_log_middleware recover_middleware
    reject_probe_body_middleware
app route =
    request_context_middleware
      (access_log_middleware (recover_middleware (reject_probe_body_middleware route)))

unfoldable pub live_handler : Handler
live_handler x = (respond 200 (probe_response "live" "") x, returned none)

abbrev probe : Readiness → Exchange → Exchange
probe r x =
    if r.ready
    then respond 200 (probe_response "ready" "") x
    else respond 503 (probe_response "not_ready" r.reason) x

-- `readyHandler`, with the snapshot of the tracker that it takes.
unfoldable pub ready_handler : Tracker → Handler
unfolding decode
ready_handler t x = (probe (decode t.state) x, returned none)
