-- ===== src/Http/Pipeline/Answers.antt =====
-- What the middlewares of `New` make of a router's answer.
use Prim.Native.String.{String}
use final_weave.Prelude.{
  true, ℕ, ◌≤◌, ◌≡◌, refl, ◌⊎◌, Bool, false, ◌||◌, none, some, List, ◌∷◌, arith, ltb, ltb_ℤ, pos,
  if◌then◌else◌,
}
use final_weave.Http.RequestId.{request_id}
use final_weave.Http.Pipeline.LogVocabulary.{IsClosedLine, panic_line-IsClosedLine}
use final_weave.Http.Pipeline.{
  HandlerError, fiber_error, other, Outcome, returned, panicked, Exchange, Handler, error_response,
  LogLine, completion, panic_line, error_status, error_code, stable_error_handler, finish_access,
  recovered, canceled, app,
}

-- The exchange as it reaches the handlers behind the first middleware.
abbrev pub admitted : Exchange → Exchange
admitted x = record x {
  sequence = (request_id x.id_header x.sequence).1;
  context_id = (request_id x.id_header x.sequence).0;
  context_done = x.root_done;
  response_id = (request_id x.id_header x.sequence).0;
  cache_control = "no-store";
  content_type_options = "nosniff";
}

abbrev pub has_body : Exchange → Bool
has_body x = ltb_ℤ (pos 0) x.content_length || ltb 0 x.body_length

-- A router that leaves the IDs of the context and of the response as they are.
abbrev pub KeepsIds : Handler → Type 0
KeepsIds route =
    (x : Exchange)
    → ((route x).0.context_id ≡ x.context_id) × ((route x).0.response_id ≡ x.response_id)

-- What the two middlewares around the router make of its answer.
abbrev settled : Exchange → Outcome → Exchange
settled x o = (finish_access (recovered x o).0 (recovered x o).1).0

settled_returns :
    (x : Exchange) (o : Outcome)
    → (finish_access (recovered x o).0 (recovered x o).1).1 ≡ returned none
unfolding finish_access recovered
settled_returns x (returned none) = refl
settled_returns x (returned (some e)) = refl
settled_returns x panicked = refl

-- The answer of the handlers behind the last two middlewares.
abbrev inner : Handler → Handler
inner route x = if has_body x then (x, returned (some (fiber_error 400))) else route x

pub app-settled :
    (route : Handler) (x : Exchange)
    → app route x
      ≡ canceled (
          finish_access
            (recovered (inner route (admitted x)).0 (inner route (admitted x)).1).0
            (recovered (inner route (admitted x)).0 (inner route (admitted x)).1).1)
unfolding app
app-settled route x = refl

-- The line that the access log gets for the final state of the exchange, and what it may say.
abbrev pub Logged : Exchange → Type 0
Logged x = (old : List LogLine) × (x.log ≡ completion x ∷ old) × IsClosedLine (completion x)

-- What a request has in the end, whatever is behind the middlewares.
abbrev Ends : List ℕ → Exchange × Outcome → Type 0
Ends id r =
    (r.1 ≡ returned none)
    × (r.0.context_id ≡ id)
    × (r.0.response_id ≡ id)
    × (r.0.context_done ≡ true)
    × Logged r.0

-- A panic of the router, on a request without a body: the answer is a 500 that tells nothing of the
-- panic, and the log gets the panic's line, of the same closed vocabularies, and then the
-- completion's.
pub http_panics_contained :
    (route : Handler) (x : Exchange)
    → has_body (admitted x) ≡ false
    → (route (admitted x)).1 ≡ panicked
    → ((app route x).0.status ≡ 500)
      × ((app route x).0.body ≡ error_response "internal_error")
      × ((app route x).0.log
          ≡ completion (app route x).0
            ∷ panic_line (route (admitted x)).0
            ∷ (route (admitted x)).0.log)
      × IsClosedLine (panic_line (route (admitted x)).0)
unfolding finish_access recovered stable_error_handler
http_panics_contained route x no_body boom =
    rw (app-settled route x, no_body, boom)
      (refl, refl, refl, panic_line-IsClosedLine (route (admitted x)).0)

-- The codes that a client may read in an error's body.
abbrev pub IsCode : String → Type 0
IsCode s =
    (s ≡ "invalid_request")
    ⊎ (s ≡ "not_found")
    ⊎ (s ≡ "method_not_allowed")
    ⊎ (s ≡ "request_timeout")
    ⊎ (s ≡ "request_too_large")
    ⊎ (s ≡ "request_headers_too_large")
    ⊎ (s ≡ "service_unavailable")
    ⊎ (s ≡ "internal_error")

error_status_range : (e : HandlerError) → (400 ≤ error_status e) × (error_status e ≤ 599)
unfolding error_status
error_status_range (fiber_error code) = ground arith
error_status_range other = (omega arith, omega arith)

error_status-keeps : (code : ℕ) → 400 ≤ code → code ≤ 599 → error_status (fiber_error code) ≡ code
unfolding error_status
error_status-keeps code lo hi = ground arith

error_code-IsCode : (status : ℕ) → IsCode (error_code status)
unfolding error_code
error_code-IsCode status = ground arith

-- An error of the router, on a request without a body: the status is in 400 to 599, the code of a
-- `*fiber.Error` if that is in this range, and the body is one of eight codes, the one of the status.
pub http_errors_closed :
    (route : Handler) (x : Exchange) (e : HandlerError)
    → has_body (admitted x) ≡ false
    → (route (admitted x)).1 ≡ returned (some e)
    → (400 ≤ (app route x).0.status)
      × ((app route x).0.status ≤ 599)
      × ((code : ℕ)
          → e ≡ fiber_error code
          → 400 ≤ code
          → code ≤ 599
          → (app route x).0.status ≡ code)
      × ((app route x).0.body ≡ error_response (error_code (app route x).0.status))
      × IsCode (error_code (app route x).0.status)
unfolding finish_access recovered stable_error_handler
http_errors_closed route x e no_body failed =
    rw (app-settled route x, no_body, failed)
      (
        (error_status_range e).0,
        (error_status_range e).1,
        (λ code same lo hi. rw same (error_status-keeps code lo hi)),
        refl,
        error_code-IsCode (error_status e),
      )
