-- ===== src/Http/Endpoints/Answers.antt =====
-- What a client of pkg/api/httpserver/server.go reads, by the method and the path of its request.
use Prim.Native.String.{String}
use text.Mathlib.Text.{◌==◌ as str_eq}
use text.Mathlib.TextEquality.{eq_iff}
use final_weave.Prelude.{
  ℕ, ◌≡◌, ◌≢◌, refl, sym, ◌∙◌, ◌⊎◌, inl, inr, false, none, some, Bool-cases, arith,
}
use final_weave.Health.{Tracker, decode}
use final_weave.Http.Pipeline.{
  respond, fiber_error, Outcome, Exchange, Handler, Body, probe_response, error_response,
  error_status, error_code, stable_error_handler, finish_access, recovered, canceled, live_handler,
  ready_handler, app,
}
use final_weave.Http.Pipeline.Answers.{admitted, has_body, app-settled}
use final_weave.Http.Pipeline.Probes.{ProbeAnswer, http_readiness_answer}
use final_weave.Http.Config.{Config}
use final_weave.Http.Construction.{fiber_config}
use final_weave.Http.Endpoints.{
  Fiber, handler_at, refused, livez_path, readyz_path, routes, serve_request,
}

-- A status with its body.
abbrev pub Answers : ℕ → Body → Exchange → Type 0
Answers status body y = (y.status ≡ status) × (y.body ≡ body)

-- The headers that every answer of the middlewares carries.
abbrev pub IsGuarded : Exchange → Type 0
IsGuarded y = (y.cache_control ≡ "no-store") × (y.content_type_options ≡ "nosniff")

abbrev pub IsRead : String → Type 0
IsRead method = (method ≡ "GET") ⊎ (method ≡ "HEAD")

-- The table of the service for GET and HEAD: which answer a method and a path get.
abbrev pub Endpoint : Tracker → String → String → Exchange → Type 0
Endpoint t method path y =
    ((method ≡ "GET") × (path ≡ livez_path) × Answers 200 (probe_response "live" "") y)
    ⊎ ((method ≡ "GET") × (path ≡ readyz_path) × ProbeAnswer t y)
    ⊎ ((method ≡ "HEAD")
        × ((path ≡ livez_path) ⊎ (path ≡ readyz_path))
        × Answers 405 (error_response "method_not_allowed") y)
    ⊎ (IsRead method
        × (path ≢ livez_path)
        × (path ≢ readyz_path)
        × Answers 404 (error_response "not_found") y)

-- A request that is turned away: 405, and nothing but the status and the body is written, not even a
-- header, an ID or a line of the log.
abbrev pub TurnedAway : Exchange → Exchange → Type 0
TurnedAway x y = (¬ IsRead x.method) × (y ≡ respond 405 (error_response "method_not_allowed") x)

head_ne_get : ◌≡◌ {A = String} "HEAD" "GET" → ⊥
head_ne_get e = cc ((eq_iff "HEAD" "GET").1 e)

behind :
    (route : Handler) (x : Exchange) {y : Exchange × Outcome}
    → has_body x ≡ false
    → route (admitted x) ≡ y
    → app route x ≡ canceled (finish_access (recovered (y.0) (y.1)).0 (recovered (y.0) (y.1)).1)
behind route x bare e = rw (app-settled route x, bare, e) refl

handler_at-cases :
    (t : Tracker) (path : String)
    → ((path ≡ livez_path) × (handler_at path (routes t) ≡ some live_handler))
      ⊎ ((path ≡ readyz_path) × (handler_at path (routes t) ≡ some (ready_handler t)))
      ⊎ ((path ≢ livez_path) × (path ≢ readyz_path) × (handler_at path (routes t) ≡ none))
unfolding handler_at
handler_at-cases t path = elim (Bool-cases (str_eq path livez_path)) [
  | inl live ↦ inl ((eq_iff path livez_path).0 live, rw live refl)
  | inr not_live ↦ elim (Bool-cases (str_eq path readyz_path)) [
    | inl ready ↦ inr (inl ((eq_iff path readyz_path).0 ready, rw (not_live, ready) refl))
    | inr not_ready ↦ inr (
        inr (
          ground (arith, eq_iff path livez_path),
          ground (arith, eq_iff path readyz_path),
          rw (not_live, not_ready) refl,
        ))
  ]
]

-- What the middlewares make of a refusal.
refused_answer :
    (route : Handler) (x : Exchange) {code : ℕ} {path : String}
    → has_body x ≡ false
    → route (admitted x) ≡ refused code path (admitted x)
    → Answers
        (error_status (fiber_error code))
        (error_response (error_code (error_status (fiber_error code))))
        (app route x).0
      × IsGuarded (app route x).0
unfolding finish_access recovered stable_error_handler
refused_answer route x bare e = rw (behind route x bare e) ((refl, refl), (refl, refl))

ready-IsGuarded :
    (t : Tracker) (x : Exchange) → has_body x ≡ false → IsGuarded (app (ready_handler t) x).0
unfolding ready_handler finish_access recovered
ready-IsGuarded t x bare = elim (Bool-cases (decode t.state).ready) [
  | inl up ↦ rw (behind (ready_handler t) x bare refl, up) (refl, refl)
  | inr down ↦ rw (behind (ready_handler t) x bare refl, down) (refl, refl)
]

-- A matched route answers as if its handler were the whole router.
matched-app :
    (route h : Handler) (x : Exchange)
    → has_body x ≡ false
    → route (admitted x) ≡ h (record (admitted x) { route_path = x.path })
    → app route x ≡ app h (record x { route_path = x.path })
matched-app route h x bare e =
    behind route x bare e ∙ sym (behind h (record x { route_path = x.path }) bare refl)

live_answer :
    (x : Exchange)
    → has_body x ≡ false
    → Answers 200 (probe_response "live" "") (app live_handler x).0
      × IsGuarded (app live_handler x).0
unfolding live_handler finish_access recovered
live_answer x bare = rw (behind live_handler x bare refl) ((refl, refl), (refl, refl))

-- A matched path, under GET and under HEAD.
found :
    (fiber : Fiber) (t : Tracker) (x : Exchange) (h : Handler)
    → has_body x ≡ false
    → IsRead x.method
    → handler_at x.path (routes t) ≡ some h
    → ((x.method ≡ "GET")
        × (app (fiber.dispatch (routes t)) x ≡ app h (record x { route_path = x.path })))
      ⊎ ((x.method ≡ "HEAD")
          × Answers 405 (error_response "method_not_allowed") (app (fiber.dispatch (routes t)) x).0
          × IsGuarded (app (fiber.dispatch (routes t)) x).0)
unfolding error_status error_code
found fiber t x h bare (inl get) here = inl (
  get,
  matched-app (fiber.dispatch (routes t)) h x bare
      (fiber.matched (routes t) (admitted x) h get here),
)
found fiber t x h bare (inr head) here =
    let differs : x.method ≢ "GET" = λ get. head_ne_get (sym head ∙ get) in
    let (answer, guarded) =
      refused_answer (fiber.dispatch (routes t)) x bare
        (fiber.other_method (routes t) (admitted x) h differs here) in
    inr (head, answer, guarded)

-- What the middlewares and the router answer to GET and HEAD.
handed_on :
    (fiber : Fiber) (t : Tracker) (x : Exchange)
    → has_body x ≡ false
    → IsRead x.method
    → Endpoint t x.method x.path (app (fiber.dispatch (routes t)) x).0
      × IsGuarded (app (fiber.dispatch (routes t)) x).0
unfolding error_status error_code
handed_on fiber t x bare read = elim (handler_at-cases t x.path) [
  | inl (path, here) ↦ elim (found fiber t x live_handler bare read here) [
    | inl (get, e) ↦
        let (answer, guarded) = live_answer (record x { route_path = x.path }) bare in
        rw e (inl (get, path, answer), guarded)
    | inr (head, answer, guarded) ↦ (inr (inr (inl (head, inl path, answer))), guarded)
  ]
  | inr (inl (path, here)) ↦ elim (found fiber t x (ready_handler t) bare read here) [
    | inl (get, e) ↦
        let y : Exchange = record x { route_path = x.path } in
        rw e (inr (inl (get, path, http_readiness_answer t y bare)), ready-IsGuarded t y bare)
    | inr (head, answer, guarded) ↦ (inr (inr (inl (head, inr path, answer))), guarded)
  ]
  | inr (inr (not_live, not_ready, here)) ↦
      let (answer, guarded) =
        refused_answer (fiber.dispatch (routes t)) x bare
          (fiber.no_route (routes t) (admitted x) here) in
      (inr (inr (inr (read, not_live, not_ready, answer))), guarded)
]

-- A request without a body to the server that `New` configures, by its method and its path. GET /livez
-- is answered 200 and "live", GET /readyz what the readiness tracker says, HEAD of these paths 405 and
-- "method_not_allowed", and GET and HEAD of any other path 404 and "not_found"; all these answers carry
-- the headers that forbid caching and content sniffing. Any other method is turned away with 405 and
-- "method_not_allowed" on every path, and then nothing else of the exchange is written: no header, no
-- request ID, no line of the log.
pub http_endpoints :
    (fiber : Fiber) (config : Config) (t : Tracker) (x : Exchange)
    → has_body x ≡ false
    → let y = (serve_request fiber (fiber_config config) t x).0 in
      (Endpoint t x.method x.path y × IsGuarded y) ⊎ TurnedAway x y
unfolding serve_request fiber_config stable_error_handler error_status error_code
http_endpoints fiber config t x bare = elim (Bool-cases (fiber.is_read x.method)) [
  | inl read ↦ inl (rw read (handed_on fiber t x bare ((fiber.read_methods x.method).0 read)))
  | inr other ↦ inr (
    (λ read. cc (other, (fiber.read_methods x.method).1 read)),
    rw (other, fiber.get_only_refuses) refl,
  )
]
