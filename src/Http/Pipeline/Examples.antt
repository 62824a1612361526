-- ===== src/Http/Pipeline/Examples.antt =====
-- Requests to a liveness probe, to a handler that panics and to one that fails, with and without a
-- body, as in pkg/api/httpserver/server_test.go.
use final_weave.Prelude.{ℕ, ◌≤◌, ◌≡◌, refl, some, [], ◌∷◌}
use final_weave.Http.Pipeline.{
  fiber_error, returned, panicked, Handler, error_response, completion, panic_line, error_code, app,
}
use final_weave.Http.Sample.{request}
use final_weave.Http.Pipeline.LogVocabulary.{IsClosedLine}
use final_weave.Http.Pipeline.Answers.{admitted, IsCode, http_panics_contained, http_errors_closed}

abbrev panicking : Handler
panicking x = (x, panicked)

abbrev not_found : Handler
not_found x = (x, returned (some (fiber_error 404)))

http_panics_contained_example :
    ((app panicking (request "/readyz" 0)).0.status ≡ 500)
    × ((app panicking (request "/readyz" 0)).0.body ≡ error_response "internal_error")
    × ((app panicking (request "/readyz" 0)).0.log
        ≡ completion (app panicking (request "/readyz" 0)).0
          ∷ panic_line (admitted (request "/readyz" 0))
          ∷ [])
    × IsClosedLine (panic_line (admitted (request "/readyz" 0)))
http_panics_contained_example = http_panics_contained panicking (request "/readyz" 0) refl refl

http_errors_closed_example :
    (400 ≤ (app not_found (request "/x" 0)).0.status)
    × ((app not_found (request "/x" 0)).0.status ≤ 599)
    × ((code : ℕ)
        → fiber_error 404 ≡ fiber_error code
        → 400 ≤ code
        → code ≤ 599
        → (app not_found (request "/x" 0)).0.status ≡ code)
    × ((app not_found (request "/x" 0)).0.body
        ≡ error_response (error_code (app not_found (request "/x" 0)).0.status))
    × IsCode (error_code (app not_found (request "/x" 0)).0.status)
http_errors_closed_example =
    http_errors_closed not_found (request "/x" 0) (fiber_error 404) refl refl
