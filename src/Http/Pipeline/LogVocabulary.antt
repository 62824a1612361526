-- ===== src/Http/Pipeline/LogVocabulary.antt =====
-- `safeMethod` and `safeRoute` of pkg/api/httpserver/server.go: what a client can bring into the log.
use Prim.Native.String.{String}
use text.Mathlib.Text.{◌==◌ as str_eq}
use text.Mathlib.TextEquality.{eq_iff}
use final_weave.Prelude.{◌≡◌, refl, inl, inr, true, List, [], ◌∷◌, arith, Bool-cases}
use final_weave.Vocabulary.{IsOneOf}
use final_weave.Http.Pipeline.{
  Exchange, LogLine, request_completed, request_panicked, completion, panic_line, is_one_of,
  known_methods, safe_method, safe_route,
}

-- What the access log may say of a client's method and path.
abbrev pub IsClosedLine : LogLine → Type 0
IsClosedLine (request_completed method route status id) =
    IsOneOf method ("OTHER" ∷ known_methods)
    × IsOneOf route ("/livez" ∷ "/readyz" ∷ "unmatched" ∷ [])
IsClosedLine (request_panicked method route id) =
    IsOneOf method ("OTHER" ∷ known_methods)
    × IsOneOf route ("/livez" ∷ "/readyz" ∷ "unmatched" ∷ [])

IsOneOf-of_is_one_of : (s : String) (ts : List String) → is_one_of s ts ≡ true → IsOneOf s ts
unfolding is_one_of
IsOneOf-of_is_one_of s [] h = absurd (cc)
IsOneOf-of_is_one_of s (t ∷ ts) h = elim (Bool-cases (str_eq s t)) [
  | inl same ↦ inl ((eq_iff s t).0 same)
  | inr differs ↦ inr (IsOneOf-of_is_one_of s ts (ground arith))
]

safe_method-IsOneOf : (method : String) → IsOneOf (safe_method method) ("OTHER" ∷ known_methods)
unfolding safe_method
safe_method-IsOneOf method = elim (Bool-cases (is_one_of method known_methods)) [
  | inl known ↦ rw known (inr (IsOneOf-of_is_one_of method known_methods known))
  | inr unknown ↦ rw unknown (inl refl)
]

safe_route-IsOneOf :
    (path : String) → IsOneOf (safe_route path) ("/livez" ∷ "/readyz" ∷ "unmatched" ∷ [])
unfolding safe_route
safe_route-IsOneOf path = elim (Bool-cases (str_eq path "/livez")) [
  | inl live ↦ rw live (inl refl)
  | inr not_live ↦ elim (Bool-cases (str_eq path "/readyz")) [
    | inl ready ↦ rw (not_live, ready) (inr (inl refl))
    | inr not_ready ↦ rw (not_live, not_ready) (inr (inr (inl refl)))
  ]
]

-- A completion's line and a panic's.
pub completion-IsClosedLine : (x : Exchange) → IsClosedLine (completion x)
completion-IsClosedLine x = (safe_method-IsOneOf x.method, safe_route-IsOneOf x.route_path)

pub panic_line-IsClosedLine : (x : Exchange) → IsClosedLine (panic_line x)
panic_line-IsClosedLine x = (safe_method-IsOneOf x.method, safe_route-IsOneOf x.route_path)
