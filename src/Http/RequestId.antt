-- ===== src/Http/RequestId.antt =====
-- pkg/api/httpserver/server.go: `acceptedRequestID`, and the ID that `requestContextMiddleware`
-- gives a request. The sequence is an `atomic.Uint64`; a missing header reads as "".
pub mod Laws
mod Examples
use final_weave.Prelude.{
  ℕ, ◌+◌, ◌-◌, ◌%◌, ◌^◌, ◌≤◌, ◌<◌, ◌≡◌, refl, ◌≢◌, ◌⊎◌, ◌↔◌, inl, inr, ap, sym, ◌∙◌, Bool, true,
  false, ◌||◌, List, [], ◌∷◌, ◌++◌, all, all-append, length, length-append, ltb, ◌==◌,
  if◌then◌else◌, arith, Bool-cases,
}
use final_weave.RequestId.Runes.{runes}
use final_weave.RequestId.Base36.{
  format_uint, max_uint64, length-format_uint, all-format_uint, format_uint_injective,
}
use final_weave.RequestId.Alphabet.{is_allowed, IsSafe, all-runes_allowed, digit_allowed}

unfoldable pub accepted_request_id : List ℕ → List ℕ
accepted_request_id candidate =
    if length candidate == 0 || ltb 64 (length candidate)
    then []
    else if all is_allowed (runes 0 candidate)
    then candidate
    else []

-- "fw-http-"
abbrev pub prefix : List ℕ
prefix = b'f' ∷ b'w' ∷ b'-' ∷ b'h' ∷ b't' ∷ b't' ∷ b'p' ∷ b'-' ∷ []

-- `sequence.Add(1)`: the register after it, which is also what it returns.
abbrev pub next : ℕ → ℕ
next sequence = (sequence + 1) % 2 ^ 64

-- The request ID for a header value, and the sequence after it.
unfoldable pub request_id : List ℕ → ℕ → List ℕ × ℕ
request_id header sequence =
    let accepted = accepted_request_id header in
    if length accepted == 0
    then (prefix ++ format_uint (next sequence), next sequence)
    else (accepted, sequence)
