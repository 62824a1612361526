-- ===== src/Http/RequestId/Examples.antt =====
-- A client with a safe ID, and two without one.
use final_weave.Prelude.{◌⊎◌, ℕ, ◌≤◌, ◌≡◌, ◌≢◌, List, [], ◌∷◌, arith}
use final_weave.RequestId.Alphabet.{IsSafe}
use final_weave.Http.RequestId.{request_id}
use final_weave.Http.RequestId.Laws.{IsGenerated, http_request_id, http_request_ids_distinct}

-- "a1"
abbrev sent : List ℕ
sent = b'a' ∷ b'1' ∷ []

-- "a b"
abbrev spaced : List ℕ
spaced = b'a' ∷ b' ' ∷ b'b' ∷ []

spaced_unsafe : ¬ IsSafe spaced
spaced_unsafe safe = cc (safe.allowed)

empty_unsafe : ¬ IsSafe []
empty_unsafe safe = let h : 1 ≤ 0 = safe.not_empty in omega arith

http_request_id_example :
    IsSafe (request_id spaced 35).0
    × ((IsSafe spaced × (request_id spaced 35 ≡ (spaced, 35)))
        ⊎ ((¬ IsSafe spaced) × IsGenerated (request_id spaced 35) 35))
http_request_id_example = http_request_id spaced 35

http_request_ids_distinct_example : (request_id spaced 35).0 ≢ (request_id [] 36).0
http_request_ids_distinct_example =
    http_request_ids_distinct spaced [] 35 36 spaced_unsafe empty_unsafe (omega arith) (omega arith)
      (omega arith)
