-- ===== src/Grpc/Metadata/Examples.antt =====
-- A client with one safe ID, two clients without, and the size of a small map.
use mathlib.Core.List.Perm
use final_weave.Prelude.{◌⊎◌, ℕ, ◌<◌, ◌≡◌, ◌≢◌, ◌↔◌, Option, some, List, [], ◌∷◌, arith}
use final_weave.RequestId.Alphabet.{IsSafe}
use final_weave.Grpc.Metadata.{request_id_from_metadata, metadata_size}
use final_weave.Grpc.Metadata.RequestIds.{
  Brings, IsGenerated, grpc_request_id, grpc_request_ids_distinct,
}
use final_weave.Grpc.Metadata.Size.{metadata_size-eq-min}

-- "a1" and "x"
abbrev sent : Option (List (List ℕ))
sent = some ((b'a' ∷ b'1' ∷ []) ∷ [])

abbrev twice : Option (List (List ℕ))
twice = some ((b'x' ∷ []) ∷ (b'x' ∷ []) ∷ [])

grpc_request_id_example :
    IsSafe (request_id_from_metadata twice 35).0
    × (((id : List ℕ) × Brings twice id × (request_id_from_metadata twice 35 ≡ (id, 35)))
        ⊎ (((id : List ℕ) → ¬ Brings twice id)
            × IsGenerated (request_id_from_metadata twice 35) 35))
grpc_request_id_example = grpc_request_id twice 35

twice-Brings_none : (id : List ℕ) → ¬ Brings twice id
twice-Brings_none id b = cc (b.0)

grpc_request_ids_distinct_example :
    (request_id_from_metadata twice 35).0 ≢ (request_id_from_metadata twice 36).0
grpc_request_ids_distinct_example =
    grpc_request_ids_distinct twice twice 35 36 twice-Brings_none twice-Brings_none (omega arith)
      (omega arith) (omega arith)

abbrev first : List ℕ × List (List ℕ)
first = (b'a' ∷ [], (b'b' ∷ b'c' ∷ []) ∷ [] ∷ [])

abbrev second : List ℕ × List (List ℕ)
second = (b'd' ∷ [], (b'e' ∷ []) ∷ [])

metadata_size-eq-min_example :
    (metadata_size (some (first ∷ second ∷ [])) ≡ 102)
    × ((101 < metadata_size (some (first ∷ second ∷ []))) ↔ (101 < 102))
    × (metadata_size (some (first ∷ second ∷ [])) ≡ metadata_size (some (second ∷ first ∷ [])))
metadata_size-eq-min_example =
    metadata_size-eq-min (first ∷ second ∷ []) (second ∷ first ∷ []) 101 (omega arith) (omega arith)
      (Perm.swap second first []) (omega arith)
