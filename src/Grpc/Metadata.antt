-- ===== src/Grpc/Metadata.antt =====
-- pkg/api/grpcserver/interceptors.go: request IDs and the size of the request metadata. The metadata
-- is a Go map from keys to lists of values, here the pairs in the order in which `range` visits them.
-- `FromIncomingContext` and `Get` belong to grpc-go: their results are arguments.
pub mod RequestIds
pub mod Size
mod Examples
use final_weave.Prelude.{
  ℕ, ◌+◌, ◌-◌, ◌%◌, ◌^◌, ◌||◌, Option, none, some, List, [], ◌∷◌, ◌++◌, all, length, ltb, ◌==◌,
  if◌then◌else◌,
}
use final_weave.RequestId.Alphabet.{is_allowed}
use final_weave.RequestId.Base36.{format_uint, max_uint64}
use final_weave.RequestId.Runes.{runes}

unfoldable pub accepted_request_id : List ℕ → List ℕ
accepted_request_id candidate =
    if length candidate == 0 || ltb 64 (length candidate)
    then []
    else if all is_allowed (runes 0 candidate)
    then candidate
    else []

-- "fw-grpc-"
abbrev pub prefix : List ℕ
prefix = b'f' ∷ b'w' ∷ b'-' ∷ b'g' ∷ b'r' ∷ b'p' ∷ b'c' ∷ b'-' ∷ []

-- `sequence.Add(1)`: the register after it, which is also what it returns.
abbrev pub next : ℕ → ℕ
next sequence = (sequence + 1) % 2 ^ 64

abbrev pub fresh_id : ℕ → List ℕ × ℕ
fresh_id sequence = (prefix ++ format_uint (next sequence), next sequence)

-- `requestIDFromMetadata`, from the values under "x-request-id" if there is incoming metadata.
unfoldable pub request_id_from_metadata : Option (List (List ℕ)) → ℕ → List ℕ × ℕ
request_id_from_metadata (some (value ∷ [])) sequence =
    let accepted = accepted_request_id value in
    if length accepted == 0 then fresh_id sequence else (accepted, sequence)
request_id_from_metadata _ sequence = fresh_id sequence

unfoldable pub saturating_add : ℕ → ℕ → ℕ
saturating_add left right =
    let result = (left + right) % 2 ^ 64 in if ltb result left then max_uint64 else result

-- The inner loop of `metadataSize`, over the values of one key.
unfoldable pub add_values : List ℕ → List (List ℕ) → ℕ → ℕ
add_values key [] size = size
add_values key (value ∷ values) size =
    let field_size = saturating_add (saturating_add (length key) (length value)) 32 in
    add_values key values (saturating_add size field_size)

abbrev pub Metadata : Type 0
Metadata = List (List ℕ × List (List ℕ))

unfoldable pub add_fields : Metadata → ℕ → ℕ
unfolding add_values
add_fields [] size = size
add_fields ((key, values) ∷ fields) size = add_fields fields (add_values key values size)

unfoldable pub metadata_size : Option Metadata → ℕ
metadata_size none = 0
metadata_size (some incoming) = add_fields incoming 0
