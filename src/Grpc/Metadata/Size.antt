-- ===== src/Grpc/Metadata/Size.antt =====
-- pkg/api/grpcserver/interceptors.go: `metadataSize` beside the HTTP/2 header-list size.
use Prim.Native.Nat.{min}
use mathlib.Core.List.{Perm, Permᴰ}
use mathlib.Core.Path.{ap₂}
use mathlib.Core.Logic.{∥∥₁_elim}
use native.Mathlib.Nat.{ℕ_set}
use final_weave.Prelude.{
  ℕ, ◌+◌, ◌^◌, ◌≤◌, ◌<◌, ◌≡◌, refl, sym, ◌∙◌, ◌↔◌, some, List, [], ◌∷◌, All, length, arith,
}
use final_weave.RequestId.Base36.{max_uint64}
use final_weave.Grpc.Metadata.{Metadata, saturating_add, add_values, add_fields, metadata_size}

-- The size by the definition of HTTP/2: name, value and 32 for every field.
abbrev pub values_size : List ℕ → List (List ℕ) → ℕ
values_size key [] = 0
values_size key (value ∷ values) = length key + length value + 32 + values_size key values

abbrev pub header_list_size : Metadata → ℕ
header_list_size [] = 0
header_list_size ((key, values) ∷ fields) = values_size key values + header_list_size fields

saturating_add-eq-min :
    (a b : ℕ) → a ≤ max_uint64 → b ≤ max_uint64 → saturating_add a b ≡ min (a + b) max_uint64
unfolding saturating_add
saturating_add-eq-min a b ha hb = ground arith

-- Go's lengths are ints.
abbrev pub IsGoString : List ℕ → Type 0
IsGoString s = length s < 2 ^ 63

abbrev pub IsGoMap : Metadata → Type 0
IsGoMap = All (λ f. IsGoString f.0 × All IsGoString f.1)

field_size :
    (a b size : ℕ)
    → a < 2 ^ 63
    → b < 2 ^ 63
    → size ≤ max_uint64
    → saturating_add size (saturating_add (saturating_add a b) 32)
      ≡ min (size + (a + b + 32)) max_uint64
field_size a b size ha hb hs =
    let name_value = saturating_add-eq-min a b (omega arith) (omega arith) in
    let field = saturating_add-eq-min (saturating_add a b) 32 (omega arith) (omega arith) in
    let total =
      saturating_add-eq-min size (saturating_add (saturating_add a b) 32) hs (omega arith) in
    omega arith

add_values-eq-min :
    (key : List ℕ) (values : List (List ℕ)) (size : ℕ)
    → IsGoString key
    → All IsGoString values
    → size ≤ max_uint64
    → add_values key values size ≡ min (size + values_size key values) max_uint64
unfolding add_values
add_values-eq-min key [] size hk hv hs = omega arith
add_values-eq-min key (value ∷ values) size hk hv hs =
    let now = field_size (length key) (length value) size hk hv.0 hs in
    let later =
      add_values-eq-min key values
        (saturating_add size (saturating_add (saturating_add (length key) (length value)) 32)) hk
        hv.1 (omega arith) in
    later ∙ omega arith

add_fields-eq-min :
    (m : Metadata) (size : ℕ)
    → IsGoMap m
    → size ≤ max_uint64
    → add_fields m size ≡ min (size + header_list_size m) max_uint64
unfolding add_fields
add_fields-eq-min [] size hm hs = omega arith
add_fields-eq-min ((key, values) ∷ fields) size hm hs =
    let now = add_values-eq-min key values size hm.0.0 hm.0.1 hs in
    let later = add_fields-eq-min fields (add_values key values size) hm.1 (omega arith) in
    later ∙ omega arith

header_list_size_perm : {m n : Metadata} → Permᴰ m n → header_list_size m ≡ header_list_size n
header_list_size_perm Permᴰ.nil = refl
header_list_size_perm (Permᴰ.cons {a = a} {b = b} e p) =
    ap₂ (λ (f : List ℕ × List (List ℕ)) (n : ℕ). values_size f.0 f.1 + n) e
      (header_list_size_perm p)
header_list_size_perm (Permᴰ.swap {a = a} {b = b} {l = l} e f) =
    ap₂
      (λ (x y : List ℕ × List (List ℕ)).
        values_size x.0 x.1 + (values_size y.0 y.1 + header_list_size l))
      e f
    ∙ omega arith
header_list_size_perm (Permᴰ.trans p q) = header_list_size_perm p ∙ header_list_size_perm q

-- The order in which Go visits the map, of keys and values shorter than 2^63 bytes, has no part in the
-- size.
metadata_size_perm :
    (m n : Metadata)
    → IsGoMap m
    → IsGoMap n
    → Perm m n
    → metadata_size (some m) ≡ metadata_size (some n)
unfolding metadata_size
metadata_size_perm m n hm hn p =
    let e : header_list_size m ≡ header_list_size n =
      ∥∥₁_elim p (ℕ_set _ _) header_list_size_perm in
    add_fields-eq-min m 0 hm (omega arith) ∙ rw e (sym (add_fields-eq-min n 0 hn (omega arith)))

-- For metadata whose keys and values are shorter than 2^63 bytes, the size that is tested is the
-- HTTP/2 size, or the largest uint64 where that is larger. So it passes a limit below the largest
-- uint64 exactly if the HTTP/2 size does, and the order in which Go visits the map has no part in it.
pub metadata_size-eq-min :
    (m n : Metadata) (limit : ℕ)
    → IsGoMap m
    → IsGoMap n
    → Perm m n
    → limit < max_uint64
    → (metadata_size (some m) ≡ min (header_list_size m) max_uint64)
      × ((limit < metadata_size (some m)) ↔ (limit < header_list_size m))
      × (metadata_size (some m) ≡ metadata_size (some n))
unfolding metadata_size
metadata_size-eq-min m n limit hm hn p hl =
    let e = add_fields-eq-min m 0 hm (omega arith) in
    (omega arith, omega arith, metadata_size_perm m n hm hn p)
