-- ===== src/Grpc/Metadata/RequestIds.antt =====
-- The request IDs of the gRPC adapter.
use final_weave.Prelude.{
  ◌+◌, ◌%◌, ℕ, ◌^◌, ◌≤◌, ◌<◌, ◌≡◌, refl, ◌≢◌, ◌⊎◌, inl, inr, ap, sym, subst, ◌∙◌, false, ◌||◌, List,
  [], ◌∷◌, ◌++◌, all, drop, Option, none, some, length, ltb, ◌==◌, arith, Bool-cases,
}
use final_weave.RequestId.Base36.{
  format_uint, format_uint_injective, parse_uint, parse_uint-format_uint,
}
use final_weave.RequestId.Alphabet.{is_allowed, IsSafe, all-runes_allowed, generated-IsSafe}
use final_weave.Grpc.Metadata.{
  accepted_request_id, prefix, next, fresh_id, request_id_from_metadata,
}

-- A candidate is passed on unchanged exactly if it is safe, else dropped.
accepted_request_id-cases :
    (s : List ℕ)
    → (IsSafe s × (accepted_request_id s ≡ s)) ⊎ ((¬ IsSafe s) × (accepted_request_id s ≡ []))
unfolding accepted_request_id
accepted_request_id-cases s = elim (Bool-cases (length s == 0 || ltb 64 (length s))) [
  | inl out ↦ inr ((λ v. ground arith), rw out)
  | inr sized ↦ elim (Bool-cases (all is_allowed s)) [
    | inl good ↦ inl (
      record { not_empty = ground arith; bounded = ground arith; allowed = good },
      rw (sized, all-runes_allowed s, good),
    )
    | inr bad ↦ inr ((λ v. cc (v.allowed)), rw (sized, all-runes_allowed s, bad))
  ]
]

fresh_id-IsSafe : (sequence : ℕ) → IsSafe (prefix ++ format_uint (next sequence))
fresh_id-IsSafe sequence = generated-IsSafe prefix (next sequence) refl refl

-- A request that brings one value under the key, and that value safe.
abbrev pub Brings : Option (List (List ℕ)) → List ℕ → Type 0
Brings values id = (values ≡ some (id ∷ [])) × IsSafe id

-- The two ways to an ID.
one_value-cases :
    (value : List ℕ) (sequence : ℕ)
    → (IsSafe value × (request_id_from_metadata (some (value ∷ [])) sequence ≡ (value, sequence)))
      ⊎ ((¬ IsSafe value)
          × (request_id_from_metadata (some (value ∷ [])) sequence ≡ fresh_id sequence))
unfolding request_id_from_metadata
one_value-cases value sequence = elim (accepted_request_id-cases value) [
  | inl (safe, e) ↦ inl (safe, rw e (rw (not_zero value safe.not_empty)))
  | inr (unsafe, e) ↦ inr (unsafe, rw e)
]
  where
    not_zero : (s : List ℕ) → 1 ≤ length s → (length s == 0) ≡ false
    not_zero s h = ground arith

abbrev Outcome : Option (List (List ℕ)) → ℕ → Type 0
Outcome values sequence =
    ((id : List ℕ) × Brings values id × (request_id_from_metadata values sequence ≡ (id, sequence)))
    ⊎ (((id : List ℕ) → ¬ Brings values id)
        × (request_id_from_metadata values sequence ≡ fresh_id sequence))

Outcome_of : (values : Option (List (List ℕ))) (sequence : ℕ) → Outcome values sequence
unfolding request_id_from_metadata
Outcome_of none sequence = inr ((λ id b. absurd (cc (b.0))), refl)
Outcome_of (some []) sequence = inr ((λ id b. absurd (cc (b.0))), refl)
Outcome_of (some (value ∷ [])) sequence = elim (one_value-cases value sequence) [
  | inl (safe, e) ↦ inl (value, (refl, safe), e)
  | inr (unsafe, e) ↦ inr ((λ id b. unsafe (subst IsSafe (cc) b.1)), e)
]
Outcome_of (some (v ∷ w ∷ values)) sequence = inr ((λ id b. absurd (cc (b.0))), refl)

-- An ID that the server made: the prefix, and a base-36 numeral of the number that the register of the
-- sequence is advanced to.
abbrev pub IsGenerated : List ℕ × ℕ → ℕ → Type 0
IsGenerated r sequence =
    (r.1 ≡ (sequence + 1) % 2 ^ 64)
    × ((digits : List ℕ) × (r.0 ≡ prefix ++ digits) × (parse_uint digits ≡ r.1))

-- Every RPC gets a safe ID: the single value that the client sent, if it is safe, and then the
-- sequence stays; else the server's prefix with a base-36 numeral of the next 64-bit number of the
-- sequence, which advances to that number.
pub grpc_request_id :
    (values : Option (List (List ℕ))) (sequence : ℕ)
    → IsSafe (request_id_from_metadata values sequence).0
      × (((id : List ℕ) × Brings values id
            × (request_id_from_metadata values sequence ≡ (id, sequence)))
          ⊎ (((id : List ℕ) → ¬ Brings values id)
              × IsGenerated (request_id_from_metadata values sequence) sequence))
grpc_request_id values sequence = elim (Outcome_of values sequence) [
  | inl (id, brings, e) ↦ (rw e brings.1, inl (id, brings, e))
  | inr (nothing, e) ↦ (
    rw e (fresh_id-IsSafe sequence),
    inr (
      nothing,
      rw e (
        refl,
        (format_uint (next sequence), refl, parse_uint-format_uint (next sequence) (omega arith)),
      ),
    ),
  )
]

-- Two RPCs that bring no safe ID, at two different values of the 64-bit sequence, get different IDs.
pub grpc_request_ids_distinct :
    (values values' : Option (List (List ℕ))) (sequence sequence' : ℕ)
    → ((id : List ℕ) → ¬ Brings values id)
    → ((id : List ℕ) → ¬ Brings values' id)
    → sequence < 2 ^ 64
    → sequence' < 2 ^ 64
    → sequence ≢ sequence'
    → (request_id_from_metadata values sequence).0 ≢ (request_id_from_metadata values' sequence').0
grpc_request_ids_distinct values values' m n none_sent none_sent' hm hn differ same =
    elim (Outcome_of values m) [
      | inl (id, b, _) ↦ none_sent id b
      | inr (_, e) ↦ elim (Outcome_of values' n) [
        | inl (id, b, _) ↦ none_sent' id b
        | inr (_, e') ↦ differ (
            next_injective m n hm hn
              (ap (drop 8) (sym (ap (λ r. r.0) e) ∙ same ∙ ap (λ r. r.0) e')))
      ]
    ]
  where
    next_injective :
        (a b : ℕ) → a < 2 ^ 64 → b < 2 ^ 64 → format_uint (next a) ≡ format_uint (next b) → a ≡ b
    next_injective a b ha hb e =
        let f : next a ≡ next b = format_uint_injective _ _ (omega arith) (omega arith) e in
        omega arith
