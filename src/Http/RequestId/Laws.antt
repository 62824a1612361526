-- ===== src/Http/RequestId/Laws.antt =====
-- The request IDs of the HTTP adapter.
use final_weave.Prelude.{
  ◌+◌, ◌%◌, ℕ, ◌^◌, ◌≤◌, ◌<◌, ◌≡◌, refl, ◌≢◌, ◌⊎◌, inl, inr, ap, sym, ◌∙◌, false, ◌||◌, List, [],
  ◌++◌, all, drop, length, ltb, ◌==◌, arith, Bool-cases,
}
use final_weave.RequestId.Base36.{
  format_uint, format_uint_injective, parse_uint, parse_uint-format_uint,
}
use final_weave.RequestId.Alphabet.{is_allowed, IsSafe, all-runes_allowed, generated-IsSafe}
use final_weave.Http.RequestId.{accepted_request_id, prefix, next, request_id}

-- A candidate is passed on unchanged exactly if it is safe, else dropped.
accepted_request_id-cases :
    (s : List ℕ)
    → (IsSafe s × (accepted_request_id s ≡ s)) ⊎ ((¬ IsSafe s) × (accepted_request_id s ≡ []))
unfolding accepted_request_id
accepted_request_id-cases s = elim (Bool-cases (length s == 0 || ltb 64 (length s))) [
  | inl out ↦ inr ((λ v. ground arith), rw out)
  | inr sized ↦ elim (Bool-cases (all is_allowed s)) [
    | inl good ↦ inl (
      record { not_empty = ground arith; bounded = ground arith; allowed = good },
      rw (sized, all-runes_allowed s, good),
    )
    | inr bad ↦ inr ((λ v. cc (v.allowed)), rw (sized, all-runes_allowed s, bad))
  ]
]

fresh_id-IsSafe : (sequence : ℕ) → IsSafe (prefix ++ format_uint (next sequence))
fresh_id-IsSafe sequence = generated-IsSafe prefix (next sequence) refl refl

-- The two ways to an ID.
request_id-cases :
    (header : List ℕ) (sequence : ℕ)
    → (IsSafe header × (request_id header sequence ≡ (header, sequence)))
      ⊎ ((¬ IsSafe header)
          × (request_id header sequence ≡ (prefix ++ format_uint (next sequence), next sequence)))
unfolding request_id
request_id-cases header sequence = elim (accepted_request_id-cases header) [
  | inl (safe, e) ↦ inl (safe, rw e (rw (not_zero header safe.not_empty)))
  | inr (unsafe, e) ↦ inr (unsafe, rw e)
]
  where
    not_zero : (s : List ℕ) → 1 ≤ length s → (length s == 0) ≡ false
    not_zero s h = ground arith

-- An ID that the server made: the prefix, and a base-36 numeral of the number that the register of the
-- sequence is advanced to.
abbrev pub IsGenerated : List ℕ × ℕ → ℕ → Type 0
IsGenerated r sequence =
    (r.1 ≡ (sequence + 1) % 2 ^ 64)
    × ((digits : List ℕ) × (r.0 ≡ prefix ++ digits) × (parse_uint digits ≡ r.1))

-- Every request gets a safe ID: the header's value if that is safe, and then the sequence stays; else
-- the server's prefix with a base-36 numeral of the next 64-bit number of the sequence, which advances
-- to that number.
pub http_request_id :
    (header : List ℕ) (sequence : ℕ)
    → IsSafe (request_id header sequence).0
      × ((IsSafe header × (request_id header sequence ≡ (header, sequence)))
          ⊎ ((¬ IsSafe header) × IsGenerated (request_id header sequence) sequence))
http_request_id header sequence = elim (request_id-cases header sequence) [
  | inl (safe, e) ↦ (rw e safe, inl (safe, e))
  | inr (unsafe, e) ↦ (
    rw e (fresh_id-IsSafe sequence),
    inr (
      unsafe,
      rw e (
        refl,
        (format_uint (next sequence), refl, parse_uint-format_uint (next sequence) (omega arith)),
      ),
    ),
  )
]

-- Two requests without a safe header, at two different values of the 64-bit sequence, get different
-- IDs.
pub http_request_ids_distinct :
    (header header' : List ℕ) (sequence sequence' : ℕ)
    → ¬ IsSafe header
    → ¬ IsSafe header'
    → sequence < 2 ^ 64
    → sequence' < 2 ^ 64
    → sequence ≢ sequence'
    → (request_id header sequence).0 ≢ (request_id header' sequence').0
http_request_ids_distinct header header' m n bad bad' hm hn differ same =
    elim (request_id-cases header m) [
      | inl (safe, _) ↦ bad safe
      | inr (_, e) ↦ elim (request_id-cases header' n) [
        | inl (safe', _) ↦ bad' safe'
        | inr (_, e') ↦ differ (
            next_injective m n hm hn
              (ap (drop 8) (sym (ap (λ r. r.0) e) ∙ same ∙ ap (λ r. r.0) e')))
      ]
    ]
  where
    next_injective :
        (a b : ℕ) → a < 2 ^ 64 → b < 2 ^ 64 → format_uint (next a) ≡ format_uint (next b) → a ≡ b
    next_injective a b ha hb e =
        let f : next a ≡ next b = format_uint_injective _ _ (omega arith) (omega arith) e in
        omega arith
