-- ===== src/Quorum/Laws.antt =====
-- pkg/types/quorum.go: the construction of the tuple and the test of its accessors.
use final_weave.Prelude.{
  ℕ, ◌+◌, ◌-◌, ◌*◌, ◌/◌, ◌≤◌, ◌≡◌, refl, sym, ap, subst, ◌∙◌, ◌↔◌, ◌⊎◌, inl, inr, Bool, true, false,
  not, ◌||◌, Bool-cases, none, some, arith, ℤ, pos, negsuc, ◌+ℤ◌, ◌-ℤ◌, ◌*ℤ◌, div_ℤ, mod_ℤ, ltb_ℤ,
  eqb_ℤ, panics,
}
use final_weave.Quorum.{
  QuorumParameters, QuorumError, new_quorum_parameters, is_valid, validator_count, max_byzantine,
  quorum, recovery_threshold, minimum_quorum_intersection, zero_parameters, parameters_of,
  min_validator_count, max_validator_count, validator_count_out_of_range,
  validator_count_not_three_f_plus_one,
}

-- The tuple for `f` Byzantine members.
abbrev pub tuple_of : ℕ → QuorumParameters
tuple_of f = record {
  validator_count = pos (3 * f + 1);
  max_byzantine = pos f;
  quorum = pos (2 * f + 1);
  recovery_threshold = pos (f + 1);
}

-- The validator counts that v1 supports, each with its tuple.
abbrev pub IsSupported : ℤ → QuorumParameters → Type 0
IsSupported n p = (f : ℕ) × (1 ≤ f) × (f ≤ 84) × (n ≡ pos (3 * f + 1)) × (p ≡ tuple_of f)

-- The two tests of `NewQuorumParameters`, read as facts about the count.
in_range :
    (n : ℤ)
    → (ltb_ℤ n min_validator_count || ltb_ℤ max_validator_count n) ≡ false
    → (m : ℕ) × (4 ≤ m) × (m ≤ 253) × (n ≡ pos m)
in_range (pos m) h = (m, ground arith, ground arith, refl)
in_range (negsuc m) h = absurd (ground arith)

not-eqb_ℤ : (a b : ℤ) → not (eqb_ℤ a b) ≡ false → a ≡ b
not-eqb_ℤ a b h = ground arith

divisible : (m : ℕ) → 4 ≤ m → mod_ℤ (pos m -ℤ pos 1) 3 ≡ pos 0 → m ≡ 3 * ((m - 1) / 3) + 1
divisible m lo h = ground arith

parameters_of-tuple_of : (f : ℕ) → parameters_of (pos (3 * f + 1)) ≡ tuple_of f
parameters_of-tuple_of f = ground arith

-- What the two tests leave: a supported count.
supported :
    (n : ℤ)
    → (ltb_ℤ n min_validator_count || ltb_ℤ max_validator_count n) ≡ false
    → not (eqb_ℤ (mod_ℤ (n -ℤ pos 1) 3) (pos 0)) ≡ false
    → IsSupported n (parameters_of n)
supported n r d =
    let (m, lo, hi, e) = in_range n r in
    let three : m ≡ 3 * ((m - 1) / 3) + 1 =
      divisible m lo (rw e at (not-eqb_ℤ (mod_ℤ (n -ℤ pos 1) 3) (pos 0) d)) in
    let count : n ≡ pos (3 * ((m - 1) / 3) + 1) = e ∙ ap pos three in
    (
      (m - 1) / 3,
      omega arith,
      omega arith,
      count,
      ap parameters_of count ∙ parameters_of-tuple_of ((m - 1) / 3),
    )

accepts : (f : ℕ) → 1 ≤ f → f ≤ 84 → new_quorum_parameters (pos (3 * f + 1)) ≡ (tuple_of f, none)
unfolding new_quorum_parameters
accepts f lo hi = ground arith

-- The three ways out of `NewQuorumParameters`.
new_quorum_parameters-cases :
    (n : ℤ)
    → ((new_quorum_parameters n ≡ (parameters_of n, none)) × IsSupported n (parameters_of n))
      ⊎ ((e : QuorumError) × (new_quorum_parameters n ≡ (zero_parameters, some e)))
unfolding new_quorum_parameters
new_quorum_parameters-cases n =
    elim (Bool-cases (ltb_ℤ n min_validator_count || ltb_ℤ max_validator_count n)) [
      | inl out ↦ inr (validator_count_out_of_range n, rw out)
      | inr within ↦ elim (Bool-cases (not (eqb_ℤ (mod_ℤ (n -ℤ pos 1) 3) (pos 0)))) [
        | inl rest ↦ inr (validator_count_not_three_f_plus_one n, rw (within, rest))
        | inr exact ↦ inl (rw (within, exact), supported n within exact)
      ]
    ]

IsSupported-of_accepted :
    (n : ℤ) (p : QuorumParameters) → new_quorum_parameters n ≡ (p, none) → IsSupported n p
IsSupported-of_accepted n p h = elim (new_quorum_parameters-cases n) [
  | inl (e, s) ↦ subst (IsSupported n) (cc) s
  | inr (x, e) ↦ cc
]

-- `NewQuorumParameters` returns no error exactly for n = 3f + 1 with f from 1 to 84, and then the
-- tuple is n, f, q = 2f + 1 and k = f + 1.
pub new_quorum_parameters_iff :
    (n : ℤ) (p : QuorumParameters) → (new_quorum_parameters n ≡ (p, none)) ↔ IsSupported n p
new_quorum_parameters_iff n p =
    (IsSupported-of_accepted n p, λ h. rw (h.3, h.4) (accepts h.0 h.1 h.2))

abbrev pub AllPanic : QuorumParameters → Type 0
AllPanic p =
    (validator_count p ≡ panics)
    × (max_byzantine p ≡ panics)
    × (quorum p ≡ panics)
    × (recovery_threshold p ≡ panics)
    × (minimum_quorum_intersection p ≡ panics)

zero_parameters-AllPanic : AllPanic zero_parameters
unfolding is_valid validator_count max_byzantine quorum recovery_threshold
    minimum_quorum_intersection
zero_parameters-AllPanic = (refl, refl, refl, refl, refl)

pub is_valid-tuple_of : (f : ℕ) → 1 ≤ f → f ≤ 84 → is_valid (tuple_of f) ≡ true
unfolding is_valid
is_valid-tuple_of f lo hi = ground arith

neither : (a b : Bool) → a ≡ false → b ≡ false → (a || b) ≡ false
neither a b ha hb = ground arith

six_tests :
    (a b c d e g : Bool)
    → not (a || b || c || d || e || g) ≡ true
    → (a ≡ false) × (b ≡ false) × (c ≡ false) × (d ≡ false) × (e ≡ false) × (g ≡ false)
six_tests a b c d e g h = ground arith

-- On an error the tuple is the zero value, and each of the five accessors panics on it.
new_quorum_parameters_fail_closed :
    (n : ℤ) {e : QuorumError}
    → (new_quorum_parameters n).1 ≡ some e
    → let p = (new_quorum_parameters n).0 in (p ≡ zero_parameters) × AllPanic p
new_quorum_parameters_fail_closed n h = elim (new_quorum_parameters-cases n) [
  | inl (e, s) ↦ cc
  | inr (x, e) ↦ rw e (refl, zero_parameters-AllPanic)
]

parameters_path :
    {n f f' q q' k k' : ℤ}
    → f ≡ f'
    → q ≡ q'
    → k ≡ k'
    → ◌≡◌ {A = QuorumParameters}
        (record { validator_count = n; max_byzantine = f; quorum = q; recovery_threshold = k })
        (record { validator_count = n; max_byzantine = f'; quorum = q'; recovery_threshold = k' })
parameters_path {n} ef eq ek = λ i. record {
  validator_count = n;
  max_byzantine = ef i;
  quorum = eq i;
  recovery_threshold = ek i;
}

-- A tuple that passes `mustBeValid`: its count is supported, and the rest follows from the count.
valid-IsSupported : (p : QuorumParameters) → is_valid p ≡ true → IsSupported p.validator_count p
unfolding is_valid
valid-IsSupported p h =
    let n : ℤ = p.validator_count in
    let (lo, hi, d, f, q, k) =
      six_tests (ltb_ℤ n min_validator_count) (ltb_ℤ max_validator_count n)
        (not (eqb_ℤ (mod_ℤ (n -ℤ pos 1) 3) (pos 0)))
        (not (eqb_ℤ p.max_byzantine (div_ℤ (n -ℤ pos 1) 3)))
        (not (eqb_ℤ p.quorum (pos 2 *ℤ p.max_byzantine +ℤ pos 1)))
        (not (eqb_ℤ p.recovery_threshold (p.max_byzantine +ℤ pos 1))) h in
    let ef : div_ℤ (n -ℤ pos 1) 3 ≡ p.max_byzantine = sym (not-eqb_ℤ _ _ f) in
    subst (IsSupported n)
      (parameters_path ef (ap (λ x. pos 2 *ℤ x +ℤ pos 1) ef ∙ sym (not-eqb_ℤ _ _ q))
        (ap (λ x. x +ℤ pos 1) ef ∙ sym (not-eqb_ℤ _ _ k)))
      (supported n (neither _ _ lo hi) d)

valid_of_accepted :
    (n : ℤ) (p : QuorumParameters) → new_quorum_parameters n ≡ (p, none) → is_valid p ≡ true
valid_of_accepted n p h =
    let (f, lo, hi, en, ep) = IsSupported-of_accepted n p h in rw ep (is_valid-tuple_of f lo hi)

-- `mustBeValid` lets a tuple through exactly if `NewQuorumParameters` can have built it.
is_valid_iff :
    (p : QuorumParameters) → (is_valid p ≡ true) ↔ ((n : ℤ) × (new_quorum_parameters n ≡ (p, none)))
is_valid_iff p = (
  λ h. (p.validator_count, (new_quorum_parameters_iff _ p).1 (valid-IsSupported p h)),
  λ h. valid_of_accepted h.0 p h.1,
)

-- `NewQuorumParameters` accepts exactly the counts n = 3f + 1 of the supported range, with the tuple
-- that follows from f. `mustBeValid` lets exactly the tuples through that it can have built. On an
-- error the tuple is the zero value, and each of the five accessors panics on that.
pub quorum_construction :
    (n : ℤ) (p : QuorumParameters)
    → ((new_quorum_parameters n ≡ (p, none)) ↔ IsSupported n p)
      × ((is_valid p ≡ true) ↔ ((m : ℤ) × (new_quorum_parameters m ≡ (p, none))))
      × (((built : QuorumParameters) × (new_quorum_parameters n ≡ (built, none)))
          ⊎ ((e : QuorumError) × (new_quorum_parameters n ≡ (zero_parameters, some e))
              × AllPanic zero_parameters))
quorum_construction n p = (
  new_quorum_parameters_iff n p,
  is_valid_iff p,
  elim (new_quorum_parameters-cases n) [
    | inl (built, _) ↦ inl (parameters_of n, built)
    | inr (e, refused) ↦ inr (e, refused, zero_parameters-AllPanic)
  ],
)
