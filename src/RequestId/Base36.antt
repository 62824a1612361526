-- ===== src/RequestId/Base36.antt =====
-- `strconv.FormatUint(n, 36)`, and its inverse, by which different numbers have different texts.
use native.Mathlib.Nat.{div-lt_iff_lt-mul, pow-suc}
use final_weave.Prelude.{
  ℕ, zero, suc, ◌+◌, ◌-◌, ◌*◌, ◌/◌, ◌%◌, ◌^◌, ◌≤◌, ◌<◌, ◌≡◌, refl, ap, sym, ◌∙◌, Bool, true, all,
  ltb→lt, lt→ltb, List, [], ◌∷◌, length, ltb, if◌then◌else◌, arith, Bool-cases, inl, inr,
}

-- `digits[d]`
unfoldable pub digit : ℕ → ℕ
digit d = if ltb d 10 then b'0' + d else b'a' + (d - 10)

-- The loop of `formatBits`, which fills its buffer from the right; 13 rounds are enough for a uint64.
unfoldable pub format_bits : ℕ → ℕ → List ℕ → List ℕ
unfolding digit
format_bits zero n out = out
format_bits (suc rounds) n out =
    let more = format_bits rounds (n / 36) (digit (n % 36) ∷ out) in
    if ltb n 36 then digit n ∷ out else more

abbrev pub rounds : ℕ
rounds = 13

unfoldable pub format_uint : ℕ → List ℕ
unfolding format_bits
format_uint n = format_bits rounds n []

digit_value : ℕ → ℕ
digit_value c = if ltb c b'a' then c - b'0' else c - b'a' + 10

-- The number that a text stands for, after `n` was read.
value_from : ℕ → List ℕ → ℕ
value_from n [] = n
value_from n (c ∷ s) = value_from (n * 36 + digit_value c) s

digit_value-digit : (d : ℕ) → d < 36 → digit_value (digit d) ≡ d
unfolding digit_value digit
digit_value-digit d h = ground arith

value_from-digit :
    (n d : ℕ) (out : List ℕ) → d < 36 → value_from n (digit d ∷ out) ≡ value_from (n * 36 + d) out
unfolding value_from
value_from-digit n d out h = ap (λ x. value_from (n * 36 + x) out) (digit_value-digit d h)

value_from-first : (n : ℕ) (out : List ℕ) → n < 36 → value_from 0 (digit n ∷ out) ≡ value_from n out
value_from-first n out h = value_from-digit 0 n out h ∙ ap (λ x. value_from x out) (omega arith)

quotient_lt : (k n : ℕ) → n < 36 ^ suc (suc k) → n / 36 < 36 ^ suc k
quotient_lt k n h = (div-lt_iff_lt-mul (omega arith)).1 (rw (pow-suc 36 (suc k)) at h)

-- With enough rounds the text stands for the number.
value_from-format_bits :
    (k n : ℕ) (out : List ℕ)
    → n < 36 ^ suc k
    → value_from 0 (format_bits (suc k) n out) ≡ value_from n out
unfolding format_bits
value_from-format_bits zero n out h =
    rw (lt→ltb n 36 (omega arith)) (value_from-first n out (omega arith))
value_from-format_bits (suc k) n out h = elim (Bool-cases (ltb n 36)) [
  | inl small ↦ rw small (value_from-first n out (ltb→lt n 36 small))
  | inr large ↦ rw large (
      value_from-format_bits k (n / 36) (digit (n % 36) ∷ out) (quotient_lt k n h)
      ∙ value_from-digit (n / 36) (n % 36) out (omega arith)
      ∙ ap (λ x. value_from x out) (omega arith))
]

abbrev pub max_uint64 : ℕ
max_uint64 = 2 ^ 64 - 1

-- The number that a text stands for.
pub parse_uint : List ℕ → ℕ
unfolding value_from
parse_uint s = value_from 0 s

-- `parse_uint` reads back every 64-bit number.
pub parse_uint-format_uint : (n : ℕ) → n ≤ max_uint64 → parse_uint (format_uint n) ≡ n
unfolding parse_uint format_uint value_from
parse_uint-format_uint n h = value_from-format_bits 12 n [] (omega arith)

-- Two different 64-bit numbers have different texts.
pub format_uint_injective :
    (m n : ℕ) → m ≤ max_uint64 → n ≤ max_uint64 → format_uint m ≡ format_uint n → m ≡ n
unfolding format_uint value_from
format_uint_injective m n hm hn e =
    sym (value_from-format_bits 12 m [] (omega arith))
    ∙ ap (value_from 0) e
    ∙ value_from-format_bits 12 n [] (omega arith)

-- A text of the loop has one character for each round at most, and at least one.
length-format_bits :
    (k n : ℕ) (out : List ℕ)
    → (length out ≤ length (format_bits k n out)) × (length (format_bits k n out) ≤ k + length out)
unfolding format_bits
length-format_bits zero n out = omega arith
length-format_bits (suc k) n out =
    ground (arith, length-format_bits k (n / 36) (digit (n % 36) ∷ out))

pub length-format_uint : (n : ℕ) → length (format_uint n) ≤ rounds
unfolding format_uint
length-format_uint n = omega (arith, length-format_bits rounds n [])

-- Every character is a digit.
all-format_bits :
    (p : ℕ → Bool)
    → ((d : ℕ) → d < 36 → p (digit d) ≡ true)
    → (k n : ℕ) (out : List ℕ) → all p out ≡ true
    → all p (format_bits k n out) ≡ true
unfolding format_bits
all-format_bits p each zero n out h = h
all-format_bits p each (suc k) n out h = elim (Bool-cases (ltb n 36)) [
  | inl small ↦ rw small (rw (each n (ltb→lt n 36 small)) h)
  | inr large ↦ rw large (
      all-format_bits p each k (n / 36) (digit (n % 36) ∷ out) (rw (each (n % 36) (omega arith)) h))
]

pub all-format_uint :
    (p : ℕ → Bool)
    → ((d : ℕ) → d < 36 → p (digit d) ≡ true)
    → (n : ℕ) → all p (format_uint n) ≡ true
unfolding format_uint
all-format_uint p each n = all-format_bits p each rounds n [] refl
