-- ===== src/Threads.antt =====
-- Goroutines as a list of program points, and how many of them stand at points of some kind.
use final_weave.Prelude.{
  ℕ, zero, suc, ◌+◌, ◌≤◌, ◌<◌, ◌≡◌, refl, ◌≢◌, ap, some, List, [], ◌∷◌, ◌++◌, get_elem?, set, All,
  arith, length,
}
use mathlib.Core.Option.{some-injective}
use native.Mathlib.Decide.{dec_lt}

module _ {ℓ} {A : Type ℓ} where
  unfoldable pub total : (A → ℕ) → List A → ℕ
  total w [] = 0
  total w (x ∷ xs) = w x + total w xs

  -- A step of one goroutine moves its weight.
  pub total-set :
      (w : A → ℕ) (xs : List A) (i : ℕ) (x y : A)
      → get_elem? xs i ≡ some x
      → total w (set xs i y) + w x ≡ total w xs + w y
  unfolding total
  total-set w [] i x y h = absurd (cc)
  total-set w (z ∷ xs) zero x y h = let e : w z ≡ w x = ap w (some-injective _ _ h) in omega arith
  total-set w (z ∷ xs) (suc i) x y h = omega (arith, total-set w xs i x y h)

  -- A new goroutine adds its weight.
  pub total-spawn : (w : A → ℕ) (xs : List A) (y : A) → total w (xs ++ y ∷ []) ≡ total w xs + w y
  unfolding total
  total-spawn w [] y = omega arith
  total-spawn w (x ∷ xs) y = omega (arith, total-spawn w xs y)

  pub le-total :
      (w : A → ℕ) (xs : List A) (i : ℕ) (x : A) → get_elem? xs i ≡ some x → w x ≤ total w xs
  unfolding total
  le-total w [] i x h = absurd (cc)
  le-total w (z ∷ xs) zero x h = let e : w z ≡ w x = ap w (some-injective _ _ h) in omega arith
  le-total w (z ∷ xs) (suc i) x h = omega (arith, le-total w xs i x h)

  pub add-le-total :
      (w : A → ℕ) (xs : List A) (i j : ℕ) (x y : A)
      → i ≢ j
      → get_elem? xs i ≡ some x
      → get_elem? xs j ≡ some y
      → w x + w y ≤ total w xs
  unfolding total
  add-le-total w [] i j x y d hi hj = absurd (cc)
  add-le-total w (z ∷ xs) zero zero x y d hi hj = absurd (d refl)
  add-le-total w (z ∷ xs) zero (suc j) x y d hi hj =
      let e : w z ≡ w x = ap w (some-injective _ _ hi) in omega (arith, le-total w xs j y hj)
  add-le-total w (z ∷ xs) (suc i) zero x y d hi hj =
      let e : w z ≡ w y = ap w (some-injective _ _ hj) in omega (arith, le-total w xs i x hi)
  add-le-total w (z ∷ xs) (suc i) (suc j) x y d hi hj =
      omega (arith, add-le-total w xs i j x y (λ e. d (ap suc e)) hi hj)

  -- If the weights add up to something, some goroutine has one.
  pub find_weight :
      (w : A → ℕ) (xs : List A)
      → 0 < total w xs
      → (i : ℕ) × (x : A) × (get_elem? xs i ≡ some x) × (0 < w x)
  unfolding total
  find_weight w [] h = absurd (omega arith)
  find_weight w (z ∷ xs) h = elim (dec_lt 0 (w z)) [
    | yes here ↦ (0, z, refl, here)
    | no elsewhere ↦ let (i, x, e, pos) = find_weight w xs (omega arith) in (suc i, x, e, pos)
  ]

  pub All-set {κ} :
      (P : A → Type κ) (xs : List A) (i : ℕ) (y : A) → All P xs → P y → All P (set xs i y)
  All-set P [] i y h hy = tt
  All-set P (x ∷ xs) zero y h hy = (hy, h.1)
  All-set P (x ∷ xs) (suc i) y h hy = (h.0, All-set P xs i y h.1 hy)

  pub All-map_weaken {κ} :
      (P Q : A → Type κ) (xs : List A) → ((x : A) → P x → Q x) → All P xs → All Q xs
  All-map_weaken P Q [] f h = tt
  All-map_weaken P Q (x ∷ xs) f h = (f x h.0, All-map_weaken P Q xs f h.1)

  pub get_elem?-set_self :
      (xs : List A) (i : ℕ) (x y : A) → get_elem? xs i ≡ some x → get_elem? (set xs i y) i ≡ some y
  get_elem?-set_self [] i x y h = absurd (cc)
  get_elem?-set_self (z ∷ xs) zero x y h = refl
  get_elem?-set_self (z ∷ xs) (suc i) x y h = get_elem?-set_self xs i x y h

  pub get_elem?-set_ne :
      (xs : List A) (i j : ℕ) (y : A) → i ≢ j → get_elem? (set xs i y) j ≡ get_elem? xs j
  get_elem?-set_ne [] i j y d = refl
  get_elem?-set_ne (z ∷ xs) zero zero y d = absurd (d refl)
  get_elem?-set_ne (z ∷ xs) zero (suc j) y d = refl
  get_elem?-set_ne (z ∷ xs) (suc i) zero y d = refl
  get_elem?-set_ne (z ∷ xs) (suc i) (suc j) y d = get_elem?-set_ne xs i j y (λ e. d (ap suc e))

  -- The goroutine behind those of `xs`.
  pub get_elem?-append_length :
      (xs : List A) (x : A) (ys : List A) → get_elem? (xs ++ x ∷ ys) (length xs) ≡ some x
  get_elem?-append_length [] x ys = refl
  get_elem?-append_length (z ∷ xs) x ys = get_elem?-append_length xs x ys

  pub set-append_length :
      (xs : List A) (x y : A) (ys : List A) → set (xs ++ x ∷ ys) (length xs) y ≡ xs ++ y ∷ ys
  set-append_length [] x y ys = refl
  set-append_length (z ∷ xs) x y ys = ap (λ l. z ∷ l) (set-append_length xs x y ys)

  -- If the weights add up to nothing, no goroutine has one.
  pub All-of_total_zero : (w : A → ℕ) (xs : List A) → total w xs ≡ 0 → All (λ x. w x ≡ 0) xs
  unfolding total
  All-of_total_zero w [] h = tt
  All-of_total_zero w (z ∷ xs) h = (omega arith, All-of_total_zero w xs (omega arith))
