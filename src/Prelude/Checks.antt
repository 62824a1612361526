-- ===== src/Prelude/Checks.antt =====
-- A validation that stops at its first failing test: each test with the error that it reports.
use mathlib.Core.Path.{◌≡◌, refl, subst}
use mathlib.Core.Logic.{◌↔◌}
use mathlib.Core.Bool.{Bool, true, false, false≢true}
use mathlib.Core.Option.{Option, none, some, some-injective}

module _ {ℓ} {E : Type ℓ} where
  -- `if !test { return e }; rest`
  abbrev pub require : Bool → E → Option E → Option E
  require true e rest = rest
  require false e rest = some e

  -- `if err := first; err != nil { return err }; rest`
  abbrev pub and_then : Option E → Option E → Option E
  and_then none rest = rest
  and_then (some e) rest = some e

  pub and_then_iff {κ μ} :
      {P : Type κ} {Q : Type μ} (first rest : Option E)
      → (first ≡ none) ↔ P
      → (P → (rest ≡ none) ↔ Q)
      → (and_then first rest ≡ none) ↔ (P × Q)
  and_then_iff none rest p q = (λ h. (p.0 refl, (q (p.0 refl)).0 h), λ h. (q h.0).1 h.1)
  and_then_iff (some e) rest p q = (λ h. absurd (cc), λ h. absurd (cc (p.1 h.0)))

  -- An error of a chain comes from its first part, or the first part passed.
  pub and_then_error {κ} :
      (V : E → Type κ) (first rest : Option E)
      → ((x : E) → first ≡ some x → V x)
      → (first ≡ none → (x : E) → rest ≡ some x → V x)
      → (x : E) → and_then first rest ≡ some x
      → V x
  and_then_error V none rest now later x h = later refl x h
  and_then_error V (some e) rest now later x h = now x h

  pub require_iff {κ μ} :
      {P : Type κ} {Q : Type μ} (b : Bool) (e : E) (rest : Option E)
      → (b ≡ true) ↔ P
      → (P → (rest ≡ none) ↔ Q)
      → (require b e rest ≡ none) ↔ (P × Q)
  require_iff true e rest p q = (λ h. (p.0 refl, (q (p.0 refl)).0 h), λ h. (q h.0).1 h.1)
  require_iff false e rest p q = (λ h. absurd (cc), λ h. absurd (false≢true (p.1 h.0)))

  -- What holds of every error: of this test's, if its fact fails, and of the later ones, if it holds.
  pub require_error {κ μ} :
      {P : Type κ} (V : E → Type μ) (b : Bool) (e : E) (rest : Option E)
      → (b ≡ true) ↔ P
      → ((P → ⊥) → V e)
      → (P → (x : E) → rest ≡ some x → V x)
      → (x : E) → require b e rest ≡ some x
      → V x
  require_error V true e rest p now later x h = later (p.0 refl) x h
  require_error V false e rest p now later x h =
      subst V (some-injective _ _ h) (now (λ q. false≢true (p.1 q)))
