-- ===== src/Prelude/Go.antt =====
-- What a Go call does: it returns, or it panics.
use mathlib.Core.Bool.{Bool, true, false}

-- A call that comes back with a value, or panics.
pub data Call {ℓ} (A : Type ℓ) : Type ℓ where
  returns : A → Call A
  panics : Call A

infixl 5 ◌>>=◌
abbrev pub ◌>>=◌ {ℓ κ} : {A : Type ℓ} {B : Type κ} → Call A → (A → Call B) → Call B
returns a >>= f = f a
panics >>= f = panics

-- A check that panics when it fails, before a value is returned.
abbrev pub unless_panic {ℓ} : {A : Type ℓ} → Bool → A → Call A
unless_panic true a = returns a
unless_panic false a = panics
