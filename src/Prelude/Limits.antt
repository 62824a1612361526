-- ===== src/Prelude/Limits.antt =====
-- Ranges of signed integers, conversions to `uint64`, and limits on a product that the code tests
-- by a division.
use Prim.Native.Nat.{ℕ, ◌-◌, ◌*◌, ◌/◌, ◌%◌, ◌^◌, ◌≤◌, ◌<◌}
use native.Mathlib.Nat.{le-div_iff_mul-le}
use native.Mathlib.Omega.{arith}
use mathlib.Core.Path.{◌≡◌}
use mathlib.Core.Logic.{◌↔◌}
use mathlib.Core.Bool.{Bool, true, ◌&&◌}
use final_weave.Prelude.Int.{ℤ, pos, negsuc, pos_part, ltb_ℤ, leb_ℤ, ◌≤ℤ◌, ◌<ℤ◌}
use final_weave.Prelude.Tests.{leb, ltb}

-- Nanoseconds, as in package time.
abbrev pub second : ℕ
second = 10 ^ 9

abbrev pub minute : ℕ
minute = 60 * second

abbrev pub hour : ℕ
hour = 60 * minute

-- `uint64(x)` of a signed 64-bit integer.
abbrev pub uint64 : ℤ → ℕ
uint64 (pos n) = n % 2 ^ 64
uint64 (negsuc n) = 2 ^ 64 - 1 - n % 2 ^ 64

-- lo ≤ x ≤ hi
abbrev pub InRange : ℕ → ℕ → ℤ → Type 0
InRange lo hi x = (pos lo ≤ℤ x) × (x ≤ℤ pos hi)

-- The test that the code makes, and its form where the lower bound is 1.
abbrev pub in_range : ℕ → ℕ → ℤ → Bool
in_range lo hi x = leb_ℤ (pos lo) x && leb_ℤ x (pos hi)

abbrev pub in_positive_range : ℕ → ℤ → Bool
in_positive_range hi x = ltb_ℤ (pos 0) x && leb_ℤ x (pos hi)

pub in_range_iff : (lo hi : ℕ) (x : ℤ) → (in_range lo hi x ≡ true) ↔ InRange lo hi x
in_range_iff lo hi x = ground arith

pub in_positive_range_iff : (hi : ℕ) (x : ℤ) → (in_positive_range hi x ≡ true) ↔ InRange 1 hi x
in_positive_range_iff hi x = ground arith

pub between_iff : (lo hi n : ℕ) → ((leb lo n && leb n hi) ≡ true) ↔ ((lo ≤ n) × (n ≤ hi))
between_iff lo hi n = ground arith

pub positive_between_iff : (hi n : ℕ) → ((ltb 0 n && leb n hi) ≡ true) ↔ ((1 ≤ n) × (n ≤ hi))
positive_between_iff hi n = ground arith

pub leb_ℤ_iff : (a b : ℤ) → (leb_ℤ a b ≡ true) ↔ (a ≤ℤ b)
leb_ℤ_iff a b = ground arith

pub ltb_ℤ_iff : (a b : ℤ) → (ltb_ℤ a b ≡ true) ↔ (a <ℤ b)
ltb_ℤ_iff a b = ground arith

pub uint64-InRange : (hi : ℕ) (x : ℤ) → hi < 2 ^ 64 → InRange 1 hi x → uint64 x ≡ pos_part x
uint64-InRange hi (pos n) small h = omega arith
uint64-InRange hi (negsuc n) small h = absurd (omega arith)

pub leb_div_iff : (m c r : ℕ) → 1 ≤ r → (leb c (m / r) ≡ true) ↔ (c * r ≤ m)
leb_div_iff m c r h = (
  λ t. (le-div_iff_mul-le h).0 (ground arith),
  λ p. leb_of_le c (m / r) ((le-div_iff_mul-le h).1 p),
)
  where
    leb_of_le : (a b : ℕ) → a ≤ b → leb a b ≡ true
    leb_of_le a b l = ground arith

-- A test by division is exact: it bounds the product, with no product that could overflow.
pub leb-div_iff_product :
    (m hi lim : ℕ) (c r : ℤ)
    → hi < 2 ^ 64
    → lim < 2 ^ 64
    → InRange 1 hi c
    → InRange 1 lim r
    → (leb (uint64 c) (m / uint64 r) ≡ true) ↔ (pos_part c * pos_part r ≤ m)
leb-div_iff_product m hi lim c r small small' hc hr =
    rw (uint64-InRange hi c small hc, uint64-InRange lim r small' hr)
      (leb_div_iff m (pos_part c) (pos_part r) (omega arith))
