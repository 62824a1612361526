-- ===== src/Quorum/Members.antt =====
-- Sets of validators, as tests on the indices below n, and how many members they have. The protocol
-- code that collects votes is not in the repository: this is what its thresholds are for.
use Prim.Native.Nat.{min}
use final_weave.Prelude.{
  ℕ, zero, suc, ◌+◌, ◌-◌, ◌≤◌, ◌<◌, ◌≡◌, Bool, true, false, not, ◌&&◌, ◌||◌, arith, ltb, leb,
  if◌then◌else◌, Bool-cases, inl, inr,
}

abbrev pub Members : Type 0
Members = ℕ → Bool

abbrev pub both : Members → Members → Members
both a b v = a v && b v

abbrev either : Members → Members → Members
either a b v = a v || b v

abbrev pub outside : Members → Members
outside a v = not (a v)

-- How many of the validators 0 .. n - 1 are in the set.
unfoldable pub count : ℕ → Members → ℕ
count zero a = 0
count (suc n) a = count n a + (if a n then 1 else 0)

count-le : (n : ℕ) (a : Members) → count n a ≤ n
unfolding count
count-le zero a = omega arith
count-le (suc n) a = ground (arith, count-le n a)

count-either :
    (n : ℕ) (a b : Members) → count n (both a b) + count n (either a b) ≡ count n a + count n b
unfolding count
count-either zero a b = omega arith
count-either (suc n) a b = ground (arith, count-either n a b)

-- Two sets that are large together overlap.
pub count-both : (n : ℕ) (a b : Members) → count n a + count n b ≤ count n (both a b) + n
count-both n a b = omega (arith, count-either n a b, count-le n (either a b))

pub count-outside : (n : ℕ) (a : Members) → count n a + count n (outside a) ≡ n
unfolding count
count-outside zero a = omega arith
count-outside (suc n) a = ground (arith, count-outside n a)

-- A set with more members than another has one that the other lacks.
pub find_outside :
    (n : ℕ) (a b : Members)
    → count n b < count n a
    → (v : ℕ) × (v < n) × (a v ≡ true) × (b v ≡ false)
unfolding count
find_outside zero a b h = absurd (omega arith)
find_outside (suc n) a b h = elim (Bool-cases (a n && not (b n))) [
  | inl found ↦ (n, omega arith, ground arith, ground arith)
  | inr other ↦ let (v, lt, ha, hb) = find_outside n a b (ground arith) in (v, omega arith, ha, hb)
]

-- The first `k` validators, and all from `k` on.
abbrev pub first : ℕ → Members
first k v = ltb v k

abbrev pub from : ℕ → Members
from k v = leb k v

pub count-first : (n k : ℕ) → count n (first k) ≡ min n k
unfolding count
count-first zero k = omega arith
count-first (suc n) k = ground (arith, count-first n k)

pub count-from : (n k : ℕ) → count n (from k) ≡ n - k
unfolding count
count-from zero k = omega arith
count-from (suc n) k = ground (arith, count-from n k)

pub count-first-from : (n k s : ℕ) → count n (both (first k) (from s)) ≡ min n k - s
unfolding count
count-first-from zero k s = omega arith
count-first-from (suc n) k s = ground (arith, count-first-from n k s)
