-- ===== src/RequestId/Alphabet.antt =====
-- The characters and the length that `acceptedRequestID` allows.
use final_weave.Prelude.{
  ℕ, ◌≤◌, ◌<◌, ◌≡◌, Bool, true, false, ◌&&◌, ◌||◌, List, ◌++◌, ◌∙◌, all, all-append, length,
  length-append, leb, ◌==◌, arith,
}
use final_weave.RequestId.Base36.{digit, format_uint, length-format_uint, all-format_uint}
use final_weave.RequestId.Runes.{runes, all-runes}

-- The condition in the loop.
abbrev pub is_allowed : ℕ → Bool
is_allowed c =
    (leb b'a' c && leb c b'z')
    || (leb b'A' c && leb c b'Z')
    || (leb b'0' c && leb c b'9')
    || c == b'-'
    || c == b'_'
    || c == b'.'

-- What a safe request ID is: 1 to 64 bytes of the alphabet.
pub record IsSafe (s : List ℕ) : Type 0 where
  pub not_empty : 1 ≤ length s
  pub bounded : length s ≤ 64
  pub allowed : all is_allowed s ≡ true

not_allowed : (r : ℕ) → 128 ≤ r → is_allowed r ≡ false
not_allowed r h = ground arith

pub all-runes_allowed : (s : List ℕ) → all is_allowed (runes 0 s) ≡ all is_allowed s
all-runes_allowed = all-runes is_allowed not_allowed

pub digit_allowed : (d : ℕ) → d < 36 → is_allowed (digit d) ≡ true
unfolding digit
digit_allowed d h = ground arith

-- An ID that an adapter makes up: its prefix of eight allowed characters, and a number.
pub generated-IsSafe :
    (prefix : List ℕ) (n : ℕ)
    → length prefix ≡ 8
    → all is_allowed prefix ≡ true
    → IsSafe (prefix ++ format_uint n)
generated-IsSafe prefix n eight allowed =
    let size = length-append prefix (format_uint n) in
    record {
      not_empty = omega (arith, size);
      bounded = omega (arith, size, length-format_uint n);
      allowed =
          all-append is_allowed prefix (format_uint n)
          ∙ rw allowed (all-format_uint is_allowed digit_allowed n);
    }
