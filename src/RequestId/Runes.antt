-- ===== src/RequestId/Runes.antt =====
-- `for _, character := range s`: the runes of a byte string, with U+FFFD and a width of 1 for what is
-- not UTF-8, as the Go specification and package unicode/utf8 say.
use final_weave.Prelude.{
  ℕ, zero, suc, ◌+◌, ◌-◌, ◌*◌, ◌≤◌, ◌<◌, ◌≡◌, refl, ap, Bool, false, ◌&&◌, List, [], ◌∷◌, all, leb,
  ltb, ◌==◌, if◌then◌else◌, arith, Bool-cases, inl, inr, ltb→lt,
}

-- The rune and the width of a byte that starts no valid sequence.
abbrev rune_error : ℕ × ℕ
rune_error = (0xfffd, 1)

-- The least and the greatest second byte after each first byte.
abbrev lowest_second : ℕ → ℕ
lowest_second b = if b == 0xe0 then 0xa0 else if b == 0xf0 then 0x90 else 0x80

abbrev highest_second : ℕ → ℕ
highest_second b = if b == 0xed then 0x9f else if b == 0xf4 then 0x8f else 0xbf

abbrev is_continuation : ℕ → Bool
is_continuation b = leb 0x80 b && leb b 0xbf

abbrev starts_sequence : ℕ → ℕ → Bool
starts_sequence b c =
    (leb 0xc2 b && leb b 0xf4) && (leb (lowest_second b) c && leb c (highest_second b))

fourth : ℕ → ℕ → ℕ → List ℕ → ℕ × ℕ
fourth b c d [] = rune_error
fourth b c d (e ∷ _) =
    if is_continuation e
    then ((b - 0xf0) * 262144 + (c - 0x80) * 4096 + (d - 0x80) * 64 + (e - 0x80), 4)
    else rune_error

third : ℕ → ℕ → List ℕ → ℕ × ℕ
third b c [] = rune_error
third b c (d ∷ rest) =
    if is_continuation d
    then (if ltb b 0xf0
        then ((b - 0xe0) * 4096 + (c - 0x80) * 64 + (d - 0x80), 3)
        else fourth b c d rest)
    else rune_error

second : ℕ → List ℕ → ℕ × ℕ
second b [] = rune_error
second b (c ∷ rest) =
    if starts_sequence b c
    then (if ltb b 0xe0 then ((b - 0xc0) * 64 + (c - 0x80), 2) else third b c rest)
    else rune_error

-- The first rune of a string that begins with the byte `b`, and its width.
unfoldable pub rune_at : ℕ → List ℕ → ℕ × ℕ
unfolding second third fourth
rune_at b rest = if ltb b 0x80 then (b, 1) else second b rest

-- The runes of a string whose first `skip` bytes belong to a rune already read.
unfoldable pub runes : ℕ → List ℕ → List ℕ
unfolding rune_at
runes skip [] = []
runes zero (b ∷ rest) = let (rune, width) = rune_at b rest in rune ∷ runes (width - 1) rest
runes (suc skip) (b ∷ rest) = runes skip rest

fourth-ge :
    (b c d : ℕ) (rest : List ℕ) → 0xf0 ≤ b → lowest_second b ≤ c → 128 ≤ (fourth b c d rest).0
unfolding fourth
fourth-ge b c d [] hb hc = omega arith
fourth-ge b c d (e ∷ rest) hb hc = ground arith

third-ge : (b c : ℕ) (rest : List ℕ) → 0xe0 ≤ b → lowest_second b ≤ c → 128 ≤ (third b c rest).0
unfolding third
third-ge b c [] hb hc = omega arith
third-ge b c (d ∷ rest) hb hc = ground (arith, fourth-ge b c d rest)

-- A byte outside ASCII never yields an ASCII rune.
rune_at-ge : (b : ℕ) (rest : List ℕ) → 128 ≤ b → 128 ≤ (rune_at b rest).0
unfolding rune_at
rune_at-ge b [] h = ground arith
rune_at-ge b (c ∷ rest) h = ground (arith, third-ge b c rest)

rune_at-ascii : (b : ℕ) (rest : List ℕ) → b < 128 → rune_at b rest ≡ (b, 1)
unfolding rune_at
rune_at-ascii b rest h = ground arith

-- For a test that no rune outside ASCII passes, the loop over runes is one over bytes.
pub all-runes :
    (p : ℕ → Bool) → ((r : ℕ) → 128 ≤ r → p r ≡ false) → (s : List ℕ) → all p (runes 0 s) ≡ all p s
unfolding runes
all-runes p ascii [] = refl
all-runes p ascii (b ∷ rest) = elim (Bool-cases (ltb b 128)) [
  | inl small ↦
      rw (rune_at-ascii b rest (ltb→lt b 128 small)) (ap (λ x. p b && x) (all-runes p ascii rest))
  | inr large ↦ rw (ascii _ (rune_at-ge b rest (ground arith)), ascii b (ground arith))
]
