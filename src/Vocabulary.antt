-- ===== src/Vocabulary.antt =====
-- Closed vocabularies: what the adapters of pkg/api log of a request that a client chose.
use Prim.Native.String.{String}
use final_weave.Prelude.{◌≡◌, ◌⊎◌, List, [], ◌∷◌}

abbrev pub IsOneOf : String → List String → Type 0
IsOneOf s [] = ⊥
IsOneOf s (t ∷ ts) = (s ≡ t) ⊎ IsOneOf s ts
