-- ===== src/Quorum/Examples.antt =====
-- The theorems at validator sets of four and seven, and the counts that pkg/types/quorum_test.go
-- refuses.
use final_weave.Prelude.{
  ℕ, ◌<◌, ◌≡◌, refl, ◌↔◌, ◌⊎◌, true, false, none, some, arith, ℤ, pos, ◌≤ℤ◌, returns,
}
use final_weave.Quorum.{
  QuorumParameters, QuorumError, new_quorum_parameters, is_valid, minimum_quorum_intersection,
  zero_parameters, validator_count_not_three_f_plus_one,
}
use final_weave.Quorum.Laws.{tuple_of, IsSupported, AllPanic, quorum_construction}
use final_weave.Quorum.Members.{Members, both, outside, count, first, from}
use final_weave.Quorum.Safety.{quorums_overlap, quorums_share_honest}

built_four : new_quorum_parameters (pos 4) ≡ (tuple_of 1, none)
unfolding new_quorum_parameters
built_four = refl

built_seven : new_quorum_parameters (pos 7) ≡ (tuple_of 2, none)
unfolding new_quorum_parameters
built_seven = refl

quorum_construction_example :
    ((new_quorum_parameters (pos 7) ≡ (tuple_of 2, none)) ↔ IsSupported (pos 7) (tuple_of 2))
    × ((is_valid (tuple_of 2) ≡ true) ↔ ((m : ℤ) × (new_quorum_parameters m ≡ (tuple_of 2, none))))
    × (((built : QuorumParameters) × (new_quorum_parameters (pos 7) ≡ (built, none)))
        ⊎ ((e : QuorumError) × (new_quorum_parameters (pos 7) ≡ (zero_parameters, some e))
            × AllPanic zero_parameters))
quorum_construction_example = quorum_construction (pos 7) (tuple_of 2)

eight_refused :
    (new_quorum_parameters (pos 8)).1 ≡ some (validator_count_not_three_f_plus_one (pos 8))
unfolding new_quorum_parameters
eight_refused = refl

quorums_overlap_example :
    (minimum_quorum_intersection (tuple_of 2) ≡ returns (pos 3))
    × (pos 3 ≤ℤ pos (count 7 (both (first 5) (from 2))))
    × ((c : Members) × (d : Members) × (pos 5 ≡ pos (count 7 c))
        × (pos 5 ≡ pos (count 7 d))
        × (minimum_quorum_intersection (tuple_of 2) ≡ returns (pos (count 7 (both c d)))))
unfolding count
quorums_overlap_example =
    quorums_overlap 7 (tuple_of 2) (first 5) (from 2) built_seven (omega arith) (omega arith)

quorums_share_honest_example :
    ((v : ℕ) × (v < 4) × (first 3 v ≡ true) × (from 1 v ≡ true) × (first 1 v ≡ false))
    × (pos 3 ≤ℤ pos (count 4 (outside (first 1))))
    × (pos 2 ≤ℤ pos (count 4 (both (first 3) (outside (first 1)))))
unfolding count
quorums_share_honest_example =
    quorums_share_honest 4 (tuple_of 1) (first 3) (from 1) (first 1) built_four (omega arith)
      (omega arith) (omega arith)
