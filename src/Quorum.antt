-- ===== src/Quorum.antt =====
-- pkg/types/quorum.go: the n/f/q/k tuple of a validator set. `int` is a signed integer; the sums and
-- products of the code stay far below 64 bits, because a range check stands before each of them.
pub mod Laws
pub mod Members
pub mod Safety
mod Examples
use final_weave.Prelude.{
  ◌≡◌, Bool, not, ◌||◌, Option, none, some, if◌then◌else◌, ℤ, pos, ◌+ℤ◌, ◌-ℤ◌, ◌*ℤ◌, div_ℤ, mod_ℤ,
  ltb_ℤ, eqb_ℤ, Call, unless_panic,
}

abbrev pub min_validator_count : ℤ
min_validator_count = pos 4

abbrev pub max_validator_count : ℤ
max_validator_count = pos 253

-- The two sentinel errors, each with the count that `fmt.Errorf` prints.
pub data QuorumError : Type 0 where
  validator_count_out_of_range : ℤ → QuorumError
  validator_count_not_three_f_plus_one : ℤ → QuorumError

pub record QuorumParameters : Type 0 where
  pub validator_count : ℤ
  pub max_byzantine : ℤ
  pub quorum : ℤ
  pub recovery_threshold : ℤ

-- `QuorumParameters{}`
abbrev pub zero_parameters : QuorumParameters
zero_parameters = record {
  validator_count = pos 0;
  max_byzantine = pos 0;
  quorum = pos 0;
  recovery_threshold = pos 0;
}

abbrev pub parameters_of : ℤ → QuorumParameters
parameters_of n =
    let f = div_ℤ (n -ℤ pos 1) 3 in
    record {
      validator_count = n;
      max_byzantine = f;
      quorum = pos 2 *ℤ f +ℤ pos 1;
      recovery_threshold = f +ℤ pos 1;
    }

-- `NewQuorumParameters`, with the value and the error that it returns.
unfoldable pub new_quorum_parameters : ℤ → QuorumParameters × Option QuorumError
new_quorum_parameters n =
    if ltb_ℤ n min_validator_count || ltb_ℤ max_validator_count n
    then (zero_parameters, some (validator_count_out_of_range n))
    else if not (eqb_ℤ (mod_ℤ (n -ℤ pos 1) 3) (pos 0))
    then (zero_parameters, some (validator_count_not_three_f_plus_one n))
    else (parameters_of n, none)

-- The test of `mustBeValid`, true where it does not panic.
unfoldable pub is_valid : QuorumParameters → Bool
is_valid p = not (
    ltb_ℤ p.validator_count min_validator_count
    || ltb_ℤ max_validator_count p.validator_count
    || not (eqb_ℤ (mod_ℤ (p.validator_count -ℤ pos 1) 3) (pos 0))
    || not (eqb_ℤ p.max_byzantine (div_ℤ (p.validator_count -ℤ pos 1) 3))
    || not (eqb_ℤ p.quorum (pos 2 *ℤ p.max_byzantine +ℤ pos 1))
    || not (eqb_ℤ p.recovery_threshold (p.max_byzantine +ℤ pos 1)))

unfoldable pub validator_count : QuorumParameters → Call ℤ
validator_count p = unless_panic (is_valid p) p.validator_count

unfoldable pub max_byzantine : QuorumParameters → Call ℤ
max_byzantine p = unless_panic (is_valid p) p.max_byzantine

unfoldable pub quorum : QuorumParameters → Call ℤ
quorum p = unless_panic (is_valid p) p.quorum

unfoldable pub recovery_threshold : QuorumParameters → Call ℤ
recovery_threshold p = unless_panic (is_valid p) p.recovery_threshold

unfoldable pub minimum_quorum_intersection : QuorumParameters → Call ℤ
minimum_quorum_intersection p = unless_panic (is_valid p) (pos 2 *ℤ p.quorum -ℤ p.validator_count)
