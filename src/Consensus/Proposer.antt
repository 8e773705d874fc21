-- ===== src/Consensus/Proposer.antt =====
-- Who may propose, and under which key: `isExpectedProposerLocked` and `validatorPubKey` of
-- pkg/consensus/hotstuff.go.
use opencoin.Prelude.{
  ℕ, ◌+◌, ◌%◌, List, [], ◌∷◌, length, get_elem?, Bytes, Bool, false, ltb, ◌==◌, if◌then◌else◌,
  Option, none, some, u64_mod,
}
use opencoin.Prelude.Map.{Bytes_key, lookup}
use opencoin.Types.{Address, Validator, ValidatorSet}
use opencoin.Crypto.{bytes_equal}

-- The loop over the validators in order, `acc` the power so far.
unfoldable pub proposer_from : ℕ → ℕ → List Validator → Option Validator
proposer_from seed acc [] = none
proposer_from seed acc (v ∷ vs) =
    let acc' = (acc + v.power) % u64_mod in
    let rest = proposer_from seed acc' vs in if ltb seed acc' then some v else rest

unfoldable pub is_expected_proposer : ValidatorSet → ℕ → ℕ → Address → Bool
is_expected_proposer vs height round addr =
    let seed = (height + round) % u64_mod % vs.total_power in
    if length vs.validators == 0
    then false
    else (if vs.total_power == 0 then false else elim (proposer_from seed 0 vs.validators) [
      | none ↦ false
      | some v ↦ bytes_equal v.operator_address addr
    ])

unfoldable pub validator_pub_key : ValidatorSet → Address → Option Bytes
validator_pub_key vs addr = elim (lookup addr vs.index_by_addr) [
  | none ↦ none
  | some idx ↦ elim (get_elem? vs.validators idx) [
    | none ↦ none
    | some v ↦ some v.consensus_pub_key
  ]
]
