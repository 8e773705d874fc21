-- ===== src/Tests/Rounds.antt =====
-- A validator set of one, its votes and its certificates.
use opencoin.Prelude.{
  ◌≤◌, ◌⊎◌, ℕ, ◌*◌, ◌<◌, ◌≡◌, refl, [], ◌∷◌, true, none, some, ok, arith, All, Bytes_discrete,
}
use opencoin.Prelude.Int.{pos}
use opencoin.Prelude.Map.{DistinctKeys, Bytes_key, lookup, insert}
use opencoin.Types.{
  Address, Hash, Block, Proposal, PrecommitVote, QuorumCertificate, Validator, ValidatorSet,
  zero_hash,
}
use opencoin.Encoding.{
  marshal_proposal, marshal_block, proposal_sign_bytes, precommit_sign_bytes,
  marshal_precommit_vote,
}
use opencoin.Crypto.{bytes_equal}
use opencoin.Dpos.{
  new_dpos, register_validator, Dpos, validator_set, rank, number_from, index_from, sum_power,
  insert_ranked,
}
use opencoin.Consensus.{
  Machine, Keys, Engine, new_engine, load_consensus_state, handle_precommit_vote, check_vote,
  votes_for, record_vote, handle_proposal, check_proposal, check_window, precommit, must_hash_block,
}
use opencoin.Consensus.Proposer.{proposer_from, is_expected_proposer, validator_pub_key}
use opencoin.Consensus.Tally.{Votes, try_build_qc, count_votes, count_vote}
use opencoin.Consensus.Quorum.{quorums_overlap, IsSmall, in_both, signed, validator_set-IsCoherent}
use opencoin.Consensus.Handlers.{handle_precommit_vote-quorum, fresh, OwnVote}
use opencoin.Consensus.Certificate.{verify_qc}
use opencoin.Consensus.Certificate.Built.{verify_qc-try_build_qc}
use opencoin.Consensus.Cast.{handle_precommit_vote-cast}
use opencoin.Consensus.Decided.{try_build_qc-decides}
use opencoin.Dpos.Keyed.{Operated, registers}
use opencoin.Consensus.Turns.{every_validator_proposes}
use opencoin.Tests.Fixtures.{plain_wire}

abbrev pub operator : Address
operator = 1 ∷ []

abbrev sole : Validator
sole = record {
  operator_address = operator;
  consensus_pub_key = 9 ∷ [];
  power = 10;
  stake = 10;
  delegations = [];
  commission = 0;
  index = 0;
  jailed_until_epoch = 0;
}

abbrev pub one_validator : Dpos
one_validator = record { validators = (operator, sole) ∷ []; min_stake = 1; max_validators = 4 }

abbrev one_set : ValidatorSet
one_set = record { validators = sole ∷ []; total_power = 10; index_by_addr = (operator, 0) ∷ [] }

one_set_lem : validator_set one_validator ≡ one_set
unfolding validator_set rank insert_ranked number_from index_from sum_power insert
one_set_lem = refl

one_validator-IsSmall : IsSmall one_validator
one_validator-IsSmall = record { few = omega arith; power = omega arith }

abbrev vote_for : Hash → PrecommitVote
vote_for hash = record {
  block_hash = hash;
  height = 1;
  round = 0;
  validator = operator;
  signature = 7 ∷ [];
}

abbrev votes_of : Hash → Votes
votes_of hash = (operator, vote_for hash) ∷ []

abbrev pub qc_of : Hash → QuorumCertificate
qc_of hash = record {
  block_hash = hash;
  height = 1;
  round = 0;
  sig_bitmap = 1 ∷ [];
  aggregated_sig = [];
  signatures = (7 ∷ []) ∷ [];
}

one_quorum :
    (hash : Hash)
    → try_build_qc (validator_set one_validator) 1 0 hash (votes_of hash) ≡ ok (some (qc_of hash))
unfolding try_build_qc count_votes count_vote validator_set rank insert_ranked number_from
    index_from sum_power insert lookup Bytes_discrete
one_quorum hash = refl

distinct : (hash : Hash) → DistinctKeys (votes_of hash)
unfolding lookup
distinct hash = (refl, tt)

one_validator-Operated : Operated one_validator
unfolding new_dpos register_validator lookup insert
one_validator-Operated = Operated.next (Operated.fresh 1 4) (registers operator (9 ∷ []) 10 0 refl)

try_build_qc-decides_example :
    let vs = validator_set one_validator in
    ((qc : QuorumCertificate) × (try_build_qc vs 1 0 (2 ∷ []) (votes_of (2 ∷ [])) ≡ ok (some qc))
      × (2 * vs.total_power < 3 * signed (votes_of (2 ∷ [])) vs.validators))
    ⊎ ((try_build_qc vs 1 0 (2 ∷ []) (votes_of (2 ∷ [])) ≡ ok none)
        × (3 * signed (votes_of (2 ∷ [])) vs.validators ≤ 2 * vs.total_power))
try_build_qc-decides_example =
    try_build_qc-decides one_validator 1 0 (2 ∷ []) (votes_of (2 ∷ [])) one_validator-IsSmall
      one_validator-Operated (distinct (2 ∷ []))

quorums_overlap_example :
    (validator_set one_validator).total_power
    < 3 * in_both (votes_of (2 ∷ [])) (votes_of (3 ∷ [])) (validator_set one_validator).validators
quorums_overlap_example =
    quorums_overlap one_validator 1 1 0 0 (2 ∷ []) (3 ∷ []) (votes_of (2 ∷ [])) (votes_of (3 ∷ []))
      (qc_of (2 ∷ [])) (qc_of (3 ∷ [])) one_validator-IsSmall (distinct (2 ∷ []))
      (distinct (3 ∷ [])) (one_quorum (2 ∷ [])) (one_quorum (3 ∷ []))

abbrev pub open_keys : Keys
open_keys = record { sign = λ msg. ok (7 ∷ []); verify = λ msg sig key. true; sha256 = λ b. b }

verify_qc-try_build_qc_example :
    verify_qc open_keys (some (qc_of (2 ∷ []))) (some (validator_set one_validator)) ≡ ok tt
verify_qc-try_build_qc_example =
    verify_qc-try_build_qc open_keys (validator_set one_validator) (2 ∷ []) 1 0 (votes_of (2 ∷ []))
      (qc_of (2 ∷ [])) (validator_set-IsCoherent one_validator one_validator-IsSmall)
      ((λ v own idx at. record { nonempty = omega arith; valid = refl }), tt) (one_quorum (2 ∷ []))

every_validator_proposes_example :
    (round : ℕ) × (round < 10)
    × (is_expected_proposer (validator_set one_validator) 5 round operator ≡ true)
unfolding validator_set rank insert_ranked number_from index_from sum_power insert
every_validator_proposes_example =
    every_validator_proposes (validator_set one_validator) 0 sole 5
      (validator_set-IsCoherent one_validator one_validator-IsSmall) refl (omega arith)
      (omega arith)

-- A store that remembers nothing.
abbrev idle_machine : Machine
idle_machine = record {
  State = Unit {0};
  preview_block = λ s block. ok block.state_root;
  apply_block = λ s block. (s, ok block.state_root);
  last_timestamps = λ s. ok [];
  max_skew_sec = λ s. pos 0;
  select_for_block = λ s n. ok [];
  get_consensus_state = λ s. ok (0, 0, zero_hash);
  set_consensus_state = λ s height round last. ok s;
}

abbrev pub first_engine : Engine (Unit {0})
first_engine = record {
  state = tt;
  dpos = one_validator;
  validators = validator_set one_validator;
  height = 0;
  round = 0;
  last_finalized = zero_hash;
  votes = [];
  validator_addr = operator;
  block_max_txs = pos 1000;
}

handle_precommit_vote-quorum_example :
    let after =
      votes_for
        (2 ∷ [])
        (handle_precommit_vote idle_machine open_keys none first_engine
          (some (vote_for (2 ∷ [])))).0.votes in
    DistinctKeys after
    × All (OwnVote (2 ∷ [])) after
    × (2 * (validator_set one_validator).total_power
        < 3 * signed after (validator_set one_validator).validators)
unfolding new_engine load_consensus_state handle_precommit_vote check_vote precommit_sign_bytes
    marshal_precommit_vote validator_pub_key try_build_qc count_votes count_vote validator_set rank
    insert_ranked number_from index_from sum_power insert lookup Bytes_discrete bytes_equal
handle_precommit_vote-quorum_example =
    handle_precommit_vote-quorum idle_machine open_keys none first_engine (vote_for (2 ∷ []))
      (qc_of (2 ∷ [])) (fresh tt one_validator operator (pos 1000) refl) one_validator-IsSmall refl

abbrev next_block : Block
next_block = record {
  height = 1;
  prev_hash = zero_hash;
  state_root = zero_hash;
  timestamp = pos 100;
  proposer = operator;
  transactions = [];
  validator_sigs = [];
}

abbrev next_proposal : Proposal
next_proposal = record { block = some next_block; round = 0; proposer_sig = 7 ∷ [] }

abbrev next_vote : PrecommitVote
next_vote = vote_for (must_hash_block idle_machine open_keys none next_block)

vote_cast :
    handle_proposal idle_machine open_keys none first_engine (some next_proposal) ≡ ok next_vote
unfolding handle_proposal check_proposal check_window precommit must_hash_block proposal_sign_bytes
    precommit_sign_bytes marshal_precommit_vote is_expected_proposer validator_pub_key validator_set
    rank insert_ranked number_from index_from sum_power insert lookup Bytes_discrete bytes_equal
    proposer_from marshal_proposal marshal_block
vote_cast = refl

handle_precommit_vote-cast_example :
    (handle_precommit_vote idle_machine open_keys none first_engine (some next_vote)).0
    ≡ record_vote first_engine next_vote
unfolding validator_pub_key validator_set rank insert_ranked number_from index_from sum_power insert
    lookup Bytes_discrete
handle_precommit_vote-cast_example =
    handle_precommit_vote-cast idle_machine open_keys none open_keys none first_engine first_engine
      next_proposal next_vote (9 ∷ []) (λ msg sig h. refl) refl refl vote_cast
