-- ===== src/Consensus.antt =====
-- The consensus engine: pkg/consensus/hotstuff.go. What it calls of the state, the store, the mempool
-- and the contracts is the interface `Machine`; keys, signatures, the clock and the network enter as
-- arguments. The engine's mutex makes every handler one step.
pub mod Proposer
pub mod Tally
pub mod Quorum
pub mod Certificate
pub mod Handlers
pub mod Turns
pub mod Cast
pub mod Recovery
pub mod Proposed
pub mod Decided
use opencoin.Prelude.{
  ℕ, zero, suc, ◌+◌, ◌*◌, ◌/◌, ◌%◌, ◌^◌, List, [], ◌∷◌, length, get_elem?, get_or, set, replicate,
  Bytes, Bool, true, false, not, ◌&&◌, ◌||◌, ltb, leb, ◌==◌, if◌then◌else◌, Option, none, some,
  Result, ok, err, panics, stuck, ◌>>=◌, ◌>>◌, and_then, fail_if, or_err, u64_mod,
}
use opencoin.Prelude.Int.{ℤ, ltb_ℤ}
use opencoin.Prelude.Map.{Map, Bytes_key, lookup, insert, erase}
use opencoin.Types.{
  Address, Hash, zero_hash, Transaction, Block, Proposal, PrecommitVote, QuorumCertificate,
  ViewChange, Validator, ValidatorSet,
}
use opencoin.Wire.{Wire}
use opencoin.Encoding.{
  proposal_sign_bytes, precommit_sign_bytes, view_change_sign_bytes, hash_block,
}
use opencoin.Crypto.{bytes_equal}
use opencoin.Rc.{effective_time}
use opencoin.Dpos.{Dpos, validator_set}
use Proposer.{is_expected_proposer, validator_pub_key}
use Tally.{Votes, try_build_qc}

-- A block that fails to apply may still have changed the contracts.
pub record Machine : Type 1 where
  pub State : Type 0
  pub preview_block : State → Block → Result Hash
  pub apply_block : State → Block → State × Result Hash
  pub last_timestamps : State → Result (List ℤ)
  pub max_skew_sec : State → ℤ
  pub select_for_block : State → ℤ → Result (List Transaction)
  pub get_consensus_state : State → Result (ℕ × ℕ × Hash)
  pub set_consensus_state : State → ℕ → ℕ → Hash → Result State

-- The interfaces `Signer` and `Verifier` of pkg/crypto, and SHA-256.
pub record Keys : Type 0 where
  pub sign : Bytes → Result Bytes
  pub verify : Bytes → Bytes → Bytes → Bool
  pub sha256 : Bytes → Hash

-- The interface `Network`: whether a message was sent.
pub record Network : Type 0 where
  pub broadcast_proposal : Proposal → Result (Unit {0})
  pub broadcast_precommit : PrecommitVote → Result (Unit {0})
  pub broadcast_qc : QuorumCertificate → Result (Unit {0})

-- The fields that the handlers read or change. The validators are shared by pointer, but nothing
-- registers, delegates or slashes once the node has started: the engine holds them as a value. Of the configuration only the block's size is read.
pub record Engine (S : Type 0) : Type 0 where
  pub state : S
  pub dpos : Dpos
  pub validators : ValidatorSet
  pub height : ℕ
  pub round : ℕ
  pub last_finalized : Hash
  pub votes : Map Hash Votes
  pub validator_addr : Address
  pub block_max_txs : ℤ

-- `e.votes[hash]`, a new map for a missing key.
abbrev pub votes_for : Hash → Map Hash Votes → Votes
votes_for hash m = elim (lookup hash m) [ none ↦ [] | some votes ↦ votes ]

abbrev pub record_vote : {S : Type 0} → Engine S → PrecommitVote → Engine S
record_vote e vote = record e {
  votes =
      insert vote.block_hash (insert vote.validator vote (votes_for vote.block_hash e.votes))
        e.votes;
}

module _ (m : Machine) where
  -- An error of the store leaves the engine as it is.
  unfoldable pub persist_consensus_state : Engine m.State → Engine m.State × Result (Unit {0})
  persist_consensus_state e =
      and_then e (m.set_consensus_state e.state e.height e.round e.last_finalized)
        (λ s. (record e { state = s }, ok tt))

  unfoldable pub load_consensus_state : Engine m.State → Result (Engine m.State)
  load_consensus_state e = do
    (height, round, last_finalized) ← m.get_consensus_state e.state
    ok (record e {
      height = if ltb 0 height then height else e.height;
      round = if ltb 0 round then round else e.round;
      last_finalized =
          if bytes_equal last_finalized zero_hash then e.last_finalized else last_finalized;
    })

  unfoldable pub new_engine : m.State → Dpos → Address → ℤ → Result (Engine m.State)
  unfolding load_consensus_state
  new_engine state dpos operator block_max_txs = load_consensus_state (record {
    state = state;
    dpos = dpos;
    validators = validator_set dpos;
    height = 0;
    round = 0;
    last_finalized = zero_hash;
    votes = [];
    validator_addr = operator;
    block_max_txs = block_max_txs;
  })

  -- `OnTimeout`: the outcome of the write is dropped.
  unfoldable pub on_timeout : Engine m.State → Engine m.State
  unfolding persist_consensus_state
  on_timeout e = (persist_consensus_state (record e { round = (e.round + 1) % u64_mod })).0

  module _ ⦃w : Wire⦄ (k : Keys) (net : Option Network) where
    -- `mustHashBlock`: the hash of a block that cannot be encoded is the zero hash.
    unfoldable pub must_hash_block : Block → Hash
    must_hash_block block = elim (hash_block k.sha256 (some block)) [
      | ok h ↦ h
      | err _ ↦ zero_hash
      | panics _ ↦ zero_hash
      | stuck ↦ zero_hash
    ]

    abbrev send_proposal : Proposal → Result (Unit {0})
    send_proposal prop = elim net [ none ↦ ok tt | some n ↦ n.broadcast_proposal prop ]

    abbrev send_precommit : PrecommitVote → Result (Unit {0})
    send_precommit vote = elim net [ none ↦ ok tt | some n ↦ n.broadcast_precommit vote ]

    unfoldable pub propose_block : Engine m.State → ℤ → Result Proposal
    propose_block e now = do
      fail_if (not (is_expected_proposer e.validators e.height e.round e.validator_addr))
          "not proposer"
      txs ← m.select_for_block e.state e.block_max_txs
      let block : Block = record {
        height = (e.height + 1) % u64_mod;
        prev_hash = e.last_finalized;
        state_root = zero_hash;
        timestamp = now;
        proposer = e.validator_addr;
        transactions = txs;
        validator_sigs = replicate (length e.validators.validators) [];
      }
      root ← m.preview_block e.state block
      let prop : Proposal = record {
        block = some (record block { state_root = root });
        round = e.round;
        proposer_sig = [];
      }
      prop_bytes ← proposal_sign_bytes (some prop)
      sig ← k.sign prop_bytes
      let signed : Proposal = record prop { proposer_sig = sig }
      send_proposal signed
      ok signed

    -- The timestamp is its own effective time, unless no timestamps are known.
    unfoldable pub check_window : Engine m.State → ℤ → Result (Unit {0})
    check_window e timestamp = do
      recent ← m.last_timestamps e.state
      let effective = effective_time timestamp recent (m.max_skew_sec e.state)
      fail_if (ltb 0 (length recent) && (ltb_ℤ effective timestamp || ltb_ℤ timestamp effective))
          "block timestamp outside allowed window"

    -- What `HandleProposal` checks before it votes.
    unfoldable pub check_proposal : Engine m.State → Proposal → Block → Result (Unit {0})
    check_proposal e prop block = do
      fail_if (not (block.height == (e.height + 1) % u64_mod)) "unexpected height"
      fail_if (not (bytes_equal block.prev_hash e.last_finalized)) "unexpected previous hash"
      fail_if (not (is_expected_proposer e.validators e.height e.round block.proposer))
          "unexpected proposer"
      prop_bytes ← proposal_sign_bytes (some prop)
      key ← or_err (validator_pub_key e.validators block.proposer) "unknown proposer"
      fail_if (not (k.verify prop_bytes prop.proposer_sig key)) "invalid proposer signature"
      check_window e block.timestamp
      preview_root ← m.preview_block e.state block
      fail_if (not (bytes_equal preview_root block.state_root)) "state root mismatch"

    unfoldable pub precommit : Engine m.State → Proposal → Block → Result PrecommitVote
    precommit e prop block = do
      let vote : PrecommitVote = record {
        block_hash = must_hash_block block;
        height = block.height;
        round = prop.round;
        validator = e.validator_addr;
        signature = [];
      }
      vote_bytes ← precommit_sign_bytes (some vote)
      sig ← k.sign vote_bytes
      let signed : PrecommitVote = record vote { signature = sig }
      send_precommit signed
      ok signed

    unfoldable pub handle_proposal : Engine m.State → Option Proposal → Result PrecommitVote
    handle_proposal e none = err "invalid proposal"
    handle_proposal e (some prop) = do
      block ← or_err prop.block "invalid proposal"
      check_proposal e prop block
      precommit e prop block

    -- What a vote must pass before it is recorded.
    unfoldable pub check_vote : Engine m.State → PrecommitVote → Result (Unit {0})
    check_vote e vote = do
      fail_if (not (vote.height == (e.height + 1) % u64_mod)) "unexpected vote height"
      vote_bytes ← precommit_sign_bytes (some vote)
      key ← or_err (validator_pub_key e.validators vote.validator) "unknown validator"
      fail_if (not (k.verify vote_bytes vote.signature key)) "invalid vote signature"

    -- A failed broadcast of the certificate is dropped.
    unfoldable pub handle_precommit_vote :
        Engine m.State → Option PrecommitVote → Engine m.State × Result (Option QuorumCertificate)
    handle_precommit_vote e none = (e, err "nil vote")
    handle_precommit_vote e (some vote) = and_then e (check_vote e vote) (λ _. (
      record_vote e vote,
      try_build_qc e.validators ((e.height + 1) % u64_mod) e.round vote.block_hash
          (votes_for vote.block_hash (record_vote e vote).votes),
    ))

    unfoldable pub check_view_change : Engine m.State → ViewChange → Result (Unit {0})
    check_view_change e vc = do
      fail_if (not (vc.height == (e.height + 1) % u64_mod)) "unexpected view change height"
      key ← or_err (validator_pub_key e.validators vc.validator) "unknown validator"
      msg ← view_change_sign_bytes (some vc)
      fail_if (not (k.verify msg vc.signature key)) "invalid view change signature"

    unfoldable pub handle_view_change :
        Engine m.State → Option ViewChange → Engine m.State × Result (Unit {0})
    unfolding persist_consensus_state
    handle_view_change e none = (e, err "nil view change")
    handle_view_change e (some vc) = and_then e (check_view_change e vc) (λ _.
        if ltb e.round vc.round
        then ((persist_consensus_state (record e { round = vc.round })).0, ok tt)
        else (e, ok tt))

    -- The engine after the block was applied.
    unfoldable pub advance : Engine m.State → m.State → Block → Hash → Engine m.State
    advance e state block root = record e {
      state = state;
      height = block.height;
      last_finalized = must_hash_block (record block { state_root = root });
      validators = validator_set e.dpos;
      round = 0;
    }

    -- The block with the certificate's signatures, if there is one for each validator.
    unfoldable pub with_signatures : Engine m.State → Block → QuorumCertificate → Block
    with_signatures e block qc =
        if length qc.signatures == length e.validators.validators
        then record block { validator_sigs = qc.signatures }
        else block

    -- The votes of the certificate are forgotten only if the write went through.
    unfoldable pub finalize_block :
        Engine m.State
        → Option Block
        → Option QuorumCertificate
        → Engine m.State × Result (Unit {0})
    unfolding persist_consensus_state
    finalize_block e none qc = (e, err "invalid finalize arguments")
    finalize_block e (some block) none = (e, err "invalid finalize arguments")
    finalize_block e (some block) (some qc) =
        let signed = with_signatures e block qc in
        let (state, applied) = m.apply_block e.state signed in
        and_then (record e { state = state }) applied
          (λ root.
            let (saved, written) = persist_consensus_state (advance e state signed root) in
            and_then saved written
              (λ _. (record saved { votes = erase qc.block_hash saved.votes }, ok tt)))
