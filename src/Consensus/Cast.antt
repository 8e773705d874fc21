-- ===== src/Consensus/Cast.antt =====
-- A vote from the replica that casts it to the one that records it.
use opencoin.Prelude.{
  ◌≡◌, refl, ◌+◌, ◌%◌, Option, some, [], Bytes, subst, true, not, ◌==◌, u64_mod, Result, ok, err,
  panics, stuck, ◌>>◌, fail_if, or_err, >>=-eq-ok, Bool, false,
}
use Prim.Native.String.{String}
use opencoin.Types.{Block, Proposal, PrecommitVote}
use opencoin.Wire.{Wire}
use opencoin.Consensus.Proposer.{validator_pub_key}
use opencoin.Encoding.{precommit_sign_bytes}
use opencoin.Consensus.{
  Keys, Network, Machine, Engine, check_proposal, precommit, handle_proposal, check_vote,
  record_vote, handle_precommit_vote, must_hash_block,
}

passed_test : (t : Bool) (message : String) → fail_if (not t) message ≡ ok tt → t ≡ true
passed_test true message h = refl
passed_test false message h = cc

after_check : {A : Type 0} (check : Result (Unit {0})) (a b : A) → (check >> ok a) ≡ ok b → a ≡ b
after_check (ok _) a b h = cc
after_check (err _) a b h = cc
after_check (panics _) a b h = cc
after_check stuck a b h = cc

module _ (m : Machine) ⦃w : Wire⦄ (k : Keys) (net : Option Network) where
  -- A vote that is cast has the block's height, and its signature is of its own signing bytes.
  record IsCast (e : Engine m.State) (block : Block) (vote : PrecommitVote) : Type 0 where
    height : vote.height ≡ block.height
    voter : vote.validator ≡ e.validator_addr
    bytes : Bytes
    signs : precommit_sign_bytes (some vote) ≡ ok bytes
    sealed : k.sign bytes ≡ ok vote.signature

  precommit-IsCast :
      (e : Engine m.State) (prop : Proposal) (block : Block) (vote : PrecommitVote)
      → precommit m k net e prop block ≡ ok vote
      → IsCast e block vote
  unfolding precommit precommit_sign_bytes
  precommit-IsCast e prop block vote h =
      let unsigned : PrecommitVote = record {
        block_hash = must_hash_block m k net block;
        height = block.height;
        round = prop.round;
        validator = e.validator_addr;
        signature = [];
      } in
      let (bytes, signs, h1) = >>=-eq-ok (precommit_sign_bytes (some unsigned)) _ h in
      let (sig, sealed, h2) = >>=-eq-ok (k.sign bytes) _ h1 in
      let same = after_check _ (record unsigned { signature = sig }) vote h2 in
      subst (IsCast e block) same
        (record { height = refl; voter = refl; bytes = bytes; signs = signs; sealed = sealed })

  -- What is voted for has the height after the engine's.
  voted_height :
      (e : Engine m.State) (prop : Proposal) (vote : PrecommitVote)
      → handle_proposal m k net e (some prop) ≡ ok vote
      → (block : Block) × ((block.height == (e.height + 1) % u64_mod) ≡ true) × IsCast e block vote
  unfolding handle_proposal check_proposal
  voted_height e prop vote h =
      let (block, _, h1) = >>=-eq-ok (or_err prop.block "invalid proposal") _ h in
      let (_, checked, h2) = >>=-eq-ok (check_proposal m k net e prop block) _ h1 in
      let (_, fits, _) =
        >>=-eq-ok (fail_if (not (block.height == (e.height + 1) % u64_mod)) "unexpected height") _
          checked in
      (block, passed_test _ _ (fits), precommit-IsCast e prop block vote h2)

  -- A vote that a replica casts for a proposal is recorded by every replica at the same height that
  -- knows the voter's key, when what the voter signs verifies under that key.
  pub handle_precommit_vote-cast :
      (k' : Keys) (net' : Option Network) (e e' : Engine m.State) (prop : Proposal)
      (vote : PrecommitVote) (key : Bytes)
      → ((msg sig : Bytes) → k.sign msg ≡ ok sig → k'.verify msg sig key ≡ true)
      → validator_pub_key e'.validators e.validator_addr ≡ some key
      → e'.height ≡ e.height
      → handle_proposal m k net e (some prop) ≡ ok vote
      → (handle_precommit_vote m k' net' e' (some vote)).0 ≡ record_vote e' vote
  unfolding handle_precommit_vote check_vote
  handle_precommit_vote-cast k' net' e e' prop vote key verifies known level h =
      let (block, fits, i) = voted_height e prop vote h in
      let next : (vote.height == (e'.height + 1) % u64_mod) ≡ true = rw (i.height, level) fits in
      let found : validator_pub_key e'.validators vote.validator ≡ some key = rw (i.voter) known in
      rw (next, i.signs, found, verifies i.bytes vote.signature i.sealed) refl
