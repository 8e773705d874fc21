-- ===== src/Consensus/Proposed.antt =====
-- What the block of a proposal is.
use opencoin.Prelude.{
  ◌≡◌, refl, not, length, replicate, [], Option, some, ok, fail_if, >>=-eq-ok, ◌+◌, ◌%◌, u64_mod,
  subst,
}
use opencoin.Prelude.Int.{ℤ}
use opencoin.Types.{Block, Proposal, zero_hash}
use opencoin.Wire.{Wire}
use opencoin.Encoding.{proposal_sign_bytes}
use opencoin.Consensus.{Machine, Keys, Network, Engine, propose_block, send_proposal}
use opencoin.Consensus.Proposer.{is_expected_proposer}

block_in :
    (signed prop : Proposal) (built block : Block)
    → signed.block ≡ some built
    → ok signed ≡ ok prop
    → prop.block ≡ some block
    → built ≡ block
block_in signed prop built block in_signed same in_prop = cc

module _ (m : Machine) ⦃w : Wire⦄ (k : Keys) (net : Option Network) where
  -- The state root of a proposed block is its preview without one.
  pub propose_block-previewed :
      (e : Engine m.State) (now : ℤ) (prop : Proposal) (block : Block)
      → propose_block m k net e now ≡ ok prop
      → prop.block ≡ some block
      → m.preview_block e.state (record block { state_root = zero_hash }) ≡ ok block.state_root
  unfolding propose_block
  propose_block-previewed e now prop block h same =
      let (u, _, h1) =
        >>=-eq-ok
          (fail_if (not (is_expected_proposer e.validators e.height e.round e.validator_addr))
            "not proposer")
          _ h in
      let (txs, _, h2) = >>=-eq-ok (m.select_for_block e.state e.block_max_txs) _ h1 in
      let bare : Block = record {
        height = (e.height + 1) % u64_mod;
        prev_hash = e.last_finalized;
        state_root = zero_hash;
        timestamp = now;
        proposer = e.validator_addr;
        transactions = txs;
        validator_sigs = replicate (length e.validators.validators) [];
      } in
      let (root, shown, h3) = >>=-eq-ok (m.preview_block e.state bare) _ h2 in
      let unsigned : Proposal = record {
        block = some (record bare { state_root = root });
        round = e.round;
        proposer_sig = [];
      } in
      let (bytes, _, h4) = >>=-eq-ok (proposal_sign_bytes (some unsigned)) _ h3 in
      let (sig, _, h5) = >>=-eq-ok (k.sign bytes) _ h4 in
      let (v, _, h6) =
        >>=-eq-ok (send_proposal m k net (record unsigned { proposer_sig = sig })) _ h5 in
      subst (λ x. m.preview_block e.state (record x { state_root = zero_hash }) ≡ ok x.state_root)
        (block_in (record unsigned { proposer_sig = sig }) prop _ block refl h6 same) shown
