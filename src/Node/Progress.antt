-- ===== src/Node/Progress.antt =====
-- From the proposal of a block to its finalization on the same state.
use opencoin.Prelude.{
  ℕ, ◌≡◌, refl, ◌==◌, Bool-cases, inl, inr, All, length, Option, some, ok, sym, ap, ◌∙◌, subst,
}
use opencoin.Prelude.Int.{ℤ, pos}
use opencoin.Types.{Hash, zero_hash, Block, Proposal, QuorumCertificate}
use opencoin.Wire.{Wire}
use opencoin.Encoding.{marshal_uint64}
use opencoin.Ledger.Backend.{store_accounts}
use opencoin.Ledger.Preview.{IsPlainTransaction}
use opencoin.Store.{
  set_consensus_state, meta_consensus_height, meta_consensus_round, meta_consensus_last_finalized,
}
use opencoin.Crypto.{Crypto}
use opencoin.Contracts.{Runtime}
use opencoin.Rc.{Params}
use opencoin.Mempool.Select.{HeapPackage}
use opencoin.Consensus.{
  Machine, Keys, Network, Engine, propose_block, finalize_block, with_signatures,
}
use opencoin.Consensus.Recovery.{finalized}
use opencoin.Chain.{Database, preview_block}
use opencoin.Consensus.Proposed.{propose_block-previewed}
use opencoin.Chain.Previewed.{WritesLaws, apply_block-previewed}
use opencoin.Node.Services.{Services, services}

module _ (b : Database) (r : Runtime) ⦃w : Wire⦄ (c : Crypto) (p : Params)
    (heap : HeapPackage) where
  -- A store in which no write fails takes the metadata.
  set_consensus_state-ok :
      (laws : WritesLaws b) (s : Services b r) (height round : ℕ) (last : Hash)
      → (s' : Services b r) × ((services b r c p heap).set_consensus_state s height round last
          ≡ ok s')
  unfolding set_consensus_state
  set_consensus_state-ok laws s height round last =
      let (db1, first) = laws.writes s.chain.store meta_consensus_height (marshal_uint64 height) in
      let (db2, second) = laws.writes db1 meta_consensus_round (marshal_uint64 round) in
      let (db3, third) = laws.writes db2 meta_consensus_last_finalized last in
      let (store, kept) = laws.commits db3 in
      (record s { chain = record s.chain { store = store } }, rw (first, second, third, kept) refl)

  module _ (k : Keys) (net : Option Network) where
    abbrev machine : Machine
    machine = services b r c p heap

    -- Signatures are no part of what a preview runs.
    with_signatures-preview :
        (e : Engine machine.State) (block : Block) (qc : QuorumCertificate)
        → let signed = with_signatures machine k net e block qc in
          ((preview_block b r c p e.state.chain (some signed)).1
            ≡ (preview_block b r c p e.state.chain (some block)).1)
          × (signed.state_root ≡ block.state_root)
          × (signed.transactions ≡ block.transactions)
    unfolding with_signatures preview_block
    with_signatures-preview e block qc =
        elim (Bool-cases (length qc.signatures == length e.validators.validators)) [
          | inl as_many ↦ rw as_many (refl, refl, refl)
          | inr other ↦ rw other (refl, refl, refl)
        ]

    -- Nor is the state root.
    rootless :
        (e : Engine machine.State) (block : Block)
        → machine.preview_block e.state block
          ≡ machine.preview_block e.state (record block { state_root = zero_hash })
    unfolding preview_block
    rootless e block = refl

    -- A block whose preview comes to its state root is finalized by any certificate.
    previewed-finalizes :
        (e : Engine machine.State) (block : Block) (qc : QuorumCertificate) (size : ℕ)
        → WritesLaws b
        → p.window_n ≡ pos size
        → All (IsPlainTransaction (store_accounts b.kv) r c p) block.transactions
        → machine.preview_block e.state block ≡ ok block.state_root
        → (finalize_block machine k net e (some block) (some qc)).1 ≡ ok tt
    previewed-finalizes e block qc size laws window plain shown =
        let signed = with_signatures machine k net e block qc in
        let (same, root, txns) = with_signatures-preview e block qc in
        let applied =
          apply_block-previewed b r c p e.state.chain signed size laws window
            (subst (λ l. All (IsPlainTransaction (store_accounts b.kv) r c p) l) (sym txns) plain)
            (same ∙ shown ∙ ap (λ x. ok x) (sym root)) in
        let chain = (machine.apply_block e.state signed).0 in
        let (after, set) = set_consensus_state-ok laws chain signed.height 0 _ in
        ap (λ x. x.1) (finalized machine k net e block qc signed.state_root after applied set)

    -- A block that a node proposes, without contract payloads, is finalized on that node's state by
    -- any certificate. This is for a window that is not negative, a store in which no write fails,
    -- and an iterator over the accounts alone.
    pub propose_block-finalizes :
        (e : Engine machine.State) (now : ℤ) (prop : Proposal) (block : Block)
        (qc : QuorumCertificate) (size : ℕ)
        → WritesLaws b
        → p.window_n ≡ pos size
        → propose_block machine k net e now ≡ ok prop
        → prop.block ≡ some block
        → All (IsPlainTransaction (store_accounts b.kv) r c p) block.transactions
        → (finalize_block machine k net e (some block) (some qc)).1 ≡ ok tt
    propose_block-finalizes e now prop block qc size laws window proposed same plain =
        previewed-finalizes e block qc size laws window plain
          (rootless e block ∙ propose_block-previewed machine k net e now prop block proposed same)
