-- ===== src/Node/Recovery.antt =====
-- What a node finds after a restart of the block that it finalized.
use opencoin.Prelude.{
  ℕ, ◌≡◌, refl, ◌==◌, Bool-cases, inl, inr, length, Bytes, Option, some, Result, ok, err, panics,
  stuck, >>=-eq-ok, sym, ap, ◌∙◌,
}
use opencoin.Prelude.Int.{ℤ}
use opencoin.Types.{Hash, Address, Block, QuorumCertificate}
use opencoin.Wire.{Wire, WireLaws}
use opencoin.Encoding.Blocks.{IsValid}
use opencoin.Store.{get_consensus_state, set_consensus_state, get_block_by_height}
use opencoin.Store.Metadata.{
  get_consensus_state-set_consensus_state, get_block_by_height-set_consensus_state,
}
use opencoin.Crypto.{Crypto}
use opencoin.Contracts.{Runtime}
use opencoin.Rc.{Params}
use opencoin.Dpos.{Dpos}
use opencoin.Mempool.Select.{HeapPackage}
use opencoin.Consensus.{Machine, Keys, Network, Engine, new_engine, finalize_block, with_signatures}
use opencoin.Consensus.Recovery.{
  with_signatures-height, MachineLaws, Resumes, finalize_block-Finalized, finalize_block-Resumes,
}
use opencoin.Chain.{Database, Chain, apply_block}
use opencoin.Chain.Outcome.{DatabaseLaws, Outcome, apply_block-Outcome, committed_by_height}
use opencoin.Node.Services.{Services, services}

module _ (b : Database) (r : Runtime) ⦃w : Wire⦄ (c : Crypto) (p : Params)
    (heap : HeapPackage) where
  -- A commit changes nothing of the metadata.
  committed_metadata :
      (db db' : b.kv.Db)
      → DatabaseLaws b
      → b.commit db ≡ ok db'
      → get_consensus_state b.kv db' ≡ get_consensus_state b.kv db
  unfolding get_consensus_state
  committed_metadata db db' laws h =
      rw (laws.commit_get db db' _ h, laws.commit_get db db' _ h, laws.commit_get db db' _ h) refl

  saved :
      (s s' : Services b r) (height round : ℕ) (last : Hash)
      → (services b r c p heap).set_consensus_state s height round last ≡ ok s'
      → (batch : b.kv.Db) × (set_consensus_state b.kv s.chain.store height round last ≡ ok batch)
        × (b.commit batch ≡ ok s'.chain.store)
  saved s s' height round last h =
      let (batch, wrote, h1) =
        >>=-eq-ok (set_consensus_state b.kv s.chain.store height round last) _ h in
      let (store, kept, h2) = >>=-eq-ok (b.commit batch) _ h1 in
      let same : record s { chain = record s.chain { store = store } } ≡ s' = cc in
      (batch, wrote, kept ∙ ap (λ x. ok x.chain.store) same)

  -- The metadata that a node stores is what it reads.
  pub services-laws : DatabaseLaws b → MachineLaws (services b r c p heap)
  services-laws laws = record {
    get_set = λ s s' height round last small_h small_r wide h.
        let (batch, wrote, kept) = saved s s' height round last h in
        committed_metadata batch s'.chain.store laws kept
        ∙ get_consensus_state-set_consensus_state b.kv laws.kv s.chain.store batch height round last
            small_h small_r wide wrote;
  }

  module _ (k : Keys) (net : Option Network) where
    abbrev machine : Machine
    machine = services b r c p heap

    -- What an applied block has left, without its error branches.
    applied_height :
        (s : Chain b r) (block : Block) (out : Chain b r × Result Hash) (root : Hash)
        → Outcome b r c p s block out
        → out.1 ≡ ok root
        → get_block_by_height b.kv out.0.store block.height ≡ ok (some block)
    applied_height s block (s', ok _) root (_, _, _, at_height) h = at_height
    applied_height s block (s', err _) root o h = cc
    applied_height s block (s', panics _) root o h = cc
    applied_height s block (s', stuck) root o h = cc

    -- The block's height, hashes, timestamp and transactions are as they were.
    with_signatures-IsValid :
        (e : Engine machine.State) (block : Block) (qc : QuorumCertificate)
        → IsValid block
        → IsValid (with_signatures machine k net e block qc)
    unfolding with_signatures
    with_signatures-IsValid e block qc v =
        elim (Bool-cases (length qc.signatures == length e.validators.validators)) [
          | inl as_many ↦ rw as_many (record {
            height = v.height;
            prev_hash = v.prev_hash;
            state_root = v.state_root;
            timestamp = v.timestamp;
            nonces = v.nonces;
          })
          | inr other ↦ rw other v
        ]

    -- A block that was finalized is read back by its height.
    finalized_block :
        (e : Engine machine.State) (block : Block) (qc : QuorumCertificate)
        → WireLaws w
        → DatabaseLaws b
        → ((x : Bytes) → length (c.sha256 x) ≡ 32)
        → IsValid block
        → (finalize_block machine k net e (some block) (some qc)).1 ≡ ok tt
        → get_block_by_height b.kv
            (finalize_block machine k net e (some block) (some qc)).0.state.chain.store
            (with_signatures machine k net e block qc).height
          ≡ ok (some (with_signatures machine k net e block qc))
    finalized_block e block qc l laws wide v h =
        let f = finalize_block-Finalized machine k net e block qc h in
        let signed = with_signatures machine k net e block qc in
        let out = apply_block b r c p e.state.chain (some signed) in
        let (batch, wrote, kept) =
          saved (machine.apply_block e.state signed).0 f.after block.height 0 f.last f.saved in
        ap (λ s. get_block_by_height b.kv s.chain.store signed.height) f.state
        ∙ committed_by_height b r c p l laws wide signed.height batch f.after.chain.store kept
        ∙ get_block_by_height-set_consensus_state b.kv laws.kv out.0.store batch block.height 0
            signed.height f.last wrote
        ∙ applied_height e.state.chain signed out f.root
            (apply_block-Outcome b r c p l laws wide e.state.chain signed
              (with_signatures-IsValid e block qc v))
            f.applied

    -- After a block was finalized a new engine over the node's store is at the height, in the round
    -- and on the block that the old one is, and the block with the certificate's signatures is read
    -- back at that height. This is for a block in range, a wire format, a database and commits with
    -- the documented laws, and hashes of 32 bytes.
    pub finalize_block-recovers :
        (e : Engine machine.State) (block : Block) (qc : QuorumCertificate) (d : Dpos)
        (operator : Address) (n : ℤ)
        → WireLaws w
        → DatabaseLaws b
        → ((x : Bytes) → length (c.sha256 x) ≡ 32)
        → ((x : Bytes) → length (k.sha256 x) ≡ 32)
        → IsValid block
        → (finalize_block machine k net e (some block) (some qc)).1 ≡ ok tt
        → let done = (finalize_block machine k net e (some block) (some qc)).0 in
          (fresh : Engine machine.State) × (new_engine machine done.state d operator n ≡ ok fresh)
          × Resumes done fresh
          × (get_block_by_height b.kv done.state.chain.store done.height
              ≡ ok (some (with_signatures machine k net e block qc)))
    finalize_block-recovers e block qc d operator n l laws wide wide_keys v h =
        let done = (finalize_block machine k net e (some block) (some qc)).0 in
        let f = finalize_block-Finalized machine k net e block qc h in
        let (fresh, made, resumes) =
          finalize_block-Resumes machine k net e block qc d operator n (services-laws laws)
            wide_keys v.height h in
        let same = f.height ∙ sym (with_signatures-height machine k net e block qc) in
        (
          fresh,
          made,
          resumes,
          ap (λ at. get_block_by_height b.kv done.state.chain.store at) same
              ∙ finalized_block e block qc l laws wide v h,
        )
