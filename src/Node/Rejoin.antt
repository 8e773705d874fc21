-- ===== src/Node/Rejoin.antt =====
-- A validator that finalized a block and is started again over its store.
use opencoin.Prelude.{
  ℕ, ◌≡◌, ◌≢◌, ◌++◌, length, Bytes, differ_at, Option, some, ok, sym, ap, ◌∙◌, arith,
}
use opencoin.Types.{Block, QuorumCertificate}
use opencoin.Wire.{Wire, WireLaws}
use opencoin.Encoding.{marshal_uint64}
use opencoin.Encoding.Blocks.{IsValid}
use opencoin.Store.{
  get_consensus_state, get_block_by_height, block_prefix, block_height_prefix, account_prefix,
  meta_last_timestamps,
}
use opencoin.Store.Agree.{get_block_by_height-agrees}
use opencoin.Rc.{Params}
use opencoin.Dpos.{Dpos}
use opencoin.Config.{NodeConfig}
use opencoin.Consensus.{Machine, Keys, Network, Engine, finalize_block, with_signatures}
use opencoin.Consensus.Recovery.{finalize_block-Finalized}
use opencoin.Chain.{Database}
use opencoin.Chain.Outcome.{DatabaseLaws}
use opencoin.Genesis.{Genesis}
use opencoin.Node.{apply_genesis}
use opencoin.Node.Untouched.{apply_genesis-get}
use opencoin.Node.Services.{services}
use opencoin.Node.Recovery.{services-laws, finalize_block-recovers}
use opencoin.Node.Start.{Platform, Node, open_store, start}
use opencoin.Node.Started.{ok_injective, start-Began, start-resumes}

-- The genesis leaves the blocks.
apply_genesis-get_block_by_height :
    ⦃w : Wire⦄ (b : Database) (p : Params) (g : Genesis) (db db' : b.kv.Db) (d d' : Dpos)
    (height : ℕ)
    → DatabaseLaws b
    → apply_genesis b.kv p g db d ≡ ok (db', d')
    → get_block_by_height b.kv db' height ≡ get_block_by_height b.kv db height
apply_genesis-get_block_by_height b p g db db' d d' height laws e =
    let kept =
      λ (key : Bytes) (no_account : (addr : Bytes) → account_prefix ++ addr ≢ key)
          (no_times : meta_last_timestamps ≢ key).
        apply_genesis-get b.kv laws.kv p key no_account no_times g db db' d d' e in
    get_block_by_height-agrees b.kv db db' height
      (λ hash.
        kept (block_prefix ++ hash) (λ addr. differ_at 0 _ _ (omega arith))
          (differ_at 0 _ _ (omega arith)))
      (kept (block_height_prefix ++ marshal_uint64 height) (λ addr. differ_at 0 _ _ (omega arith))
        (differ_at 0 _ _ (omega arith)))

module _ (b : Database) (o : Platform b) ⦃w : Wire⦄ (p : Params) (k : Keys)
    (net : Option Network) where
  abbrev machine : Machine
  machine = services b o.runtime o.crypto p o.heap

  -- What a finalization leaves as the metadata of the store.
  finalized_metadata :
      (e : Engine machine.State) (block : Block) (qc : QuorumCertificate)
      → DatabaseLaws b
      → ((x : Bytes) → length (k.sha256 x) ≡ 32)
      → IsValid block
      → (finalize_block machine k net e (some block) (some qc)).1 ≡ ok tt
      → let done = (finalize_block machine k net e (some block) (some qc)).0 in
        get_consensus_state b.kv done.state.chain.store
        ≡ ok (done.height, done.round, done.last_finalized)
  finalized_metadata e block qc laws wide v h =
      let f = finalize_block-Finalized machine k net e block qc h in
      rw (f.state, f.height, f.round, f.last_finalized)
        ((services-laws b o.runtime o.crypto p o.heap laws).get_set _ f.after block.height 0 f.last
          v.height (omega arith) (f.wide wide) f.saved)

  -- A validator that finalized a block and is started again over its store goes on at the height,
  -- in the round and on the block where it was, and the block with the certificate's signatures is
  -- read back at that height, whatever the genesis has written. This is for a block in range, a
  -- wire format, a database and commits with the documented laws, and hashes of 32 bytes.
  pub start-finalize_block :
      (e next : Engine machine.State) (block : Block) (qc : QuorumCertificate) (cfg : NodeConfig)
      (files : o.disk.Files) (n : Node b o) (next_keys : Keys)
      → WireLaws w
      → DatabaseLaws b
      → ((x : Bytes) → length (o.crypto.sha256 x) ≡ 32)
      → ((x : Bytes) → length (k.sha256 x) ≡ 32)
      → IsValid block
      → (finalize_block machine k net e (some block) (some qc)).1 ≡ ok tt
      → open_store b o cfg.home_dir
        ≡ ok (finalize_block machine k net e (some block) (some qc)).0.state.chain.store
      → start b o cfg files ≡ ok n
      → n.consensus ≡ some (next, next_keys)
      → let done = (finalize_block machine k net e (some block) (some qc)).0 in
        (next.height ≡ done.height)
        × (next.round ≡ done.round)
        × (next.last_finalized ≡ done.last_finalized)
        × (get_block_by_height b.kv n.services.chain.store next.height
            ≡ ok (some (with_signatures machine k net e block qc)))
  start-finalize_block e next block qc cfg files n next_keys l laws wide wide_keys v h at begun
        its =
      let done = (finalize_block machine k net e (some block) (some qc)).0 in
      let (height, round, last, _, _, _) =
        start-resumes b o cfg files n next next_keys done.state.chain.store done.height done.round
          done.last_finalized laws.kv at (finalized_metadata e block qc laws wide_keys v h) begun
          its in
      let (_, _, _, there) =
        finalize_block-recovers b o.runtime o.crypto p o.heap k net e block qc n.dpos
          cfg.validator.operator_address next.block_max_txs l laws wide wide_keys v h in
      let began = start-Began b o cfg files n begun in
      (
        height,
        round,
        last,
        ap (λ i. get_block_by_height b.kv n.services.chain.store i) height
            ∙ ap (λ s. get_block_by_height b.kv s.chain.store done.height) began.services
            ∙ apply_genesis-get_block_by_height b n.params n.genesis began.opened began.store _
                n.dpos done.height laws began.entered
            ∙ ap (λ db. get_block_by_height b.kv db done.height)
                (ok_injective began.opened _ (sym began.at ∙ at))
            ∙ there,
      )
