-- ===== src/Chain.antt =====
-- A block against the persistent state: `PreviewBlock` and `ApplyBlock` of pkg/state/state.go, with
-- the store, the graph of state nodes and the contract engine that they change. A batch is the
-- database as it would be after the batch's writes; what commits it is an argument.
pub mod Outcome
pub mod Previewed
use opencoin.Prelude.{
  ℕ, ◌-◌, List, [], ◌∷◌, ◌++◌, length, drop, Bytes, Bool, true, false, not, ltb, if◌then◌else◌,
  Option, none, some, Result, ok, err, panics, stuck, ◌>>=◌, ◌>>◌, fail_if, and_then,
}
use opencoin.Prelude.Int.{ℤ, pos, negsuc}
use opencoin.Types.{Hash, Block, StateNode}
use opencoin.Wire.{Wire}
use opencoin.Encoding.{hash_block}
use opencoin.Store.{Kv, get_last_timestamps, set_last_timestamps, set_block_with_writer}
use opencoin.Crypto.{Crypto, bytes_equal}
use opencoin.Contracts.{Runtime, Engine}
use opencoin.Rc.{Params, effective_time}
use opencoin.Ledger.Backend.{store_accounts}
use opencoin.Ledger.Block.{apply_transactions}
use opencoin.Dag.{Dag, add_node}
use opencoin.Roots.{Iterator, compute_state_root}

-- The database under the chain: its iterator, and the commit of a batch.
pub record Database : Type 1 where
  pub kv : Kv
  pub iter : Iterator kv
  pub commit : kv.Db → Result kv.Db

pub record Chain (b : Database) (r : Runtime) : Type 0 where
  pub store : b.kv.Db
  pub dag : Dag
  pub contracts : Option (Engine r)

-- The last `window_n` timestamps. A negative window is beyond the slice.
unfoldable pub trim : ℤ → List ℤ → Result (List ℤ)
trim (pos n) ts = if ltb n (length ts) then ok (drop (length ts - n) ts) else ok ts
trim (negsuc n) ts = panics "slice bounds out of range"

module _ (b : Database) (r : Runtime) ⦃w : Wire⦄ (c : Crypto) (p : Params) where
  open b use {kv, iter, commit}

  -- The transactions on a batch, at the block's effective time.
  unfoldable pub run_block :
      Block → Bool → List ℤ → kv.Db → Option (Engine r) → Option (Engine r) × Result kv.Db
  run_block block preview last batch engine =
      apply_transactions (store_accounts kv) r c p block.transactions engine
        (effective_time block.timestamp last p.max_skew_sec) preview batch

  unfoldable pub preview_block : Chain b r → Option Block → Option (Engine r) × Result Hash
  unfolding run_block
  preview_block s none = (s.contracts, err "block is nil")
  preview_block s (some block) = and_then s.contracts (get_last_timestamps kv s.store) (λ last.
      let (engine, ran) = run_block block true last s.store s.contracts in
      and_then engine ran (λ batch. (engine, compute_state_root c.sha256 kv iter batch)))

  -- What `ApplyBlock` writes to the batch after the transactions, and its commit.
  unfoldable pub write_block : Block → List ℤ → kv.Db → Result (kv.Db × Hash)
  write_block block last batch = do
    recent ← trim p.window_n (last ++ block.timestamp ∷ [])
    timed ← set_last_timestamps kv batch recent
    root ← compute_state_root c.sha256 kv iter timed
    fail_if (not (bytes_equal root block.state_root)) "state root mismatch after apply"
    hash ← hash_block c.sha256 (some block)
    written ← set_block_with_writer kv timed block hash
    committed ← commit written
    ok (committed, root)

  -- The outcome of `AddNode` is dropped.
  unfoldable pub record_root : Block → Hash → Dag → Dag
  record_root block root dag =
      elim (add_node
        (some (record { root_hash = root; parents = block.prev_hash ∷ []; height = block.height }))
        dag) [ ok dag' ↦ dag' | err _ ↦ dag | panics _ ↦ dag | stuck ↦ dag ]

  abbrev finish : Chain b r → Block → Result (kv.Db × Hash) → Chain b r × Result Hash
  finish s block written =
      and_then s written
        (λ done. (record s { store = done.0; dag = record_root block done.1 s.dag }, ok done.1))

  unfoldable pub apply_block : Chain b r → Option Block → Chain b r × Result Hash
  unfolding preview_block write_block record_root
  apply_block s none = (s, err "block is nil")
  apply_block s (some block) =
      let (previewed, preview_root) = preview_block s (some block) in
      let s1 : Chain b r = record s { contracts = previewed } in
      and_then s1
        (preview_root >>= (λ root.
          fail_if (not (bytes_equal block.state_root root)) "state root mismatch"
          >> get_last_timestamps kv s1.store))
        (λ last.
          let (engine, ran) = run_block block false last s1.store s1.contracts in
          finish (record s1 { contracts = engine }) block (ran >>= write_block block last))
