-- ===== src/Node/Services.antt =====
-- The state, the store and the mempool as the consensus engine of a node is given them: `Start` of
-- pkg/node/node.go.
use opencoin.Prelude.{List, Option, none, some, Result, ok, ◌>>=◌}
use opencoin.Prelude.Int.{ℤ}
use opencoin.Types.{Address, Account, empty_account, Transaction}
use opencoin.Wire.{Wire}
use opencoin.Store.{get_account, get_last_timestamps, get_consensus_state, set_consensus_state}
use opencoin.Crypto.{Crypto}
use opencoin.Contracts.{Runtime}
use opencoin.Rc.{Params}
use opencoin.Ledger.Coster.{estimate_cost}
use opencoin.Mempool.{Pool}
use opencoin.Mempool.Select.{HeapPackage, select_for_block}
use opencoin.Consensus.{Machine}
use opencoin.Chain.{Database, Chain, preview_block, apply_block}

-- What the engine reaches through its pointers.
pub record Services (b : Database) (r : Runtime) : Type 0 where
  pub chain : Chain b r
  pub pool : Pool

module _ (b : Database) (r : Runtime) ⦃w : Wire⦄ (c : Crypto) (p : Params)
    (heap : HeapPackage) where
  -- `State.GetAccount`: an account that is not stored is a zero account.
  unfoldable pub state_account : Chain b r → Address → Result (Option Account)
  state_account chain addr = do
    stored ← get_account b.kv chain.store addr
    ok (some (elim stored [ none ↦ empty_account addr | some acct ↦ acct ]))

  -- The mempool asks the state for accounts and the coster for costs.
  abbrev pub select : Services b r → ℤ → Result (List Transaction)
  select s max =
      select_for_block c.sha256 heap (λ txn. estimate_cost r p s.chain.contracts (some txn))
        (state_account s.chain) max s.pool

  -- `FinalizeBlock` takes a contract engine as an argument: here it is the node's.
  abbrev pub services : Machine
  services = record {
    State = Services b r;
    preview_block = λ s block. (preview_block b r c p s.chain (some block)).1;
    apply_block = λ s block.
        let (chain, root) = apply_block b r c p s.chain (some block) in
        (record s { chain = chain }, root);
    last_timestamps = λ s. get_last_timestamps b.kv s.chain.store;
    max_skew_sec = λ s. p.max_skew_sec;
    select_for_block = select;
    get_consensus_state = λ s. get_consensus_state b.kv s.chain.store;
    set_consensus_state = λ s height round last. do
      batch ← set_consensus_state b.kv s.chain.store height round last
      store ← b.commit batch
      ok (record s { chain = record s.chain { store = store } });
  }
