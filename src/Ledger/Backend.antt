-- ===== src/Ledger/Backend.antt =====
-- The store of pkg/state/store.go as the accounts that transactions are applied to.
use opencoin.Prelude.{some}
use opencoin.Wire.{Wire, WireLaws}
use opencoin.Store.{Kv, KvLaws, get_account, set_account}
use opencoin.Store.Accounts.{get_account-set_account}
use opencoin.Ledger.{Accounts, AccountsLaws}

-- The closures `get` and `set` over a database or a batch, before the fallback for an unknown
-- address.
abbrev pub store_accounts : ⦃w : Wire⦄ → Kv → Accounts
store_accounts kv = record {
  State = kv.Db;
  get = get_account kv;
  set = λ db acct. set_account kv db (some acct);
}

-- The store fills the interface that the theorems on transactions take.
pub store_accounts-laws :
    ⦃w : Wire⦄ → WireLaws w → (kv : Kv) → KvLaws kv → AccountsLaws (store_accounts kv)
store_accounts-laws l kv laws = record {
  get_set = λ s s' acct addr v h. get_account-set_account l kv laws s s' acct addr v h;
}
