-- ===== src/Store/Accounts.antt =====
-- Reading an account back from the store.
use opencoin.Prelude.{◌≡◌, ite, if_pos, if_neg, some, [], ◌∷◌, ◌++◌, Bytes, Bytes_discrete, ok, ap}
use opencoin.Types.{Address, Account}
use opencoin.Wire.{Wire, WireLaws}
use opencoin.Store.{Kv, KvLaws, account_prefix, get_account, set_account}
use opencoin.Store.Codec.{account_bytes}
use opencoin.Store.Codec.RoundTrip.{IsValid, unmarshal_account-back}

append-injective : (p a b : Bytes) → p ++ a ≡ p ++ b → a ≡ b
append-injective [] a b e = e
append-injective (x ∷ p) a b e = append-injective p a b (cc)

module _ ⦃w : Wire⦄ (l : WireLaws w) (kv : Kv) (laws : KvLaws kv) where
  -- After an account in range was stored, its address reads it back, and every other address reads
  -- what it read before.
  pub get_account-set_account :
      (db db' : kv.Db) (acct : Account) (addr : Address)
      → IsValid acct
      → set_account kv db (some acct) ≡ ok db'
      → get_account kv db' addr
        ≡ ite (Bytes_discrete acct.address addr) (ok (some acct)) (get_account kv db addr)
  unfolding get_account set_account
  get_account-set_account db db' acct addr v e =
      let key = account_prefix ++ acct.address in
      rw (laws.get_set db db' key (account_prefix ++ addr) (account_bytes acct) e)
        (elim (Bytes_discrete acct.address addr) [
          | yes p ↦ rw (
            if_pos _ p,
            if_pos (Bytes_discrete key (account_prefix ++ addr)) (ap (◌++◌ account_prefix) p),
            unmarshal_account-back l acct v,
          )
          | no p ↦ rw (
            if_neg _ p,
            if_neg (Bytes_discrete key (account_prefix ++ addr))
                (λ q. p (append-injective account_prefix _ _ q)),
          )
        ])
