-- ===== src/Node/Untouched.antt =====
-- What the genesis leaves of the store: every entry that is no account and not the timestamps.
use opencoin.Prelude.{
  differ_at, ◌≡◌, ◌≢◌, refl, if_neg, List, [], ◌∷◌, ◌++◌, length, Bytes, Bytes_discrete, Bool-cases,
  inl, inr, ◌==◌, if◌then◌else◌, some, ok, >>=-eq-ok, arith, sym, ap, ◌∙◌,
}
use opencoin.Prelude.Int.{ℤ}
use opencoin.Wire.{Wire}
use opencoin.Genesis.{Genesis, GenesisAccount}
use opencoin.Store.{
  Kv, KvLaws, get_consensus_state, get_last_timestamps, set_account, set_last_timestamps,
  account_prefix, meta_last_timestamps, encode_timestamps, meta_consensus_height,
  meta_consensus_round, meta_consensus_last_finalized,
}
use opencoin.Rc.{Params}
use opencoin.Dpos.{Dpos}
use opencoin.Node.{genesis_account, load_accounts, register_all, first_timestamp, apply_genesis}
use opencoin.Node.Restart.{error_ignored-eq_ok}

module _ ⦃w : Wire⦄ (kv : Kv) (laws : KvLaws kv) (p : Params) (key : Bytes)
    (no_account : (addr : Bytes) → account_prefix ++ addr ≢ key)
    (no_times : meta_last_timestamps ≢ key) where
  kept_by :
      (db db' : kv.Db) (k v : Bytes)
      → k ≢ key
      → kv.set db k v ≡ ok db'
      → kv.get db' key ≡ kv.get db key
  kept_by db db' k v ne e = laws.get_set db db' k key v e ∙ if_neg (Bytes_discrete k key) ne _ _

  load_accounts-get :
      (accts : List GenesisAccount) (db db' : kv.Db)
      → load_accounts kv p accts db ≡ ok db'
      → kv.get db' key ≡ kv.get db key
  unfolding load_accounts set_account
  load_accounts-get [] db db' e = ap (λ d. kv.get d key) (cc)
  load_accounts-get (acct ∷ accts) db db' e =
      let (mid, first, rest) = >>=-eq-ok (set_account kv db (some (genesis_account p acct))) _ e in
      load_accounts-get accts mid db' rest ∙ kept_by db mid _ _ (no_account _) first

  first_timestamp-get :
      (time : ℤ) (db db' : kv.Db)
      → first_timestamp kv p time db ≡ ok db'
      → kv.get db' key ≡ kv.get db key
  unfolding first_timestamp set_last_timestamps
  first_timestamp-get time db db' e = elim (error_ignored-eq_ok db db' _ e) [
    | inr same ↦ ap (λ d. kv.get d key) (sym same)
    | inl done ↦
        let (ts, _, rest) = >>=-eq-ok (get_last_timestamps kv db) _ done in
        elim (Bool-cases (length ts == 0)) [
          | inl t ↦
              kept_by db db' meta_last_timestamps (encode_timestamps (time ∷ [])) no_times
                (rw (← rest, t) refl)
          | inr f ↦
              let kept : ok db ≡ ok db' =
                ap (λ b. if b then set_last_timestamps kv db (time ∷ []) else ok db) (sym f)
                ∙ rest in
              ap (λ d. kv.get d key) (cc)
        ]
  ]

  -- The genesis leaves what is under other keys.
  pub apply_genesis-get :
      (g : Genesis) (db db' : kv.Db) (d d' : Dpos)
      → apply_genesis kv p g db d ≡ ok (db', d')
      → kv.get db' key ≡ kv.get db key
  unfolding apply_genesis
  apply_genesis-get g db db' d d' e =
      let (loaded, first, then_register) = >>=-eq-ok (load_accounts kv p g.accounts db) _ e in
      let (registered, _, then_time) = >>=-eq-ok (register_all g.validators d) _ then_register in
      let (done, third, last) =
        >>=-eq-ok (first_timestamp kv p g.genesis_time loaded) _ then_time in
      let same : done ≡ db' = cc in
      ap (λ d. kv.get d key) (sym same)
      ∙ first_timestamp-get g.genesis_time loaded done third
      ∙ load_accounts-get g.accounts db loaded first

-- The genesis leaves the consensus metadata.
pub apply_genesis-get_consensus_state :
    ⦃w : Wire⦄ (kv : Kv) (p : Params) (g : Genesis) (db db' : kv.Db) (d d' : Dpos)
    → KvLaws kv
    → apply_genesis kv p g db d ≡ ok (db', d')
    → get_consensus_state kv db' ≡ get_consensus_state kv db
unfolding get_consensus_state
apply_genesis-get_consensus_state kv p g db db' d d' laws e =
    let kept =
      λ (key : Bytes) (no_account : (addr : Bytes) → account_prefix ++ addr ≢ key)
          (no_times : meta_last_timestamps ≢ key).
        apply_genesis-get kv laws p key no_account no_times g db db' d d' e in
    rw
      (
        kept meta_consensus_height (λ addr. differ_at 0 _ _ (omega arith))
            (differ_at 5 _ _ (omega arith)),
        kept meta_consensus_round (λ addr. differ_at 0 _ _ (omega arith))
            (differ_at 5 _ _ (omega arith)),
        kept meta_consensus_last_finalized (λ addr. differ_at 0 _ _ (omega arith))
            (differ_at 5 _ _ (omega arith)),
      )
      refl
