-- ===== src/Ledger/Invariant.antt =====
-- What every transaction keeps of all accounts.
use opencoin.Prelude.{
  ◌≡◌, Bool, Option, some, none, Result, ok, arith, ◌∙◌, ap, sym, subst, Bytes_discrete, >>=-eq-ok,
}
use opencoin.Prelude.Int.{ℤ, IsI64}
use opencoin.Types.{Address, Transaction, Account}
use opencoin.Wire.{Wire}
use opencoin.Payload.{
  Payload, Transfer, ContractDeploy, ContractCall, transfer, stake_delegate, stake_undelegate,
  contract_deploy, contract_call, governance_proposal, governance_vote, StakeDelegate,
  StakeUndelegate,
}
use opencoin.Store.Codec.RoundTrip.{IsValid}
use opencoin.Crypto.{Crypto}
use opencoin.Contracts.{Runtime, Engine, deploy_contract, validate_wasm_code}
use opencoin.Rc.{Params}
use opencoin.Ledger.{
  Accounts, AccountsLaws, Effect, account_at, run_transfer, run_payload, apply_transaction,
  run_stake_delegate, run_stake_undelegate, run_governance, store_code, run_contract_deploy,
  run_contract_call,
}
use opencoin.Ledger.Apply.{apply_transaction-eq_ok}
use opencoin.Ledger.Effects.{account_at_written, account_at_elsewhere, settled}
use opencoin.Ledger.Payments.{credited, credited-IsValid, run_transfer-eq_ok}

module _ (a : Accounts) where
  -- Every address reads an account in range that carries the address.
  pub record IsSound (s : a.State) : Type 0 where
    pub valid : (addr : Address) (acct : Account) → account_at a s addr ≡ ok acct → IsValid acct
    pub own :
        (addr : Address) (acct : Account) → account_at a s addr ≡ ok acct → acct.address ≡ addr

  module _ (laws : AccountsLaws a) where
    pub written-IsSound :
        (s s' : a.State) (acct : Account)
        → IsValid acct
        → a.set s acct ≡ ok s'
        → IsSound s
        → IsSound s'
    written-IsSound s s' acct v h i = record {
      valid = λ addr x at. elim (Bytes_discrete acct.address addr) [
        | yes p ↦ subst IsValid (read addr x at p) v
        | no np ↦ i.valid addr x (sym (account_at_elsewhere a laws s s' acct addr v np h) ∙ at)
      ];
      own = λ addr x at. elim (Bytes_discrete acct.address addr) [
        | yes p ↦ ap (λ y. y.address) (sym (read addr x at p)) ∙ p
        | no np ↦ i.own addr x (sym (account_at_elsewhere a laws s s' acct addr v np h) ∙ at)
      ];
    }
      where
        read :
            (addr : Address) (x : Account)
            → account_at a s' addr ≡ ok x
            → acct.address ≡ addr
            → acct ≡ x
        read addr x at p =
            let written =
              subst (λ y. account_at a s' y ≡ ok acct) p
                (account_at_written a laws s s' acct v h) in
            cc

    run_transfer-IsSound :
        (t : Transfer) (sender : Account) (s : a.State) (eff : Effect a.State)
        → run_transfer a t sender s ≡ ok eff
        → IsSound s
        → IsSound eff.accounts
    run_transfer-IsSound t sender s eff h i =
        let moved = run_transfer-eq_ok a t sender s eff h in
        written-IsSound s eff.accounts (credited t.amount moved.receiver)
          (credited-IsValid t.amount (i.valid t.to moved.receiver moved.found)) moved.written i

    -- Delegating and governing write no account.
    run_stake_delegate-accounts :
        (t : StakeDelegate) (sender : Account) (s : a.State) (eff : Effect a.State)
        → run_stake_delegate a t sender s ≡ ok eff
        → s ≡ eff.accounts
    unfolding run_stake_delegate
    run_stake_delegate-accounts t sender s eff h = ground arith

    run_stake_undelegate-accounts :
        (t : StakeUndelegate) (sender : Account) (s : a.State) (eff : Effect a.State)
        → run_stake_undelegate a t sender s ≡ ok eff
        → s ≡ eff.accounts
    unfolding run_stake_undelegate
    run_stake_undelegate-accounts t sender s eff h = ground arith

    run_governance-accounts :
        (sender : Account) (s : a.State) (eff : Effect a.State)
        → run_governance a sender s ≡ ok eff
        → s ≡ eff.accounts
    unfolding run_governance
    run_governance-accounts sender s eff h = ground arith

    module _ (r : Runtime) where
      run_contract_call-accounts :
          (t : ContractCall) (sender : Account) (e : Option (Engine r)) (v : Bool) (s : a.State)
          (eff : Effect a.State)
          → (run_contract_call a r t sender e v s).1 ≡ ok eff
          → s ≡ eff.accounts
      unfolding run_contract_call
      run_contract_call-accounts t sender none v s eff h = cc
      run_contract_call-accounts t sender (some e) v s eff h = ground arith

      store_code-IsSound :
          (t : ContractDeploy) (addr : Address) (sender : Account) (s : a.State)
          (d : Result (Unit {0})) (eff : Effect a.State)
          → IsSound s
          → store_code a r t addr sender s d ≡ ok eff
          → IsSound eff.accounts
      unfolding store_code
      store_code-IsSound t addr sender s d eff i h =
          let (_, _, h1) = >>=-eq-ok d _ h in
          let (contract, found, h2) = >>=-eq-ok (account_at a s addr) _ h1 in
          let coded = record contract { code = t.wasm_code } in
          let (after, written, h3) = >>=-eq-ok (a.set s coded) _ h2 in
          let v = i.valid addr contract found in
          let valid : IsValid coded = record {
            balance = v.balance;
            nonce = v.nonce;
            stake = v.stake;
            rc = v.rc;
            rc_max = v.rc_max;
            time = v.time;
          } in
          written-IsSound s eff.accounts coded valid (written ∙ ap (λ x. ok x) cc) i

      run_contract_deploy-IsSound :
          (t : ContractDeploy) (addr : Address) (sender : Account) (e : Option (Engine r))
          (v : Bool) (s : a.State) (eff : Effect a.State)
          → IsSound s
          → (run_contract_deploy a r t addr sender e v s).1 ≡ ok eff
          → IsSound eff.accounts
      unfolding run_contract_deploy
      run_contract_deploy-IsSound t addr sender none v s eff i h = cc
      run_contract_deploy-IsSound t addr sender (some e) v s eff i h =
          let previewed =
            store_code-IsSound t addr sender s (validate_wasm_code t.wasm_code) eff i in
          let deployed =
            store_code-IsSound t addr sender s (deploy_contract r e addr t.wasm_code addr).1 eff
              i in
          ground arith

      run_payload-IsSound :
          (q : Payload) (to : Address) (sender : Account) (e : Option (Engine r)) (v : Bool)
          (s : a.State) (eff : Effect a.State)
          → (run_payload a r q to sender e v s).1 ≡ ok eff
          → IsSound s
          → IsSound eff.accounts
      unfolding run_payload
      run_payload-IsSound (transfer t) to sender e v s eff h i =
          run_transfer-IsSound t sender s eff h i
      run_payload-IsSound (stake_delegate t) to sender e v s eff h i =
          subst IsSound (run_stake_delegate-accounts t sender s eff h) i
      run_payload-IsSound (stake_undelegate t) to sender e v s eff h i =
          subst IsSound (run_stake_undelegate-accounts t sender s eff h) i
      run_payload-IsSound (contract_deploy t) to sender e v s eff h i =
          run_contract_deploy-IsSound t to sender e v s eff i h
      run_payload-IsSound (contract_call t) to sender e v s eff h i =
          subst IsSound (run_contract_call-accounts t sender e v s eff h) i
      run_payload-IsSound (governance_proposal t) to sender e v s eff h i =
          subst IsSound (run_governance-accounts sender s eff h) i
      run_payload-IsSound (governance_vote t) to sender e v s eff h i =
          subst IsSound (run_governance-accounts sender s eff h) i

      -- Every transaction that applies keeps the accounts sound: when every address reads an
      -- account in range that carries the address, every address does so afterwards. This is for an
      -- effective time that is an int64.
      pub apply_transaction-IsSound :
          ⦃w : Wire⦄ (c : Crypto) (p : Params) (txn : Transaction) (e : Option (Engine r))
          (time : ℤ) (v : Bool) (s s' : a.State)
          → IsI64 time
          → IsSound s
          → (apply_transaction a r c p (some txn) e time v s).1 ≡ ok s'
          → IsSound s'
      apply_transaction-IsSound c p txn e time v s s' t i h =
          let done = apply_transaction-eq_ok a r c p txn e time v s s' h in
          let pre = done.prepared in
          let last =
            settled a laws r c p done pre.found_at (i.own txn.from pre.found pre.found_at)
              (i.valid txn.from pre.found pre.found_at) t in
          written-IsSound done.effect.accounts s' done.charged last.valid done.written
            (run_payload-IsSound done.payload txn.to done.sender e v s done.effect done.ran i)
