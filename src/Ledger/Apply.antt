-- ===== src/Ledger/Apply.antt =====
-- What a successful application went through, and what every payload leaves of the sender.
use opencoin.Prelude.{
  ◌≡◌, refl, length, Bytes, Bool, true, false, Option, none, some, Result, ok, err, panics, stuck,
  ◌∙◌, ap, arith, fail_if, ◌==◌, ◌||◌, not, >>=-eq-ok, IsU64, sym, subst, if◌then◌else◌,
}
use opencoin.Prelude.Int.{ℤ, IsI64}
use opencoin.Types.{Address, Transaction, Account}
use opencoin.Wire.{Wire}
use opencoin.Payload.{
  Payload, Transfer, StakeDelegate, StakeUndelegate, ContractDeploy, ContractCall, transfer,
  stake_delegate, stake_undelegate, contract_deploy, contract_call, governance_proposal,
  governance_vote,
}
use opencoin.Payload.Decode.{decode_payload}
use opencoin.Encoding.{transaction_bytes}
use opencoin.Store.Codec.RoundTrip.{IsValid}
use opencoin.Crypto.{Crypto, resolve_sender_pub_key, verify_signature}
use opencoin.Contracts.{Runtime, Engine, deploy_contract, validate_wasm_code}
use opencoin.Rc.{Params}
use opencoin.Ledger.{
  Accounts, Effect, is_empty, refresh, charge, account_at, run_transfer, run_stake_delegate,
  run_stake_undelegate, run_governance, store_code, run_contract_deploy, run_contract_call,
  run_payload, authorize, prepare, settle, run_prepared, apply_transaction,
}

-- What no payload changes of the sender, and the ranges that every payload keeps.
pub record Keeps (before after : Account) : Type 0 where
  pub address : after.address ≡ before.address
  pub nonce : after.nonce ≡ before.nonce
  pub rc : after.rc ≡ before.rc
  pub time : after.last_rc_effective_time ≡ before.last_rc_effective_time
  pub rc_max : after.rc_max ≡ before.rc_max
  pub balance : IsU64 before.balance → IsU64 after.balance
  pub stake : IsU64 before.stake → IsU64 after.stake

Keeps-refl : (a : Account) → Keeps a a
Keeps-refl a = ground arith

pub Keeps-IsValid : {before after : Account} → Keeps before after → IsValid before → IsValid after
Keeps-IsValid {before} {after} k v = record {
  balance = k.balance v.balance;
  nonce = subst (λ n. IsU64 n) (sym k.nonce) v.nonce;
  stake = k.stake v.stake;
  rc = subst (λ n. IsU64 n) (sym k.rc) v.rc;
  rc_max = subst (λ n. IsU64 n) (sym k.rc_max) v.rc_max;
  time = subst IsI64 (sym k.time) v.time;
}

module _ (a : Accounts) where
  run_transfer-Keeps :
      (p : Transfer) (sender : Account) (s : a.State) (eff : Effect a.State)
      → run_transfer a p sender s ≡ ok eff
      → Keeps sender eff.sender
  unfolding run_transfer
  run_transfer-Keeps p sender s eff h = ground arith

  run_stake_delegate-Keeps :
      (p : StakeDelegate) (sender : Account) (s : a.State) (eff : Effect a.State)
      → run_stake_delegate a p sender s ≡ ok eff
      → Keeps sender eff.sender
  unfolding run_stake_delegate
  run_stake_delegate-Keeps p sender s eff h = ground arith

  run_stake_undelegate-Keeps :
      (p : StakeUndelegate) (sender : Account) (s : a.State) (eff : Effect a.State)
      → run_stake_undelegate a p sender s ≡ ok eff
      → Keeps sender eff.sender
  unfolding run_stake_undelegate
  run_stake_undelegate-Keeps p sender s eff h = ground arith

  run_governance-Keeps :
      (sender : Account) (s : a.State) (eff : Effect a.State)
      → run_governance a sender s ≡ ok eff
      → Keeps sender eff.sender
  unfolding run_governance
  run_governance-Keeps sender s eff h = ground arith

  module _ (r : Runtime) where
    store_code-Keeps :
        (p : ContractDeploy) (addr : Address) (sender : Account) (s : a.State)
        (d : Result (Unit {0})) (eff : Effect a.State)
        → store_code a r p addr sender s d ≡ ok eff
        → Keeps sender eff.sender
    unfolding store_code
    store_code-Keeps p addr sender s d eff h = ground arith

    run_contract_deploy-Keeps :
        (p : ContractDeploy) (addr : Address) (sender : Account) (e : Option (Engine r)) (v : Bool)
        (s : a.State) (eff : Effect a.State)
        → (run_contract_deploy a r p addr sender e v s).1 ≡ ok eff
        → Keeps sender eff.sender
    unfolding run_contract_deploy
    run_contract_deploy-Keeps p addr sender none v s eff h = cc
    run_contract_deploy-Keeps p addr sender (some e) v s eff h =
        let previewed = store_code-Keeps p addr sender s (validate_wasm_code p.wasm_code) eff in
        let deployed =
          store_code-Keeps p addr sender s (deploy_contract r e addr p.wasm_code addr).1 eff in
        ground arith

    run_contract_call-Keeps :
        (p : ContractCall) (sender : Account) (e : Option (Engine r)) (v : Bool) (s : a.State)
        (eff : Effect a.State)
        → (run_contract_call a r p sender e v s).1 ≡ ok eff
        → Keeps sender eff.sender
    unfolding run_contract_call
    run_contract_call-Keeps p sender none v s eff h = cc
    run_contract_call-Keeps p sender (some e) v s eff h = ground arith

    pub run_payload-Keeps :
        (p : Payload) (to : Address) (sender : Account) (e : Option (Engine r)) (v : Bool)
        (s : a.State) (eff : Effect a.State)
        → (run_payload a r p to sender e v s).1 ≡ ok eff
        → Keeps sender eff.sender
    unfolding run_payload
    run_payload-Keeps (transfer p) to sender e v s eff h = run_transfer-Keeps p sender s eff h
    run_payload-Keeps (stake_delegate p) to sender e v s eff h =
        run_stake_delegate-Keeps p sender s eff h
    run_payload-Keeps (stake_undelegate p) to sender e v s eff h =
        run_stake_undelegate-Keeps p sender s eff h
    run_payload-Keeps (contract_deploy p) to sender e v s eff h =
        run_contract_deploy-Keeps p to sender e v s eff h
    run_payload-Keeps (contract_call p) to sender e v s eff h =
        run_contract_call-Keeps p sender e v s eff h
    run_payload-Keeps (governance_proposal p) to sender e v s eff h =
        run_governance-Keeps sender s eff h
    run_payload-Keeps (governance_vote p) to sender e v s eff h =
        run_governance-Keeps sender s eff h

    module _ ⦃w : Wire⦄ (c : Crypto) (p : Params) where
      -- What the checks before the type switch leave of the sender.
      pub record Prepared (txn : Transaction) (time : ℤ) (s : a.State) (sender : Account)
          (payload : Payload) : Type 0 where
        pub found : Account
        pub found_at : account_at a s txn.from ≡ ok found
        pub sender_key : Bytes
        pub decoded :
            decode_payload txn.payload
            ≡ ok (record { sender_pub_key = sender_key; payload = payload })
        pub key : Bytes
        pub refreshed : sender ≡ refresh p time (record found { pub_key = key })
        pub nonce : sender.nonce ≡ txn.nonce

      with_key :
          (found sender : Account) (register : Bool) (key : Bytes)
          → (if register then record found { pub_key = key } else found) ≡ sender
          → sender ≡ record found { pub_key = if register then key else found.pub_key }
      with_key found sender true key h = sym h
      with_key found sender false key h = sym h

      -- The sender that `authorize` answers is the one found, with some key.
      authorize-eq_ok :
          (txn : Transaction) (s : a.State) (sender : Account) (payload : Payload)
          → authorize a r c p txn s ≡ ok (sender, payload)
          → (found : Account) × (key : Bytes) × (account_at a s txn.from ≡ ok found)
            × (sender ≡ record found { pub_key = key })
            × (sender_key : Bytes) × (decode_payload txn.payload
                ≡ ok (record { sender_pub_key = sender_key; payload = payload }))
      unfolding authorize
      authorize-eq_ok txn s sender payload h =
          let (_, _, h1) =
            >>=-eq-ok (fail_if (is_empty txn.from || is_empty txn.to) "invalid sender or recipient")
              _ h in
          let (found, at, h2) = >>=-eq-ok (account_at a s txn.from) _ h1 in
          let (env, decoded, h3) = >>=-eq-ok (decode_payload txn.payload) _ h2 in
          let ((key, register), _, h4) =
            >>=-eq-ok (resolve_sender_pub_key c (some txn) found.pub_key env.sender_pub_key) _ h3 in
          let (_, _, h5) = >>=-eq-ok (verify_signature c (some txn) key) _ h4 in
          (
            found,
            if register then key else found.pub_key,
            at,
            with_key found sender register key cc,
            env.sender_pub_key,
            decoded ∙ ap (λ q. ok (record { sender_pub_key = env.sender_pub_key; payload = q })) cc,
          )

      pub prepare-eq_ok :
          (txn : Transaction) (time : ℤ) (s : a.State) (sender : Account) (payload : Payload)
          → prepare a r c p txn time s ≡ ok (sender, payload)
          → Prepared txn time s sender payload
      unfolding prepare
      prepare-eq_ok txn time s sender payload h =
          let ((found, payload'), authorized, h1) = >>=-eq-ok (authorize a r c p txn s) _ h in
          let (_, _, h2) =
            >>=-eq-ok (fail_if (not ((refresh p time found).nonce == txn.nonce)) "invalid nonce") _
              h1 in
          let (account, key, at, eq, sender_key, decoded) =
            authorize-eq_ok txn s found payload' authorized in
          record {
            found = account;
            found_at = at;
            sender_key = sender_key;
            decoded = ground arith;
            key = key;
            refreshed = ground arith;
            nonce = ground arith;
          }

      -- What a successful application went through.
      pub record Applied (txn : Transaction) (e : Option (Engine r)) (time : ℤ) (v : Bool)
          (s s' : a.State) : Type 0 where
        pub sender : Account
        pub payload : Payload
        pub prepared : Prepared txn time s sender payload
        pub effect : Effect a.State
        pub ran : (run_payload a r payload txn.to sender e v s).1 ≡ ok effect
        pub charged : Account
        pub paid : charge p (length (transaction_bytes txn)) effect ≡ ok charged
        pub written : a.set effect.accounts charged ≡ ok s'

      settle-eq_ok :
          (txn : Transaction) (ran : Result (Effect a.State)) (s' : a.State)
          → settle a r c p txn ran ≡ ok s'
          → (eff : Effect a.State) × (ran ≡ ok eff)
            × (charged : Account) × (charge p (length (transaction_bytes txn)) eff ≡ ok charged)
            × (a.set eff.accounts charged ≡ ok s')
      unfolding settle
      settle-eq_ok txn ran s' h =
          let (eff, q, h1) = >>=-eq-ok ran _ h in
          let (charged, paid, h2) =
            >>=-eq-ok (charge p (length (transaction_bytes txn)) eff) _ h1 in
          (eff, q, charged, paid, h2)

      run_prepared-eq_ok :
          (txn : Transaction) (e : Option (Engine r)) (time : ℤ) (v : Bool) (s s' : a.State)
          (m : Result (Account × Payload))
          → prepare a r c p txn time s ≡ m
          → (run_prepared a r c p txn m e v s).1 ≡ ok s'
          → Applied txn e time v s s'
      unfolding run_prepared
      run_prepared-eq_ok txn e time v s s' (ok (sender, payload)) q h =
          let ran = (run_payload a r payload txn.to sender e v s).1 in
          let (eff, effected, charged, paid, written) = settle-eq_ok txn ran s' h in
          record {
            sender = sender;
            payload = payload;
            prepared = prepare-eq_ok txn time s sender payload q;
            effect = eff;
            ran = effected;
            charged = charged;
            paid = paid;
            written = written;
          }
      run_prepared-eq_ok txn e time v s s' (err m) q h = cc
      run_prepared-eq_ok txn e time v s s' (panics m) q h = cc
      run_prepared-eq_ok txn e time v s s' stuck q h = cc

      pub apply_transaction-eq_ok :
          (txn : Transaction) (e : Option (Engine r)) (time : ℤ) (v : Bool) (s s' : a.State)
          → (apply_transaction a r c p (some txn) e time v s).1 ≡ ok s'
          → Applied txn e time v s s'
      unfolding apply_transaction
      apply_transaction-eq_ok txn e time v s s' h =
          run_prepared-eq_ok txn e time v s s' (prepare a r c p txn time s) refl h
