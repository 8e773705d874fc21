-- ===== src/Ledger.antt =====
-- Applying a transaction: `applyTransactionWithKV` of pkg/state/state.go. The accounts enter
-- through the interface `Accounts`, which stands for the source's
-- closures `get` and `set` and which the store fills.
pub mod Apply
pub mod Effects
pub mod Payments
pub mod Invariant
pub mod Block
pub mod Backend
pub mod Coster
pub mod Preview
use opencoin.Prelude.{
  ℕ, suc, ◌+◌, ◌-◌, ◌%◌, ◌≡◌, ite, [], length, Bytes, Bytes_discrete, Bool, true, false, not, ◌||◌,
  ltb, ◌==◌, if◌then◌else◌, Option, none, some, Result, ok, err, panics, stuck, ◌>>=◌, ◌>>◌,
  fail_if, u64_mod,
}
use opencoin.Prelude.Int.{ℤ}
use opencoin.Types.{Address, Transaction, Account, empty_account}
use opencoin.Wire.{Wire}
use opencoin.Payload.{
  Transfer, StakeDelegate, StakeUndelegate, ContractDeploy, ContractCall, Payload, transfer,
  stake_delegate, stake_undelegate, contract_deploy, contract_call, governance_proposal,
  governance_vote, PayloadEnvelope,
}
use opencoin.Payload.Decode.{decode_payload}
use opencoin.Encoding.{transaction_bytes, marshal_transaction}
use opencoin.Store.Codec.RoundTrip.{IsValid}
use opencoin.Crypto.{Crypto, resolve_sender_pub_key, verify_signature}
use opencoin.Contracts.{
  Runtime, Engine, deploy_contract, execute_contract_with_result, estimate_contract_call,
  estimate_state_writes, estimate_instructions, validate_wasm_code,
}
use opencoin.Rc.{Params, regen, rc_max, cost}

-- The accounts of a database or a batch: a read answers nothing for an unknown address.
pub record Accounts : Type 1 where
  pub State : Type 0
  pub get : State → Address → Result (Option Account)
  pub set : State → Account → Result State

-- After an account in range was written, its address reads it and every other address reads what it
-- read before.
pub record AccountsLaws (a : Accounts) : Type 0 where
  pub get_set :
      (s s' : a.State) (acct : Account) (addr : Address)
      → IsValid acct
      → a.set s acct ≡ ok s'
      → a.get s' addr ≡ ite (Bytes_discrete acct.address addr) (ok (some acct)) (a.get s addr)

-- `addr == ""`
abbrev pub is_empty : Bytes → Bool
is_empty b = length b == 0

-- What a payload comes to before the cost is charged: the sender, not yet written, the accounts,
-- and
-- the two numbers that the cost depends on.
pub record Effect (State : Type 0) : Type 0 where
  pub sender : Account
  pub accounts : State
  pub instructions : ℕ
  pub state_writes : ℕ

-- The refresh of the sender's credit before the nonce is checked.
unfoldable pub refresh : Params → ℤ → Account → Account
refresh p time sender =
    let (rc, last) = regen p sender.rc sender.stake sender.last_rc_effective_time time in
    record sender { rc = rc; last_rc_effective_time = last; rc_max = rc_max p sender.stake }

-- The cost against the refreshed credit, the nonce, and the new greatest credit.
unfoldable pub charge : Params → ℕ → {State : Type 0} → Effect State → Result Account
charge p size eff =
    let price = cost p size eff.instructions eff.state_writes in
    let sender = eff.sender in
    if ltb sender.rc price
    then err "insufficient rc"
    else ok (record sender {
      rc = sender.rc - price;
      nonce = (sender.nonce + 1) % u64_mod;
      rc_max = rc_max p sender.stake;
    })

module _ (a : Accounts) where
  open a use {State}

  -- `get(addr)` with the fallback for an unknown address.
  unfoldable pub account_at : State → Address → Result Account
  account_at s addr = do
    found ← a.get s addr
    elim found [ none ↦ ok (empty_account addr) | some acct ↦ ok acct ]

  -- The receiver is read while the sender's new balance is not yet written.
  unfoldable pub run_transfer : Transfer → Account → State → Result (Effect State)
  run_transfer p sender s = do
    fail_if (ltb sender.balance p.amount) "insufficient balance"
    receiver ← account_at s p.to
    s' ← a.set s (record receiver { balance = (receiver.balance + p.amount) % u64_mod })
    ok (record {
      sender = record sender { balance = sender.balance - p.amount };
      accounts = s';
      instructions = 0;
      state_writes = 2;
    })

  unfoldable pub run_stake_delegate : StakeDelegate → Account → State → Result (Effect State)
  run_stake_delegate p sender s = do
    fail_if (ltb sender.balance p.amount) "insufficient balance"
    ok (record {
      sender = record sender {
        balance = sender.balance - p.amount;
        stake = (sender.stake + p.amount) % u64_mod;
      };
      accounts = s;
      instructions = 0;
      state_writes = 1;
    })

  unfoldable pub run_stake_undelegate : StakeUndelegate → Account → State → Result (Effect State)
  run_stake_undelegate p sender s = do
    fail_if (ltb sender.stake p.amount) "insufficient stake"
    ok (record {
      sender = record sender {
        stake = sender.stake - p.amount;
        balance = (sender.balance + p.amount) % u64_mod;
      };
      accounts = s;
      instructions = 0;
      state_writes = 1;
    })

  -- A governance payload: nothing but the cost.
  unfoldable pub run_governance : Account → State → Result (Effect State)
  run_governance sender s =
      ok (record { sender = sender; accounts = s; instructions = 0; state_writes = 1 })

  module _ (r : Runtime) where
    -- The code is stored in the account under the transaction's recipient.
    unfoldable pub store_code :
        ContractDeploy → Address → Account → State → Result (Unit {0}) → Result (Effect State)
    store_code p addr sender s deployed = do
      deployed
      contract ← account_at s addr
      s' ← a.set s (record contract { code = p.wasm_code })
      ok (record { sender = sender; accounts = s'; instructions = 0; state_writes = 1 })

    unfoldable pub run_contract_deploy :
        ContractDeploy
        → Address
        → Account
        → Option (Engine r)
        → Bool
        → State
        → Option (Engine r) × Result (Effect State)
    run_contract_deploy p addr sender none preview s = (none, err "contract engine not configured")
    run_contract_deploy p addr sender (some engine) preview s =
        if is_empty addr
        then (some engine, err "contract deploy missing target address")
        else (if preview
            then (some engine, store_code p addr sender s (validate_wasm_code p.wasm_code))
            else (let (engine', deployed) = deploy_contract r engine addr p.wasm_code addr in
                (some engine', store_code p addr sender s deployed)))

    unfoldable pub run_contract_call :
        ContractCall
        → Account
        → Option (Engine r)
        → Bool
        → State
        → Option (Engine r) × Result (Effect State)
    run_contract_call p sender none preview s = (none, err "contract engine not configured")
    run_contract_call p sender (some engine) preview s =
        if preview
        then (
          some engine,
          ok (record {
            sender = sender;
            accounts = s;
            instructions = estimate_contract_call r engine p.address;
            state_writes = estimate_state_writes r engine p.address;
          }),
        )
        else (let (engine', ran) = execute_contract_with_result r engine p.address in
            (
              some engine',
              (do
                result ← ran
                ok (record {
                  sender = sender;
                  accounts = s;
                  instructions = result.instructions;
                  state_writes = result.state_writes;
                })),
            ))

    -- The type switch on the payload.
    unfoldable pub run_payload :
        Payload
        → Address
        → Account
        → Option (Engine r)
        → Bool
        → State
        → Option (Engine r) × Result (Effect State)
    run_payload (transfer p) to sender engine preview s = (engine, run_transfer p sender s)
    run_payload (stake_delegate p) to sender engine preview s =
        (engine, run_stake_delegate p sender s)
    run_payload (stake_undelegate p) to sender engine preview s =
        (engine, run_stake_undelegate p sender s)
    run_payload (contract_deploy p) to sender engine preview s =
        run_contract_deploy p to sender engine preview s
    run_payload (contract_call p) to sender engine preview s =
        run_contract_call p sender engine preview s
    run_payload (governance_proposal p) to sender engine preview s =
        (engine, run_governance sender s)
    run_payload (governance_vote p) to sender engine preview s = (engine, run_governance sender s)

    module _ ⦃w : Wire⦄ (c : Crypto) (p : Params) where
      -- The checks of the sender's key and signature; a new key is put into the account.
      unfoldable pub authorize : Transaction → State → Result (Account × Payload)
      authorize txn s = do
        fail_if (is_empty txn.from || is_empty txn.to) "invalid sender or recipient"
        sender ← account_at s txn.from
        env ← decode_payload txn.payload
        (key, register) ← resolve_sender_pub_key c (some txn) sender.pub_key env.sender_pub_key
        verify_signature c (some txn) key
        ok (if register then record sender { pub_key = key } else sender, env.payload)

      -- The credit is refreshed before the nonce is compared.
      unfoldable pub prepare : Transaction → ℤ → State → Result (Account × Payload)
      prepare txn time s = do
        (sender, payload) ← authorize txn s
        let refreshed = refresh p time sender
        fail_if (not (refreshed.nonce == txn.nonce)) "invalid nonce"
        ok (refreshed, payload)

      -- What follows the type switch: the cost is charged and the sender written.
      unfoldable pub settle : Transaction → Result (Effect State) → Result State
      settle txn ran = do
        eff ← ran
        sender ← charge p (length (transaction_bytes txn)) eff
        a.set eff.accounts sender

      -- The type switch and what follows it, unless a check before it failed.
      unfoldable pub run_prepared :
          Transaction
          → Result (Account × Payload)
          → Option (Engine r)
          → Bool
          → State
          → Option (Engine r) × Result State
      run_prepared txn (ok (sender, payload)) engine preview s =
          let (engine', ran) = run_payload payload txn.to sender engine preview s in
          (engine', settle txn ran)
      run_prepared txn (err e) engine preview s = (engine, err e)
      run_prepared txn (panics e) engine preview s = (engine, panics e)
      run_prepared txn stuck engine preview s = (engine, stuck)

      unfoldable pub apply_transaction :
          Option Transaction
          → Option (Engine r)
          → ℤ
          → Bool
          → State
          → Option (Engine r) × Result State
      apply_transaction none engine time preview s = (engine, err "transaction is nil")
      apply_transaction (some txn) engine time preview s =
          run_prepared txn (prepare txn time s) engine preview s
