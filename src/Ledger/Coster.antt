-- ===== src/Ledger/Coster.antt =====
-- The estimate of a transaction's cost, pkg/tx/coster.go, against what applying it charges.
use opencoin.Prelude.{
  ℕ, ◌≡◌, refl, ◌≢◌, length, Bytes, true, Option, none, some, Result, ok, err, ◌>>=◌, arith,
}
use opencoin.Types.{Address, Transaction, Account}
use opencoin.Wire.{Wire}
use opencoin.Payload.{
  Payload, ContractDeploy, transfer, stake_delegate, stake_undelegate, contract_deploy,
  contract_call, governance_proposal, governance_vote,
}
use opencoin.Payload.Decode.{decode_payload}
use opencoin.Encoding.{transaction_bytes, marshal_transaction}
use opencoin.Contracts.{
  Runtime, Engine, estimate_instructions, estimate_contract_call, estimate_state_writes,
}
use opencoin.Rc.{Params, cost}
use opencoin.Ledger.{
  Accounts, Effect, run_payload, run_transfer, run_stake_delegate, run_stake_undelegate,
  run_governance, run_contract_call,
}

module _ (r : Runtime) where
  -- The type switch: instructions and writes.
  unfoldable pub estimate : Option (Engine r) → Payload → ℕ × ℕ
  estimate engine (transfer p) = (0, 2)
  estimate engine (stake_delegate p) = (0, 1)
  estimate engine (stake_undelegate p) = (0, 1)
  estimate (some engine) (contract_deploy p) = (estimate_instructions p.wasm_code, 1)
  estimate none (contract_deploy p) = (0, 1)
  estimate (some engine) (contract_call p) =
      (estimate_contract_call r engine p.address, estimate_state_writes r engine p.address)
  estimate none (contract_call p) = (0, 1)
  estimate engine (governance_proposal p) = (0, 1)
  estimate engine (governance_vote p) = (0, 1)

  -- `Coster.Cost`.
  unfoldable pub estimate_cost :
      ⦃w : Wire⦄ → Params → Option (Engine r) → Option Transaction → Result ℕ
  unfolding marshal_transaction
  estimate_cost p engine none = err "tx is nil"
  estimate_cost p engine (some txn) = do
    env ← decode_payload txn.payload
    size_bytes ← marshal_transaction (some txn)
    let (instructions, writes) = estimate engine env.payload
    ok (cost p (length size_bytes) instructions writes)

  module _ (a : Accounts) where
    previewed-estimate :
        (q : Payload) (to : Address) (sender : Account) (e : Option (Engine r)) (s : a.State)
        (eff : Effect a.State)
        → ((d : ContractDeploy) → q ≢ contract_deploy d)
        → (run_payload a r q to sender e true s).1 ≡ ok eff
        → estimate e q ≡ (eff.instructions, eff.state_writes)
    unfolding estimate run_payload run_transfer run_stake_delegate run_stake_undelegate
        run_governance run_contract_call
    previewed-estimate (transfer p) to sender e s eff nd h = ground arith
    previewed-estimate (stake_delegate p) to sender e s eff nd h = ground arith
    previewed-estimate (stake_undelegate p) to sender e s eff nd h = ground arith
    previewed-estimate (contract_deploy p) to sender e s eff nd h = absurd (nd p refl)
    previewed-estimate (contract_call p) to sender none s eff nd h = cc
    previewed-estimate (contract_call p) to sender (some e) s eff nd h = ground arith
    previewed-estimate (governance_proposal p) to sender e s eff nd h = ground arith
    previewed-estimate (governance_vote p) to sender e s eff nd h = ground arith

    -- For every payload but a deployment, the cost that the coster estimates with an engine is the
    -- cost that previewing the transaction with that engine charges for what the payload came to.
    pub estimate_cost-eq-charged :
        ⦃w : Wire⦄ (p : Params) (txn : Transaction) (q : Payload) (key : Bytes) (sender : Account)
        (e : Option (Engine r)) (s : a.State) (eff : Effect a.State)
        → decode_payload txn.payload ≡ ok (record { sender_pub_key = key; payload = q })
        → ((d : ContractDeploy) → q ≢ contract_deploy d)
        → (run_payload a r q txn.to sender e true s).1 ≡ ok eff
        → estimate_cost p e (some txn)
          ≡ ok (cost p (length (transaction_bytes txn)) eff.instructions eff.state_writes)
    unfolding estimate_cost marshal_transaction
    estimate_cost-eq-charged p txn q key sender e s eff decoded nd h =
        rw (decoded, previewed-estimate q txn.to sender e s eff nd h) refl
