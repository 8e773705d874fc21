-- ===== src/Ledger/Preview.antt =====
-- What a preview does to the contract engine, and where it agrees with applying.
use opencoin.Prelude.{
  ◌≡◌, refl, List, [], ◌∷◌, All, true, false, Bool-cases, inl, inr, Option, none, some, Result, ok,
  err, panics, stuck, and_then, ap, ◌∙◌,
}
use mathlib.Core.Path.{fun_ext}
use opencoin.Prelude.Int.{ℤ}
use opencoin.Types.{Address, Account, Transaction}
use opencoin.Wire.{Wire}
use opencoin.Crypto.{Crypto}
use opencoin.Contracts.{Runtime, Engine}
use opencoin.Payload.{
  Payload, PayloadEnvelope, transfer, stake_delegate, stake_undelegate, contract_deploy,
  contract_call, governance_proposal, governance_vote,
}
use opencoin.Payload.Decode.{decode_payload}
use opencoin.Rc.{Params}
use opencoin.Ledger.{
  Accounts, Effect, run_payload, run_contract_deploy, run_contract_call, run_prepared, prepare,
  apply_transaction, settle, is_empty,
}
use opencoin.Ledger.Apply.{prepare-eq_ok}
use opencoin.Ledger.Block.{apply_transactions}

-- The payloads that the contract engine has no part in.
abbrev pub IsPlain : Payload → Type 0
IsPlain (contract_deploy p) = ⊥
IsPlain (contract_call p) = ⊥
IsPlain other = Unit {0}

module _ (a : Accounts) (r : Runtime) where
  run_payload-previews :
      (p : Payload) (to : Address) (sender : Account) (engine : Option (Engine r)) (s : a.State)
      → (run_payload a r p to sender engine true s).0 ≡ engine
  unfolding run_payload run_contract_deploy run_contract_call
  run_payload-previews (transfer p) to sender engine s = refl
  run_payload-previews (stake_delegate p) to sender engine s = refl
  run_payload-previews (stake_undelegate p) to sender engine s = refl
  run_payload-previews (contract_deploy p) to sender none s = refl
  run_payload-previews (contract_deploy p) to sender (some engine) s =
      elim (Bool-cases (is_empty to)) [ inl e ↦ rw e refl | inr e ↦ rw e refl ]
  run_payload-previews (contract_call p) to sender none s = refl
  run_payload-previews (contract_call p) to sender (some engine) s = refl
  run_payload-previews (governance_proposal p) to sender engine s = refl
  run_payload-previews (governance_vote p) to sender engine s = refl

  -- Without contracts a preview does what applying does.
  run_payload-plain :
      (p : Payload) (to : Address) (sender : Account) (engine : Option (Engine r)) (s : a.State)
      → IsPlain p
      → run_payload a r p to sender engine true s ≡ run_payload a r p to sender engine false s
  unfolding run_payload
  run_payload-plain (transfer p) to sender engine s h = refl
  run_payload-plain (stake_delegate p) to sender engine s h = refl
  run_payload-plain (stake_undelegate p) to sender engine s h = refl
  run_payload-plain (contract_deploy p) to sender engine s h = absurd h
  run_payload-plain (contract_call p) to sender engine s h = absurd h
  run_payload-plain (governance_proposal p) to sender engine s h = refl
  run_payload-plain (governance_vote p) to sender engine s h = refl

  module _ ⦃w : Wire⦄ (c : Crypto) (p : Params) where
    run_prepared-previews :
        (txn : Transaction) (prepared : Result (Account × Payload)) (engine : Option (Engine r))
        (s : a.State)
        → (run_prepared a r c p txn prepared engine true s).0 ≡ engine
    unfolding run_prepared
    run_prepared-previews txn (ok (sender, payload)) engine s =
        run_payload-previews payload txn.to sender engine s
    run_prepared-previews txn (err e) engine s = refl
    run_prepared-previews txn (panics e) engine s = refl
    run_prepared-previews txn stuck engine s = refl

    apply_transaction-previews :
        (txn : Option Transaction) (engine : Option (Engine r)) (time : ℤ) (s : a.State)
        → (apply_transaction a r c p txn engine time true s).0 ≡ engine
    unfolding apply_transaction
    apply_transaction-previews none engine time s = refl
    apply_transaction-previews (some txn) engine time s =
        run_prepared-previews txn (prepare a r c p txn time s) engine s

    after_previews :
        (e e' : Option (Engine r)) (applied : Result a.State)
        (next : Option (Engine r) → a.State → Option (Engine r) × Result a.State)
        → e' ≡ e
        → ((s : a.State) → (next e s).0 ≡ e)
        → (and_then e' applied (next e')).0 ≡ e
    after_previews e e' stuck next same rest = same
    after_previews e e' (panics _) next same rest = same
    after_previews e e' (err _) next same rest = same
    after_previews e e' (ok s) next same rest = ap (λ x. (next x s).0) same ∙ rest s

    -- A preview of any transactions leaves the contract engine as it was, however far it comes.
    pub apply_transactions-previews :
        (txns : List Transaction) (engine : Option (Engine r)) (time : ℤ) (s : a.State)
        → (apply_transactions a r c p txns engine time true s).0 ≡ engine
    unfolding apply_transactions
    apply_transactions-previews [] engine time s = refl
    apply_transactions-previews (txn ∷ txns) engine time s =
        let (e', applied) = apply_transaction a r c p (some txn) engine time true s in
        after_previews engine e' applied (λ e x. apply_transactions a r c p txns e time true x)
          (apply_transaction-previews (some txn) engine time s)
          (λ x. apply_transactions-previews txns engine time x)

    run_prepared-IsPlain :
        (txn : Transaction) (prepared : Result (Account × Payload)) (engine : Option (Engine r))
        (s : a.State)
        → ((found : Account × Payload) → prepared ≡ ok found → IsPlain found.1)
        → run_prepared a r c p txn prepared engine true s
          ≡ run_prepared a r c p txn prepared engine false s
    unfolding run_prepared
    run_prepared-IsPlain txn (ok (sender, payload)) engine s h =
        ap
          (λ (ran : Option (Engine r) × Result (Effect a.State)). (ran.0, settle a r c p txn ran.1))
          (run_payload-plain payload txn.to sender engine s (h (sender, payload) refl))
    run_prepared-IsPlain txn (err e) engine s h = refl
    run_prepared-IsPlain txn (panics e) engine s h = refl
    run_prepared-IsPlain txn stuck engine s h = refl

    -- A transaction whose payload, if it decodes, is no contract payload.
    abbrev pub IsPlainTransaction : Transaction → Type 0
    IsPlainTransaction txn =
        (env : PayloadEnvelope) → decode_payload txn.payload ≡ ok env → IsPlain env.payload

    prepared-IsPlain :
        (txn : Transaction) (time : ℤ) (s : a.State) (found : Account × Payload)
        → IsPlainTransaction txn
        → prepare a r c p txn time s ≡ ok found
        → IsPlain found.1
    prepared-IsPlain txn time s (sender, payload) h e =
        let prepared = prepare-eq_ok a r c p txn time s sender payload e in h _ prepared.decoded

    -- Without contract payloads a preview comes to what applying comes to.
    pub apply_transactions-plain :
        (txns : List Transaction) (engine : Option (Engine r)) (time : ℤ) (s : a.State)
        → All IsPlainTransaction txns
        → apply_transactions a r c p txns engine time true s
          ≡ apply_transactions a r c p txns engine time false s
    unfolding apply_transactions apply_transaction
    apply_transactions-plain [] engine time s h = refl
    apply_transactions-plain (txn ∷ txns) engine time s (h, hs) =
        let one =
          run_prepared-IsPlain txn (prepare a r c p txn time s) engine s
            (λ found e. prepared-IsPlain txn time s found h e) in
        ap
          (λ (ran : Option (Engine r) × Result a.State).
            and_then ran.0 ran.1 (λ x. apply_transactions a r c p txns ran.0 time true x))
          one
        ∙ ap
            (λ (next : Option (Engine r) → a.State → Option (Engine r) × Result a.State).
              let ran = run_prepared a r c p txn (prepare a r c p txn time s) engine false s in
              and_then ran.0 ran.1 (next ran.0))
            (fun_ext (λ e. fun_ext (λ x. apply_transactions-plain txns e time x hs)))
