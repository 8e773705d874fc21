-- ===== src/Contracts/Taken.antt =====
-- What a refused deployment leaves behind.
use opencoin.Prelude.{
  ◌≡◌, ◌≢◌, ◌⊎◌, ◌+◌, ◌%◌, u64_mod, length, Bytes, Bytes_discrete, none, some, err, arith,
  Option-cases, inl, inr, ap, ◌∙◌,
}
use opencoin.Prelude.Map.{Map, Bytes_key, lookup, insert, lookup-insert, lookup-insert_self}
use Prim.Native.String.{String}
use opencoin.Contracts.{
  Runtime, Engine, Contract, store_module, load_module, enter_contract, enter_metrics,
  deploy_contract, run_module, load_and_run, execute_contract, set_contract_storage,
  transfer_to_contract, validate_wasm_code,
}
use opencoin.Contracts.Deploy.{Step, deploys, executes, stores, receives, validate_wasm_code-cases}

module _ (r : Runtime) where
  -- The steps that may follow.
  pub data Later (ce : Engine r) : Engine r → Type 1 where
    now : Later ce ce
    then : {mid ce' : Engine r} → Later ce mid → Step r mid ce' → Later ce ce'

  -- A contract stands at the address.
  abbrev Taken : Bytes → Engine r → Type 0
  Taken address ce = (c : Contract) × (lookup address ce.contracts ≡ some c)

  insert-kept :
      (k address : Bytes) (v c : Contract) (m : Map Bytes Contract)
      → lookup address m ≡ some c
      → (c' : Contract) × (lookup address (insert k v m) ≡ some c')
  insert-kept k address v c m h = elim (Bytes_discrete k address) [
    | yes same ↦ (v, ground (arith, lookup-insert k address v m))
    | no other ↦ (c, ground (arith, lookup-insert k address v m))
  ]

  load_module-contracts :
      (ce : Engine r) (address code : Bytes)
      → (load_module r ce address code).0.contracts ≡ ce.contracts
  unfolding load_module store_module
  load_module-contracts ce address code = ground arith

  load_and_run-contracts :
      (ce : Engine r) (address : Bytes) (contract : Contract)
      → (load_and_run r ce address contract).0.contracts ≡ ce.contracts
  unfolding load_and_run run_module
  load_and_run-contracts ce address contract =
      ground (arith, load_module-contracts ce address contract.code)

  execute_contract-contracts :
      (ce : Engine r) (address : Bytes) → (execute_contract r ce address).0.contracts ≡ ce.contracts
  unfolding execute_contract
  execute_contract-contracts ce address = elim (Option-cases (lookup address ce.contracts)) [
    | inl e ↦ ground arith
    | inr (c, e) ↦ ground (arith, load_and_run-contracts ce address c)
  ]

  -- A deployment enters its contract or leaves the contracts.
  deploy_contract-contracts :
      (ce : Engine r) (owner code address : Bytes)
      → ((deploy_contract r ce owner code address).0.contracts ≡ ce.contracts)
        ⊎ ((deploy_contract r ce owner code address).0.contracts
            ≡ (enter_contract r ce owner code address).contracts)
  unfolding deploy_contract enter_metrics
  deploy_contract-contracts ce owner code address =
      let entered = enter_contract r ce owner code address in
      ground (
        arith,
        validate_wasm_code-cases r code,
        load_module-contracts (enter_metrics r entered code address) address code,
      )

  Step-Taken :
      {ce ce' : Engine r} (address : Bytes) → Step r ce ce' → Taken address ce → Taken address ce'
  unfolding enter_contract set_contract_storage transfer_to_contract
  Step-Taken {ce} address (deploys owner code k) (c, at) =
      elim (deploy_contract-contracts ce owner code k) [
        | inl same ↦ (c, ap (lookup address) same ∙ at)
        | inr entered ↦
            let (c', there) = insert-kept k address _ c ce.contracts at in
            (c', ap (lookup address) entered ∙ there)
      ]
  Step-Taken {ce} address (executes k) (c, at) =
      (c, ap (lookup address) (execute_contract-contracts ce k) ∙ at)
  Step-Taken {ce} {ce'} address (stores k key value e) (c, at) = (c, ground arith)
  Step-Taken {ce} {ce'} address (receives k amount e) (c, at) =
      elim (Option-cases (lookup k ce.contracts)) [
        | inl missing ↦ absurd (ground arith)
        | inr (old, found) ↦
            let (c', there) =
              insert-kept k address (record old { balance = (old.balance + amount) % u64_mod }) c
                ce.contracts at in
            (c', ground (arith, there, found))
      ]

  Later-Taken :
      {ce ce' : Engine r} (address : Bytes) → Later ce ce' → Taken address ce → Taken address ce'
  Later-Taken address now t = t
  Later-Taken address (then before step) t = Step-Taken address step (Later-Taken address before t)

  refused-Taken :
      (ce : Engine r) (owner code address : Bytes) (e : String)
      → lookup address ce.contracts ≡ none
      → length code ≢ 0
      → validate_wasm_code code ≡ err e
      → ((deploy_contract r ce owner code address).1 ≡ err e)
        × Taken address (deploy_contract r ce owner code address).0
  unfolding deploy_contract enter_contract
  refused-Taken ce owner code address e free nonempty invalid =
      let made : Contract = record { address = address; owner = owner; code = code; balance = 0 } in
      let there = lookup-insert_self address made ce.contracts in
      (ground (arith, free, invalid), (made, ground (arith, free, invalid, there)))

  -- A deployment that is refused for its code takes the address for ever: after any deployments,
  -- calls, writes to contracts' storage and transfers to contracts, every deployment there is
  -- refused because a contract exists and changes nothing, whatever its owner and its code. This is
  -- for an address that was free, and code that is not empty and is not valid.
  pub deploy_contract_taken :
      (ce later : Engine r) (owner code address owner' code' : Bytes) (e : String)
      → lookup address ce.contracts ≡ none
      → length code ≢ 0
      → validate_wasm_code code ≡ err e
      → Later (deploy_contract r ce owner code address).0 later
      → ((deploy_contract r ce owner code address).1 ≡ err e)
        × (deploy_contract r later owner' code' address
            ≡ (later, err "contract already exists at address"))
  unfolding deploy_contract
  deploy_contract_taken ce later owner code address owner' code' e free nonempty invalid steps =
      let (refused, taken) = refused-Taken ce owner code address e free nonempty invalid in
      let (c, there) = Later-Taken address steps taken in (refused, ground (arith, there))
