-- ===== src/Contracts/Deploy.antt =====
-- Deployment: what an engine can do that comes from `NewContractEngine`.
use opencoin.Prelude.{
  ℕ, ◌≡◌, refl, ◌≢◌, ◌⊎◌, length, Bytes, ◌==◌, Bool-cases, Result, none, some, ok, err, panics,
  arith, ◌∙◌, Option-cases, inl, inr,
}
use opencoin.Prelude.Map.{Bytes_key, lookup}
use Prim.Native.String.{String}
use opencoin.Contracts.{
  Runtime, Engine, Contract, new_contract_engine, store_module, load_module, enter_contract,
  enter_metrics, deploy_contract, run_module, load_and_run, execute_contract, set_contract_storage,
  transfer_to_contract, validate_wasm_code, bad_magic, contains_float_opcodes,
}

module _ (r : Runtime) where
  -- The operations that change an engine; those that fail leave it as they return it.
  pub data Step (ce : Engine r) : Engine r → Type 1 where
    deploys : (owner code address : Bytes) → Step ce (deploy_contract r ce owner code address).0
    executes : (address : Bytes) → Step ce (execute_contract r ce address).0
    stores :
        {ce' : Engine r} (address key value : Bytes)
        → set_contract_storage r ce address key value ≡ ok ce'
        → Step ce ce'
    receives :
        {ce' : Engine r} (address : Bytes) (amount : ℕ)
        → transfer_to_contract r ce address amount ≡ ok ce'
        → Step ce ce'

  -- What an engine can come to from `NewContractEngine`.
  pub data Reachable : Engine r → Type 1 where
    fresh : Reachable (new_contract_engine r)
    next : {ce ce' : Engine r} → Reachable ce → Step ce ce' → Reachable ce'

  load_module-compiled :
      (ce : Engine r) (address code : Bytes)
      → ce.compiled ≡ none
      → ((load_module r ce address code).0.compiled ≡ none)
        × ((load_module r ce address code).1 ≢ ok tt)
  unfolding load_module store_module
  load_module-compiled ce address code h = ground arith

  deploy_contract-compiled :
      (ce : Engine r) (owner code address : Bytes)
      → ce.compiled ≡ none
      → ((deploy_contract r ce owner code address).0.compiled ≡ none)
        × ((deploy_contract r ce owner code address).1 ≢ ok tt)
  unfolding deploy_contract enter_contract enter_metrics
  deploy_contract-compiled ce owner code address h =
      let entered = enter_contract r ce owner code address in
      ground (arith, load_module-compiled (enter_metrics r entered code address) address code)

  load_and_run-compiled :
      (ce : Engine r) (address : Bytes) (contract : Contract)
      → ce.compiled ≡ none
      → (load_and_run r ce address contract).0.compiled ≡ none
  unfolding load_and_run run_module
  load_and_run-compiled ce address contract h =
      ground (arith, load_module-compiled ce address contract.code)

  execute_contract-compiled :
      (ce : Engine r) (address : Bytes)
      → ce.compiled ≡ none
      → (execute_contract r ce address).0.compiled ≡ none
  unfolding execute_contract
  execute_contract-compiled ce address h = elim (Option-cases (lookup address ce.contracts)) [
    | inl e ↦ ground arith
    | inr (c, e) ↦ ground (arith, load_and_run-compiled ce address c)
  ]

  set_contract_storage-compiled :
      (ce ce' : Engine r) (address key value : Bytes)
      → set_contract_storage r ce address key value ≡ ok ce'
      → ce'.compiled ≡ ce.compiled
  unfolding set_contract_storage
  set_contract_storage-compiled ce ce' address key value h = ground arith

  transfer_to_contract-compiled :
      (ce ce' : Engine r) (address : Bytes) (amount : ℕ)
      → transfer_to_contract r ce address amount ≡ ok ce'
      → ce'.compiled ≡ ce.compiled
  unfolding transfer_to_contract
  transfer_to_contract-compiled ce ce' address amount h = ground arith

  Step-compiled : {ce ce' : Engine r} → Step ce ce' → ce.compiled ≡ none → ce'.compiled ≡ none
  Step-compiled {ce} (deploys owner code address) h =
      (deploy_contract-compiled ce owner code address h).0
  Step-compiled {ce} (executes address) h = execute_contract-compiled ce address h
  Step-compiled {ce} {ce'} (stores address key value e) h =
      set_contract_storage-compiled ce ce' address key value e ∙ h
  Step-compiled {ce} {ce'} (receives address amount e) h =
      transfer_to_contract-compiled ce ce' address amount e ∙ h

  Reachable-compiled : {ce : Engine r} → Reachable ce → ce.compiled ≡ none
  unfolding new_contract_engine
  Reachable-compiled fresh = refl
  Reachable-compiled (next reach step) = Step-compiled step (Reachable-compiled reach)

  -- Every check of a deployment passes, and the runtime compiles and instantiates the code.
  pub record Passes (ce : Engine r) (code address : Bytes) : Type 0 where
    pub free : lookup address ce.contracts ≡ none
    pub nonempty : length code ≢ 0
    pub valid : validate_wasm_code code ≡ ok tt
    pub compiled : r.Compiled
    pub compiles : r.compile_module code ≡ some compiled
    pub instance_of : r.Module
    pub instantiates : r.instantiate_module compiled ≡ some instance_of

  -- The outcome of a deployment with the nil map of compiled modules.
  abbrev pub Refused : Engine r → Bytes → Bytes → Result (Unit {0}) → Type 0
  Refused ce code address out =
      (((e : String) × (out ≡ err e)) × ¬ Passes ce code address)
      ⊎ (Passes ce code address × (out ≡ panics "assignment to entry in nil map"))

  Passes-panics :
      (ce : Engine r) (owner code address : Bytes)
      → ce.compiled ≡ none
      → Passes ce code address
      → (deploy_contract r ce owner code address).1 ≡ panics "assignment to entry in nil map"
  unfolding deploy_contract load_module store_module enter_contract enter_metrics
  Passes-panics ce owner code address h p =
      ground (arith, p.free, p.nonempty, p.valid, p.compiles, p.instantiates)

  compiled_or_err :
      (ce : Engine r) (owner code address : Bytes)
      → ce.compiled ≡ none
      → lookup address ce.contracts ≡ none
      → length code ≢ 0
      → validate_wasm_code code ≡ ok tt
      → Refused ce code address (deploy_contract r ce owner code address).1
  unfolding deploy_contract load_module enter_contract enter_metrics
  compiled_or_err ce owner code address h free nonempty valid =
      elim (Option-cases (r.compile_module code)) [
        | inl broken ↦ inl (
          ("failed to compile wasm module", ground (arith, free, valid, broken)),
          (λ p. cc (broken, p.compiles)),
        )
        | inr (c, compiles) ↦ elim (Option-cases (r.instantiate_module c)) [
          | inl broken ↦ inl (
            ("failed to instantiate wasm module", ground (arith, free, valid, compiles, broken)),
            (λ p. cc (broken, compiles, p.compiles, p.instantiates)),
          )
          | inr (m, instantiates) ↦
              let p : Passes ce code address = record {
                free = free;
                nonempty = nonempty;
                valid = valid;
                compiled = c;
                compiles = compiles;
                instance_of = m;
                instantiates = instantiates;
              } in
              inr (p, Passes-panics ce owner code address h p)
        ]
      ]

  pub validate_wasm_code-cases :
      (code : Bytes)
      → (validate_wasm_code code ≡ ok tt) ⊎ ((e : String) × (validate_wasm_code code ≡ err e))
  unfolding validate_wasm_code
  validate_wasm_code-cases code = elim (Bool-cases (length code == 0)) [
    | inl empty ↦ inr ("empty code", rw empty refl)
    | inr full ↦ elim (Bool-cases (bad_magic code)) [
      | inl bad ↦ inr ("invalid WASM magic number", rw (full, bad) refl)
      | inr good ↦ elim (Bool-cases (contains_float_opcodes code)) [
        | inl floats ↦ inr ("wasm contains floating-point opcodes", rw (full, good, floats) refl)
        | inr none_of_them ↦ inl (rw (full, good, none_of_them) refl)
      ]
    ]
  ]

  -- No engine that comes from `NewContractEngine` ever deploys a contract: whatever the runtime and
  -- the code are, the deployment ends in an error, and then one of the checks, the compilation and
  -- the instantiation fails, or all of them pass and it ends in a panic of the write to the nil
  -- map.
  pub deploy_contract-Refused :
      (ce : Engine r) (owner code address : Bytes)
      → Reachable ce
      → Refused ce code address (deploy_contract r ce owner code address).1
  unfolding deploy_contract
  deploy_contract-Refused ce owner code address reach =
      let h = Reachable-compiled reach in
      elim (Option-cases (lookup address ce.contracts)) [
        | inr (c, taken) ↦ inl (
          ("contract already exists at address", ground (arith, taken)),
          (λ p. cc (taken, p.free)),
        )
        | inl free ↦ elim (Bool-cases (length code == 0)) [
          | inl empty ↦
              inl (("empty contract code", ground (arith, free)), (λ p. p.nonempty (ground arith)))
          | inr full ↦ elim (validate_wasm_code-cases code) [
            | inr (e, invalid) ↦
                inl ((e, ground (arith, free, invalid)), (λ p. cc (invalid, p.valid)))
            | inl valid ↦ compiled_or_err ce owner code address h free (ground arith) valid
          ]
        ]
      ]
