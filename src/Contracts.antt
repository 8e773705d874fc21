-- ===== src/Contracts.antt =====
-- The contract engine: pkg/contracts/engine.go. The WebAssembly runtime, wazero, is not part of the
-- repository and enters as a record. A call that fails returns the engine as it was left.
pub mod Deploy
pub mod Taken
use opencoin.Prelude.{
  ℕ, ◌+◌, ◌/◌, ◌%◌, ◌^◌, [], ◌∷◌, List, length, Bytes, Bool, true, false, ◌||◌, not, ◌==◌, ltb,
  if◌then◌else◌, Option, none, some, Result, ok, err, panics, stuck, ◌>>=◌, ◌>>◌, fail_if, get_or,
  u64_mod,
}
use opencoin.Prelude.Map.{Map, Bytes_key, lookup, insert}
use Prim.Native.String.{String}

-- What a call of the exported function `handle` comes to: there is none, it fails, it panics, or it
-- returns numbers.
pub data Handle : Type 0 where
  no_handle failed panicked : Handle
  returned : List ℕ → Handle

-- `compile_module` and `instantiate_module` answer `none` for an error; a call changes the module.
pub record Runtime : Type 1 where
  pub Compiled : Type 0
  pub Module : Type 0
  pub compile_module : Bytes → Option Compiled
  pub instantiate_module : Compiled → Option Module
  pub call_handle : Module → Module × Handle

pub record Contract : Type 0 where
  pub address : Bytes
  pub owner : Bytes
  pub code : Bytes
  pub balance : ℕ

pub record Metrics : Type 0 where
  pub instruction_estimate : ℕ
  pub state_write_estimate : ℕ

-- `metrics[address]` of a missing key.
abbrev pub metrics_or_zero : Option Metrics → Metrics
metrics_or_zero none = record { instruction_estimate = 0; state_write_estimate = 0 }
metrics_or_zero (some m) = m

-- `v, ok := floatOpcodes[b]`.
unfoldable pub is_float_opcode : ℕ → Bool
is_float_opcode b =
    b == 0x43
    || b == 0x44
    || b == 0x8b
    || b == 0x8c
    || b == 0x8d
    || b == 0x8e
    || b == 0x99
    || b == 0x9a
    || b == 0x9b
    || b == 0x9c

unfoldable pub contains_float_opcodes : Bytes → Bool
contains_float_opcodes [] = false
contains_float_opcodes (b ∷ code) = is_float_opcode b || contains_float_opcodes code

-- `len(code) < 4 || code[0] != 0x00 || ...`
unfoldable pub bad_magic : Bytes → Bool
bad_magic code =
    ltb (length code) 4
    || not (get_or code 0 0 == 0x00)
    || not (get_or code 1 0 == 0x61)
    || not (get_or code 2 0 == 0x73)
    || not (get_or code 3 0 == 0x6d)

unfoldable pub validate_wasm_code : Bytes → Result (Unit {0})
validate_wasm_code code = do
  fail_if (length code == 0) "empty code"
  fail_if (bad_magic code) "invalid WASM magic number"
  fail_if (contains_float_opcodes code) "wasm contains floating-point opcodes"
  ok tt

unfoldable pub estimate_instructions : Bytes → ℕ
estimate_instructions wasm_code = length wasm_code

-- The eight bytes of a uint64, the lowest first.
unfoldable pub little_endian : ℕ → Bytes
little_endian v =
    v % 256
    ∷ v / 2 ^ 8 % 256
    ∷ v / 2 ^ 16 % 256
    ∷ v / 2 ^ 24 % 256
    ∷ v / 2 ^ 32 % 256
    ∷ v / 2 ^ 40 % 256
    ∷ v / 2 ^ 48 % 256
    ∷ v / 2 ^ 56 % 256
    ∷ []

module _ (r : Runtime) where
  open r use {Compiled, Module}

  -- `compiled` is `none` for the nil map, which cannot be written to.
  pub record Engine : Type 0 where
    pub contracts : Map Bytes Contract
    pub code : Map Bytes Bytes
    pub state : Map Bytes (Map Bytes Bytes)
    pub compiled : Option (Map Bytes Compiled)
    pub modules : Map Bytes Module
    pub max_call_depth : ℕ
    pub metrics : Map Bytes Metrics

  -- `NewContractEngine` makes every map but `compiled`.
  unfoldable pub new_contract_engine : Engine
  new_contract_engine = record {
    contracts = [];
    code = [];
    state = [];
    compiled = none;
    modules = [];
    max_call_depth = 32;
    metrics = [];
  }

  -- `ce.compiled[address] = compiled; ce.modules[address] = mod`.
  unfoldable pub store_module : Engine → Bytes → Compiled → Module → Engine × Result (Unit {0})
  store_module ce address c m = elim ce.compiled [
    | none ↦ (ce, panics "assignment to entry in nil map")
    | some known ↦ (
      record ce { compiled = some (insert address c known); modules = insert address m ce.modules },
      ok tt,
    )
  ]

  -- Compiling and instantiating, in `DeployContract` and on demand.
  unfoldable pub load_module : Engine → Bytes → Bytes → Engine × Result (Unit {0})
  load_module ce address wasm_code = elim (r.compile_module wasm_code) [
    | none ↦ (ce, err "failed to compile wasm module")
    | some c ↦ elim (r.instantiate_module c) [
      | none ↦ (ce, err "failed to instantiate wasm module")
      | some m ↦ store_module ce address c m
    ]
  ]

  -- The three maps are written before the code is validated.
  unfoldable pub enter_contract : Engine → Bytes → Bytes → Bytes → Engine
  enter_contract ce owner wasm_code address = record ce {
    contracts =
        insert address (record { address = address; owner = owner; code = wasm_code; balance = 0 })
          ce.contracts;
    code = insert address wasm_code ce.code;
    state = insert address [] ce.state;
  }

  unfoldable pub enter_metrics : Engine → Bytes → Bytes → Engine
  enter_metrics ce wasm_code address = record ce {
    metrics =
        insert address
          (record {
            instruction_estimate = estimate_instructions wasm_code;
            state_write_estimate = 1;
          })
          ce.metrics;
  }

  unfoldable pub deploy_contract : Engine → Bytes → Bytes → Bytes → Engine × Result (Unit {0})
  deploy_contract ce owner wasm_code address =
      let entered = enter_contract ce owner wasm_code address in
      elim (lookup address ce.contracts) [
        | some c ↦ (ce, err "contract already exists at address")
        | none ↦
            if length wasm_code == 0
            then (ce, err "empty contract code")
            else elim (validate_wasm_code wasm_code) [
              | ok u ↦ load_module (enter_metrics entered wasm_code address) address wasm_code
              | err e ↦ (entered, err e)
              | panics e ↦ (entered, panics e)
              | stuck ↦ (entered, stuck)
            ]
      ]

  -- The first result as bytes. A panic of the call is recovered into a variable that is not
  -- returned, so the call returns nothing and no error.
  unfoldable pub handle_output : Handle → Result Bytes
  handle_output no_handle = ok []
  handle_output failed = err "wasm contract handle failed"
  handle_output panicked = ok []
  handle_output (returned []) = ok []
  handle_output (returned (v ∷ vs)) = ok (little_endian v)

  -- The call of the module that is stored under the address.
  unfoldable pub run_module : Engine → Bytes → Engine × Result Bytes
  run_module ce address = elim (lookup address ce.modules) [
    | none ↦ (ce, ok [])
    | some m ↦
        let (m', out) = r.call_handle m in
        (record ce { modules = insert address m' ce.modules }, handle_output out)
  ]

  -- A contract's code is loaded on demand, and then it is called.
  unfoldable pub load_and_run : Engine → Bytes → Contract → Engine × Result Bytes
  load_and_run ce address contract = elim (lookup address ce.modules) [
    | some m ↦ run_module ce address
    | none ↦
        let (ce', loaded) = load_module ce address contract.code in
        elim loaded [
          | ok u ↦ run_module ce' address
          | err e ↦ (ce', err e)
          | panics e ↦ (ce', panics e)
          | stuck ↦ (ce', stuck)
        ]
  ]

  unfoldable pub execute_contract : Engine → Bytes → Engine × Result Bytes
  execute_contract ce address = elim (lookup address ce.contracts) [
    | none ↦ (ce, err "contract not found")
    | some contract ↦
        if length contract.code == 0
        then (ce, err "contract has no code")
        else load_and_run ce address contract
  ]

  pub record ExecutionResult : Type 0 where
    pub output : Bytes
    pub instructions : ℕ
    pub state_writes : ℕ

  unfoldable pub estimate_contract_call : Engine → Bytes → ℕ
  estimate_contract_call ce address =
      (metrics_or_zero (lookup address ce.metrics)).instruction_estimate

  unfoldable pub estimate_state_writes : Engine → Bytes → ℕ
  estimate_state_writes ce address =
      (metrics_or_zero (lookup address ce.metrics)).state_write_estimate

  unfoldable pub execute_contract_with_result : Engine → Bytes → Engine × Result ExecutionResult
  execute_contract_with_result ce address =
      let (ce', out) = execute_contract ce address in
      (
        ce',
        (do
          output ← out
          ok (record {
            output = output;
            instructions = estimate_contract_call ce' address;
            state_writes = estimate_state_writes ce' address;
          })),
      )

  unfoldable pub get_contract : Engine → Bytes → Option Contract
  get_contract ce address = lookup address ce.contracts

  unfoldable pub set_contract_storage : Engine → Bytes → Bytes → Bytes → Result Engine
  set_contract_storage ce address key value = elim (lookup address ce.state) [
    | none ↦ err "contract not found"
    | some storage ↦ ok (record ce { state = insert address (insert key value storage) ce.state })
  ]

  unfoldable pub get_contract_storage : Engine → Bytes → Bytes → Result (Option Bytes)
  get_contract_storage ce address key = elim (lookup address ce.state) [
    | none ↦ err "contract not found"
    | some storage ↦ ok (lookup key storage)
  ]

  unfoldable pub transfer_to_contract : Engine → Bytes → ℕ → Result Engine
  transfer_to_contract ce address amount = elim (lookup address ce.contracts) [
    | none ↦ err "contract not found"
    | some c ↦ ok (record ce {
      contracts =
          insert address (record c { balance = (c.balance + amount) % u64_mod }) ce.contracts;
    })
  ]

  unfoldable pub get_contract_balance : Engine → Bytes → Result ℕ
  get_contract_balance ce address = elim (lookup address ce.contracts) [
    | none ↦ err "contract not found"
    | some c ↦ ok c.balance
  ]
