-- ===== src/Tests/Accounting.antt =====
-- Credits, times and contracts at concrete values.
use opencoin.Prelude.{
  some, u64_mod, ◌≤◌, Bytes_discrete, ◌+◌, ◌*◌, ◌≡◌, refl, [], ◌∷◌, List, Bytes, err, arith, min,
}
use opencoin.Prelude.Int.{ℤ, pos, ◌-ℤ◌, ◌+ℤ◌, ◌≤ℤ◌}
use opencoin.Prelude.Map.{Bytes_key, lookup, insert}
use opencoin.Rc.{Params, regen, rc_max, elapsed, effective_time}
use opencoin.Rc.Bounds.{regen-eq}
use opencoin.Rc.Median.{effective_time-bounds}
use opencoin.Contracts.{
  Engine, execute_contract, new_contract_engine, deploy_contract, validate_wasm_code, bad_magic,
}
use opencoin.Contracts.Deploy.{fresh, executes, Refused, deploy_contract-Refused}
use opencoin.Contracts.Taken.{Later, deploy_contract_taken}
use opencoin.Types.{Validator}
use opencoin.Dpos.{Dpos, new_dpos, register_validator, undelegate, slash_double_sign, sub_u64}
use opencoin.Dpos.Slashing.{undelegate-slash_wraps}
use opencoin.Dpos.Power.{IsBacked, Reachable-IsBacked, next, registers}
use opencoin.Dpos.Power
use opencoin.Tests.Fixtures.{idle_runtime}

abbrev rates : Params
rates = record {
  alpha = 3;
  beta = 2;
  c_size = 1;
  c_compute = 5;
  c_storage = 7;
  max_skew_sec = pos 5;
  window_n = pos 3;
}

regen-eq_example :
    regen rates 1 10 (pos 4) (pos 6)
    ≡ (min (rc_max rates 10) (1 + 10 * (2 * elapsed (pos 4) (pos 6))), pos 6)
regen-eq_example = regen-eq rates 1 10 (pos 4) (pos 6) (omega arith) (omega arith) (omega arith)

abbrev recent : List ℤ
recent = pos 10 ∷ pos 12 ∷ pos 900 ∷ []

effective_time-bounds_example :
    (pos 10 -ℤ pos 5 ≤ℤ effective_time (pos 5000) recent (pos 5))
    × (effective_time (pos 5000) recent (pos 5) ≤ℤ pos 12 +ℤ pos 5)
unfolding ◌-ℤ◌ ◌+ℤ◌
effective_time-bounds_example =
    effective_time-bounds (pos 5000) recent (pos 5) (pos 10) (pos 12) (omega arith) (omega arith)
      (record { above = omega arith; below = omega arith })
      (record { above = omega arith; below = omega arith })

abbrev code : Bytes
code = 1 ∷ 2 ∷ []

abbrev valid_code : Bytes
valid_code = 0 ∷ 0x61 ∷ 0x73 ∷ 0x6d ∷ []

deploy_contract-Refused_example :
    Refused idle_runtime
      (new_contract_engine idle_runtime)
      valid_code
      (2 ∷ [])
      (deploy_contract idle_runtime
        (new_contract_engine idle_runtime)
        (1 ∷ [])
        valid_code
        (2 ∷ [])).1
deploy_contract-Refused_example =
    deploy_contract-Refused idle_runtime (new_contract_engine idle_runtime) (1 ∷ []) valid_code
      (2 ∷ []) fresh

-- The engine after a refused deployment, and a call of what it entered.
abbrev refused_engine : Engine idle_runtime
refused_engine =
    (deploy_contract idle_runtime (new_contract_engine idle_runtime) (1 ∷ []) code (2 ∷ [])).0

abbrev called_engine : Engine idle_runtime
called_engine = (execute_contract idle_runtime refused_engine (2 ∷ [])).0

deploy_contract_taken_example :
    ((deploy_contract idle_runtime (new_contract_engine idle_runtime) (1 ∷ []) code (2 ∷ [])).1
      ≡ err "invalid WASM magic number")
    × (deploy_contract idle_runtime called_engine (3 ∷ []) valid_code (2 ∷ [])
        ≡ (called_engine, err "contract already exists at address"))
unfolding new_contract_engine lookup validate_wasm_code bad_magic
deploy_contract_taken_example =
    deploy_contract_taken idle_runtime (new_contract_engine idle_runtime) called_engine (1 ∷ [])
      code (2 ∷ []) (3 ∷ []) valid_code "invalid WASM magic number" refl (omega arith) refl
      (Later.then Later.now (executes (2 ∷ [])))

-- A validator with stake 10 and a delegation of 50 is slashed by a half; then the 50 are withdrawn.
abbrev watched : Validator
watched = record {
  operator_address = 1 ∷ [];
  consensus_pub_key = [];
  power = 60;
  stake = 10;
  delegations = (2 ∷ [], 50) ∷ [];
  commission = 0;
  index = 0;
  jailed_until_epoch = 0;
}

abbrev with_validator : Validator → Dpos
with_validator v = record { validators = (1 ∷ [], v) ∷ []; min_stake = 1; max_validators = 4 }

abbrev slashed : Validator
slashed = record watched { power = 5; stake = 5; jailed_until_epoch = 7 }

abbrev withdrawn : Validator
withdrawn = record slashed { power = 18446744073709551571; delegations = (2 ∷ [], 0) ∷ [] }

undelegate-slash_wraps_example :
    (middle last : Validator) × (lookup (1 ∷ []) (with_validator slashed).validators ≡ some middle)
    × (lookup (1 ∷ []) (with_validator withdrawn).validators ≡ some last)
    × (middle.power ≤ 10)
    × (last.power + 50 ≡ middle.power + u64_mod)
unfolding slash_double_sign undelegate sub_u64 lookup insert Bytes_discrete
undelegate-slash_wraps_example =
    undelegate-slash_wraps (with_validator watched) (with_validator slashed)
      (with_validator withdrawn) (2 ∷ []) (1 ∷ []) 5000 3 4 50 watched refl refl refl (omega arith)
      (omega arith)

Reachable-IsBacked_example :
    IsBacked (with_validator (record watched { power = 10; delegations = [] }))
unfolding register_validator new_dpos lookup insert
Reachable-IsBacked_example =
    Reachable-IsBacked (with_validator (record watched { power = 10; delegations = [] }))
      (next (Power.fresh 1 4) (registers (1 ∷ []) [] 10 0 (omega arith) refl))
