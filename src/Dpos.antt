-- ===== src/Dpos.antt =====
-- Delegated stake: pkg/consensus/dpos.go. A validator is changed through the pointer that the map
-- holds, so an operation writes it back under its address.
pub mod Power
pub mod Slashing
pub mod Ranking
pub mod Unique
pub mod Keyed
use opencoin.Prelude.{
  ℕ, zero, suc, ◌+◌, ◌-◌, ◌*◌, ◌/◌, ◌%◌, ◌^◌, List, [], ◌∷◌, length, Bytes, Bool, true, false, ltb,
  leb, ◌==◌, if◌then◌else◌, Option, none, some, is_some, Result, ok, err, ◌>>=◌, ◌>>◌, fail_if,
  or_err, u64_mod,
}
use opencoin.Prelude.Map.{Map, Bytes_key, lookup, insert}
use opencoin.Types.{Address, Validator, ValidatorSet}

pub record Dpos : Type 0 where
  pub validators : Map Address Validator
  pub min_stake : ℕ
  pub max_validators : ℕ

unfoldable pub new_dpos : ℕ → ℕ → Dpos
new_dpos min_stake max_validators = record {
  validators = [];
  min_stake = min_stake;
  max_validators = max_validators;
}

-- `v.Delegations[delegator]`, 0 for a missing key.
abbrev pub delegated_by : Address → Map Address ℕ → ℕ
delegated_by delegator m = elim (lookup delegator m) [ none ↦ 0 | some amount ↦ amount ]

unfoldable pub register_validator : Dpos → Address → Bytes → ℕ → ℕ → Result Dpos
register_validator d operator pub_key stake commission = do
  fail_if (ltb stake d.min_stake) "stake below minimum"
  fail_if (is_some (lookup operator d.validators)) "validator already registered"
  fail_if (leb d.max_validators (length d.validators % 2 ^ 32)) "max validators reached"
  let v : Validator = record {
    operator_address = operator;
    consensus_pub_key = pub_key;
    power = stake;
    stake = stake;
    delegations = [];
    commission = commission;
    index = 0;
    jailed_until_epoch = 0;
  }
  ok (record d { validators = insert operator v d.validators })

unfoldable pub delegate : Dpos → Address → Address → ℕ → Result Dpos
delegate d delegator validator amount = do
  v ← or_err (lookup validator d.validators) "validator not found"
  fail_if (amount == 0) "delegation amount must be positive"
  let grown = (delegated_by delegator v.delegations + amount) % u64_mod
  let v' : Validator = record v {
    delegations = insert delegator grown v.delegations;
    power = (v.power + amount) % u64_mod;
  }
  ok (record d { validators = insert validator v' d.validators })

-- Go's `a - b` on uint64.
unfoldable pub sub_u64 : ℕ → ℕ → ℕ
sub_u64 a b = (a + (u64_mod - b % u64_mod)) % u64_mod

unfoldable pub undelegate : Dpos → Address → Address → ℕ → Result Dpos
unfolding sub_u64
undelegate d delegator validator amount = do
  v ← or_err (lookup validator d.validators) "validator not found"
  let delegated = delegated_by delegator v.delegations
  fail_if (ltb delegated amount) "insufficient delegation"
  let v' : Validator = record v {
    delegations = insert delegator (delegated - amount) v.delegations;
    power = sub_u64 v.power amount;
  }
  ok (record d { validators = insert validator v' d.validators })

unfoldable pub slash_double_sign : Dpos → Address → ℕ → ℕ → ℕ → Result Dpos
slash_double_sign d validator slash_bps jail_epochs current_epoch = do
  v ← or_err (lookup validator d.validators) "validator not found"
  let slashed = v.stake * slash_bps % u64_mod / 10000
  let stake = if leb slashed v.stake then v.stake - slashed else v.stake
  let v' : Validator = record v {
    stake = stake;
    power = stake;
    jailed_until_epoch = (current_epoch + jail_epochs) % u64_mod;
  }
  ok (record d { validators = insert validator v' d.validators })

unfoldable pub slash_offline : Dpos → Address → ℕ → ℕ → ℕ → Result Dpos
unfolding slash_double_sign
slash_offline d validator slash_bps jail_epochs current_epoch =
    slash_double_sign d validator slash_bps jail_epochs current_epoch

unfoldable pub get_validator : Dpos → Address → Option Validator
get_validator d operator = lookup operator d.validators

-- `<` on strings.
unfoldable pub precedes : Bytes → Bytes → Bool
precedes a [] = false
precedes [] (y ∷ b) = true
precedes (x ∷ a) (y ∷ b) =
    let rest = precedes a b in if ltb x y then true else (if ltb y x then false else rest)

-- The comparison of `sort.Slice`: greater power first, then the lower address.
unfoldable pub ranks_before : Validator → Validator → Bool
unfolding precedes
ranks_before v u =
    if v.power == u.power
    then precedes v.operator_address u.operator_address
    else ltb u.power v.power

unfoldable pub insert_ranked : Validator → List Validator → List Validator
insert_ranked v [] = v ∷ []
insert_ranked v (u ∷ us) =
    let rest = insert_ranked v us in if ranks_before u v then u ∷ rest else v ∷ u ∷ us

unfoldable pub rank : Map Address Validator → List Validator
unfolding insert_ranked
rank [] = []
rank ((addr, v) ∷ m) = insert_ranked v (rank m)

-- The loop that numbers the validators from `i` on.
unfoldable pub number_from : ℕ → List Validator → List Validator
number_from i [] = []
number_from i (v ∷ vs) = record v { index = i % 2 ^ 32 } ∷ number_from (suc i) vs

unfoldable pub index_from : ℕ → List Validator → Map Address ℕ → Map Address ℕ
index_from i [] m = m
index_from i (v ∷ vs) m = index_from (suc i) vs (insert v.operator_address (i % 2 ^ 32) m)

unfoldable pub sum_power : Map Address Validator → ℕ
sum_power [] = 0
sum_power ((addr, v) ∷ m) = (v.power + sum_power m) % u64_mod

unfoldable pub validator_set : Dpos → ValidatorSet
unfolding rank number_from index_from sum_power
validator_set d =
    let ranked = rank d.validators in
    record {
      validators = number_from 0 ranked;
      total_power = sum_power d.validators;
      index_by_addr = index_from 0 ranked [];
    }
