-- ===== src/Genesis.antt =====
-- The genesis document: pkg/genesis/genesis.go. JSON and the file system are arguments.
use opencoin.Prelude.{
  ℕ, List, [], ◌∷◌, length, Bytes, ◌||◌, ltb, ◌==◌, Result, ok, err, panics, stuck, ◌>>=◌, ◌>>◌,
  fail_if,
}
use opencoin.Prelude.Int.{ℤ, pos}
use opencoin.Types.{Address}
use opencoin.Crypto.{Crypto, decode_address}
use opencoin.Ledger.{is_empty}
use opencoin.Rc.{Params, validate_genesis}

pub record GenesisValidator : Type 0 where
  pub operator_address : Address
  pub consensus_pub_key : Bytes
  pub stake : ℕ
  pub commission : ℕ

pub record GenesisAccount : Type 0 where
  pub address : Address
  pub balance : ℕ
  pub stake : ℕ

-- The time is its Unix seconds, which is all that is read of it.
pub record Genesis : Type 0 where
  pub chain_id : Bytes
  pub genesis_time : ℤ
  pub rc_params : Params
  pub min_stake : ℕ
  pub validators : List GenesisValidator
  pub accounts : List GenesisAccount

unfoldable pub default_genesis : ℤ → Genesis
default_genesis now = record {
  chain_id = b'o' ∷ b'p' ∷ b'e' ∷ b'n' ∷ b'c' ∷ b'o' ∷ b'i' ∷ b'n' ∷ b'-' ∷ b'1' ∷ [];
  genesis_time = now;
  rc_params = record {
    alpha = 1000;
    beta = 1;
    c_size = 1;
    c_compute = 1;
    c_storage = 50;
    max_skew_sec = pos 30;
    window_n = pos 11;
  };
  min_stake = 1_000_000;
  validators = [];
  accounts = [];
}

module _ (c : Crypto) where
  -- The address is only tested: its error is replaced.
  unfoldable pub check_operator : Address → Result (Unit {0})
  check_operator addr = elim (decode_address c addr) [
    | ok _ ↦ ok tt
    | err _ ↦ err "invalid operator address"
    | panics message ↦ panics message
    | stuck ↦ stuck
  ]

  unfoldable pub validate_validators : ℕ → List GenesisValidator → Result (Unit {0})
  unfolding check_operator
  validate_validators min_stake [] = ok tt
  validate_validators min_stake (v ∷ vs) = do
    fail_if (ltb v.stake min_stake) "validator stake below minimum"
    fail_if (is_empty v.operator_address) "validator missing operator address"
    check_operator v.operator_address
    fail_if (length v.consensus_pub_key == 0) "validator missing consensus pubkey"
    validate_validators min_stake vs

  unfoldable pub validate : Genesis → Result (Unit {0})
  unfolding validate_validators
  validate g = do
    fail_if (is_empty g.chain_id) "chain_id required"
    validate_genesis g.rc_params
    fail_if (ltb g.min_stake 1_000_000 || ltb 1_000_000_000_000_000_000 g.min_stake)
        "min_validator_stake out of bounds"
    validate_validators g.min_stake g.validators

  -- What is written to the file.
  unfoldable pub save : (Genesis → Result Bytes) → Genesis → Result Bytes
  unfolding validate
  save marshal g = validate g >> marshal g

  -- `Load`, from what was read of the file.
  unfoldable pub load : (Bytes → Result Genesis) → Result Bytes → Result Genesis
  unfolding validate
  load unmarshal file = do raw ← file; g ← unmarshal raw; validate g; ok g
