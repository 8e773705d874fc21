-- ===== src/Node.antt =====
-- The genesis at the start of a node: `applyGenesis` of pkg/node/node.go.
pub mod Restart
pub mod Services
pub mod Recovery
pub mod Progress
pub mod Start
pub mod Untouched
pub mod Started
pub mod Fresh
pub mod Rejoin
use opencoin.Prelude.{
  ℕ, List, [], ◌∷◌, length, Bool, ◌==◌, if◌then◌else◌, Option, none, some, Result, ok, err, panics,
  stuck, ◌>>=◌,
}
use opencoin.Prelude.Int.{ℤ}
use opencoin.Types.{Account, empty_account}
use opencoin.Wire.{Wire}
use opencoin.Genesis.{Genesis, GenesisAccount, GenesisValidator}
use opencoin.Store.{Kv, set_account, get_last_timestamps, set_last_timestamps}
use opencoin.Rc.{Params, rc_max}
use opencoin.Dpos.{Dpos, register_validator}

-- The account that is written for an entry, whatever stood there.
unfoldable pub genesis_account : Params → GenesisAccount → Account
genesis_account p acct = record (empty_account acct.address) {
  balance = acct.balance;
  stake = acct.stake;
  rc_max = rc_max p acct.stake;
}

unfoldable pub register_all : List GenesisValidator → Dpos → Result Dpos
register_all [] d = ok d
register_all (v ∷ vs) d = do
  d' ← register_validator d v.operator_address v.consensus_pub_key v.stake v.commission
  register_all vs d'

-- `_ = ...`: a failed operation leaves what was there.
unfoldable pub error_ignored {ℓ} : {A : Type ℓ} → A → Result A → Result A
error_ignored before (ok after) = ok after
error_ignored before (err _) = ok before
error_ignored before (panics message) = panics message
error_ignored before stuck = stuck

module _ ⦃w : Wire⦄ (kv : Kv) (p : Params) where
  unfoldable pub load_accounts : List GenesisAccount → kv.Db → Result kv.Db
  unfolding genesis_account
  load_accounts [] db = ok db
  load_accounts (acct ∷ accts) db = do
    db' ← set_account kv db (some (genesis_account p acct))
    load_accounts accts db'

  -- A list of timestamps that cannot be read, or is not empty, is left alone.
  unfoldable pub first_timestamp : ℤ → kv.Db → Result kv.Db
  unfolding error_ignored
  first_timestamp time db = error_ignored db (
      get_last_timestamps kv db >>= λ ts.
      if length ts == 0 then set_last_timestamps kv db (time ∷ []) else ok db)

  unfoldable pub apply_genesis : Genesis → kv.Db → Dpos → Result (kv.Db × Dpos)
  unfolding load_accounts register_all first_timestamp
  apply_genesis g db d = do
    loaded ← load_accounts g.accounts db
    registered ← register_all g.validators d
    started ← first_timestamp g.genesis_time loaded
    ok (started, registered)
