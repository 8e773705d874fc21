-- ===== src/Node/Restart.antt =====
-- What a start of the node leaves of the accounts that it found.
use opencoin.Prelude.{
  ◌≡◌, ◌⊎◌, ite, List, [], ◌∷◌, Bytes_discrete, inl, inr, Option, none, some, Result, ok, err,
  panics, stuck, IsU64,
}
use opencoin.Types.{Address, Account}
use opencoin.Wire.{Wire}
use opencoin.Genesis.{Genesis, GenesisAccount}
use opencoin.Rc.{Params}
use opencoin.Dpos.{Dpos}
use opencoin.Node.{genesis_account, error_ignored}

-- The last entry of the genesis for an address.
abbrev pub entry_of : Address → List GenesisAccount → Option GenesisAccount
entry_of addr [] = none
entry_of addr (acct ∷ accts) = elim (entry_of addr accts) [
  | some later ↦ some later
  | none ↦ ite (Bytes_discrete acct.address addr) (some acct) none
]

-- What an address reads after the genesis, given what it read before.
abbrev pub reset :
    Params → Option GenesisAccount → Result (Option Account) → Result (Option Account)
reset p none before = before
reset p (some acct) before = ok (some (genesis_account p acct))

-- Balances and stakes are uint64s.
abbrev pub InRange : GenesisAccount → Type 0
InRange acct = IsU64 acct.balance × IsU64 acct.stake

pub error_ignored-eq_ok {ℓ} :
    {A : Type ℓ} (before after : A) (r : Result A)
    → error_ignored before r ≡ ok after
    → (r ≡ ok after) ⊎ (before ≡ after)
unfolding error_ignored
error_ignored-eq_ok before after (ok _) e = inl e
error_ignored-eq_ok before after (err _) e = inr (cc)
error_ignored-eq_ok before after (panics _) e = cc
error_ignored-eq_ok before after stuck e = cc
