-- ===== src/Dpos/Power.antt =====
-- A validator's power against its stake and what is delegated to it.
use opencoin.Prelude.{
  ℕ, ◌+◌, ◌-◌, ◌%◌, ◌≤◌, ◌≡◌, [], ◌∷◌, Bytes, some, ok, arith, u64_mod, IsU64, Bytes_discrete,
  >>=-eq-ok, or_err, fail_if, ◌==◌, ltb, subst,
}
use opencoin.Prelude.Map.{Map, Bytes_key, lookup, insert, lookup-insert}
use opencoin.Types.{Address, Validator}
use opencoin.Dpos.{Dpos, new_dpos, register_validator, delegate, undelegate, delegated_by, sub_u64}

-- All that is delegated.
abbrev pub total : Map Address ℕ → ℕ
total [] = 0
total ((addr, amount) ∷ m) = amount + total m

delegated_by-le-total : (k : Address) (m : Map Address ℕ) → delegated_by k m ≤ total m
unfolding lookup
delegated_by-le-total k [] = omega arith
delegated_by-le-total k ((j, n) ∷ m) = ground (arith, delegated_by-le-total k m)

-- A new amount under a key replaces the old one in the total.
total-insert :
    (k : Address) (n : ℕ) (m : Map Address ℕ)
    → total (insert k n m) + delegated_by k m ≡ total m + n
unfolding lookup insert
total-insert k n [] = omega arith
total-insert k n ((j, i) ∷ m) = ground (arith, total-insert k n m)

-- The power is the stake and the delegations.
pub record Backed (v : Validator) : Type 0 where
  pub power : v.power ≡ (v.stake + total v.delegations) % u64_mod

pub record IsBacked (d : Dpos) : Type 0 where
  pub backed : (addr : Address) (v : Validator) → lookup addr d.validators ≡ some v → Backed v

inserted-IsBacked :
    (d : Dpos) (k : Address) (v : Validator)
    → Backed v
    → IsBacked d
    → IsBacked (record d { validators = insert k v d.validators })
inserted-IsBacked d k v b i = record {
  backed = λ addr u h. elim (Bytes_discrete k addr) [
    | yes p ↦
        let same : v ≡ u = ground (arith, lookup-insert k addr v d.validators) in
        subst Backed same b
    | no p ↦ i.backed addr u (ground (arith, lookup-insert k addr v d.validators))
  ];
}

register_validator-IsBacked :
    (d d' : Dpos) (operator : Address) (pub_key : Bytes) (stake commission : ℕ)
    → IsU64 stake
    → register_validator d operator pub_key stake commission ≡ ok d'
    → IsBacked d
    → IsBacked d'
unfolding register_validator
register_validator-IsBacked d d' operator pub_key stake commission u h i =
    let v : Validator = record {
      operator_address = operator;
      consensus_pub_key = pub_key;
      power = stake;
      stake = stake;
      delegations = [];
      commission = commission;
      index = 0;
      jailed_until_epoch = 0;
    } in
    let same : record d { validators = insert operator v d.validators } ≡ d' = ground arith in
    subst IsBacked same (inserted-IsBacked d operator v (record { power = omega arith }) i)

delegate-IsBacked :
    (d d' : Dpos) (delegator validator : Address) (amount : ℕ)
    → delegate d delegator validator amount ≡ ok d'
    → IsBacked d
    → IsBacked d'
unfolding delegate
delegate-IsBacked d d' delegator validator amount h i =
    let (v, found, h1) =
      >>=-eq-ok (or_err (lookup validator d.validators) "validator not found") _ h in
    let (_, _, h2) = >>=-eq-ok (fail_if (amount == 0) "delegation amount must be positive") _ h1 in
    let old = delegated_by delegator v.delegations in
    let grown = insert delegator ((old + amount) % u64_mod) v.delegations in
    let v' : Validator = record v { delegations = grown; power = (v.power + amount) % u64_mod } in
    let before = (i.backed validator v (ground arith)).power in
    let backed : Backed v' = record {
      power = omega (
        arith,
        before,
        total-insert delegator ((old + amount) % u64_mod) v.delegations,
        delegated_by-le-total delegator v.delegations,
      );
    } in
    let same : record d { validators = insert validator v' d.validators } ≡ d' = cc in
    subst IsBacked same (inserted-IsBacked d validator v' backed i)

undelegate-IsBacked :
    (d d' : Dpos) (delegator validator : Address) (amount : ℕ)
    → undelegate d delegator validator amount ≡ ok d'
    → IsBacked d
    → IsBacked d'
unfolding undelegate sub_u64
undelegate-IsBacked d d' delegator validator amount h i =
    let (v, found, h1) =
      >>=-eq-ok (or_err (lookup validator d.validators) "validator not found") _ h in
    let old = delegated_by delegator v.delegations in
    let (_, enough, h2) = >>=-eq-ok (fail_if (ltb old amount) "insufficient delegation") _ h1 in
    let left = insert delegator (old - amount) v.delegations in
    let v' : Validator = record v { delegations = left; power = sub_u64 v.power amount } in
    let before = (i.backed validator v (ground arith)).power in
    let covered : amount ≤ old = ground arith in
    let backed : Backed v' = record {
      power = omega (
        arith,
        before,
        covered,
        total-insert delegator (old - amount) v.delegations,
        delegated_by-le-total delegator v.delegations,
      );
    } in
    let same : record d { validators = insert validator v' d.validators } ≡ d' = cc in
    subst IsBacked same (inserted-IsBacked d validator v' backed i)

-- The operations other than slashing.
pub data Step (d : Dpos) : Dpos → Type 0 where
  registers :
      {d' : Dpos} (operator : Address) (pub_key : Bytes) (stake commission : ℕ)
      → IsU64 stake
      → register_validator d operator pub_key stake commission ≡ ok d'
      → Step d d'
  delegates :
      {d' : Dpos} (delegator validator : Address) (amount : ℕ)
      → delegate d delegator validator amount ≡ ok d'
      → Step d d'
  undelegates :
      {d' : Dpos} (delegator validator : Address) (amount : ℕ)
      → undelegate d delegator validator amount ≡ ok d'
      → Step d d'

-- What `NewDPoS` can come to without slashing.
pub data Reachable : Dpos → Type 0 where
  fresh : (min_stake max_validators : ℕ) → Reachable (new_dpos min_stake max_validators)
  next : {d d' : Dpos} → Reachable d → Step d d' → Reachable d'

-- As long as nobody is slashed, every validator's power is its stake and all that is delegated to
-- it, modulo 2^64, after any registrations, delegations and undelegations.
pub Reachable-IsBacked : (d : Dpos) → Reachable d → IsBacked d
unfolding new_dpos lookup
Reachable-IsBacked _ (fresh m n) = record { backed = λ addr v h. cc }
Reachable-IsBacked _ (next {d} {d'} r (registers o k s c u h)) =
    register_validator-IsBacked d d' o k s c u h (Reachable-IsBacked d r)
Reachable-IsBacked _ (next {d} {d'} r (delegates a v n h)) =
    delegate-IsBacked d d' a v n h (Reachable-IsBacked d r)
Reachable-IsBacked _ (next {d} {d'} r (undelegates a v n h)) =
    undelegate-IsBacked d d' a v n h (Reachable-IsBacked d r)
