-- ===== src/Dpos/Keyed.antt =====
-- After any operations each validator stands once, under its own address.
use opencoin.Prelude.{
  ℕ, ◌%◌, ◌≡◌, ◌==◌, [], ◌∷◌, All, Bytes, Bytes_discrete, some, ok, is_some, or_err, fail_if, ltb,
  leb, length, ◌^◌, if_pos, if_neg, subst, sym, refl, ap, ◌∙◌, >>=-eq-ok, arith,
}
use opencoin.Prelude.Map.{Map, Bytes_key, lookup, insert, insert-DistinctKeys}
use opencoin.Types.{Address, Validator}
use opencoin.Dpos.{
  Dpos, new_dpos, register_validator, delegate, undelegate, slash_double_sign, slash_offline,
  delegated_by,
}
use opencoin.Dpos.Unique.{IsKeyed}

-- Every operation that changes the validators.
pub data Operation (d : Dpos) : Dpos → Type 0 where
  registers :
      {d' : Dpos} (operator : Address) (pub_key : Bytes) (stake commission : ℕ)
      → register_validator d operator pub_key stake commission ≡ ok d'
      → Operation d d'
  delegates :
      {d' : Dpos} (delegator validator : Address) (amount : ℕ)
      → delegate d delegator validator amount ≡ ok d'
      → Operation d d'
  undelegates :
      {d' : Dpos} (delegator validator : Address) (amount : ℕ)
      → undelegate d delegator validator amount ≡ ok d'
      → Operation d d'
  slashes :
      {d' : Dpos} (validator : Address) (bps jail epoch : ℕ)
      → slash_double_sign d validator bps jail epoch ≡ ok d'
      → Operation d d'
  slashes_offline :
      {d' : Dpos} (validator : Address) (bps jail epoch : ℕ)
      → slash_offline d validator bps jail epoch ≡ ok d'
      → Operation d d'

-- What a new one can come to.
pub data Operated : Dpos → Type 0 where
  fresh : (min_stake max_validators : ℕ) → Operated (new_dpos min_stake max_validators)
  next : {d d' : Dpos} → Operated d → Operation d d' → Operated d'

abbrev Owned : Map Address Validator → Type 0
Owned m = All (λ entry. entry.1.operator_address ≡ entry.0) m

insert-Owned :
    (k : Address) (v : Validator) (m : Map Address Validator)
    → v.operator_address ≡ k
    → Owned m
    → Owned (insert k v m)
unfolding insert
insert-Owned k v [] own o = (own, tt)
insert-Owned k v ((j, u) ∷ m) own (mine, o) = elim (Bytes_discrete j k) [
  | yes same ↦ rw (if_pos (Bytes_discrete j k) same) (own ∙ sym same, o)
  | no other ↦ rw (if_neg (Bytes_discrete j k) other) (mine, insert-Owned k v m own o)
]

lookup-Owned :
    (k : Address) (v : Validator) (m : Map Address Validator)
    → Owned m
    → lookup k m ≡ some v
    → v.operator_address ≡ k
unfolding lookup
lookup-Owned k v [] o h = cc
lookup-Owned k v ((j, u) ∷ m) (mine, o) h = elim (Bytes_discrete j k) [
  | yes same ↦
      let found : some u ≡ some v = sym (if_pos (Bytes_discrete j k) same _ _) ∙ h in
      let its : u ≡ v = cc in ap (λ x. x.operator_address) (sym its) ∙ mine ∙ same
  | no other ↦ lookup-Owned k v m o (sym (if_neg (Bytes_discrete j k) other _ _) ∙ h)
]

-- A validator that is written under its address.
written-IsKeyed :
    (d d' : Dpos) (k : Address) (v : Validator)
    → v.operator_address ≡ k
    → ok (record d { validators = insert k v d.validators }) ≡ ok d'
    → IsKeyed d
    → IsKeyed d'
written-IsKeyed d d' k v own h i =
    let same : record d { validators = insert k v d.validators } ≡ d' = cc in
    subst IsKeyed same (record {
      once = insert-DistinctKeys k v d.validators i.once;
      own = insert-Owned k v d.validators own i.own;
    })

found_own :
    (d : Dpos) (k : Address) (v : Validator)
    → IsKeyed d
    → or_err (lookup k d.validators) "validator not found" ≡ ok v
    → v.operator_address ≡ k
found_own d k v i h = lookup-Owned k v d.validators i.own (ground arith)

slash_double_sign-IsKeyed :
    (d d' : Dpos) (validator : Address) (bps jail epoch : ℕ)
    → slash_double_sign d validator bps jail epoch ≡ ok d'
    → IsKeyed d
    → IsKeyed d'
unfolding slash_double_sign
slash_double_sign-IsKeyed d d' validator bps jail epoch h i =
    let (v, found, h1) =
      >>=-eq-ok (or_err (lookup validator d.validators) "validator not found") _ h in
    written-IsKeyed d d' validator _ (found_own d validator v i found) h1 i

Operation-IsKeyed : (d d' : Dpos) → Operation d d' → IsKeyed d → IsKeyed d'
unfolding register_validator delegate undelegate slash_offline
Operation-IsKeyed d d' (registers operator pub_key stake commission h) i =
    let (_, _, h1) = >>=-eq-ok (fail_if (ltb stake d.min_stake) "stake below minimum") _ h in
    let (_, _, h2) =
      >>=-eq-ok (fail_if (is_some (lookup operator d.validators)) "validator already registered") _
        h1 in
    let (_, _, h3) =
      >>=-eq-ok
        (fail_if (leb d.max_validators (length d.validators % 2 ^ 32)) "max validators reached") _
        h2 in
    written-IsKeyed d d' operator _ refl h3 i
Operation-IsKeyed d d' (delegates delegator validator amount h) i =
    let (v, found, h1) =
      >>=-eq-ok (or_err (lookup validator d.validators) "validator not found") _ h in
    let (_, _, h2) = >>=-eq-ok (fail_if (amount == 0) "delegation amount must be positive") _ h1 in
    written-IsKeyed d d' validator _ (found_own d validator v i found) h2 i
Operation-IsKeyed d d' (undelegates delegator validator amount h) i =
    let (v, found, h1) =
      >>=-eq-ok (or_err (lookup validator d.validators) "validator not found") _ h in
    let (_, _, h2) =
      >>=-eq-ok
        (fail_if (ltb (delegated_by delegator v.delegations) amount) "insufficient delegation") _
        h1 in
    written-IsKeyed d d' validator _ (found_own d validator v i found) h2 i
Operation-IsKeyed d d' (slashes validator bps jail epoch h) i =
    slash_double_sign-IsKeyed d d' validator bps jail epoch h i
Operation-IsKeyed d d' (slashes_offline validator bps jail epoch h) i =
    slash_double_sign-IsKeyed d d' validator bps jail epoch h i

pub Operated-IsKeyed : (d : Dpos) → Operated d → IsKeyed d
unfolding new_dpos
Operated-IsKeyed _ (fresh m n) = record { once = tt; own = tt }
Operated-IsKeyed _ (next {d} {d'} o step) = Operation-IsKeyed d d' step (Operated-IsKeyed d o)
