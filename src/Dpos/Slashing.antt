-- ===== src/Dpos/Slashing.antt =====
-- Withdrawing a delegation, and what slashing does to a later withdrawal.
use opencoin.Prelude.{
  ℕ, ◌+◌, ◌-◌, ◌*◌, ◌/◌, ◌%◌, ◌≤◌, ◌<◌, ◌≡◌, refl, some, ok, arith, u64_mod, IsU64, >>=-eq-ok,
  or_err, fail_if, ltb, leb, if◌then◌else◌, sym, ap, ◌∙◌,
}
use opencoin.Prelude.Map.{Bytes_key, lookup, insert, lookup-insert_self}
use opencoin.Types.{Address, Validator}
use opencoin.Dpos.{Dpos, undelegate, slash_double_sign, delegated_by, sub_u64}

-- The validator after an operation that found it and wrote it back.
record Changed (d d' : Dpos) (validator : Address) (power : Validator → ℕ) : Type 0 where
  before : Validator
  found : lookup validator d.validators ≡ some before
  after : Validator
  stored : lookup validator d'.validators ≡ some after
  stake : after.stake ≤ before.stake
  power_after : after.power ≡ power before

stored_back :
    (d d' : Dpos) (k : Address) (v : Validator)
    → ok (record d { validators = insert k v d.validators }) ≡ ok d'
    → lookup k d'.validators ≡ some v
stored_back d d' k v h =
    let same : record d { validators = insert k v d.validators } ≡ d' = cc in
    ap (λ x. lookup k x.validators) (sym same) ∙ lookup-insert_self k v d.validators

undelegate-eq_ok :
    (d d' : Dpos) (delegator validator : Address) (amount : ℕ)
    → undelegate d delegator validator amount ≡ ok d'
    → Changed d d' validator (λ v. sub_u64 v.power amount)
unfolding undelegate
undelegate-eq_ok d d' delegator validator amount h =
    let (v, found, h1) =
      >>=-eq-ok (or_err (lookup validator d.validators) "validator not found") _ h in
    let old = delegated_by delegator v.delegations in
    let (_, _, h2) = >>=-eq-ok (fail_if (ltb old amount) "insufficient delegation") _ h1 in
    let left = insert delegator (old - amount) v.delegations in
    let v' : Validator = record v { delegations = left; power = sub_u64 v.power amount } in
    record {
      before = v;
      found = ground arith;
      after = v';
      stored = stored_back d d' validator v' h2;
      stake = omega arith;
      power_after = refl;
    }

-- The stake that is left.
abbrev remaining : ℕ → Validator → ℕ
remaining bps v =
    let slashed = v.stake * bps % u64_mod / 10000 in
    if leb slashed v.stake then v.stake - slashed else v.stake

remaining-le : (v : Validator) (bps : ℕ) → remaining bps v ≤ v.stake
remaining-le v bps = ground arith

slash-eq_ok :
    (d d' : Dpos) (validator : Address) (bps jail epoch : ℕ)
    → slash_double_sign d validator bps jail epoch ≡ ok d'
    → Changed d d' validator (remaining bps)
unfolding slash_double_sign
slash-eq_ok d d' validator bps jail epoch h =
    let (v, found, h1) =
      >>=-eq-ok (or_err (lookup validator d.validators) "validator not found") _ h in
    let v' : Validator = record v {
      stake = remaining bps v;
      power = remaining bps v;
      jailed_until_epoch = (epoch + jail) % u64_mod;
    } in
    record {
      before = v;
      found = ground arith;
      after = v';
      stored = stored_back d d' validator v' h1;
      stake = ground arith;
      power_after = refl;
    }

-- Slashing a validator forgets what is delegated to it, so that a withdrawal afterwards that
-- succeeds and is larger than the validator's stake before the slash wraps the power around zero:
-- the power is 2^64 less the amount, plus the power the slash left, which is no more than the stake
-- before. The amount is a uint64.
pub undelegate-slash_wraps :
    (d d1 d2 : Dpos) (delegator validator : Address) (bps jail epoch amount : ℕ) (v : Validator)
    → lookup validator d.validators ≡ some v
    → slash_double_sign d validator bps jail epoch ≡ ok d1
    → undelegate d1 delegator validator amount ≡ ok d2
    → IsU64 amount
    → v.stake < amount
    → (slashed left : Validator) × (lookup validator d1.validators ≡ some slashed)
      × (lookup validator d2.validators ≡ some left)
      × (slashed.power ≤ v.stake)
      × (left.power + amount ≡ slashed.power + u64_mod)
unfolding sub_u64
undelegate-slash_wraps d d1 d2 delegator validator bps jail epoch amount v found slash withdraw u
      less =
    let one = slash-eq_ok d d1 validator bps jail epoch slash in
    let two = undelegate-eq_ok d1 d2 delegator validator amount withdraw in
    let same : one.before ≡ v = cc in
    let middle : two.before ≡ one.after = cc in
    let power : one.after.power ≤ v.stake =
      omega (arith, one.power_after, remaining-le one.before bps, ap (λ x. x.stake) same) in
    let withdrawn : two.after.power ≡ sub_u64 one.after.power amount =
      two.power_after ∙ ap (λ x. sub_u64 x.power amount) middle in
    (one.after, two.after, one.stored, two.stored, power, omega (arith, withdrawn, power))
