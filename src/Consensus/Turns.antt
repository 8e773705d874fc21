-- ===== src/Consensus/Turns.antt =====
-- Whose turn it is to propose.
use opencoin.Prelude.{
  ℕ, zero, suc, ◌+◌, ◌-◌, ◌/◌, ◌%◌, ◌≤◌, ◌<◌, ◌≡◌, refl, List, [], ◌∷◌, length, get_elem?, true,
  false, ltb, ◌==◌, some, arith, u64_mod, sym, ap, ◌∙◌, Bool-cases, inl, inr, if_pos,
  Bytes_discrete, leb,
}
use native.Mathlib.Nat.{mod-add-mod, mod-eq_of_lt, add-mod_right, mod-lt}
use opencoin.Types.{Validator, ValidatorSet}
use opencoin.Crypto.{bytes_equal}
use opencoin.Dpos.Ranking.{total}
use opencoin.Consensus.Proposer.{proposer_from, is_expected_proposer}
use opencoin.Consensus.Quorum.{IsCoherent}

-- The power before a position.
abbrev power_before : ℕ → List Validator → ℕ
power_before zero l = 0
power_before (suc i) [] = 0
power_before (suc i) (v ∷ l) = v.power + power_before i l

power_before-le :
    (i : ℕ) (l : List Validator) (v : Validator)
    → get_elem? l i ≡ some v
    → power_before i l + v.power ≤ total l
power_before-le i [] v h = cc
power_before-le zero (u ∷ l) v h = let same : u ≡ v = cc in omega (arith, ap (λ x. x.power) same)
power_before-le (suc i) (u ∷ l) v h = omega (arith, power_before-le i l v h)

-- A seed within a validator's share of the power leads to this validator.
proposer_from-share :
    (seed acc i : ℕ) (l : List Validator) (v : Validator)
    → acc + total l < u64_mod
    → get_elem? l i ≡ some v
    → acc + power_before i l ≤ seed
    → seed < acc + power_before i l + v.power
    → proposer_from seed acc l ≡ some v
unfolding proposer_from
proposer_from-share seed acc i [] v small at above below = cc
proposer_from-share seed acc zero (u ∷ l) v small at above below =
    let same : u ≡ v = cc in
    let power = ap (λ x. x.power) same in
    let here : ltb seed ((acc + u.power) % u64_mod) ≡ true = ground arith in
    rw here (ap (λ x. some x) same)
proposer_from-share seed acc (suc i) (u ∷ l) v small at above below =
    let bound = power_before-le i l v at in
    let no_wrap : (acc + u.power) % u64_mod ≡ acc + u.power = omega arith in
    let not_here : ltb seed ((acc + u.power) % u64_mod) ≡ false = ground arith in
    rw (not_here, no_wrap)
      (proposer_from-share seed (acc + u.power) i l v (omega arith) at (omega arith) (omega arith))

-- Every seed below the total comes up in one of the next rounds.
round_of_seed :
    (height seed t : ℕ) → seed < t → (round : ℕ) × (round < t) × ((height + round) % t ≡ seed)
round_of_seed height seed t h =
    let a = height % t in
    let q = height / t in
    elim (Bool-cases (leb a seed)) [
      | inl p ↦
          (seed - a, ground arith, grind (arith, mod-add-mod height t (seed - a), mod-eq_of_lt))
      | inr p ↦ (
        seed + t - a,
        grind arith,
        sym (mod-add-mod height t (seed + t - a))
            ∙ ap (λ x. x % t) (ground (arith, mod-lt height {m = t}))
            ∙ add-mod_right seed t
            ∙ mod-eq_of_lt h,
      )
    ]

-- Every validator with power gets its turn: whatever the height is, there is a round below the
-- total power in which its address is the expected proposer. This is for a set whose index and
-- total are coherent, and a height that leaves room below 2^64 for the rounds.
pub every_validator_proposes :
    (vs : ValidatorSet) (i : ℕ) (v : Validator) (height : ℕ)
    → IsCoherent vs
    → get_elem? vs.validators i ≡ some v
    → 0 < v.power
    → height + vs.total_power < u64_mod
    → (round : ℕ) × (round < vs.total_power)
      × (is_expected_proposer vs height round v.operator_address ≡ true)
unfolding is_expected_proposer bytes_equal
every_validator_proposes vs i v height c at positive room =
    let share = power_before-le i vs.validators v at in
    let seed = power_before i vs.validators in
    let (round, below, hit) = round_of_seed height seed vs.total_power (omega (arith, c.sum)) in
    let no_wrap : (height + round) % u64_mod ≡ height + round = omega arith in
    let found =
      proposer_from-share seed 0 i vs.validators v (omega (arith, c.sum, c.small)) at (omega arith)
        (omega arith) in
    let some_power : (vs.total_power == 0) ≡ false = ground arith in
    let some_validator : (length vs.validators == 0) ≡ false = nonempty vs.validators i v at in
    (
      round,
      below,
      rw
          (
            some_validator,
            some_power,
            no_wrap,
            hit,
            found,
            if_pos (Bytes_discrete v.operator_address v.operator_address) refl,
          )
          refl,
    )
  where
    nonempty :
        (l : List Validator) (j : ℕ) (u : Validator)
        → get_elem? l j ≡ some u
        → (length l == 0) ≡ false
    nonempty [] j u h = cc
    nonempty (x ∷ l) j u h = ground arith
