-- ===== src/Dpos/Ranking.antt =====
-- The validator set: its order, its index and its total.
use opencoin.Prelude.{
  some-injective, ℕ, zero, suc, ◌+◌, ◌%◌, ◌^◌, ◌<◌, ◌≡◌, refl, ◌⊎◌, inl, inr, List, [], ◌∷◌, length,
  get_elem?, some, arith, u64_mod, sym, ap, ◌∙◌, subst, Bytes_discrete, Bool-cases,
}
use opencoin.Prelude.Map.{Map, Bytes_key, lookup, insert, lookup-insert_self, lookup-insert_ne}
use opencoin.Types.{Address, Validator}
use opencoin.Dpos.{
  Dpos, ranks_before, insert_ranked, rank, number_from, index_from, sum_power, validator_set,
}

abbrev pub total : List Validator → ℕ
total [] = 0
total (v ∷ l) = v.power + total l

-- All the power in a map.
abbrev pub all_power : Map Address Validator → ℕ
all_power [] = 0
all_power ((addr, v) ∷ m) = v.power + all_power m

total-insert_ranked :
    (v : Validator) (l : List Validator) → total (insert_ranked v l) ≡ v.power + total l
unfolding insert_ranked
total-insert_ranked v [] = refl
total-insert_ranked v (u ∷ l) = elim (Bool-cases (ranks_before u v)) [
  | inl p ↦ rw p (omega (arith, total-insert_ranked v l))
  | inr p ↦ rw p refl
]

total-rank : (m : Map Address Validator) → total (rank m) ≡ all_power m
unfolding rank
total-rank [] = refl
total-rank ((addr, v) ∷ m) = omega (arith, total-insert_ranked v (rank m), total-rank m)

total-number_from : (i : ℕ) (l : List Validator) → total (number_from i l) ≡ total l
unfolding number_from
total-number_from i [] = refl
total-number_from i (v ∷ l) = omega (arith, total-number_from (suc i) l)

length-insert_ranked :
    (v : Validator) (l : List Validator) → length (insert_ranked v l) ≡ suc (length l)
unfolding insert_ranked
length-insert_ranked v [] = refl
length-insert_ranked v (u ∷ l) = elim (Bool-cases (ranks_before u v)) [
  | inl p ↦ rw p (omega (arith, length-insert_ranked v l))
  | inr p ↦ rw p refl
]

pub length-rank : (m : Map Address Validator) → length (rank m) ≡ length m
unfolding rank
length-rank [] = refl
length-rank ((addr, v) ∷ m) = omega (arith, length-insert_ranked v (rank m), length-rank m)

pub sum_power-eq : (m : Map Address Validator) → all_power m < u64_mod → sum_power m ≡ all_power m
unfolding sum_power
sum_power-eq [] h = refl
sum_power-eq ((addr, v) ∷ m) h = omega (arith, sum_power-eq m (omega arith))

-- What the index says of an address: a position of the list with this address, or what the map that the loop started from says.
pub index_from-lookup :
    (i : ℕ) (l : List Validator) (m : Map Address ℕ) (addr : Address) (idx : ℕ)
    → i + length l < 2 ^ 32
    → lookup addr (index_from i l m) ≡ some idx
    → ((j : ℕ) × (v : Validator) × (idx ≡ i + j)
        × (get_elem? l j ≡ some v)
        × (v.operator_address ≡ addr))
      ⊎ (lookup addr m ≡ some idx)
unfolding index_from
index_from-lookup i [] m addr idx small h = inr h
index_from-lookup i (v ∷ l) m addr idx small h =
    elim (index_from-lookup (suc i) l (insert v.operator_address (i % 2 ^ 32) m) addr idx
      (omega arith) h) [
        | inl (j, u, e, at, own) ↦ inl (suc j, u, omega arith, at, own)
        | inr found ↦ elim (Bytes_discrete v.operator_address addr) [
          | yes p ↦
              let now : lookup addr (insert v.operator_address (i % 2 ^ 32) m) ≡ some (i % 2 ^ 32) =
                subst (λ x. lookup x (insert v.operator_address (i % 2 ^ 32) m) ≡ some (i % 2 ^ 32))
                  p (lookup-insert_self v.operator_address (i % 2 ^ 32) m) in
              let same : idx ≡ i % 2 ^ 32 = some-injective (sym found ∙ now) in
              inl (zero, v, omega arith, refl, p)
          | no p ↦ inr (sym (lookup-insert_ne v.operator_address addr (i % 2 ^ 32) m p) ∙ found)
        ]
      ]

get_elem?-number_from :
    (i j : ℕ) (l : List Validator) (v : Validator)
    → get_elem? (number_from i l) j ≡ some v
    → (u : Validator) × (get_elem? l j ≡ some u) × (u.operator_address ≡ v.operator_address)
unfolding number_from
get_elem?-number_from i j [] v h = cc
get_elem?-number_from i zero (u ∷ l) v h =
    let same : record u { index = i % 2 ^ 32 } ≡ v = cc in
    (u, refl, ap (λ x. x.operator_address) same)
get_elem?-number_from i (suc j) (u ∷ l) v h = get_elem?-number_from (suc i) j l v h

-- The index leads each address to the validator with it, and the total power is the validators'.
pub validator_set-index :
    (d : Dpos) (addr : Address) (idx : ℕ) (v : Validator)
    → length d.validators < 2 ^ 32
    → lookup addr (validator_set d).index_by_addr ≡ some idx
    → get_elem? (validator_set d).validators idx ≡ some v
    → v.operator_address ≡ addr
unfolding validator_set lookup
validator_set-index d addr idx v small found at =
    let (u, at', own) = get_elem?-number_from 0 idx (rank d.validators) v at in
    elim (index_from-lookup 0 (rank d.validators) [] addr idx
      (omega (arith, length-rank d.validators)) found) [
        | inl (j, x, e, there, own') ↦
            let place : idx ≡ j = omega arith in
            let same : u ≡ x =
              some-injective (sym at' ∙ ap (get_elem? (rank d.validators)) place ∙ there) in
            sym own ∙ ap (λ y. y.operator_address) same ∙ own'
        | inr nowhere ↦ cc
      ]

pub validator_set-total :
    (d : Dpos)
    → all_power d.validators < u64_mod
    → (validator_set d).total_power ≡ total (validator_set d).validators
unfolding validator_set
validator_set-total d small =
    sum_power-eq d.validators small
    ∙ sym (total-number_from 0 (rank d.validators) ∙ total-rank d.validators)
