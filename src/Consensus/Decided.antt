-- ===== src/Consensus/Decided.antt =====
-- When the votes for a block make a certificate.
use opencoin.Prelude.{
  some_ne_none, ℕ, zero, suc, ◌+◌, ◌*◌, ◌%◌, ◌/◌, set, get_or, ◌^◌, ◌≤◌, ◌<◌, ◌≡◌, ◌≢◌, refl, ◌⊎◌,
  List, [], ◌∷◌, get_elem?, ◌==◌, leb, none, some, ok, arith, u64_mod, sym, ap, ◌∙◌, subst,
  Bytes_discrete, Bool-cases, Option-cases, inl, inr, ite, if_pos, if_neg,
}
use opencoin.Prelude.Map.{
  Map, DistinctKeys, Bytes_key, lookup, insert, lookup-insert_self, lookup-insert_ne,
}
use opencoin.Types.{Address, Hash, PrecommitVote, QuorumCertificate, Validator, ValidatorSet}
use opencoin.Dpos.{Dpos, validator_set, rank, number_from, index_from}
use opencoin.Dpos.Ranking.{total, length-rank, index_from-lookup}
use opencoin.Dpos.Unique.{Absent, Unique, IsKeyed, rank-Unique}
use opencoin.Dpos.Keyed.{Operated, Operated-IsKeyed}
use opencoin.Consensus.Tally.{
  Votes, Tally, with_bit, count_vote, count_votes, blank_tally, try_build_qc,
}
use opencoin.Consensus.Quorum.{
  power_of, has_voted, signed, signed-cons, IsSmall, validator_set-IsCoherent,
}

-- The index finds what stands under an address, and all of it.
record IsIndexed (vs : ValidatorSet) : Type 0 where
  pub unknown :
      (addr : Address) → lookup addr vs.index_by_addr ≡ none → power_of addr vs.validators ≡ 0
  pub known :
      (addr : Address) (idx : ℕ)
      → lookup addr vs.index_by_addr ≡ some idx
      → (v : Validator) × (get_elem? vs.validators idx ≡ some v)
        × (power_of addr vs.validators ≡ v.power)

power_of-Absent : (addr : Address) (l : List Validator) → Absent addr l → power_of addr l ≡ 0
power_of-Absent addr [] a = refl
power_of-Absent addr (v ∷ l) (other, a) =
    rw (if_neg (Bytes_discrete addr v.operator_address) other)
      (omega (arith, power_of-Absent addr l a))

Absent-at :
    (addr : Address) (l : List Validator) (j : ℕ) (v : Validator)
    → Absent addr l
    → get_elem? l j ≡ some v
    → addr ≢ v.operator_address
Absent-at addr [] j v a h = cc
Absent-at addr (u ∷ l) zero v (other, a) h =
    let same : u ≡ v = cc in subst (λ x. addr ≢ x.operator_address) same other
Absent-at addr (u ∷ l) (suc j) v (other, a) h = Absent-at addr l j v a h

-- Under the address of a validator that stands once is its own power.
power_of-Unique :
    (l : List Validator) (j : ℕ) (v : Validator)
    → Unique l
    → get_elem? l j ≡ some v
    → power_of v.operator_address l ≡ v.power
power_of-Unique [] j v n h = cc
power_of-Unique (u ∷ l) zero v (a, n) h =
    let same : u ≡ v = cc in
    subst (λ x. power_of x.operator_address (u ∷ l) ≡ x.power) same
      (rw
        (
          if_pos (Bytes_discrete u.operator_address u.operator_address) refl,
          power_of-Absent u.operator_address l a,
        )
        (omega arith))
power_of-Unique (u ∷ l) (suc j) v (a, n) h =
    rw
      (if_neg (Bytes_discrete v.operator_address u.operator_address)
        (λ e. Absent-at u.operator_address l j v a h (sym e)))
      (omega (arith, power_of-Unique l j v n h))

power_of-number_from :
    (addr : Address) (i : ℕ) (l : List Validator)
    → power_of addr (number_from i l) ≡ power_of addr l
unfolding number_from
power_of-number_from addr i [] = refl
power_of-number_from addr i (v ∷ l) =
    ap (λ n. ite (Bytes_discrete addr v.operator_address) v.power 0 + n)
      (power_of-number_from addr (suc i) l)

number_from-get_elem? :
    (i j : ℕ) (l : List Validator) (v : Validator)
    → get_elem? l j ≡ some v
    → (u : Validator) × (get_elem? (number_from i l) j ≡ some u) × (u.power ≡ v.power)
unfolding number_from
number_from-get_elem? i j [] v h = cc
number_from-get_elem? i zero (u ∷ l) v h =
    let same : u ≡ v = cc in (record u { index = i % 2 ^ 32 }, refl, ap (λ x. x.power) same)
number_from-get_elem? i (suc j) (u ∷ l) v h = number_from-get_elem? (suc i) j l v h

-- An address that the index does not find is no validator's.
index_from-none :
    (i : ℕ) (l : List Validator) (m : Map Address ℕ) (addr : Address)
    → lookup addr (index_from i l m) ≡ none
    → (Absent addr l) × (lookup addr m ≡ none)
unfolding index_from
index_from-none i [] m addr h = (tt, h)
index_from-none i (v ∷ l) m addr h =
    let own = v.operator_address in
    let at = i % 2 ^ 32 in
    let (a, before) = index_from-none (suc i) l (insert own at m) addr h in
    elim (Bytes_discrete own addr) [
      | yes same ↦ absurd (
          some_ne_none at (
            sym
              (subst (λ x. lookup x (insert own at m) ≡ some at) same (lookup-insert_self own at m))
            ∙ before))
      | no other ↦ ((λ e. other (sym e), a), sym (lookup-insert_ne own addr at m other) ∙ before)
    ]

validator_set-IsIndexed : (d : Dpos) → IsSmall d → IsKeyed d → IsIndexed (validator_set d)
unfolding validator_set lookup
validator_set-IsIndexed d s k =
    let ranked = rank d.validators in
    record {
      unknown = λ addr h.
          power_of-number_from addr 0 ranked
          ∙ power_of-Absent addr ranked (index_from-none 0 ranked [] addr h).0;
      known = λ addr idx h.
          elim (index_from-lookup 0 ranked [] addr idx
            (omega (arith, s.few, length-rank d.validators)) h) [
              | inl (j, v, e, at, own) ↦
                  let place : j ≡ idx = omega arith in
                  let (u, there, power) =
                    number_from-get_elem? 0 idx ranked v
                      (ap (λ i. get_elem? ranked i) (sym place) ∙ at) in
                  (
                    u,
                    there,
                    power_of-number_from addr 0 ranked
                        ∙ ap (λ a. power_of a ranked) (sym own)
                        ∙ power_of-Unique ranked j v (rank-Unique d k) at
                        ∙ sym power,
                  )
              | inr nowhere ↦ cc
            ];
    }

signed-le-total : (votes : Votes) (l : List Validator) → signed votes l ≤ total l
signed-le-total votes [] = omega arith
signed-le-total votes (v ∷ l) = elim (Bool-cases (has_voted v.operator_address votes)) [
  | inl here ↦ rw here (omega (arith, signed-le-total votes l))
  | inr away ↦ rw away (omega (arith, signed-le-total votes l))
]

signed_by_none : (l : List Validator) → signed [] l ≡ 0
unfolding lookup
signed_by_none [] = refl
signed_by_none (v ∷ l) = omega (arith, signed_by_none l)

module _ (vs : ValidatorSet) (x : IsIndexed vs) where
  count_vote-eq :
      (addr : Address) (vote : PrecommitVote) (t : Tally)
      → t.power + power_of addr vs.validators < u64_mod
      → (t' : Tally) × (count_vote vs addr vote t ≡ ok t')
        × (t'.power ≡ t.power + power_of addr vs.validators)
  unfolding count_vote
  count_vote-eq addr vote t small = elim (Option-cases (lookup addr vs.index_by_addr)) [
    | inl nowhere ↦ (t, ground (arith, nowhere), omega (arith, x.unknown addr nowhere))
    | inr (idx, found) ↦
        let (v, at, power) = x.known addr idx found in
        (
          record {
            signatures = set t.signatures idx vote.signature;
            bitmap = set t.bitmap (idx / 8) (with_bit (get_or t.bitmap (idx / 8) 0) (idx % 8));
            power = (t.power + v.power) % u64_mod;
          },
          ground (arith, found, at),
          omega (arith, power),
        )
  ]

  count_votes-eq :
      (votes : Votes) (t : Tally)
      → DistinctKeys votes
      → t.power + signed votes vs.validators < u64_mod
      → (t' : Tally) × (count_votes vs votes t ≡ ok t')
        × (t'.power ≡ t.power + signed votes vs.validators)
  unfolding count_votes
  count_votes-eq [] t d small = (t, refl, omega (arith, signed_by_none vs.validators))
  count_votes-eq ((addr, vote) ∷ votes) t (fresh, d) small =
      let grown = signed-cons addr vote votes vs.validators fresh in
      let (t1, one, first) = count_vote-eq addr vote t (omega (arith, grown)) in
      let (t2, others, rest) = count_votes-eq votes t1 d (omega (arith, grown, first)) in
      (t2, rw one others, omega (arith, grown, first, rest))

-- For the validators that `DPoS` has after any of its operations, the votes for a block make a
-- certificate if those who voted hold more than two thirds of the power, and none if they do not.
-- This is for votes of distinct addresses, fewer than 2^32 validators, and three times their power
-- below 2^64.
pub try_build_qc-decides :
    (d : Dpos) (height round : ℕ) (hash : Hash) (votes : Votes)
    → IsSmall d
    → Operated d
    → DistinctKeys votes
    → let vs = validator_set d in
      ((qc : QuorumCertificate) × (try_build_qc vs height round hash votes ≡ ok (some qc))
        × (2 * vs.total_power < 3 * signed votes vs.validators))
      ⊎ ((try_build_qc vs height round hash votes ≡ ok none)
          × (3 * signed votes vs.validators ≤ 2 * vs.total_power))
unfolding try_build_qc
try_build_qc-decides d height round hash votes s o distinct =
    let vs = validator_set d in
    let c = validator_set-IsCoherent d s in
    let le = signed-le-total votes vs.validators in
    elim (Bool-cases (vs.total_power == 0)) [
      | inl nobody ↦ inr (rw nobody refl, ground (arith, c.sum))
      | inr somebody ↦
          let (t, counted, power) =
            count_votes-eq vs (validator_set-IsIndexed d s (Operated-IsKeyed d o)) votes
              (blank_tally vs) distinct (omega (arith, c.sum, c.small)) in
          elim (Bool-cases (leb (t.power * 3 % u64_mod) (vs.total_power * 2 % u64_mod))) [
            | inl few ↦ inr (rw (somebody, counted, few) refl, ground (arith, c.sum, c.small))
            | inr enough ↦ inl (
              record {
                block_hash = hash;
                height = height;
                round = round;
                sig_bitmap = t.bitmap;
                aggregated_sig = [];
                signatures = t.signatures;
              },
              rw (somebody, counted, enough) refl,
              ground (arith, c.sum, c.small),
            )
          ]
    ]
