-- ===== src/Consensus/Quorum.antt =====
-- Quorums of votes: what power `tryBuildQC` counts, and what two quorums share.
use opencoin.Prelude.{
  ℕ, zero, suc, ◌+◌, ◌*◌, ◌%◌, ◌^◌, ◌≤◌, ◌<◌, ◌≡◌, refl, List, [], ◌∷◌, get_elem?, length, Bool,
  true, false, ◌&&◌, ◌==◌, if◌then◌else◌, none, some, ok, arith, u64_mod, >>=-eq-ok, sym, ap, subst,
  Bytes_discrete, ite, Bool-cases, Option-cases, is_some, inl, inr, if_pos, if_neg,
}
use opencoin.Prelude.Map.{DistinctKeys, Bytes_key, lookup, lookup-cons_self, lookup-cons_ne}
use opencoin.Types.{Address, Hash, PrecommitVote, QuorumCertificate, Validator, ValidatorSet}
use opencoin.Dpos.{Dpos, validator_set}
use opencoin.Dpos.Ranking.{total, all_power, validator_set-index, validator_set-total, sum_power-eq}
use opencoin.Consensus.Tally.{Votes, Tally, count_vote, count_votes, blank_tally, try_build_qc}

abbrev pub has_voted : Address → Votes → Bool
has_voted addr votes = is_some (lookup addr votes)

-- The power of those that voted.
abbrev pub signed : Votes → List Validator → ℕ
signed votes [] = 0
signed votes (v ∷ l) = (if has_voted v.operator_address votes then v.power else 0) + signed votes l

-- The power of those that voted in both.
abbrev pub in_both : Votes → Votes → List Validator → ℕ
in_both votes others [] = 0
in_both votes others (v ∷ l) =
    (if has_voted v.operator_address votes && has_voted v.operator_address others
      then v.power
      else 0)
    + in_both votes others l

-- The power under one address.
abbrev pub power_of : Address → List Validator → ℕ
power_of addr [] = 0
power_of addr (v ∷ l) = ite (Bytes_discrete addr v.operator_address) v.power 0 + power_of addr l

-- The index leads to the validator of its address, and the total is the validators' and far below 2^64.
pub record IsCoherent (vs : ValidatorSet) : Type 0 where
  pub index :
      (addr : Address) (idx : ℕ) (v : Validator)
      → lookup addr vs.index_by_addr ≡ some idx
      → get_elem? vs.validators idx ≡ some v
      → v.operator_address ≡ addr
  pub sum : vs.total_power ≡ total vs.validators
  pub small : 3 * vs.total_power < u64_mod

overlap : (a b : Votes) (l : List Validator) → signed a l + signed b l ≤ total l + in_both a b l
overlap a b [] = omega arith
overlap a b (v ∷ l) =
    let ih = overlap a b l in
    elim (Bool-cases (has_voted v.operator_address a)) [
      | inl p ↦ elim (Bool-cases (has_voted v.operator_address b)) [
        | inl q ↦ rw (p, q) (omega arith)
        | inr q ↦ rw (p, q) (omega arith)
      ]
      | inr p ↦ elim (Bool-cases (has_voted v.operator_address b)) [
        | inl q ↦ rw (p, q) (omega arith)
        | inr q ↦ rw (p, q) (omega arith)
      ]
    ]

power-le-power_of :
    (l : List Validator) (idx : ℕ) (v : Validator)
    → get_elem? l idx ≡ some v
    → v.power ≤ power_of v.operator_address l
power-le-power_of [] idx v h = cc
power-le-power_of (u ∷ l) zero v h =
    let same : u ≡ v = cc in
    subst (λ x. v.power ≤ power_of v.operator_address (x ∷ l)) (sym same) (ground arith)
power-le-power_of (u ∷ l) (suc idx) v h = omega (arith, power-le-power_of l idx v h)

-- A voter that was not yet there adds what stands under its address.
pub signed-cons :
    (addr : Address) (vote : PrecommitVote) (votes : Votes) (l : List Validator)
    → lookup addr votes ≡ none
    → signed ((addr, vote) ∷ votes) l ≡ signed votes l + power_of addr l
signed-cons addr vote votes [] h = refl
signed-cons addr vote votes (v ∷ l) h =
    let ih = signed-cons addr vote votes l h in
    elim (Bytes_discrete addr v.operator_address) [
      | yes p ↦
          let absent : has_voted v.operator_address votes ≡ false =
            ap is_some (subst (λ x. lookup x votes ≡ none) p h) in
          let mine : has_voted v.operator_address ((addr, vote) ∷ votes) ≡ true =
            ap is_some (lookup-cons_self addr v.operator_address vote votes p) in
          rw (mine, absent, if_pos (Bytes_discrete addr v.operator_address) p) (omega arith)
      | no p ↦
          let other : has_voted v.operator_address ((addr, vote) ∷ votes)
              ≡ has_voted v.operator_address votes =
            ap is_some (lookup-cons_ne addr v.operator_address vote votes p) in
          rw (other, if_neg (Bytes_discrete addr v.operator_address) p) (omega arith)
    ]

module _ (vs : ValidatorSet) (c : IsCoherent vs) where
  count_vote-le :
      (addr : Address) (vote : PrecommitVote) (t t' : Tally)
      → count_vote vs addr vote t ≡ ok t'
      → t'.power ≤ t.power + power_of addr vs.validators
  unfolding count_vote
  count_vote-le addr vote t t' h = elim (Option-cases (lookup addr vs.index_by_addr)) [
    | inl unknown ↦ ground (arith, unknown)
    | inr (idx, found) ↦ elim (Option-cases (get_elem? vs.validators idx)) [
      | inl beyond ↦ ground (arith, found, beyond)
      | inr (v, at) ↦
          let own = c.index addr idx v found at in
          let bound : v.power ≤ power_of addr vs.validators =
            subst (λ x. v.power ≤ power_of x vs.validators) own
              (power-le-power_of vs.validators idx v at) in
          ground (arith, found, at)
    ]
  ]

  count_votes-le :
      (votes : Votes) (t t' : Tally)
      → DistinctKeys votes
      → count_votes vs votes t ≡ ok t'
      → t'.power ≤ t.power + signed votes vs.validators
  unfolding count_votes
  count_votes-le [] t t' d h = let same : t ≡ t' = cc in omega (arith, ap (λ x. x.power) same)
  count_votes-le ((addr, vote) ∷ votes) t t' d h =
      let (t1, one, rest) = >>=-eq-ok (count_vote vs addr vote t) _ h in
      omega (
        arith,
        count_vote-le addr vote t t1 one,
        count_votes-le votes t1 t' d.1 rest,
        signed-cons addr vote votes vs.validators d.0,
      )

  -- A certificate stands for more than two thirds of the power.
  pub try_build_qc-signed :
      (height round : ℕ) (hash : Hash) (votes : Votes) (qc : QuorumCertificate)
      → DistinctKeys votes
      → try_build_qc vs height round hash votes ≡ ok (some qc)
      → 2 * vs.total_power < 3 * signed votes vs.validators
  unfolding try_build_qc
  try_build_qc-signed height round hash votes qc d h = elim (Bool-cases (vs.total_power == 0)) [
    | inl none_at_all ↦ ground (arith, none_at_all)
    | inr some_power ↦
        let h1 = rw some_power at h in
        let (t, counted, h2) = >>=-eq-ok (count_votes vs votes (blank_tally vs)) _ h1 in
        let bound = count_votes-le votes (blank_tally vs) t d counted in
        let above : vs.total_power * 2 % u64_mod < t.power * 3 % u64_mod = ground arith in
        omega (arith, c.small)
  ]

-- The power is far below 2^64 and the validators are fewer than 2^32.
pub record IsSmall (d : Dpos) : Type 0 where
  pub few : length d.validators < 2 ^ 32
  pub power : 3 * all_power d.validators < u64_mod

validator_set-le : (d : Dpos) → IsSmall d → (validator_set d).total_power ≤ all_power d.validators
unfolding validator_set
validator_set-le d s = omega (arith, sum_power-eq d.validators (omega (arith, s.power)))

pub validator_set-IsCoherent : (d : Dpos) → IsSmall d → IsCoherent (validator_set d)
validator_set-IsCoherent d s =
    let sum = validator_set-total d (omega (arith, s.power)) in
    record {
      index = λ addr idx v found at. validator_set-index d addr idx v s.few found at;
      sum = sum;
      small = omega (arith, s.power, validator_set-le d s);
    }

-- Any two certificates of the validator set of `DPoS`, for whatever blocks, heights and rounds,
-- share validators with more than a third of its power that voted for both. This is for votes of
-- distinct addresses, fewer than 2^32 validators and three times their power below 2^64.
pub quorums_overlap :
    (d : Dpos) (h1 h2 r1 r2 : ℕ) (b1 b2 : Hash) (votes others : Votes) (q1 q2 : QuorumCertificate)
    → IsSmall d
    → DistinctKeys votes
    → DistinctKeys others
    → try_build_qc (validator_set d) h1 r1 b1 votes ≡ ok (some q1)
    → try_build_qc (validator_set d) h2 r2 b2 others ≡ ok (some q2)
    → (validator_set d).total_power < 3 * in_both votes others (validator_set d).validators
quorums_overlap d h1 h2 r1 r2 b1 b2 votes others q1 q2 s d1 d2 one two =
    let vs = validator_set d in
    let c = validator_set-IsCoherent d s in
    omega (
      arith,
      c.sum,
      try_build_qc-signed vs c h1 r1 b1 votes q1 d1 one,
      try_build_qc-signed vs c h2 r2 b2 others q2 d2 two,
      overlap votes others vs.validators,
    )
