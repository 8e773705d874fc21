-- ===== src/Consensus/Certificate/Built.antt =====
-- The certificates that the engine builds, checked by the certificate check.
use opencoin.Prelude.{
  some-injective, ℕ, zero, suc, ◌+◌, ◌/◌, ◌%◌, ◌≤◌, ◌<◌, ◌≡◌, refl, ◌≢◌, inl, inr, List, [], ◌∷◌,
  length, get_or, get_elem?, set, replicate, All, true, ◌==◌, if◌then◌else◌, some, ok, arith,
  >>=-eq-ok, sym, ap, ◌∙◌, subst, Bool-cases, Option-cases, length-set, length-replicate, Bytes,
  u64_mod, ==_iff,
}
use opencoin.Prelude.Map.{Bytes_key, lookup}
use opencoin.Types.{Address, Hash, PrecommitVote, QuorumCertificate, Validator, ValidatorSet}
use opencoin.Wire.{Wire}
use opencoin.Encoding.{precommit_sign_bytes, marshal_precommit_vote, precommit_vote_bytes}
use opencoin.Consensus.{Keys}
use opencoin.Consensus.Tally.{
  Votes, Tally, count_vote, count_votes, blank_tally, try_build_qc, bit_at,
}
use opencoin.Consensus.Quorum.{IsCoherent}
use opencoin.Dpos.Ranking.{total}
use opencoin.Consensus.Certificate.{check_signer, check_signers, verify_qc}
use opencoin.Consensus.Certificate.Bits.{
  is_set, set_bit, is_set-set_bit, with_bit-lt, All-get_or, All-set, get_or-set, get_elem?-lt,
  zero_bit,
}

replicate-All : (n : ℕ) → All (λ b. b < 256) (replicate n 0)
replicate-All zero = tt
replicate-All (suc n) = (omega arith, replicate-All n)

replicate-get_or : (n i : ℕ) → get_or (replicate {A = ℕ} n 0) i 0 ≡ 0
replicate-get_or zero i = refl
replicate-get_or (suc n) zero = refl
replicate-get_or (suc n) (suc i) = replicate-get_or n i

module _ ⦃w : Wire⦄ (k : Keys) (vs : ValidatorSet) (hash : Hash) (height round : ℕ) where
  -- The bytes that the validator under an address signs.
  abbrev message : Address → Bytes
  message addr = precommit_vote_bytes (record {
    block_hash = hash;
    height = height;
    round = round;
    validator = addr;
    signature = [];
  })

  -- A signature, not empty, of validator `v`.
  pub record Signs (v : Validator) (sig : Bytes) : Type 0 where
    pub nonempty : length sig ≢ 0
    pub valid : k.verify (message v.operator_address) sig v.consensus_pub_key ≡ true

  -- The votes are of this block, height and round, and each is signed by the validator under its key.
  abbrev pub Signed : Votes → Type 0
  Signed votes =
      All
        (λ entry.
          (v : Validator)
          → v.operator_address ≡ entry.0
          → (idx : ℕ) → get_elem? vs.validators idx ≡ some v
          → Signs v entry.1.signature)
        votes

  -- What holds of the slices while the votes are counted.
  record IsSigned (signatures : List Bytes) (bitmap : Bytes) : Type 0 where
    as_many : length signatures ≡ length vs.validators
    wide : length bitmap ≡ (length vs.validators + 7) / 8
    bytes : All (λ b. b < 256) bitmap
    signed :
        (i : ℕ) (v : Validator)
        → get_elem? vs.validators i ≡ some v
        → is_set bitmap i ≡ true
        → Signs v (get_or signatures i [])

  written-IsSigned :
      (signatures : List Bytes) (bitmap : Bytes) (idx : ℕ) (v : Validator) (sig : Bytes)
      → get_elem? vs.validators idx ≡ some v
      → Signs v sig
      → IsSigned signatures bitmap
      → IsSigned (set signatures idx sig) (set_bit bitmap idx)
  written-IsSigned signatures bitmap idx v sig at s i =
      let below = get_elem?-lt vs.validators idx v at in
      let inside : idx / 8 < length bitmap = omega (arith, i.wide) in
      let inside' : idx < length signatures = omega (arith, i.as_many) in
      record {
        as_many = length-set signatures idx sig ∙ i.as_many;
        wide = length-set bitmap (idx / 8) _ ∙ i.wide;
        bytes =
            All-set bitmap (idx / 8) _
              (with_bit-lt _ (idx % 8) (All-get_or bitmap (idx / 8) i.bytes) (omega arith)) i.bytes;
        signed = λ j u found bit. elim (Bool-cases (idx == j)) [
          | inl here ↦
              let same : idx ≡ j = (==_iff idx j).0 here in
              let own : v ≡ u =
                some-injective (sym at ∙ ap (get_elem? vs.validators) same ∙ found) in
              let now : get_or (set signatures idx sig) j [] ≡ sig =
                get_or-set signatures idx j sig [] inside'
                ∙ ap (λ t. if t then sig else get_or signatures j []) here in
              subst (λ x. Signs u x) (sym now) (subst (λ x. Signs x sig) own s)
          | inr there ↦
              let now : get_or (set signatures idx sig) j [] ≡ get_or signatures j [] =
                get_or-set signatures idx j sig [] inside'
                ∙ ap (λ t. if t then sig else get_or signatures j []) there in
              let before : is_set bitmap j ≡ true =
                elim (is_set-set_bit bitmap idx j i.bytes inside bit) [
                  | inl e ↦ absurd (ground arith)
                  | inr q ↦ q
                ] in
              subst (λ x. Signs u x) (sym now) (i.signed j u found before)
        ];
      }

  blank-IsSigned :
      IsSigned (replicate (length vs.validators) []) (replicate ((length vs.validators + 7) / 8) 0)
  blank-IsSigned = record {
    as_many = length-replicate (length vs.validators) [];
    wide = length-replicate ((length vs.validators + 7) / 8) 0;
    bytes = replicate-All ((length vs.validators + 7) / 8);
    signed = λ i v at bit.
        let clear = replicate-get_or ((length vs.validators + 7) / 8) (i / 8) in
        absurd (
          cc (sym (zero_bit (i % 8) (omega arith)) ∙ ap (λ b. bit_at b (i % 8)) (sym clear) ∙ bit));
  }

  count_vote-IsSigned :
      (c : IsCoherent vs) (addr : Address) (vote : PrecommitVote) (t t' : Tally)
      → ((v : Validator)
          → v.operator_address ≡ addr
          → (idx : ℕ) → get_elem? vs.validators idx ≡ some v
          → Signs v vote.signature)
      → IsSigned t.signatures t.bitmap
      → count_vote vs addr vote t ≡ ok t'
      → IsSigned t'.signatures t'.bitmap
  unfolding count_vote
  count_vote-IsSigned c addr vote t t' valid i h =
      elim (Option-cases (lookup addr vs.index_by_addr)) [
        | inl unknown ↦
            let same : t ≡ t' = ground (arith, unknown) in
            subst (λ x. IsSigned x.signatures x.bitmap) same i
        | inr (idx, found) ↦ elim (Option-cases (get_elem? vs.validators idx)) [
          | inl beyond ↦ absurd (ground (arith, found, beyond))
          | inr (v, at) ↦
              let after : Tally = record {
                signatures = set t.signatures idx vote.signature;
                bitmap = set_bit t.bitmap idx;
                power = (t.power + v.power) % u64_mod;
              } in
              let same : after ≡ t' = ground (arith, found, at) in
              subst (λ x. IsSigned x.signatures x.bitmap) same
                (written-IsSigned t.signatures t.bitmap idx v vote.signature at
                  (valid v (c.index addr idx v found at) idx at) i)
        ]
      ]

  count_votes-IsSigned :
      (c : IsCoherent vs) (votes : Votes) (t t' : Tally)
      → Signed votes
      → IsSigned t.signatures t.bitmap
      → count_votes vs votes t ≡ ok t'
      → IsSigned t'.signatures t'.bitmap
  unfolding count_votes
  count_votes-IsSigned c [] t t' s i h =
      let same : t ≡ t' = cc in subst (λ x. IsSigned x.signatures x.bitmap) same i
  count_votes-IsSigned c ((addr, vote) ∷ votes) t t' s i h =
      let (t1, one, rest) = >>=-eq-ok (count_vote vs addr vote t) _ h in
      count_votes-IsSigned c votes t1 t' s.1 (count_vote-IsSigned c addr vote t t1 s.0 i one) rest

  abbrev certificate : Bytes → List Bytes → QuorumCertificate
  certificate bitmap signatures = record {
    block_hash = hash;
    height = height;
    round = round;
    sig_bitmap = bitmap;
    aggregated_sig = [];
    signatures = signatures;
  }

  check_signer-eq_ok :
      (bitmap : Bytes) (signatures : List Bytes) (i : ℕ) (v : Validator)
      → i < length signatures
      → (is_set bitmap i ≡ true → Signs v (get_or signatures i []))
      → check_signer k (certificate bitmap signatures) i v ≡ ok tt
  unfolding check_signer precommit_sign_bytes marshal_precommit_vote
  check_signer-eq_ok bitmap signatures i v inside good = elim (Bool-cases (is_set bitmap i)) [
    | inl bit ↦
        let s = good bit in
        let nonempty = s.nonempty in let valid = s.valid in rw (bit, valid) (ground arith)
    | inr bit ↦ rw bit refl
  ]

  -- The loop of the check over the validators from position `i` on.
  check_signers-eq_ok :
      (bitmap : Bytes) (signatures : List Bytes) (i : ℕ) (l : List Validator)
      → i + length l ≤ length signatures
      → ((j n : ℕ) (v : Validator)
          → n ≡ i + j
          → get_elem? l j ≡ some v
          → is_set bitmap n ≡ true
          → Signs v (get_or signatures n []))
      → check_signers k (certificate bitmap signatures) i l ≡ ok tt
  unfolding check_signers
  check_signers-eq_ok bitmap signatures i [] long good = refl
  check_signers-eq_ok bitmap signatures i (v ∷ l) long good =
      rw
        (
          check_signer-eq_ok bitmap signatures i v (omega arith)
              (λ bit. good 0 i v (omega arith) refl bit),
          check_signers-eq_ok bitmap signatures (suc i) l (omega arith)
              (λ j n u e at bit. good (suc j) n u (omega arith) at bit),
        )
        refl

  -- A certificate that is built from votes of one height and round is accepted by the certificate
  -- check, if the votes are signed: each by the validator of its address, for the certificate's
  -- block, height and round, with a signature that is not empty. This is for a validator set whose
  -- index and total are coherent.
  pub verify_qc-try_build_qc :
      (votes : Votes) (qc : QuorumCertificate)
      → IsCoherent vs
      → Signed votes
      → try_build_qc vs height round hash votes ≡ ok (some qc)
      → verify_qc k (some qc) (some vs) ≡ ok tt
  unfolding try_build_qc verify_qc
  verify_qc-try_build_qc votes qc c s h = elim (Bool-cases (vs.total_power == 0)) [
    | inl nothing ↦ absurd (ground (arith, nothing))
    | inr some_power ↦
        let h1 = rw some_power at h in
        let (t, counted, h2) = >>=-eq-ok (count_votes vs votes (blank_tally vs)) _ h1 in
        let i = count_votes-IsSigned c votes (blank_tally vs) t s blank-IsSigned counted in
        let same : certificate t.bitmap t.signatures ≡ qc = ground arith in
        let as_many = i.as_many in
        let wide = i.wide in
        let checked =
          check_signers-eq_ok t.bitmap t.signatures 0 vs.validators (omega arith) (λ j n v e at bit.
            i.signed n v (subst (λ x. get_elem? vs.validators x ≡ some v) (omega arith) at) bit) in
        let positive : vs.total_power ≢ 0 = ground arith in
        let populated : length vs.validators ≢ 0 = nonempty vs.validators (omega (arith, c.sum)) in
        subst (λ x. verify_qc k (some x) (some vs) ≡ ok tt) same (ground (arith, checked))
  ]
    where
      nonempty : (l : List Validator) → total l ≢ 0 → length l ≢ 0
      nonempty [] n = absurd (n refl)
      nonempty (v ∷ l) n = omega arith
