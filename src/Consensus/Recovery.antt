-- ===== src/Consensus/Recovery.antt =====
-- An engine that is made again after a restart, against the one that was stopped.
use opencoin.Prelude.{
  ℕ, ◌≡◌, refl, ltb, length, ◌==◌, [], if◌then◌else◌, Bool-cases, inl, inr, Bytes, Option, some,
  Result, ok, and_then, and_then-eq_ok, IsU64, arith, sym, ap, ◌∙◌, subst,
}
use opencoin.Prelude.Int.{ℤ}
use opencoin.Prelude.Map.{Bytes_key, erase}
use opencoin.Types.{Address, Hash, Block, QuorumCertificate, zero_hash}
use opencoin.Wire.{Wire}
use opencoin.Encoding.{hash_block, marshal_block_for_hash}
use opencoin.Crypto.{bytes_equal}
use opencoin.Crypto.Sender.{bytes_equal→eq}
use opencoin.Dpos.{Dpos, validator_set}
use opencoin.Consensus.{
  Machine, Keys, Network, Engine, persist_consensus_state, load_consensus_state, new_engine,
  must_hash_block, advance, with_signatures, finalize_block,
}

-- The metadata that was stored is what is read, for numbers and hashes of the right sizes.
pub record MachineLaws (m : Machine) : Type 0 where
  pub get_set :
      (s s' : m.State) (height round : ℕ) (last : Hash)
      → IsU64 height
      → IsU64 round
      → length last ≡ 32
      → m.set_consensus_state s height round last ≡ ok s'
      → m.get_consensus_state s' ≡ ok (height, round, last)

went_on {ε κ μ} :
    {E : Type ε} {V : Type κ} {W : Type μ} (object : E) (m : Result V) (next : V → E × Result W)
    (value : V)
    → m ≡ ok value
    → and_then object m next ≡ next value
went_on object m next value e = ap (λ r. and_then object r next) e

-- An engine at the height, in the round and on the block that another one is.
abbrev pub Resumes : {S : Type 0} → Engine S → Engine S → Type 0
Resumes e e' =
    (e'.height ≡ e.height) × (e'.round ≡ e.round) × (e'.last_finalized ≡ e.last_finalized)

module _ (m : Machine) where
  stored_number : (n : ℕ) → (if ltb 0 n then n else 0) ≡ n
  stored_number n = ground arith

  stored_hash : (h : Hash) → (if bytes_equal h zero_hash then zero_hash else h) ≡ h
  stored_hash h = elim (Bool-cases (bytes_equal h zero_hash)) [
    | inl same ↦ rw same (sym (bytes_equal→eq h zero_hash same))
    | inr other ↦ rw other refl
  ]

  -- A new engine starts from what is stored.
  pub new_engine-stored :
      (state : m.State) (d : Dpos) (operator : Address) (n : ℤ) (height round : ℕ) (last : Hash)
      → m.get_consensus_state state ≡ ok (height, round, last)
      → (e : Engine m.State) × (new_engine m state d operator n ≡ ok e)
        × (e.height ≡ height)
        × (e.round ≡ round)
        × (e.last_finalized ≡ last)
  unfolding new_engine load_consensus_state
  new_engine-stored state d operator n height round last stored = (
    record {
      state = state;
      dpos = d;
      validators = validator_set d;
      height = if ltb 0 height then height else 0;
      round = if ltb 0 round then round else 0;
      last_finalized = if bytes_equal last zero_hash then zero_hash else last;
      votes = [];
      validator_addr = operator;
      block_max_txs = n;
    },
    rw stored refl,
    stored_number height,
    stored_number round,
    stored_hash last,
  )

  module _ ⦃w : Wire⦄ (k : Keys) (net : Option Network) where
    -- What a finalization that succeeds has gone through.
    pub record Finalized (e : Engine m.State) (block : Block) (qc : QuorumCertificate)
        : Type 0 where
      pub root : Hash
      pub applied : (m.apply_block e.state (with_signatures m k net e block qc)).1 ≡ ok root
      pub after : m.State
      pub last : Hash
      pub wide : ((b : Bytes) → length (k.sha256 b) ≡ 32) → length last ≡ 32
      pub saved :
          m.set_consensus_state
            (m.apply_block e.state (with_signatures m k net e block qc)).0
            block.height
            0
            last
          ≡ ok after
      pub state : (finalize_block m k net e (some block) (some qc)).0.state ≡ after
      pub height : (finalize_block m k net e (some block) (some qc)).0.height ≡ block.height
      pub round : (finalize_block m k net e (some block) (some qc)).0.round ≡ 0
      pub last_finalized : (finalize_block m k net e (some block) (some qc)).0.last_finalized ≡ last

    pub with_signatures-height :
        (e : Engine m.State) (block : Block) (qc : QuorumCertificate)
        → (with_signatures m k net e block qc).height ≡ block.height
    unfolding with_signatures
    with_signatures-height e block qc =
        elim (Bool-cases (length qc.signatures == length e.validators.validators)) [
          | inl as_many ↦ rw as_many refl
          | inr other ↦ rw other refl
        ]

    must_hash_block-wide :
        (block : Block)
        → ((b : Bytes) → length (k.sha256 b) ≡ 32)
        → length (must_hash_block m k net block) ≡ 32
    unfolding must_hash_block hash_block marshal_block_for_hash
    must_hash_block-wide block wide = wide _

    -- The engine after a block was applied and the metadata written.
    pub finalized :
        (e : Engine m.State) (block : Block) (qc : QuorumCertificate) (root : Hash)
        (after : m.State)
        → let signed = with_signatures m k net e block qc in
          let next_e = advance m k net e (m.apply_block e.state signed).0 signed root in
          (m.apply_block e.state signed).1 ≡ ok root
          → m.set_consensus_state
              (m.apply_block e.state signed).0
              signed.height
              0
              next_e.last_finalized
            ≡ ok after
          → finalize_block m k net e (some block) (some qc)
            ≡ (record next_e { state = after; votes = erase qc.block_hash next_e.votes }, ok tt)
    unfolding finalize_block persist_consensus_state advance
    finalized e block qc root after rooted set = rw (rooted, set) refl

    pub finalize_block-Finalized :
        (e : Engine m.State) (block : Block) (qc : QuorumCertificate)
        → (finalize_block m k net e (some block) (some qc)).1 ≡ ok tt
        → Finalized e block qc
    unfolding finalize_block advance persist_consensus_state
    finalize_block-Finalized e block qc h =
        let signed = with_signatures m k net e block qc in
        let applied = m.apply_block e.state signed in
        let (root, rooted, h1) = and_then-eq_ok (record e { state = applied.0 }) applied.1 _ tt h in
        let last = must_hash_block m k net (record signed { state_root = root }) in
        let next_e = advance m k net e applied.0 signed root in
        let persisted = persist_consensus_state m next_e in
        let (_, wrote, _) = and_then-eq_ok persisted.0 persisted.1 _ tt h1 in
        let (after, set, _) =
          and_then-eq_ok next_e (m.set_consensus_state applied.0 signed.height 0 last) _ _ wrote in
        let done = finalized e block qc root after rooted set in
        record {
          root = root;
          applied = rooted;
          after = after;
          last = last;
          wide = must_hash_block-wide (record signed { state_root = root });
          saved =
              subst (λ n. m.set_consensus_state applied.0 n 0 last ≡ ok after)
                (with_signatures-height e block qc) set;
          state = ap (λ x. x.0.state) done;
          height = ap (λ x. x.0.height) done ∙ with_signatures-height e block qc;
          round = ap (λ x. x.0.round) done;
          last_finalized = ap (λ x. x.0.last_finalized) done;
        }

    -- After a block was finalized a new engine over what is stored is at the height, in the round and
    -- on the block that the old one is.
    pub finalize_block-Resumes :
        (e : Engine m.State) (block : Block) (qc : QuorumCertificate) (d : Dpos)
        (operator : Address) (n : ℤ)
        → MachineLaws m
        → ((b : Bytes) → length (k.sha256 b) ≡ 32)
        → IsU64 block.height
        → (finalize_block m k net e (some block) (some qc)).1 ≡ ok tt
        → let e' = (finalize_block m k net e (some block) (some qc)).0 in
          (fresh : Engine m.State) × (new_engine m e'.state d operator n ≡ ok fresh)
          × Resumes e' fresh
    finalize_block-Resumes e block qc d operator n laws wide small h =
        let f = finalize_block-Finalized e block qc h in
        let read =
          laws.get_set _ f.after block.height 0 f.last small (omega arith) (f.wide wide) f.saved in
        let (fresh, made, at_height, in_round, on_block) =
          new_engine-stored f.after d operator n block.height 0 f.last read in
        (
          fresh,
          ap (λ s. new_engine m s d operator n) f.state ∙ made,
          (at_height ∙ sym f.height, in_round ∙ sym f.round, on_block ∙ sym f.last_finalized),
        )
