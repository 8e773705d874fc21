-- ===== src/Consensus/Handlers.antt =====
-- What the handlers keep of the recorded votes.
use opencoin.Prelude.{
  ◌+◌, ◌*◌, ◌%◌, ◌<◌, ◌≡◌, refl, ◌≢◌, [], ◌∷◌, All, ltb, Option, none, some, ok, arith, u64_mod,
  sym, ◌∙◌, subst, if_pos, if_neg, Bytes_discrete, inl, inr, Bool-cases, >>=-eq-ok, and_then-keeps,
  and_then-eq_ok,
}
use opencoin.Prelude.Int.{ℤ}
use opencoin.Prelude.Map.{
  insert-DistinctKeys, DistinctKeys, Map, Bytes_key, lookup, insert, erase, lookup-insert_self,
  lookup-insert_ne, lookup-erase,
}
use opencoin.Types.{Address, Hash, Block, PrecommitVote, QuorumCertificate, ViewChange}
use opencoin.Wire.{Wire}
use opencoin.Dpos.{Dpos, validator_set}
use opencoin.Consensus.{
  Machine, Keys, Network, Engine, votes_for, record_vote, persist_consensus_state,
  load_consensus_state, new_engine, on_timeout, check_vote, handle_precommit_vote,
  check_view_change, handle_view_change, advance, with_signatures, finalize_block,
}
use opencoin.Consensus.Tally.{Votes}
use opencoin.Consensus.Quorum.{
  signed, IsSmall, IsCoherent, validator_set-IsCoherent, try_build_qc-signed,
}

-- An entry of the votes for a block is a vote for the block by the address it stands under.
abbrev pub OwnVote : Hash → Address × PrecommitVote → Type 0
OwnVote hash entry = (entry.1.validator ≡ entry.0) × (entry.1.block_hash ≡ hash)

insert-OwnVote :
    (hash : Hash) (k : Address) (vote : PrecommitVote) (m : Votes)
    → OwnVote hash (k, vote)
    → All (OwnVote hash) m
    → All (OwnVote hash) (insert k vote m)
unfolding insert
insert-OwnVote hash k vote [] o a = (o, tt)
insert-OwnVote hash k vote ((j, v) ∷ m) o a = elim (Bytes_discrete j k) [
  | yes p ↦ rw (if_pos (Bytes_discrete j k) p) ((o.0 ∙ sym p, o.1), a.1)
  | no ne ↦ rw (if_neg (Bytes_discrete j k) ne) (a.0, insert-OwnVote hash k vote m o a.1)
]

-- Each address is recorded once for a block, with its own vote for the block.
pub record IsRecorded (votes : Map Hash Votes) : Type 0 where
  pub distinct : (hash : Hash) → DistinctKeys (votes_for hash votes)
  pub own : (hash : Hash) → All (OwnVote hash) (votes_for hash votes)

votes_for-insert_self : (h : Hash) (v : Votes) (m : Map Hash Votes) → votes_for h (insert h v m) ≡ v
votes_for-insert_self h v m = ground (arith, lookup-insert_self h v m)

votes_for-insert_ne :
    (h j : Hash) (v : Votes) (m : Map Hash Votes)
    → h ≢ j
    → votes_for j (insert h v m) ≡ votes_for j m
votes_for-insert_ne h j v m ne = ground (arith, lookup-insert_ne h j v m)

votes_for-erase_self : (h : Hash) (m : Map Hash Votes) → votes_for h (erase h m) ≡ []
votes_for-erase_self h m = ground (arith, lookup-erase h h m)

votes_for-erase_ne :
    (h j : Hash) (m : Map Hash Votes) → h ≢ j → votes_for j (erase h m) ≡ votes_for j m
votes_for-erase_ne h j m ne = ground (arith, lookup-erase h j m)

insert-IsRecorded :
    (h : Hash) (v : Votes) (m : Map Hash Votes)
    → DistinctKeys v
    → All (OwnVote h) v
    → IsRecorded m
    → IsRecorded (insert h v m)
insert-IsRecorded h v m d o i = record {
  distinct = λ j. elim (Bytes_discrete h j) [
    | yes p ↦
        subst (λ x. DistinctKeys (votes_for x (insert h v m))) p
          (subst DistinctKeys (sym (votes_for-insert_self h v m)) d)
    | no ne ↦ subst DistinctKeys (sym (votes_for-insert_ne h j v m ne)) (i.distinct j)
  ];
  own = λ j. elim (Bytes_discrete h j) [
    | yes p ↦
        subst (λ x. All (OwnVote x) (votes_for x (insert h v m))) p
          (subst (All (OwnVote h)) (sym (votes_for-insert_self h v m)) o)
    | no ne ↦ subst (All (OwnVote j)) (sym (votes_for-insert_ne h j v m ne)) (i.own j)
  ];
}

erase-IsRecorded : (h : Hash) (m : Map Hash Votes) → IsRecorded m → IsRecorded (erase h m)
erase-IsRecorded h m i = record {
  distinct = λ j. elim (Bytes_discrete h j) [
    | yes p ↦
        subst (λ x. DistinctKeys (votes_for x (erase h m))) p
          (subst DistinctKeys (sym (votes_for-erase_self h m)) tt)
    | no ne ↦ subst DistinctKeys (sym (votes_for-erase_ne h j m ne)) (i.distinct j)
  ];
  own = λ j. elim (Bytes_discrete h j) [
    | yes p ↦
        subst (λ x. All (OwnVote x) (votes_for x (erase h m))) p
          (subst (All (OwnVote h)) (sym (votes_for-erase_self h m)) tt)
    | no ne ↦ subst (All (OwnVote j)) (sym (votes_for-erase_ne h j m ne)) (i.own j)
  ];
}

-- What holds of an engine between two messages.
pub record IsSound {S : Type 0} (e : Engine S) : Type 0 where
  pub recorded : IsRecorded e.votes
  pub current : e.validators ≡ validator_set e.dpos

record_vote-IsSound :
    {S : Type 0} (e : Engine S) (vote : PrecommitVote) → IsSound e → IsSound (record_vote e vote)
record_vote-IsSound e vote s =
    let before = votes_for vote.block_hash e.votes in
    record {
      recorded =
          insert-IsRecorded vote.block_hash (insert vote.validator vote before) e.votes
            (insert-DistinctKeys vote.validator vote before (s.recorded.distinct vote.block_hash))
            (insert-OwnVote vote.block_hash vote.validator vote before (refl, refl)
              (s.recorded.own vote.block_hash))
            s.recorded;
      current = s.current;
    }

module _ (m : Machine) where
  persist-IsSound : (e : Engine m.State) → IsSound e → IsSound (persist_consensus_state m e).0
  unfolding persist_consensus_state
  persist-IsSound e s =
      and_then-keeps IsSound e (m.set_consensus_state e.state e.height e.round e.last_finalized) _ s
        (λ state _. record { recorded = s.recorded; current = s.current })

  on_timeout-IsSound : (e : Engine m.State) → IsSound e → IsSound (on_timeout m e)
  unfolding on_timeout
  on_timeout-IsSound e s =
      persist-IsSound (record e { round = (e.round + 1) % u64_mod })
        (record { recorded = s.recorded; current = s.current })

  module _ ⦃w : Wire⦄ (k : Keys) (net : Option Network) where
    handle_precommit_vote-IsSound :
        (e : Engine m.State) (vote : Option PrecommitVote)
        → IsSound e
        → IsSound (handle_precommit_vote m k net e vote).0
    unfolding handle_precommit_vote
    handle_precommit_vote-IsSound e none s = s
    handle_precommit_vote-IsSound e (some vote) s =
        and_then-keeps IsSound e (check_vote m k net e vote) _ s
          (λ _ _. record_vote-IsSound e vote s)

    handle_view_change-IsSound :
        (e : Engine m.State) (vc : Option ViewChange)
        → IsSound e
        → IsSound (handle_view_change m k net e vc).0
    unfolding handle_view_change
    handle_view_change-IsSound e none s = s
    handle_view_change-IsSound e (some vc) s =
        and_then-keeps IsSound e (check_view_change m k net e vc) _ s (λ _ _.
          elim (Bool-cases (ltb e.round vc.round)) [
            | inl later ↦ rw later (
                persist-IsSound (record e { round = vc.round })
                  (record { recorded = s.recorded; current = s.current }))
            | inr not_later ↦ rw not_later s
          ])

    finalize_block-IsSound :
        (e : Engine m.State) (block : Option Block) (qc : Option QuorumCertificate)
        → IsSound e
        → IsSound (finalize_block m k net e block qc).0
    unfolding finalize_block advance
    finalize_block-IsSound e none qc s = s
    finalize_block-IsSound e (some block) none s = s
    finalize_block-IsSound e (some block) (some qc) s =
        let signed = with_signatures m k net e block qc in
        let (state, applied) = m.apply_block e.state signed in
        and_then-keeps IsSound (record e { state = state }) applied _
          (record { recorded = s.recorded; current = s.current })
          (λ root _.
            let saved =
              persist-IsSound (advance m k net e state signed root)
                (record { recorded = s.recorded; current = refl }) in
            let (after, written) =
              persist_consensus_state m (advance m k net e state signed root) in
            and_then-keeps IsSound after written _ saved (λ _ _. record {
              recorded = erase-IsRecorded qc.block_hash after.votes saved.recorded;
              current = saved.current;
            }))

    new_engine-IsSound :
        (state : m.State) (d : Dpos) (operator : Address) (n : ℤ) (e : Engine m.State)
        → new_engine m state d operator n ≡ ok e
        → IsSound e
    unfolding new_engine load_consensus_state lookup
    new_engine-IsSound state d operator n e h =
        let ((height, round, last), _, h1) = >>=-eq-ok (m.get_consensus_state state) _ h in
        let fresh : IsRecorded [] = record { distinct = λ _. tt; own = λ _. tt } in
        record { recorded = subst IsRecorded (ground arith) fresh; current = ground arith }

    -- The messages and events that change the engine.
    pub data Step (e : Engine m.State) : Engine m.State → Type 1 where
      votes : (vote : Option PrecommitVote) → Step e (handle_precommit_vote m k net e vote).0
      changes_view : (vc : Option ViewChange) → Step e (handle_view_change m k net e vc).0
      times_out : Step e (on_timeout m e)
      finalizes :
          (block : Option Block) (qc : Option QuorumCertificate)
          → Step e (finalize_block m k net e block qc).0

    -- What an engine can come to from `NewEngine`, in any order of messages.
    pub data Reachable : Engine m.State → Type 1 where
      fresh :
          {e : Engine m.State} (state : m.State) (d : Dpos) (operator : Address) (n : ℤ)
          → new_engine m state d operator n ≡ ok e
          → Reachable e
      next : {e e' : Engine m.State} → Reachable e → Step e e' → Reachable e'

    Step-IsSound : {e e' : Engine m.State} → Step e e' → IsSound e → IsSound e'
    Step-IsSound {e} (votes vote) s = handle_precommit_vote-IsSound e vote s
    Step-IsSound {e} (changes_view vc) s = handle_view_change-IsSound e vc s
    Step-IsSound {e} times_out s = on_timeout-IsSound e s
    Step-IsSound {e} (finalizes block qc) s = finalize_block-IsSound e block qc s

    pub Reachable-IsSound : {e : Engine m.State} → Reachable e → IsSound e
    Reachable-IsSound {e} (fresh state d operator n h) = new_engine-IsSound state d operator n e h
    Reachable-IsSound (next r step) = Step-IsSound step (Reachable-IsSound r)

    -- Whatever messages came before, a vote that completes a certificate leaves recorded votes for
    -- its block, by distinct addresses and each under its own, whose validators hold more than two
    -- thirds of the power. This is for fewer than 2^32 validators and three times their power below
    -- 2^64.
    pub handle_precommit_vote-quorum :
        (e : Engine m.State) (vote : PrecommitVote) (qc : QuorumCertificate)
        → Reachable e
        → IsSmall e.dpos
        → (handle_precommit_vote m k net e (some vote)).1 ≡ ok (some qc)
        → let after =
            votes_for vote.block_hash (handle_precommit_vote m k net e (some vote)).0.votes in
          DistinctKeys after
          × All (OwnVote vote.block_hash) after
          × (2 * e.validators.total_power < 3 * signed after e.validators.validators)
    unfolding handle_precommit_vote
    handle_precommit_vote-quorum e vote qc r small h =
        let s = Reachable-IsSound r in
        let after = handle_precommit_vote-IsSound e (some vote) s in
        let hash = vote.block_hash in
        let c : IsCoherent e.validators =
          subst IsCoherent (sym s.current) (validator_set-IsCoherent e.dpos small) in
        let (_, passed, built) = and_then-eq_ok e (check_vote m k net e vote) _ (some qc) h in
        let kept = (record_vote-IsSound e vote s).recorded in
        rw passed (
          kept.distinct hash,
          kept.own hash,
          try_build_qc-signed e.validators c ((e.height + 1) % u64_mod) e.round hash
              (votes_for hash (record_vote e vote).votes) qc (kept.distinct hash) built,
        )
