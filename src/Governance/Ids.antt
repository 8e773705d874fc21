-- ===== src/Governance/Ids.antt =====
-- The numbers of the proposals.
use opencoin.Prelude.{
  ℕ, ◌<◌, ◌≡◌, refl, ◌≢◌, Option, none, some, ok, err, arith, u64_max, >>=-eq-ok, or_err, ap, sym,
  ◌∙◌, ℕ_discrete,
}
use opencoin.Prelude.Map.{ℕ_key, Bytes_key, lookup, insert, lookup-insert_self, lookup-insert_ne}
use opencoin.Types.{Address, GovernanceProposal, GovernanceVote}
use opencoin.Governance.{Manager, submit_proposal, votes_on, vote, get_proposal}

-- Every proposal is filed under its own number, which was given out before.
pub record IsNumbered (g : Manager) : Type 0 where
  pub own : (id : ℕ) (p : GovernanceProposal) → lookup id g.proposals ≡ some p → p.id ≡ id
  pub given : (id : ℕ) (p : GovernanceProposal) → lookup id g.proposals ≡ some p → id < g.next_id

-- While there are numbers left, a submitted proposal gets a number that no proposal had; it is read
-- back under this number with the number in it, every other number reads what it read before, and
-- the proposals stay filed under their own numbers, all given out.
pub submit_proposal-IsNumbered :
    (g : Manager) (p : GovernanceProposal)
    → IsNumbered g
    → g.next_id < u64_max
    → let (g', id) = submit_proposal g p in
      (get_proposal g id ≡ err "proposal not found")
      × (get_proposal g' id ≡ ok (record p { id = id }))
      × ((other : ℕ) → other ≢ id → get_proposal g' other ≡ get_proposal g other)
      × IsNumbered g'
unfolding submit_proposal get_proposal
submit_proposal-IsNumbered g p i room =
    let id = g.next_id in
    let p' : GovernanceProposal = record p { id = id } in
    let back = lookup-insert_self id p' g.proposals in
    let kept : (other : ℕ)
        → other ≢ id
        → lookup other (insert id p' g.proposals) ≡ lookup other g.proposals =
      λ other ne. lookup-insert_ne id other p' g.proposals (λ e. ne (sym e)) in
    (
      unknown (lookup id g.proposals) refl,
      ap (λ m. or_err m "proposal not found") back,
      λ other ne. ap (λ m. or_err m "proposal not found") (kept other ne),
      record {
        own = λ j q h. elim (ℕ_discrete j id) [
          | yes e ↦ let same : p' ≡ q = ground (arith, back) in ap (λ x. x.id) (sym same) ∙ sym e
          | no ne ↦ i.own j q (sym (kept j ne) ∙ h)
        ];
        given = λ j q h. elim (ℕ_discrete j id) [
          | yes e ↦ omega arith
          | no ne ↦ omega (arith, i.given j q (sym (kept j ne) ∙ h))
        ];
      },
    )
  where
    unknown :
        (m : Option GovernanceProposal)
        → lookup g.next_id g.proposals ≡ m
        → or_err m "proposal not found" ≡ err "proposal not found"
    unknown none h = refl
    unknown (some q) h = absurd (omega (arith, i.given g.next_id q h))

-- A vote that is accepted counts as the voter's last word on its proposal: it replaces the voter's
-- earlier vote and touches no other voter's and no other proposal's votes.
vote-counts :
    (g g' : Manager) (v : GovernanceVote)
    → vote g v ≡ ok g'
    → (lookup v.voter (votes_on v.proposal_id g') ≡ some v.option)
      × ((voter : Address)
          → voter ≢ v.voter
          → lookup voter (votes_on v.proposal_id g') ≡ lookup voter (votes_on v.proposal_id g))
      × ((id : ℕ) → id ≢ v.proposal_id → votes_on id g' ≡ votes_on id g)
unfolding vote
vote-counts g g' v h =
    let (_, _, h1) =
      >>=-eq-ok (or_err (lookup v.proposal_id g.proposals) "proposal not found") _ h in
    let before = votes_on v.proposal_id g in
    let votes = insert v.voter v.option before in
    let same : insert v.proposal_id votes g.votes ≡ g'.votes = cc in
    let own : votes_on v.proposal_id g' ≡ votes =
      ground (arith, lookup-insert_self v.proposal_id votes g.votes) in
    (
      ap (lookup v.voter) own ∙ lookup-insert_self v.voter v.option before,
      λ voter ne.
          ap (lookup voter) own ∙ lookup-insert_ne v.voter voter v.option before (λ e. ne (sym e)),
      λ id ne. ground (arith, lookup-insert_ne v.proposal_id id votes g.votes (λ e. ne (sym e))),
    )
