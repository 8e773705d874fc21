-- ===== src/Governance.antt =====
-- Proposals and votes: pkg/governance/governance.go.
pub mod Ids
use opencoin.Prelude.{ℕ, ◌+◌, ◌%◌, [], Option, none, some, Result, ok, err, ◌>>=◌, or_err, u64_mod}
use opencoin.Prelude.Map.{Map, ℕ_key, Bytes_key, lookup, insert}
use opencoin.Types.{Address, VoteOption, GovernanceProposal, GovernanceVote}

-- The source keeps its parameters and never reads them.
pub record Manager : Type 0 where
  pub proposals : Map ℕ GovernanceProposal
  pub votes : Map ℕ (Map Address VoteOption)
  pub next_id : ℕ

unfoldable pub new_manager : Manager
new_manager = record { proposals = []; votes = []; next_id = 1 }

unfoldable pub submit_proposal : Manager → GovernanceProposal → Manager × ℕ
submit_proposal g p =
    let id = g.next_id in
    (
      record g {
        proposals = insert id (record p { id = id }) g.proposals;
        next_id = (id + 1) % u64_mod;
      },
      id,
    )

-- `g.votes[id]`, a new map for a missing key.
abbrev pub votes_on : ℕ → Manager → Map Address VoteOption
votes_on id g = elim (lookup id g.votes) [ none ↦ [] | some votes ↦ votes ]

unfoldable pub vote : Manager → GovernanceVote → Result Manager
vote g v = do
  _ ← or_err (lookup v.proposal_id g.proposals) "proposal not found"
  let votes = insert v.voter v.option (votes_on v.proposal_id g)
  ok (record g { votes = insert v.proposal_id votes g.votes })

unfoldable pub get_proposal : Manager → ℕ → Result GovernanceProposal
get_proposal g id = or_err (lookup id g.proposals) "proposal not found"
