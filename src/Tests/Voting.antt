-- ===== src/Tests/Voting.antt =====
-- Proposals and votes at concrete values.
use opencoin.Prelude.{ℕ, ◌≡◌, ◌≢◌, [], ◌∷◌, ok, err, arith}
use opencoin.Prelude.Map.{ℕ_key, Bytes_key, lookup}
use opencoin.Types.{GovernanceProposal}
use opencoin.Governance.{new_manager, submit_proposal, get_proposal}
use opencoin.Governance.Ids.{IsNumbered, submit_proposal-IsNumbered}

abbrev draft : GovernanceProposal
draft = record {
  id = 0;
  title = 1 ∷ [];
  description = [];
  param_key = [];
  param_value = [];
  submitter = 2 ∷ [];
}

empty-IsNumbered : IsNumbered new_manager
unfolding new_manager lookup
empty-IsNumbered = record { own = λ id p h. cc; given = λ id p h. cc }

submit_proposal-IsNumbered_example :
    let (g, id) = submit_proposal new_manager draft in
    (get_proposal new_manager id ≡ err "proposal not found")
    × (get_proposal g id ≡ ok (record draft { id = id }))
    × ((other : ℕ) → other ≢ id → get_proposal g other ≡ get_proposal new_manager other)
    × IsNumbered g
unfolding new_manager
submit_proposal-IsNumbered_example =
    submit_proposal-IsNumbered new_manager draft empty-IsNumbered (omega arith)
