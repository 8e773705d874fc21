-- ===== src/Payload/Total.antt =====
-- `DecodePayload` answers a payload or an error on every input.
use opencoin.Prelude.{
  ℕ, refl, ◌≡◌, ◌⊎◌, inl, inr, Bool, true, false, not, ltb, length, Bytes, arith, Result, ok, err,
  panics, stuck, ◌==◌, ◌>>=◌, ◌>>◌, fail_if,
}
use Prim.Native.String.{String}
use opencoin.Wire.{Wire, WireLaws, bytes_type, bytes_field}
use opencoin.Wire.Loop.{
  Answers, Consumes, Consumes-if, Consumes->>=, Consumes-guard, Consumes-inner,
  bytes_field-Consumes, varint_field-Consumes, skip_field-Consumes, decode-Answers,
}
use opencoin.Payload.{
  Payload, PayloadEnvelope, Partial, Transfer, StakeDelegate, StakeUndelegate, ContractDeploy,
  ContractCall, GovernanceProposal, GovernanceVote,
}
use opencoin.Payload.Decode.{
  transfer_step, decode_transfer, stake_delegate_step, decode_stake_delegate, stake_undelegate_step,
  decode_stake_undelegate, contract_deploy_step, decode_contract_deploy, contract_call_step,
  decode_contract_call, governance_proposal_step, decode_governance_proposal, governance_vote_step,
  decode_governance_vote, variant_field, pub_key_field, payload_step, finish, decode_payload,
}

-- Storing the result keeps an answering decoder answering.
stored-Answers :
    {A B : Type 0} (m : Result A) (f : A → B) → Answers m → Answers (m >>= λ a. ok (f a))
stored-Answers (ok a) f h = tt
stored-Answers (err m) f h = tt
stored-Answers (panics m) f h = h
stored-Answers stuck f h = h

finish-Answers : (env : Partial) → Answers (finish env)
unfolding finish
finish-Answers env = ground arith

finished-Answers : (m : Result Partial) → Answers m → Answers (m >>= finish)
finished-Answers (ok env) h = finish-Answers env
finished-Answers (err m) h = tt
finished-Answers (panics m) h = h
finished-Answers stuck h = h

guarded-Answers :
    {A : Type 0} (t : Bool) (e : String) (m : Result A) → Answers m → Answers (fail_if t e >> m)
guarded-Answers true e m h = tt
guarded-Answers false e m h = h

answered :
    {A : Type 0} (m : Result A)
    → Answers m
    → ((value : A) × (m ≡ ok value)) ⊎ ((message : String) × (m ≡ err message))
answered (ok a) h = inl (a, refl)
answered (err e) h = inr (e, refl)
answered (panics e) h = absurd h
answered stuck h = absurd h

module _ ⦃w : Wire⦄ (l : WireLaws w) where
  transfer_step-Consumes :
      (out : Transfer) (num typ : ℕ) (b : Bytes) → Consumes b (transfer_step out num typ b)
  unfolding transfer_step
  transfer_step-Consumes out num typ b =
      Consumes-if (num == 1) b _ _ (bytes_field-Consumes l _ _ typ b _) (
        Consumes-if (num == 2) b _ _ (varint_field-Consumes l _ _ typ b _)
          (skip_field-Consumes l _ num typ b out))

  decode_transfer-Answers : (b : Bytes) → Answers (decode_transfer b)
  unfolding decode_transfer
  decode_transfer-Answers b =
      stored-Answers _ _ (decode-Answers l _ transfer_step transfer_step-Consumes _ b)

  stake_delegate_step-Consumes :
      (out : StakeDelegate) (num typ : ℕ) (b : Bytes)
      → Consumes b (stake_delegate_step out num typ b)
  unfolding stake_delegate_step
  stake_delegate_step-Consumes out num typ b =
      Consumes-if (num == 1) b _ _ (bytes_field-Consumes l _ _ typ b _) (
        Consumes-if (num == 2) b _ _ (varint_field-Consumes l _ _ typ b _)
          (skip_field-Consumes l _ num typ b out))

  decode_stake_delegate-Answers : (b : Bytes) → Answers (decode_stake_delegate b)
  unfolding decode_stake_delegate
  decode_stake_delegate-Answers b =
      stored-Answers _ _ (decode-Answers l _ stake_delegate_step stake_delegate_step-Consumes _ b)

  stake_undelegate_step-Consumes :
      (out : StakeUndelegate) (num typ : ℕ) (b : Bytes)
      → Consumes b (stake_undelegate_step out num typ b)
  unfolding stake_undelegate_step
  stake_undelegate_step-Consumes out num typ b =
      Consumes-if (num == 1) b _ _ (bytes_field-Consumes l _ _ typ b _) (
        Consumes-if (num == 2) b _ _ (varint_field-Consumes l _ _ typ b _)
          (skip_field-Consumes l _ num typ b out))

  decode_stake_undelegate-Answers : (b : Bytes) → Answers (decode_stake_undelegate b)
  unfolding decode_stake_undelegate
  decode_stake_undelegate-Answers b =
      stored-Answers _ _
        (decode-Answers l _ stake_undelegate_step stake_undelegate_step-Consumes _ b)

  contract_deploy_step-Consumes :
      (out : ContractDeploy) (num typ : ℕ) (b : Bytes)
      → Consumes b (contract_deploy_step out num typ b)
  unfolding contract_deploy_step
  contract_deploy_step-Consumes out num typ b =
      Consumes-if (num == 1) b _ _ (bytes_field-Consumes l _ _ typ b _) (
        Consumes-if (num == 2) b _ _ (bytes_field-Consumes l _ _ typ b _)
          (skip_field-Consumes l _ num typ b out))

  decode_contract_deploy-Answers : (b : Bytes) → Answers (decode_contract_deploy b)
  unfolding decode_contract_deploy
  decode_contract_deploy-Answers b =
      stored-Answers _ _ (decode-Answers l _ contract_deploy_step contract_deploy_step-Consumes _ b)

  contract_call_step-Consumes :
      (out : ContractCall) (num typ : ℕ) (b : Bytes) → Consumes b (contract_call_step out num typ b)
  unfolding contract_call_step
  contract_call_step-Consumes out num typ b =
      Consumes-if (num == 1) b _ _ (bytes_field-Consumes l _ _ typ b _) (
        Consumes-if (num == 2) b _ _ (bytes_field-Consumes l _ _ typ b _) (
          Consumes-if (num == 3) b _ _ (bytes_field-Consumes l _ _ typ b _)
            (skip_field-Consumes l _ num typ b out)))

  decode_contract_call-Answers : (b : Bytes) → Answers (decode_contract_call b)
  unfolding decode_contract_call
  decode_contract_call-Answers b =
      stored-Answers _ _ (decode-Answers l _ contract_call_step contract_call_step-Consumes _ b)

  governance_proposal_step-Consumes :
      (out : GovernanceProposal) (num typ : ℕ) (b : Bytes)
      → Consumes b (governance_proposal_step out num typ b)
  unfolding governance_proposal_step
  governance_proposal_step-Consumes out num typ b =
      Consumes-if (num == 1) b _ _ (bytes_field-Consumes l _ _ typ b _) (
        Consumes-if (num == 2) b _ _ (bytes_field-Consumes l _ _ typ b _) (
          Consumes-if (num == 3) b _ _ (bytes_field-Consumes l _ _ typ b _) (
            Consumes-if (num == 4) b _ _ (bytes_field-Consumes l _ _ typ b _)
              (skip_field-Consumes l _ num typ b out))))

  decode_governance_proposal-Answers : (b : Bytes) → Answers (decode_governance_proposal b)
  unfolding decode_governance_proposal
  decode_governance_proposal-Answers b =
      stored-Answers _ _
        (decode-Answers l _ governance_proposal_step governance_proposal_step-Consumes _ b)

  governance_vote_step-Consumes :
      (out : GovernanceVote) (num typ : ℕ) (b : Bytes)
      → Consumes b (governance_vote_step out num typ b)
  unfolding governance_vote_step
  governance_vote_step-Consumes out num typ b =
      Consumes-if (num == 1) b _ _ (varint_field-Consumes l _ _ typ b _) (
        Consumes-if (num == 2) b _ _ (varint_field-Consumes l _ _ typ b _)
          (skip_field-Consumes l _ num typ b out))

  decode_governance_vote-Answers : (b : Bytes) → Answers (decode_governance_vote b)
  unfolding decode_governance_vote
  decode_governance_vote-Answers b =
      stored-Answers _ _ (decode-Answers l _ governance_vote_step governance_vote_step-Consumes _ b)

  variant_field-Consumes :
      (wrong invalid : String) (typ : ℕ) (b : Bytes) (env : Partial) (f : Bytes → Result Payload)
      → ((v : Bytes) → Answers (f v))
      → Consumes b (variant_field wrong invalid typ b env f)
  unfolding variant_field
  variant_field-Consumes wrong invalid typ b env f h =
      Consumes->>= b _ _ (bytes_field-Consumes l wrong invalid typ b _)
        λ v rest le. Consumes-guard _ _ b _ (Consumes-inner b rest (f v) _ le (h v))

  pub_key_field-Consumes :
      (typ : ℕ) (b : Bytes) (env : Partial) → Consumes b (pub_key_field typ b env)
  unfolding pub_key_field
  pub_key_field-Consumes typ b env =
      let wrong : String = "unexpected sender_pubkey wire type" in
      let again : String = "duplicate sender_pubkey" in
      let invalid : String = "invalid sender_pubkey bytes" in
      let field =
        bytes_field wrong invalid typ b (λ (v : Bytes). record env { sender_pub_key = v }) in
      Consumes-guard (not (typ == bytes_type)) wrong b
        (fail_if (ltb 0 (length env.sender_pub_key)) again >> field)
        (Consumes-guard (ltb 0 (length env.sender_pub_key)) again b field
          (bytes_field-Consumes l wrong invalid typ b _))

  payload_step-Consumes :
      (env : Partial) (num typ : ℕ) (b : Bytes) → Consumes b (payload_step env num typ b)
  unfolding payload_step
  payload_step-Consumes env num typ b =
      Consumes-if (num == 1) b _ _ (variant_field-Consumes _ _ typ b env _ decode_transfer-Answers)
        (Consumes-if (num == 2) b _ _
          (variant_field-Consumes _ _ typ b env _ decode_stake_delegate-Answers)
          (Consumes-if (num == 3) b _ _
            (variant_field-Consumes _ _ typ b env _ decode_stake_undelegate-Answers)
            (Consumes-if (num == 4) b _ _
              (variant_field-Consumes _ _ typ b env _ decode_contract_deploy-Answers)
              (Consumes-if (num == 5) b _ _
                (variant_field-Consumes _ _ typ b env _ decode_contract_call-Answers)
                (Consumes-if (num == 6) b _ _
                  (variant_field-Consumes _ _ typ b env _ decode_governance_proposal-Answers)
                  (Consumes-if (num == 7) b _ _
                    (variant_field-Consumes _ _ typ b env _ decode_governance_vote-Answers)
                    (Consumes-if (num == 8) b _ _ (pub_key_field-Consumes typ b env)
                      (skip_field-Consumes l _ num typ b env))))))))

  -- `DecodePayload` answers a payload or an error on every byte string: it does not panic, and its
  -- loop and the loops of the seven variants all end. This is for the documented laws of protowire.
  pub decode_payload_total :
      (b : Bytes)
      → ((env : PayloadEnvelope) × (decode_payload b ≡ ok env))
        ⊎ ((message : String) × (decode_payload b ≡ err message))
  unfolding decode_payload
  decode_payload_total b = answered _ (
      guarded-Answers _ _ _
        (finished-Answers _ (decode-Answers l _ payload_step payload_step-Consumes _ b)))
