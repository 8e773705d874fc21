-- ===== src/Payload/Decode.antt =====
-- The decoders of pkg/tx/payload_encoding.go: one step for each switch, and the loop over it.
use opencoin.Prelude.{
  ℕ, ◌%◌, true, false, not, [], ◌∷◌, ◌++◌, none, some, length, Bytes, ltb, ◌==◌, if◌then◌else◌,
  Result, ok, err, ◌>>=◌, ◌>>◌, fail_if,
}
use Prim.Native.String.{String}
use opencoin.Wire.{Wire, bytes_type, bytes_field, varint_field, skip_field, decode}
use opencoin.Payload.{
  Transfer, StakeDelegate, StakeUndelegate, ContractDeploy, ContractCall, GovernanceProposal,
  GovernanceVote, Payload, transfer, stake_delegate, stake_undelegate, contract_deploy,
  contract_call, governance_proposal, governance_vote, PayloadEnvelope, Partial,
}

-- The check behind the loop.
unfoldable pub finish : Partial → Result PayloadEnvelope
finish env = elim env.payload [
  | none ↦ err "payload not found"
  | some p ↦ ok (record { payload = p; sender_pub_key = env.sender_pub_key })
]

module _ ⦃w : Wire⦄ where
  unfoldable pub transfer_step : Transfer → ℕ → ℕ → Bytes → Result (Transfer × Bytes)
  transfer_step out num typ b =
      if num == 1
      then bytes_field "invalid transfer to type" "invalid transfer to" typ b
          (λ v. record out { to = v })
      else (if num == 2
          then varint_field "invalid transfer amount type" "invalid transfer amount" typ b
              (λ v. record out { amount = v })
          else skip_field "invalid transfer field" num typ b out)

  unfoldable pub decode_transfer : Bytes → Result Payload
  unfolding transfer_step
  decode_transfer b = do
    out ← decode "invalid transfer tag" transfer_step (record { to = []; amount = 0 }) b
    ok (transfer out)

  unfoldable pub stake_delegate_step :
      StakeDelegate → ℕ → ℕ → Bytes → Result (StakeDelegate × Bytes)
  stake_delegate_step out num typ b =
      if num == 1
      then bytes_field "invalid validator type" "invalid validator" typ b
          (λ v. record out { validator = v })
      else (if num == 2
          then varint_field "invalid amount type" "invalid amount" typ b
              (λ v. record out { amount = v })
          else skip_field "invalid delegate field" num typ b out)

  unfoldable pub decode_stake_delegate : Bytes → Result Payload
  unfolding stake_delegate_step
  decode_stake_delegate b = do
    out ←
        decode "invalid stake delegate tag" stake_delegate_step
          (record { validator = []; amount = 0 }) b
    ok (stake_delegate out)

  unfoldable pub stake_undelegate_step :
      StakeUndelegate → ℕ → ℕ → Bytes → Result (StakeUndelegate × Bytes)
  stake_undelegate_step out num typ b =
      if num == 1
      then bytes_field "invalid validator type" "invalid validator" typ b
          (λ v. record out { validator = v })
      else (if num == 2
          then varint_field "invalid amount type" "invalid amount" typ b
              (λ v. record out { amount = v })
          else skip_field "invalid undelegate field" num typ b out)

  unfoldable pub decode_stake_undelegate : Bytes → Result Payload
  unfolding stake_undelegate_step
  decode_stake_undelegate b = do
    out ←
        decode "invalid stake undelegate tag" stake_undelegate_step
          (record { validator = []; amount = 0 }) b
    ok (stake_undelegate out)

  unfoldable pub contract_deploy_step :
      ContractDeploy → ℕ → ℕ → Bytes → Result (ContractDeploy × Bytes)
  contract_deploy_step out num typ b =
      if num == 1
      then bytes_field "invalid wasm code type" "invalid wasm code" typ b
          (λ v. record out { wasm_code = v })
      else (if num == 2
          then bytes_field "invalid salt type" "invalid salt" typ b (λ v. record out { salt = v })
          else skip_field "invalid deploy field" num typ b out)

  unfoldable pub decode_contract_deploy : Bytes → Result Payload
  unfolding contract_deploy_step
  decode_contract_deploy b = do
    out ←
        decode "invalid contract deploy tag" contract_deploy_step
          (record { wasm_code = []; salt = [] }) b
    ok (contract_deploy out)

  unfoldable pub contract_call_step : ContractCall → ℕ → ℕ → Bytes → Result (ContractCall × Bytes)
  contract_call_step out num typ b =
      if num == 1
      then bytes_field "invalid address type" "invalid address" typ b
          (λ v. record out { address = v })
      else (if num == 2
          then bytes_field "invalid method type" "invalid method" typ b
              (λ v. record out { method = v })
          else (if num == 3
              then bytes_field "invalid args type" "invalid arg" typ b
                  (λ v. record out { args = out.args ++ v ∷ [] })
              else skip_field "invalid call field" num typ b out))

  unfoldable pub decode_contract_call : Bytes → Result Payload
  unfolding contract_call_step
  decode_contract_call b = do
    out ←
        decode "invalid contract call tag" contract_call_step
          (record { address = []; method = []; args = [] }) b
    ok (contract_call out)

  unfoldable pub governance_proposal_step :
      GovernanceProposal → ℕ → ℕ → Bytes → Result (GovernanceProposal × Bytes)
  governance_proposal_step out num typ b =
      if num == 1
      then bytes_field "invalid title type" "invalid title" typ b (λ v. record out { title = v })
      else (if num == 2
          then bytes_field "invalid description type" "invalid description" typ b
              (λ v. record out { description = v })
          else (if num == 3
              then bytes_field "invalid param key type" "invalid param key" typ b
                  (λ v. record out { param_key = v })
              else (if num == 4
                  then bytes_field "invalid param value type" "invalid param value" typ b
                      (λ v. record out { param_value = v })
                  else skip_field "invalid governance field" num typ b out)))

  unfoldable pub decode_governance_proposal : Bytes → Result Payload
  unfolding governance_proposal_step
  decode_governance_proposal b = do
    out ←
        decode "invalid governance proposal tag" governance_proposal_step
          (record { title = []; description = []; param_key = []; param_value = [] }) b
    ok (governance_proposal out)

  -- `types.VoteOption(v)` keeps the low eight bits.
  unfoldable pub governance_vote_step :
      GovernanceVote → ℕ → ℕ → Bytes → Result (GovernanceVote × Bytes)
  governance_vote_step out num typ b =
      if num == 1
      then varint_field "invalid proposal id type" "invalid proposal id" typ b
          (λ v. record out { proposal_id = v })
      else (if num == 2
          then varint_field "invalid vote option type" "invalid vote option" typ b
              (λ v. record out { option = v % 256 })
          else skip_field "invalid vote field" num typ b out)

  unfoldable pub decode_governance_vote : Bytes → Result Payload
  unfolding governance_vote_step
  decode_governance_vote b = do
    out ←
        decode "invalid governance vote tag" governance_vote_step
          (record { proposal_id = 0; option = 0 }) b
    ok (governance_vote out)

  -- A payload case of `DecodePayload`: the type, the bytes, the check for a second payload, and the
  -- variant's decoder.
  unfoldable pub variant_field :
      String → String → ℕ → Bytes → Partial → (Bytes → Result Payload) → Result (Partial × Bytes)
  variant_field wrong_type invalid typ b env decode_variant = do
    (inner, rest) ← bytes_field wrong_type invalid typ b (λ v. v)
    fail_if (elim env.payload [ none ↦ false | some _ ↦ true ]) "duplicate payload"
    p ← decode_variant inner
    ok (record env { payload = some p }, rest)

  -- Case 8: the check for a second key stands before the bytes are read.
  unfoldable pub pub_key_field : ℕ → Bytes → Partial → Result (Partial × Bytes)
  pub_key_field typ b env = do
    fail_if (not (typ == bytes_type)) "unexpected sender_pubkey wire type"
    fail_if (ltb 0 (length env.sender_pub_key)) "duplicate sender_pubkey"
    bytes_field "unexpected sender_pubkey wire type" "invalid sender_pubkey bytes" typ b
        (λ v. record env { sender_pub_key = v })

  unfoldable pub payload_step : Partial → ℕ → ℕ → Bytes → Result (Partial × Bytes)
  payload_step env num typ b =
      if num == 1
      then variant_field "unexpected transfer wire type" "invalid transfer bytes" typ b env
          decode_transfer
      else (if num == 2
          then variant_field "unexpected stake delegate wire type" "invalid stake delegate bytes"
              typ b env decode_stake_delegate
          else (if num == 3
              then variant_field "unexpected stake undelegate wire type"
                  "invalid stake undelegate bytes" typ b env decode_stake_undelegate
              else (if num == 4
                  then variant_field "unexpected contract deploy wire type"
                      "invalid contract deploy bytes" typ b env decode_contract_deploy
                  else (if num == 5
                      then variant_field "unexpected contract call wire type"
                          "invalid contract call bytes" typ b env decode_contract_call
                      else (if num == 6
                          then variant_field "unexpected governance proposal wire type"
                              "invalid governance proposal bytes" typ b env
                              decode_governance_proposal
                          else (if num == 7
                              then variant_field "unexpected governance vote wire type"
                                  "invalid governance vote bytes" typ b env decode_governance_vote
                              else (if num == 8
                                  then pub_key_field typ b env
                                  else skip_field "invalid payload field" num typ b env)))))))

  unfoldable pub decode_payload : Bytes → Result PayloadEnvelope
  unfolding payload_step finish
  decode_payload b = do
    fail_if (length b == 0) "empty payload"
    env ←
        decode "invalid payload tag" payload_step (record { payload = none; sender_pub_key = [] }) b
    finish env
