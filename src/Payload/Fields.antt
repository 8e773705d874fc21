-- ===== src/Payload/Fields.antt =====
-- The other four variants: the encoded fields as one sum, and the decoder's loop over them.
use opencoin.Prelude.{
  ◌%◌, ◌<◌, ◌≡◌, List, [], ◌∷◌, ◌++◌, append-nil, append_assoc, Bytes, IsU64, arith, ok, sym, ◌∙◌,
}
use Prim.Native.String.{String}
use opencoin.Wire.{Wire, WireLaws, varint_type, bytes_type, append_tag, append_bytes}
use opencoin.Wire.Loop.{
  Runs, Runs-nil, Runs-field, decode-Runs, bytes_field-back, varint_field-back,
}
use opencoin.Payload.{
  ContractDeploy, ContractCall, GovernanceProposal, GovernanceVote, contract_deploy, contract_call,
  governance_proposal, governance_vote, append_args, deploy_fields, call_fields, proposal_fields,
  vote_fields,
}
use opencoin.Payload.Decode.{
  contract_deploy_step, decode_contract_deploy, contract_call_step, decode_contract_call,
  governance_proposal_step, decode_governance_proposal, governance_vote_step,
  decode_governance_vote,
}

module _ ⦃w : Wire⦄ (l : WireLaws w) where
  deploy_fields-eq :
      (t : ContractDeploy)
      → deploy_fields t
        ≡ w.tag 1 bytes_type
          ++ (w.bytes t.wasm_code ++ (w.tag 2 bytes_type ++ (w.bytes t.salt ++ [])))
  unfolding deploy_fields
  deploy_fields-eq t = simp (append_assoc, append-nil)

  pub contract_deploy-back :
      (t : ContractDeploy) → decode_contract_deploy (deploy_fields t) ≡ ok (contract_deploy t)
  unfolding decode_contract_deploy
  contract_deploy-back t =
      let start : ContractDeploy = record { wasm_code = []; salt = [] } in
      let half : ContractDeploy = record start { wasm_code = t.wasm_code } in
      let bad : String = "invalid contract deploy tag" in
      let run =
        Runs-field l bad contract_deploy_step start half 1 bytes_type (w.bytes t.wasm_code) _ (ok t)
          (omega arith) (bytes_field-back l _ _ t.wasm_code _ _)
          (Runs-field l bad contract_deploy_step half t 2 bytes_type (w.bytes t.salt) [] (ok t)
            (omega arith) (bytes_field-back l _ _ t.salt [] _)
            (Runs-nil l bad contract_deploy_step t)) in
      rw (deploy_fields-eq t, decode-Runs l bad contract_deploy_step start _ (ok t) run)

  vote_fields-eq :
      (t : GovernanceVote)
      → vote_fields t
        ≡ w.tag 1 varint_type
          ++ (w.varint t.proposal_id ++ (w.tag 2 varint_type ++ (w.varint t.option ++ [])))
  unfolding vote_fields
  vote_fields-eq t = simp (append_assoc, append-nil)

  low_byte :
      (t half : GovernanceVote)
      → t.option < 256
      → half.proposal_id ≡ t.proposal_id
      → record half { option = t.option % 256 } ≡ t
  low_byte t half h e = ground arith

  vote_option-back :
      (t half : GovernanceVote)
      → t.option < 256
      → half.proposal_id ≡ t.proposal_id
      → governance_vote_step half 2 varint_type (w.varint t.option ++ []) ≡ ok (t, [])
  unfolding governance_vote_step
  vote_option-back t half h e =
      varint_field-back l _ _ t.option [] _ (omega arith) ∙ rw (low_byte t half h e)

  pub governance_vote-back :
      (t : GovernanceVote)
      → IsU64 t.proposal_id
      → t.option < 256
      → decode_governance_vote (vote_fields t) ≡ ok (governance_vote t)
  unfolding decode_governance_vote
  governance_vote-back t h k =
      let start : GovernanceVote = record { proposal_id = 0; option = 0 } in
      let half : GovernanceVote = record start { proposal_id = t.proposal_id } in
      let bad : String = "invalid governance vote tag" in
      let run =
        Runs-field l bad governance_vote_step start half 1 varint_type (w.varint t.proposal_id) _
          (ok t) (omega arith) (varint_field-back l _ _ t.proposal_id _ _ h)
          (Runs-field l bad governance_vote_step half t 2 varint_type (w.varint t.option) [] (ok t)
            (omega arith) (vote_option-back t half k (λ i. t.proposal_id))
            (Runs-nil l bad governance_vote_step t)) in
      rw (vote_fields-eq t, decode-Runs l bad governance_vote_step start _ (ok t) run)

  proposal_fields-eq :
      (t : GovernanceProposal)
      → proposal_fields t
        ≡ w.tag 1 bytes_type
          ++ (w.bytes t.title
              ++ (w.tag 2 bytes_type
                  ++ (w.bytes t.description
                      ++ (w.tag 3 bytes_type
                          ++ (w.bytes t.param_key
                              ++ (w.tag 4 bytes_type ++ (w.bytes t.param_value ++ [])))))))
  unfolding proposal_fields
  proposal_fields-eq t = simp (append_assoc, append-nil)

  pub governance_proposal-back :
      (t : GovernanceProposal)
      → decode_governance_proposal (proposal_fields t) ≡ ok (governance_proposal t)
  unfolding decode_governance_proposal
  governance_proposal-back t =
      let start : GovernanceProposal = record {
        title = [];
        description = [];
        param_key = [];
        param_value = [];
      } in
      let one : GovernanceProposal = record start { title = t.title } in
      let two : GovernanceProposal = record one { description = t.description } in
      let three : GovernanceProposal = record two { param_key = t.param_key } in
      let bad : String = "invalid governance proposal tag" in
      let run =
        Runs-field l bad governance_proposal_step start one 1 bytes_type (w.bytes t.title) _ (ok t)
          (omega arith) (bytes_field-back l _ _ t.title _ _)
          (Runs-field l bad governance_proposal_step one two 2 bytes_type (w.bytes t.description) _
            (ok t) (omega arith) (bytes_field-back l _ _ t.description _ _)
            (Runs-field l bad governance_proposal_step two three 3 bytes_type (w.bytes t.param_key)
              _ (ok t) (omega arith) (bytes_field-back l _ _ t.param_key _ _)
              (Runs-field l bad governance_proposal_step three t 4 bytes_type
                (w.bytes t.param_value) [] (ok t) (omega arith)
                (bytes_field-back l _ _ t.param_value [] _)
                (Runs-nil l bad governance_proposal_step t)))) in
      rw (proposal_fields-eq t, decode-Runs l bad governance_proposal_step start _ (ok t) run)

  -- What the loop over the arguments appends.
  abbrev args_fields : List Bytes → Bytes
  args_fields [] = []
  args_fields (arg ∷ args) = w.tag 3 bytes_type ++ (w.bytes arg ++ args_fields args)

  append_args-eq :
      (inner : Bytes) (args : List Bytes) → append_args inner args ≡ inner ++ args_fields args
  unfolding append_args
  append_args-eq inner [] = sym (append-nil inner)
  append_args-eq inner (arg ∷ args) =
      append_args-eq (append_bytes (append_tag inner 3 bytes_type) arg) args ∙ simp append_assoc

  call_fields-eq :
      (t : ContractCall)
      → call_fields t
        ≡ w.tag 1 bytes_type
          ++ (w.bytes t.address ++ (w.tag 2 bytes_type ++ (w.bytes t.method ++ args_fields t.args)))
  unfolding call_fields
  call_fields-eq t = rw append_args-eq (simp append_assoc)

  args-Runs :
      (t : ContractCall) (args : List Bytes)
      → Runs l "invalid contract call tag" contract_call_step t
          (args_fields args)
          (ok (record t { args = t.args ++ args }))
  unfolding contract_call_step
  args-Runs t [] = rw append-nil (Runs-nil l _ contract_call_step t)
  args-Runs t (arg ∷ args) =
      let t' : ContractCall = record t { args = t.args ++ arg ∷ [] } in
      Runs-field l _ contract_call_step t t' 3 bytes_type (w.bytes arg) (args_fields args) _
        (omega arith) (bytes_field-back l _ _ arg _ _) (rw append_assoc at (args-Runs t' args))

  pub contract_call-back :
      (t : ContractCall) → decode_contract_call (call_fields t) ≡ ok (contract_call t)
  unfolding decode_contract_call
  contract_call-back t =
      let start : ContractCall = record { address = []; method = []; args = [] } in
      let one : ContractCall = record start { address = t.address } in
      let two : ContractCall = record one { method = t.method } in
      let bad : String = "invalid contract call tag" in
      let run =
        Runs-field l bad contract_call_step start one 1 bytes_type (w.bytes t.address) _ (ok t)
          (omega arith) (bytes_field-back l _ _ t.address _ _)
          (Runs-field l bad contract_call_step one two 2 bytes_type (w.bytes t.method) _ (ok t)
            (omega arith) (bytes_field-back l _ _ t.method _ _) (args-Runs two t.args)) in
      rw (call_fields-eq t, decode-Runs l bad contract_call_step start _ (ok t) run)
