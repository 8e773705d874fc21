-- ===== src/Payload.antt =====
-- Transaction payloads: pkg/tx/payload.go and pkg/tx/payload_encoding.go.
pub mod Decode
pub mod Amounts
pub mod Fields
pub mod Total
pub mod RoundTrip
use opencoin.Prelude.{
  ℕ, List, [], ◌∷◌, Option, none, some, length, Bytes, ltb, if◌then◌else◌, Result, ok, err,
}
use opencoin.Types.{Address, VoteOption}
use opencoin.Wire.{Wire, append_tag, append_varint, append_bytes, varint_type, bytes_type}

pub record Transfer : Type 0 where
  pub to : Address
  pub amount : ℕ

pub record StakeDelegate : Type 0 where
  pub validator : Address
  pub amount : ℕ

pub record StakeUndelegate : Type 0 where
  pub validator : Address
  pub amount : ℕ

pub record ContractDeploy : Type 0 where
  pub wasm_code : Bytes
  pub salt : Bytes

pub record ContractCall : Type 0 where
  pub address : Address
  pub method : Bytes
  pub args : List Bytes

pub record GovernanceProposal : Type 0 where
  pub title : Bytes
  pub description : Bytes
  pub param_key : Bytes
  pub param_value : Bytes

pub record GovernanceVote : Type 0 where
  pub proposal_id : ℕ
  pub option : VoteOption

-- The interface `Payload` and its implementations. The source's pointer cases do as the value
-- cases.
pub data Payload : Type 0 where
  transfer : Transfer → Payload
  stake_delegate : StakeDelegate → Payload
  stake_undelegate : StakeUndelegate → Payload
  contract_deploy : ContractDeploy → Payload
  contract_call : ContractCall → Payload
  governance_proposal : GovernanceProposal → Payload
  governance_vote : GovernanceVote → Payload

-- `PayloadType()`: `iota + 1`.
unfoldable pub payload_type : Payload → ℕ
payload_type (transfer p) = 1
payload_type (stake_delegate p) = 2
payload_type (stake_undelegate p) = 3
payload_type (contract_deploy p) = 4
payload_type (contract_call p) = 5
payload_type (governance_proposal p) = 6
payload_type (governance_vote p) = 7

pub record PayloadEnvelope : Type 0 where
  pub payload : Payload
  pub sender_pub_key : Bytes

-- The envelope while it is decoded: the payload is nil at first.
pub record Partial : Type 0 where
  pub payload : Option Payload
  pub sender_pub_key : Bytes

module _ ⦃w : Wire⦄ where
  -- `out = AppendBytes(AppendTag(nil, num, BytesType), inner)`.
  unfoldable pub wrap : ℕ → Bytes → Bytes
  wrap num inner = append_bytes (append_tag [] num bytes_type) inner

  -- The fields of a transfer, a delegation and an undelegation: an address and an amount.
  unfoldable pub encode_amount : Address → ℕ → Bytes
  encode_amount addr amount =
      append_varint (append_tag (append_bytes (append_tag [] 1 bytes_type) addr) 2 varint_type)
        amount

  unfoldable pub encode_transfer : Transfer → Bytes
  encode_transfer t = wrap 1 (encode_amount t.to t.amount)

  unfoldable pub encode_stake_delegate : StakeDelegate → Bytes
  encode_stake_delegate t = wrap 2 (encode_amount t.validator t.amount)

  unfoldable pub encode_stake_undelegate : StakeUndelegate → Bytes
  encode_stake_undelegate t = wrap 3 (encode_amount t.validator t.amount)

  -- `inner` of the other four variants.
  unfoldable pub deploy_fields : ContractDeploy → Bytes
  deploy_fields t =
      append_bytes (append_tag (append_bytes (append_tag [] 1 bytes_type) t.wasm_code) 2 bytes_type)
        t.salt

  unfoldable pub encode_contract_deploy : ContractDeploy → Bytes
  encode_contract_deploy t = wrap 4 (deploy_fields t)

  -- `for _, arg := range t.Args`.
  unfoldable pub append_args : Bytes → List Bytes → Bytes
  append_args inner [] = inner
  append_args inner (arg ∷ args) =
      append_args (append_bytes (append_tag inner 3 bytes_type) arg) args

  unfoldable pub call_fields : ContractCall → Bytes
  call_fields t =
      append_args
        (append_bytes
          (append_tag (append_bytes (append_tag [] 1 bytes_type) t.address) 2 bytes_type) t.method)
        t.args

  unfoldable pub encode_contract_call : ContractCall → Bytes
  encode_contract_call t = wrap 5 (call_fields t)

  unfoldable pub proposal_fields : GovernanceProposal → Bytes
  proposal_fields t =
      let with_title = append_bytes (append_tag [] 1 bytes_type) t.title in
      let with_description = append_bytes (append_tag with_title 2 bytes_type) t.description in
      let with_key = append_bytes (append_tag with_description 3 bytes_type) t.param_key in
      append_bytes (append_tag with_key 4 bytes_type) t.param_value

  unfoldable pub encode_governance_proposal : GovernanceProposal → Bytes
  encode_governance_proposal t = wrap 6 (proposal_fields t)

  unfoldable pub vote_fields : GovernanceVote → Bytes
  vote_fields t =
      append_varint
        (append_tag (append_varint (append_tag [] 1 varint_type) t.proposal_id) 2 varint_type)
        t.option

  unfoldable pub encode_governance_vote : GovernanceVote → Bytes
  encode_governance_vote t = wrap 7 (vote_fields t)

  -- The type switch of `EncodePayload`.
  unfoldable pub encode_variant : Payload → Bytes
  encode_variant (transfer p) = encode_transfer p
  encode_variant (stake_delegate p) = encode_stake_delegate p
  encode_variant (stake_undelegate p) = encode_stake_undelegate p
  encode_variant (contract_deploy p) = encode_contract_deploy p
  encode_variant (contract_call p) = encode_contract_call p
  encode_variant (governance_proposal p) = encode_governance_proposal p
  encode_variant (governance_vote p) = encode_governance_vote p

  -- `none` is the nil interface.
  unfoldable pub encode_payload : Option Payload → Bytes → Result Bytes
  unfolding encode_variant
  encode_payload none sender_pub_key = err "payload is nil"
  encode_payload (some p) sender_pub_key =
      let out = encode_variant p in
      ok (
        if ltb 0 (length sender_pub_key)
        then append_bytes (append_tag out 8 bytes_type) sender_pub_key
        else out)
