-- ===== src/Payload/RoundTrip.antt =====
-- `DecodePayload` after `EncodePayload`.
use opencoin.Prelude.{
  ◌^◌, ◌≤◌, ◌<◌, ◌≡◌, refl, [], ◌∷◌, ◌++◌, none, some, length, append-nil, append_assoc, Bytes,
  IsU64, arith, Result, ok, lt→ltb, ◌≢◌,
}
use Prim.Native.String.{String}
use opencoin.Wire.{Wire, WireLaws, bytes_type}
use opencoin.Wire.Loop.{Runs, Runs-nil, Runs-field, decode-Runs, bytes_field-back}
use opencoin.Payload.{
  Payload, transfer, stake_delegate, stake_undelegate, contract_deploy, contract_call,
  governance_proposal, governance_vote, Partial, encode_variant, encode_payload, encode_amount,
  deploy_fields, call_fields, proposal_fields, vote_fields, payload_type, wrap, encode_transfer,
  encode_stake_delegate, encode_stake_undelegate, encode_contract_deploy, encode_contract_call,
  encode_governance_proposal, encode_governance_vote,
}
use opencoin.Payload.Decode.{variant_field, pub_key_field, payload_step, decode_payload}
use opencoin.Payload.Amounts.{transfer-back, stake_delegate-back, stake_undelegate-back}
use opencoin.Payload.Fields.{
  contract_deploy-back, contract_call-back, governance_proposal-back, governance_vote-back,
}

-- The numbers of a payload are in the range of their Go types.
abbrev pub InRange : Payload → Type 0
InRange (transfer p) = IsU64 p.amount
InRange (stake_delegate p) = IsU64 p.amount
InRange (stake_undelegate p) = IsU64 p.amount
InRange (contract_deploy p) = Unit
InRange (contract_call p) = Unit
InRange (governance_proposal p) = Unit
InRange (governance_vote p) = IsU64 p.proposal_id × (p.option < 256)

abbrev pub start : Partial
start = record { payload = none; sender_pub_key = [] }

module _ ⦃w : Wire⦄ (l : WireLaws w) where
  -- The bytes inside the envelope's field.
  abbrev inner : Payload → Bytes
  inner (transfer p) = encode_amount p.to p.amount
  inner (stake_delegate p) = encode_amount p.validator p.amount
  inner (stake_undelegate p) = encode_amount p.validator p.amount
  inner (contract_deploy p) = deploy_fields p
  inner (contract_call p) = call_fields p
  inner (governance_proposal p) = proposal_fields p
  inner (governance_vote p) = vote_fields p

  encode_variant-eq :
      (p : Payload) → encode_variant p ≡ w.tag (payload_type p) bytes_type ++ w.bytes (inner p)
  unfolding encode_variant payload_type wrap encode_transfer encode_stake_delegate
      encode_stake_undelegate encode_contract_deploy encode_contract_call encode_governance_proposal
      encode_governance_vote
  encode_variant-eq (transfer p) = refl
  encode_variant-eq (stake_delegate p) = refl
  encode_variant-eq (stake_undelegate p) = refl
  encode_variant-eq (contract_deploy p) = refl
  encode_variant-eq (contract_call p) = refl
  encode_variant-eq (governance_proposal p) = refl
  encode_variant-eq (governance_vote p) = refl

  variant_field-back :
      (wrong invalid : String) (v rest : Bytes) (env : Partial) (f : Bytes → Result Payload)
      (p : Payload)
      → env.payload ≡ none
      → f v ≡ ok p
      → variant_field wrong invalid bytes_type (w.bytes v ++ rest) env f
        ≡ ok (record env { payload = some p }, rest)
  unfolding variant_field
  variant_field-back wrong invalid v rest env f p e h = rw (bytes_field-back l _ _ v rest _, e, h)

  -- The step of `DecodePayload` at a variant's field.
  payload_step-variant :
      (p : Payload) (rest : Bytes)
      → InRange p
      → payload_step start (payload_type p) bytes_type (w.bytes (inner p) ++ rest)
        ≡ ok (record start { payload = some p }, rest)
  unfolding payload_step payload_type
  payload_step-variant (transfer p) rest h =
      variant_field-back _ _ _ rest start _ (transfer p) refl (transfer-back l p h)
  payload_step-variant (stake_delegate p) rest h =
      variant_field-back _ _ _ rest start _ _ refl (stake_delegate-back l p h)
  payload_step-variant (stake_undelegate p) rest h =
      variant_field-back _ _ _ rest start _ _ refl (stake_undelegate-back l p h)
  payload_step-variant (contract_deploy p) rest h =
      variant_field-back _ _ _ rest start _ _ refl (contract_deploy-back l p)
  payload_step-variant (contract_call p) rest h =
      variant_field-back _ _ _ rest start _ _ refl (contract_call-back l p)
  payload_step-variant (governance_proposal p) rest h =
      variant_field-back _ _ _ rest start _ _ refl (governance_proposal-back l p)
  payload_step-variant (governance_vote p) rest h =
      variant_field-back _ _ _ rest start _ _ refl (governance_vote-back l p h.0 h.1)

  payload_type_valid : (p : Payload) → (1 ≤ payload_type p) × (payload_type p < 2 ^ 29) × (2 < 8)
  unfolding payload_type
  payload_type_valid (transfer p) = omega arith
  payload_type_valid (stake_delegate p) = omega arith
  payload_type_valid (stake_undelegate p) = omega arith
  payload_type_valid (contract_deploy p) = omega arith
  payload_type_valid (contract_call p) = omega arith
  payload_type_valid (governance_proposal p) = omega arith
  payload_type_valid (governance_vote p) = omega arith

  abbrev with_payload : Payload → Bytes → Partial
  with_payload p key = record { payload = some p; sender_pub_key = key }

  abbrev bad_tag : String
  bad_tag = "invalid payload tag"

  -- The bytes of the envelope: the variant, then whatever follows.
  abbrev framed : Payload → Bytes → Bytes
  framed p rest = w.tag (payload_type p) bytes_type ++ (w.bytes (inner p) ++ rest)

  framed-Runs :
      (p : Payload) (key rest : Bytes)
      → InRange p
      → Runs l bad_tag payload_step (with_payload p []) rest (ok (with_payload p key))
      → Runs l bad_tag payload_step start (framed p rest) (ok (with_payload p key))
  framed-Runs p key rest h k =
      Runs-field l bad_tag payload_step start (with_payload p []) (payload_type p) bytes_type
        (w.bytes (inner p)) rest (ok (with_payload p key)) (payload_type_valid p)
        (payload_step-variant p rest h) k

  pub_key-back :
      (p : Payload) (key rest : Bytes)
      → payload_step (with_payload p []) 8 bytes_type (w.bytes key ++ rest)
        ≡ ok (with_payload p key, rest)
  unfolding payload_step pub_key_field
  pub_key-back p key rest = bytes_field-back l _ _ key rest _

  key-Runs :
      (p : Payload) (key : Bytes)
      → Runs l bad_tag payload_step
          (with_payload p [])
          (w.tag 8 bytes_type ++ (w.bytes key ++ []))
          (ok (with_payload p key))
  key-Runs p key =
      Runs-field l bad_tag payload_step (with_payload p []) (with_payload p key) 8 bytes_type
        (w.bytes key) [] (ok (with_payload p key)) (omega arith) (pub_key-back p key [])
        (Runs-nil l bad_tag payload_step (with_payload p key))

  framed_nonempty : (p : Payload) (rest : Bytes) → length (framed p rest) ≢ 0
  framed_nonempty p rest h =
      let (lo, hi, ht) = payload_type_valid p in
      absurd (
        omega (
          arith,
          h,
          l.tag_shrinks _
              (l.tag_back (payload_type p) bytes_type (w.bytes (inner p) ++ rest) lo hi ht),
        ))

  decode_framed :
      (p : Payload) (key rest : Bytes)
      → InRange p
      → Runs l bad_tag payload_step (with_payload p []) rest (ok (with_payload p key))
      → decode_payload (framed p rest) ≡ ok (record { payload = p; sender_pub_key = key })
  unfolding decode_payload
  decode_framed p key rest h k = ground (
    arith,
    framed_nonempty p rest,
    decode-Runs l bad_tag payload_step start (framed p rest) (ok (with_payload p key))
        (framed-Runs p key rest h k),
  )

  -- What follows the variant.
  abbrev key_field : Bytes → Bytes
  key_field [] = []
  key_field (k ∷ ks) = w.tag 8 bytes_type ++ (w.bytes (k ∷ ks) ++ [])

  encode_payload-eq :
      (p : Payload) (key : Bytes) → encode_payload (some p) key ≡ ok (framed p (key_field key))
  unfolding encode_payload
  encode_payload-eq p [] = simp (encode_variant-eq p, append-nil)
  encode_payload-eq p (k ∷ ks) =
      rw (lt→ltb 0 (length (k ∷ ks)) (omega arith))
        (simp (encode_variant-eq p, append_assoc, append-nil))

  key_field-Runs :
      (p : Payload) (key : Bytes)
      → Runs l bad_tag payload_step (with_payload p []) (key_field key) (ok (with_payload p key))
  key_field-Runs p [] = Runs-nil l bad_tag payload_step (with_payload p [])
  key_field-Runs p (k ∷ ks) = key-Runs p (k ∷ ks)

  -- Decoding what was encoded gives back the payload and the sender's key, present or not, for each
  -- of the seven variants whose numbers are in the range of their types.
  pub decode_payload-encode_payload :
      (p : Payload) (key b : Bytes)
      → InRange p
      → encode_payload (some p) key ≡ ok b
      → decode_payload b ≡ ok (record { payload = p; sender_pub_key = key })
  decode_payload-encode_payload p key b h e =
      rw (← same_bytes) (decode_framed p key (key_field key) h (key_field-Runs p key))
    where
      same_bytes : framed p (key_field key) ≡ b
      same_bytes = cc (encode_payload-eq p key)
