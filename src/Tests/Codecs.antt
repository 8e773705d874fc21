-- ===== src/Tests/Codecs.antt =====
-- Round trips at concrete values.
use opencoin.Prelude.{
  err, length, false, ◌≡◌, refl, some, [], ◌∷◌, Bytes, ok, arith, Bytes_discrete, ◌⊎◌, true,
}
use opencoin.Prelude.Int.{negsuc}
use opencoin.Prelude.Map.{Bytes_key}
use opencoin.Types.{Address, Transaction, Block, zero_hash}
use opencoin.Payload.{
  PayloadEnvelope, governance_vote, Payload, encode_payload, encode_governance_vote, wrap,
  vote_fields,
}
use opencoin.Payload.Decode.{decode_payload}
use opencoin.Payload.RoundTrip.{decode_payload-encode_payload}
use Prim.Native.String.{String}
use opencoin.Payload.Total.{decode_payload_total}
use opencoin.Encoding.{block_bytes, signing_bytes}
use opencoin.Encoding.Unmarshal.{unmarshal_block}
use opencoin.Encoding.Transactions.{signing_bytes-injective}
use opencoin.Encoding.Blocks.{unmarshal_block-back}
use opencoin.Store.{take_bytes}
use opencoin.Crypto.{
  address_from_pub_key, resolve_sender_pub_key, first_spend, ensure_address_matches, bytes_equal,
}
use opencoin.Crypto.Sender.{resolve-eq_ok}
use opencoin.Tests.Fixtures.{plain_wire, plain_wire-laws, open_crypto}

abbrev vote : Payload
vote = governance_vote (record { proposal_id = 4; option = 2 })

decode_payload-encode_payload_example :
    decode_payload (7 ∷ 2 ∷ 6 ∷ 1 ∷ 0 ∷ 4 ∷ 2 ∷ 0 ∷ 2 ∷ 8 ∷ 2 ∷ 1 ∷ 9 ∷ [])
    ≡ ok (record { sender_pub_key = 9 ∷ []; payload = vote })
unfolding encode_payload encode_governance_vote wrap vote_fields
decode_payload-encode_payload_example =
    decode_payload-encode_payload plain_wire-laws vote (9 ∷ [])
      (7 ∷ 2 ∷ 6 ∷ 1 ∷ 0 ∷ 4 ∷ 2 ∷ 0 ∷ 2 ∷ 8 ∷ 2 ∷ 1 ∷ 9 ∷ []) (omega arith, omega arith) refl

decode_payload_total_example :
    ((env : PayloadEnvelope) × (decode_payload (7 ∷ 2 ∷ 9 ∷ 1 ∷ []) ≡ ok env))
    ⊎ ((message : String) × (decode_payload (7 ∷ 2 ∷ 9 ∷ 1 ∷ []) ≡ err message))
decode_payload_total_example = decode_payload_total plain_wire-laws (7 ∷ 2 ∷ 9 ∷ 1 ∷ [])

abbrev sent : Transaction
sent = record { from = 1 ∷ []; to = 2 ∷ []; nonce = 3; payload = 4 ∷ []; signature = 5 ∷ [] }

signing_bytes-injective_example :
    record sent { signature = [] } ≡ record (record sent { signature = 6 ∷ [] }) { signature = [] }
unfolding signing_bytes
signing_bytes-injective_example =
    signing_bytes-injective plain_wire-laws sent (record sent { signature = 6 ∷ [] }) (omega arith)
      (omega arith) refl

abbrev block : Block
block = record {
  height = 1;
  prev_hash = zero_hash;
  state_root = zero_hash;
  timestamp = negsuc 4;
  proposer = 1 ∷ [];
  transactions = sent ∷ sent ∷ [];
  validator_sigs = (8 ∷ []) ∷ [];
}

unmarshal_block-back_example : unmarshal_block (block_bytes block) ≡ ok block
unmarshal_block-back_example = unmarshal_block-back plain_wire-laws block (record {
  height = omega arith;
  prev_hash = refl;
  state_root = refl;
  timestamp = record { above = omega arith; below = omega arith };
  nonces = (omega arith, (omega arith, tt));
})

abbrev own_address : Address
own_address = 0 ∷ 0 ∷ 0 ∷ 0 ∷ 0 ∷ 0 ∷ 0 ∷ 0 ∷ 0 ∷ 0 ∷ 0 ∷ 0 ∷ 0 ∷ 0 ∷ 0 ∷ 0 ∷ 0 ∷ 0 ∷ 0 ∷ 0 ∷ []

abbrev no_key : Bytes
no_key = []

key_resolved :
    resolve_sender_pub_key open_crypto (some (record sent { from = own_address })) no_key zero_hash
    ≡ ok (zero_hash, true)
unfolding resolve_sender_pub_key first_spend ensure_address_matches address_from_pub_key bytes_equal
    Bytes_discrete take_bytes
key_resolved = refl

resolve-eq_ok_example :
    (address_from_pub_key open_crypto zero_hash ≡ ok own_address)
    × (length zero_hash ≡ 32)
    × (((no_key ≡ no_key) × (zero_hash ≡ zero_hash) × (true ≡ true))
        ⊎ ((no_key ≡ zero_hash)
            × (true ≡ false)
            × ((zero_hash ≡ no_key) ⊎ (zero_hash ≡ zero_hash))))
resolve-eq_ok_example =
    resolve-eq_ok open_crypto (record sent { from = own_address }) no_key zero_hash zero_hash true
      key_resolved
