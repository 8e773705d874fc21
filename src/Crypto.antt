-- ===== src/Crypto.antt =====
-- Addresses and sender keys: pkg/crypto/address.go, the verifier of pkg/crypto/ed25519.go and
-- pkg/tx/verify.go. SHA-256, bech32 and Ed25519 are not part of the repository and enter as a
-- record.
pub mod Sender
use opencoin.Prelude.{
  ℕ, [], ◌∷◌, length, Bytes, Bytes_discrete, ite, Bool, true, false, not, ◌&&◌, ltb, ◌==◌,
  if◌then◌else◌, Option, none, some, Result, ok, err, ◌>>=◌, ◌>>◌, fail_if, or_err,
}
use opencoin.Types.{Address, Transaction}
use opencoin.Wire.{Wire}
use opencoin.Encoding.{signing_bytes}
use opencoin.Store.{take_bytes}

pub record Crypto : Type 0 where
  pub sha256 : Bytes → Bytes
  pub convert_bits : Bytes → ℕ → ℕ → Bool → Option Bytes
  pub bech32_encode : Bytes → Bytes → Option Bytes
  pub bech32_decode : Bytes → Option (Bytes × Bytes)
  pub ed25519_verify : Bytes → Bytes → Bytes → Bool

-- "ocn"
abbrev pub address_hrp : Bytes
address_hrp = 111 ∷ 99 ∷ 110 ∷ []

abbrev pub address_hash_size : ℕ
address_hash_size = 20

-- `ed25519.PublicKeySize` and `ed25519.SignatureSize`.
abbrev pub public_key_size : ℕ
public_key_size = 32

abbrev pub signature_size : ℕ
signature_size = 64

-- `a == b` on strings and `bytes.Equal`.
unfoldable pub bytes_equal : Bytes → Bytes → Bool
bytes_equal a b = ite (Bytes_discrete a b) true false

module _ (c : Crypto) where
  unfoldable pub address_from_pub_key : Bytes → Result Address
  address_from_pub_key pub_key = do
    fail_if (length pub_key == 0) "empty public key"
    conv ←
        or_err (c.convert_bits (take_bytes address_hash_size (c.sha256 pub_key)) 8 5 true)
          "bech32 convert"
    or_err (c.bech32_encode address_hrp conv) "bech32 encode"

  unfoldable pub decode_address : Address → Result Bytes
  decode_address addr = do
    (hrp, words) ← or_err (c.bech32_decode addr) "bech32 decode"
    fail_if (not (bytes_equal hrp address_hrp)) "invalid address hrp"
    out ← or_err (c.convert_bits words 5 8 false) "bech32 convert"
    fail_if (not (length out == address_hash_size)) "invalid address length"
    ok out

  unfoldable pub verify_ed25519 : Bytes → Bytes → Bytes → Bool
  verify_ed25519 pub_key msg sig =
      if not (length pub_key == public_key_size) then false else c.ed25519_verify pub_key msg sig

  unfoldable pub ensure_address_matches : Address → Bytes → Result (Unit {0})
  ensure_address_matches addr pub_key = do
    derived ← address_from_pub_key pub_key
    fail_if (not (bytes_equal derived addr)) "sender address mismatch"

  -- The branch with no stored key, and the branch with one.
  unfoldable pub first_spend : Address → Bytes → Result (Bytes × Bool)
  first_spend from payload_key = do
    fail_if (length payload_key == 0) "sender_pubkey required for first spend"
    ensure_address_matches from payload_key
    ok (payload_key, true)

  unfoldable pub registered : Address → Bytes → Bytes → Result (Bytes × Bool)
  registered from stored payload_key = do
    fail_if (ltb 0 (length payload_key) && not (bytes_equal payload_key stored))
        "sender_pubkey does not match registered key"
    ensure_address_matches from stored
    ok (stored, false)

  -- The key to verify against, and whether it is to be registered.
  unfoldable pub resolve_sender_pub_key : Option Transaction → Bytes → Bytes → Result (Bytes × Bool)
  resolve_sender_pub_key none stored payload_key = err "tx is nil"
  resolve_sender_pub_key (some txn) stored payload_key = do
    fail_if (ltb 0 (length payload_key) && not (length payload_key == public_key_size))
        "invalid sender_pubkey length"
    fail_if (ltb 0 (length stored) && not (length stored == public_key_size))
        "invalid stored pubkey length"
    if length stored == 0
        then first_spend txn.from payload_key
        else registered txn.from stored payload_key

  module _ ⦃w : Wire⦄ where
    unfoldable pub verify_signature : Option Transaction → Bytes → Result (Unit {0})
    verify_signature none pub_key = err "tx is nil"
    verify_signature (some txn) pub_key = do
      fail_if (not (length pub_key == public_key_size)) "invalid pubkey length"
      fail_if (not (length txn.signature == signature_size)) "invalid signature length"
      sign_bytes ← signing_bytes (some txn)
      fail_if (not (verify_ed25519 pub_key sign_bytes txn.signature)) "invalid signature"
