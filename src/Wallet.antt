-- ===== src/Wallet.antt =====
-- The commands `keys add`, `keys validator` and `tx transfer` of cmd/opencoin/cmd/root.go, with what they print as
-- their results and an exit as an error.
pub mod Accepted
pub mod Validator
use opencoin.Prelude.{
  ℕ, [], ◌∷◌, ◌++◌, length, Bytes, ◌==◌, Result, ok, err, panics, stuck, ◌>>=◌, ◌>>◌, fail_if, some,
}
use opencoin.Types.{Address, Transaction}
use opencoin.Wire.{Wire}
use opencoin.Encoding.{signing_bytes}
use opencoin.Crypto.{Crypto, address_from_pub_key}
use opencoin.Payload.{transfer, encode_payload}
use opencoin.Config.{ascii}
use opencoin.Keys.{
  Dilithium, generate_key_pair_c, save_key_pair, Ed25519, Disk, generate_ed25519, sign_ed25519,
  save_ed25519, load_ed25519,
}

-- `addr, _ := ...`: with an error the address is empty.
unfoldable pub or_empty : Result Address → Address
or_empty (ok addr) = addr
or_empty (err _) = []
or_empty (panics _) = []
or_empty stuck = []

module _ (disk : Disk) where
  -- "config" and "keys"
  abbrev pub key_dir : Bytes → Bytes
  key_dir home =
      disk.join (home ∷ (99 ∷ 111 ∷ 110 ∷ 102 ∷ 105 ∷ 103 ∷ []) ∷ (107 ∷ 101 ∷ 121 ∷ 115 ∷ []) ∷ [])

  abbrev pub validator_dir : Bytes → Bytes
  validator_dir home = disk.join (home ∷ ascii "config" ∷ ascii "validator-keys" ∷ [])

  -- ".json"
  abbrev pub file_name : Bytes → Bytes
  file_name name = name ++ 46 ∷ 106 ∷ 115 ∷ 111 ∷ 110 ∷ []

  abbrev pub key_path : Bytes → Bytes → Bytes
  key_path home name = disk.join (
      home
      ∷ (99 ∷ 111 ∷ 110 ∷ 102 ∷ 105 ∷ 103 ∷ [])
      ∷ (107 ∷ 101 ∷ 121 ∷ 115 ∷ [])
      ∷ file_name name
      ∷ [])

module _ (c : Crypto) (e : Ed25519) (disk : Disk) where
  open disk use {Files}

  -- `keys add`: the files, and the address that is printed.
  unfoldable pub keys_add : ℕ → Bytes → Bytes → Files → Result (Files × Address)
  unfolding or_empty
  keys_add seed home name files = do
    made ← disk.mkdir_all files (key_dir disk home)
    kp ← generate_ed25519 e seed
    saved ←
        save_ed25519 disk (disk.join (key_dir disk home ∷ file_name disk name ∷ [])) (some kp) made
    ok (saved, or_empty (address_from_pub_key c kp.public_key))

  -- `keys validator`: the files, and the key that is printed.
  unfoldable pub keys_validator : Dilithium → ℕ → Bytes → Bytes → Files → Result (Files × Bytes)
  keys_validator d seed home name files = do
    made ← disk.mkdir_all files (validator_dir disk home)
    kp ← generate_key_pair_c d seed
    saved ←
        save_key_pair disk (disk.join (validator_dir disk home ∷ file_name disk name ∷ []))
          (some kp) made
    ok (saved, kp.public_key)

  -- `tx transfer`: the signed transaction, of which a summary is printed.
  unfoldable pub tx_transfer :
      ⦃w : Wire⦄
      → (Bytes → Result ℕ)
      → Bytes
      → Bytes
      → ℕ
      → Address
      → Bytes
      → Files
      → Result Transaction
  unfolding or_empty
  tx_transfer parse_uint home from_key nonce to amount_text files = do
    fail_if (length from_key == 0) "missing --from"
    kp ← load_ed25519 disk (key_path disk home from_key) files
    amount ← parse_uint amount_text
    payload ← encode_payload (some (transfer (record { to = to; amount = amount }))) kp.public_key
    let txn : Transaction = record {
      from = or_empty (address_from_pub_key c kp.public_key);
      to = to;
      nonce = nonce;
      payload = payload;
      signature = [];
    }
    sign_bytes ← signing_bytes (some txn)
    sig ← sign_ed25519 e kp.private_key sign_bytes
    ok (record txn { signature = sig })
