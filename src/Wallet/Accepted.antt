-- ===== src/Wallet/Accepted.antt =====
-- What the command line makes against what the chain asks for.
use opencoin.Prelude.{
  ℕ, ◌≡◌, refl, ◌≢◌, [], ◌∷◌, length, Bytes, not, true, false, ◌==◌, ltb, ◌&&◌, some, Result, ok,
  >>=-eq-ok, IsU64, arith, ap, sym, ◌∙◌,
}
use opencoin.Types.{Address, Transaction}
use opencoin.Wire.{Wire, WireLaws}
use opencoin.Encoding.{signing_bytes, marshal_transaction}
use opencoin.Crypto.Sender.{bytes_equal_self}
use opencoin.Crypto.{
  Crypto, address_from_pub_key, ensure_address_matches, resolve_sender_pub_key, first_spend,
  verify_ed25519, verify_signature,
}
use opencoin.Payload.{Payload, transfer, encode_payload}
use opencoin.Payload.Decode.{decode_payload}
use opencoin.Payload.RoundTrip.{decode_payload-encode_payload}
use opencoin.Keys.{Ed25519, Disk, generate_ed25519, sign_ed25519, save_ed25519, load_ed25519}
use opencoin.Keys.Stored.{DiskLaws, load_ed25519-save_ed25519}
use opencoin.Wallet.{key_dir, file_name, key_path, or_empty, keys_add, tx_transfer}

-- The keys of a pair have 32 and 64 bytes, a signature has 64 and verifies under the public key.
pub record SignatureLaws (c : Crypto) (e : Ed25519) : Type 0 where
  pub public_size :
      (seed : ℕ) (pk sk : Bytes) → e.generate_key seed ≡ some (pk, sk) → length pk ≡ 32
  pub private_size :
      (seed : ℕ) (pk sk : Bytes) → e.generate_key seed ≡ some (pk, sk) → length sk ≡ 64
  pub signature_size : (sk msg : Bytes) → length sk ≡ 64 → length (e.sign sk msg) ≡ 64
  pub verifies :
      (seed : ℕ) (pk sk msg : Bytes)
      → e.generate_key seed ≡ some (pk, sk)
      → c.ed25519_verify pk msg (e.sign sk msg) ≡ true

-- Joining the joined directory to a name is joining them all.
abbrev pub JoinsNested : Disk → Type 0
JoinsNested disk =
    (a b c d : Bytes)
    → disk.join (disk.join (a ∷ b ∷ c ∷ []) ∷ d ∷ []) ≡ disk.join (a ∷ b ∷ c ∷ d ∷ [])

module _ ⦃w : Wire⦄ where
  -- No payload and no transaction is refused by the encoders.
  encoded : (p : Payload) (key : Bytes) → (b : Bytes) × (encode_payload (some p) key ≡ ok b)
  unfolding encode_payload
  encoded p key = (_, refl)

  signable : (txn : Transaction) → (b : Bytes) × (signing_bytes (some txn) ≡ ok b)
  unfolding signing_bytes marshal_transaction
  signable txn = (_, refl)

module _ (c : Crypto) (e : Ed25519) (laws : SignatureLaws c e) where
  -- A new key of 32 bytes whose address is the sender's is resolved from the payload.
  resolved :
      (txn : Transaction) (key : Bytes)
      → length key ≡ 32
      → address_from_pub_key c key ≡ ok txn.from
      → resolve_sender_pub_key c (some txn) [] key ≡ ok (key, true)
  unfolding resolve_sender_pub_key first_spend ensure_address_matches
  resolved txn key size addr =
      let fits : (ltb 0 (length key) && not (length key == 32)) ≡ false = ground arith in
      let full : (length key == 0) ≡ false = ground arith in
      rw (fits, full, addr, bytes_equal_self txn.from) refl

  -- A signature over the signing bytes is accepted.
  verified :
      ⦃w : Wire⦄ (seed : ℕ) (pk sk bytes : Bytes) (txn : Transaction)
      → e.generate_key seed ≡ some (pk, sk)
      → signing_bytes (some txn) ≡ ok bytes
      → verify_signature c (some (record txn { signature = e.sign sk bytes })) pk ≡ ok tt
  unfolding verify_signature verify_ed25519 signing_bytes
  verified seed pk sk bytes txn made signed =
      let wide : (length pk == 32) ≡ true = ground (arith, laws.public_size seed pk sk made) in
      let signature_wide : (length (e.sign sk bytes) == 64) ≡ true =
        ground (arith, laws.signature_size sk bytes (laws.private_size seed pk sk made)) in
      rw (wide, signature_wide, signed, laws.verifies seed pk sk bytes made) refl

  module _ (disk : Disk) (disk_laws : DiskLaws disk) (nested : JoinsNested disk) where
    -- `keys add` leaves the new pair where `tx transfer` looks for it.
    added :
        (seed : ℕ) (home name pk sk : Bytes) (files files' : disk.Files) (addr : Address)
        → e.generate_key seed ≡ some (pk, sk)
        → keys_add c e disk seed home name files ≡ ok (files', addr)
        → load_ed25519 disk (key_path disk home name) files'
          ≡ ok (record { public_key = pk; private_key = sk })
    unfolding keys_add generate_ed25519
    added seed home name pk sk files files' addr made h =
        let (dir, _, h1) = >>=-eq-ok (disk.mkdir_all files (key_dir disk home)) _ h in
        let (kp, generated, h2) = >>=-eq-ok (generate_ed25519 e seed) _ h1 in
        let (saved, written, h3) = >>=-eq-ok (save_ed25519 disk _ (some kp) dir) _ h2 in
        let generates : generate_ed25519 e seed
            ≡ ok (record { public_key = pk; private_key = sk }) =
          rw (made) refl in
        let same_pair : kp ≡ record { public_key = pk; private_key = sk } = cc in
        let same_files : saved ≡ files' = cc in
        ap (λ p. load_ed25519 disk p files') (sym (nested home _ _ (file_name disk name)))
        ∙ ap (load_ed25519 disk _) (sym same_files)
        ∙ load_ed25519-save_ed25519 disk disk_laws _ kp dir saved written
        ∙ ap ok same_pair

  module _ ⦃w : Wire⦄ (l : WireLaws w) (disk : Disk) (disk_laws : DiskLaws disk)
      (nested : JoinsNested disk) where
    -- A transfer made from the command line under a key that `keys add` made is accepted as the
    -- first of its sender: the command answers a transaction of the printed address with the nonce
    -- it was given, whose payload decodes to the transfer and the new key, for which this key is
    -- resolved when none is stored, and whose signature verifies under it. This is for a key whose
    -- address can be made, an amount that is parsed as a uint64, a name that is not empty, and the
    -- documented laws of Ed25519, base64, JSON, files and paths.
    pub tx_transfer-accepted :
        (parse_uint : Bytes → Result ℕ) (seed nonce amount : ℕ)
        (home name amount_text pk sk : Bytes) (to addr : Address) (files files' : disk.Files)
        → length name ≢ 0
        → e.generate_key seed ≡ some (pk, sk)
        → address_from_pub_key c pk ≡ ok addr
        → parse_uint amount_text ≡ ok amount
        → IsU64 amount
        → keys_add c e disk seed home name files ≡ ok (files', addr)
        → (txn : Transaction) × (tx_transfer c e disk parse_uint home name nonce to amount_text
              files'
            ≡ ok txn)
          × (txn.from ≡ addr)
          × (txn.nonce ≡ nonce)
          × (decode_payload txn.payload
              ≡ ok (record {
                payload = transfer (record { to = to; amount = amount });
                sender_pub_key = pk;
              }))
          × (resolve_sender_pub_key c (some txn) [] pk ≡ ok (pk, true))
          × (verify_signature c (some txn) pk ≡ ok tt)
    unfolding tx_transfer or_empty sign_ed25519
    tx_transfer-accepted parse_uint seed nonce amount home name amount_text pk sk to addr files
          files' named made address parsed small h =
        let (payload, encodes) = encoded (transfer (record { to = to; amount = amount })) pk in
        let unsigned : Transaction = record {
          from = addr;
          to = to;
          nonce = nonce;
          payload = payload;
          signature = [];
        } in
        let (bytes, signs) = signable unsigned in
        let present : (length name == 0) ≡ false = ground arith in
        let wide : (length sk == 64) ≡ true = ground (arith, laws.private_size seed pk sk made) in
        let found = added disk disk_laws nested seed home name pk sk files files' addr made h in
        let signed : Transaction = record unsigned { signature = e.sign sk bytes } in
        (
          signed,
          rw (present, found, parsed, encodes, address, signs, wide) refl,
          refl,
          refl,
          decode_payload-encode_payload l (transfer (record { to = to; amount = amount })) pk
              payload small encodes,
          resolved signed pk (laws.public_size seed pk sk made) address,
          verified seed pk sk bytes unsigned made signs,
        )
