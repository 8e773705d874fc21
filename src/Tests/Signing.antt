-- ===== src/Tests/Signing.antt =====
-- Keys that are made, saved and used from the command line, and by a validator.
use opencoin.Prelude.{
  ℕ, ◌≡◌, refl, none, some, Option, [], ◌∷◌, ◌++◌, append-nil, append_assoc, length, List, Bytes,
  replicate, length-replicate, true, Result, ok, err, ◌>>=◌, arith, ap, sym, ◌∙◌,
}
use opencoin.Prelude.Map.{Map, Bytes_key, lookup, insert, lookup-insert_self}
use opencoin.Types.{Address, Transaction}
use opencoin.Crypto.{address_from_pub_key, resolve_sender_pub_key, verify_signature}
use opencoin.Payload.{transfer}
use opencoin.Payload.Decode.{decode_payload}
use opencoin.Store.{take_bytes}
use opencoin.Keys.{
  Dilithium, Ed25519, KeyPair, KeyFile, Disk, generate_key_pair_c, dilithium_sign, dilithium_verify,
  save_key_pair, load_key_pair, generate_ed25519, save_ed25519,
}
use opencoin.Keys.Stored.{DiskLaws, DilithiumLaws}
use opencoin.Wallet.Validator.{keys_validator-signs}
use opencoin.Wallet.{validator_dir, file_name, keys_validator, keys_add, tx_transfer, or_empty}
use opencoin.Wallet.Accepted.{SignatureLaws, JoinsNested, tx_transfer-accepted}
use opencoin.Tests.Fixtures.{plain_wire, plain_wire-laws, open_crypto, split, split-append}

abbrev concat : List Bytes → Bytes
concat [] = []
concat (b ∷ bs) = b ++ concat bs

-- A key file is the public key after its length, then the private key.
abbrev file_bytes : KeyFile → Bytes
file_bytes f = length f.public_key ∷ f.public_key ++ f.private_key

abbrev to_file : Option (Bytes × Bytes) → Result KeyFile
to_file none = err "no key file"
to_file (some (pk, sk)) = ok (record { public_key = pk; private_key = sk })

abbrev parse_file : Bytes → Result KeyFile
parse_file [] = err "no key file"
parse_file (n ∷ b) = to_file (split n b)

abbrev found_file : Option Bytes → Result Bytes
found_file none = err "no such file"
found_file (some raw) = ok raw

abbrev pub map_disk : Disk
map_disk = record {
  Files = Map Bytes Bytes;
  encode = λ b. b;
  decode = λ b. some b;
  marshal = λ f. ok (file_bytes f);
  unmarshal = parse_file;
  join = concat;
  mkdir_all = λ files path. ok files;
  write_file = λ files path raw. ok (insert path raw files);
  read_file = λ files path. found_file (lookup path files);
}

parse_file-file_bytes : (f : KeyFile) → parse_file (file_bytes f) ≡ ok f
parse_file-file_bytes f = rw (split-append f.public_key f.private_key) refl

pub map_disk-laws : DiskLaws map_disk
map_disk-laws = record {
  decode_encode = λ b. refl;
  unmarshal_marshal = λ f raw e. ap (λ r. r >>= parse_file) (sym e) ∙ parse_file-file_bytes f;
  read_write = λ files files' path raw e. read files files' path raw e;
}
  where
    read :
        (files files' : Map Bytes Bytes) (path raw : Bytes)
        → ok (insert path raw files) ≡ ok files'
        → found_file (lookup path files') ≡ ok raw
    read files files' path raw e =
        let same : insert path raw files ≡ files' = cc in
        rw (← same, lookup-insert_self path raw files) refl

concat-nested : JoinsNested map_disk
concat-nested a b c d = simp (append-nil, append_assoc)

-- One pair of keys, whose signatures are all the same.
abbrev flat_ed25519 : Ed25519
flat_ed25519 = record {
  generate_key = λ seed. some (replicate 32 1, replicate 64 2);
  sign = λ sk msg. replicate 64 3;
}

of_size : {b : Bytes} {n : ℕ} (x : ℕ) → replicate n x ≡ b → length b ≡ n
of_size {b} {n} x e = ap length (sym e) ∙ length-replicate n x

flat_ed25519-laws : SignatureLaws open_crypto flat_ed25519
flat_ed25519-laws = record {
  public_size = λ seed pk sk e. of_size 1 (cc);
  private_size = λ seed pk sk e. of_size 2 (cc);
  signature_size = λ sk msg e. refl;
  verifies = λ seed pk sk msg e. refl;
}

abbrev pub flat_dilithium : Dilithium
flat_dilithium = record {
  keypair = λ seed. some (replicate 1312 1, replicate 2560 2);
  signature = λ sk msg. some (replicate 2420 3);
  verify = λ sig msg pk. true;
}

flat_dilithium-laws : DilithiumLaws flat_dilithium
flat_dilithium-laws = record {
  public_size = λ seed pk sk e. of_size 1 (cc);
  private_size = λ seed pk sk e. of_size 2 (cc);
  signs = λ seed pk sk msg e. (replicate 2420 3, refl, of_size 3 refl, refl);
}

abbrev user : Address
user = replicate 20 1

abbrev one_file : Map Bytes Bytes
one_file =
    insert
      (concat (
        (9 ∷ [])
        ∷ (99 ∷ 111 ∷ 110 ∷ 102 ∷ 105 ∷ 103 ∷ [])
        ∷ (107 ∷ 101 ∷ 121 ∷ 115 ∷ [])
        ∷ (8 ∷ 46 ∷ 106 ∷ 115 ∷ 111 ∷ 110 ∷ [])
        ∷ []))
      (file_bytes (record { public_key = replicate 32 1; private_key = replicate 64 2 })) []

user_address : address_from_pub_key open_crypto (replicate 32 1) ≡ ok user
unfolding address_from_pub_key take_bytes
user_address = refl

key_added : keys_add open_crypto flat_ed25519 map_disk 0 (9 ∷ []) (8 ∷ []) [] ≡ ok (one_file, user)
unfolding keys_add generate_ed25519 save_ed25519 or_empty address_from_pub_key take_bytes
key_added = refl

-- The amount is the length of its text.
abbrev parse_length : Bytes → Result ℕ
parse_length b = ok (length b)

tx_transfer-accepted_example :
    (txn : Transaction) × (tx_transfer open_crypto flat_ed25519 map_disk parse_length
        (9 ∷ [])
        (8 ∷ [])
        0
        (4 ∷ [])
        (1 ∷ 2 ∷ [])
        one_file
      ≡ ok txn)
    × (txn.from ≡ user)
    × (txn.nonce ≡ 0)
    × (decode_payload txn.payload
        ≡ ok (record {
          payload = transfer (record { to = 4 ∷ []; amount = 2 });
          sender_pub_key = replicate 32 1;
        }))
    × (resolve_sender_pub_key open_crypto (some txn) [] (replicate 32 1)
        ≡ ok (replicate 32 1, true))
    × (verify_signature open_crypto (some txn) (replicate 32 1) ≡ ok tt)
tx_transfer-accepted_example =
    tx_transfer-accepted open_crypto flat_ed25519 flat_ed25519-laws plain_wire-laws map_disk
      map_disk-laws concat-nested parse_length 0 0 2 (9 ∷ []) (8 ∷ []) (1 ∷ 2 ∷ []) (replicate 32 1)
      (replicate 64 2) (4 ∷ []) user [] one_file (omega arith) refl user_address refl (omega arith)
      key_added

abbrev validator_key : KeyPair
validator_key = record { public_key = replicate 1312 1; private_key = replicate 2560 2 }

-- The file that the command writes.
abbrev validator_path : Bytes
validator_path = concat (validator_dir map_disk (9 ∷ []) ∷ file_name map_disk (8 ∷ []) ∷ [])

abbrev validator_file : Map Bytes Bytes
validator_file =
    (
      validator_path,
      file_bytes (record { public_key = replicate 1312 1; private_key = replicate 2560 2 }),
    )
    ∷ []

validator_added :
    keys_validator open_crypto flat_ed25519 map_disk flat_dilithium 0 (9 ∷ []) (8 ∷ []) []
    ≡ ok (validator_file, validator_key.public_key)
unfolding keys_validator generate_key_pair_c save_key_pair insert
validator_added = refl

keys_validator-signs_example :
    (kp : KeyPair) × (load_key_pair map_disk validator_path validator_file ≡ ok kp)
    × (sig : Bytes) × (dilithium_sign flat_dilithium kp (5 ∷ []) ≡ ok sig)
    × (dilithium_verify flat_dilithium (5 ∷ []) sig (replicate 1312 1) ≡ true)
keys_validator-signs_example =
    keys_validator-signs open_crypto flat_ed25519 map_disk map_disk-laws flat_dilithium
      flat_dilithium-laws 0 (9 ∷ []) (8 ∷ []) (5 ∷ []) (replicate 1312 1) [] validator_file
      validator_added
