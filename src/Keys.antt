-- ===== src/Keys.antt =====
-- Key pairs and the files that hold them: pkg/crypto/ed25519.go, pkg/crypto/dilithium.go,
-- pkg/crypto/dilithium_cgo.go and pkg/crypto/keystore.go. The C code of Dilithium2, Go's Ed25519,
-- base64, JSON and the file system are not part of what is modelled and enter as records.
pub mod Stored
use opencoin.Prelude.{
  ℕ, [], ◌∷◌, length, Bytes, Bool, false, not, ◌||◌, ◌==◌, if◌then◌else◌, List, Option, none, some,
  Result, ok, err, ◌>>=◌, ◌>>◌, fail_if, or_err,
}

-- The C functions; `none` is a return code other than 0, and what is drawn at random is an argument.
pub record Dilithium : Type 0 where
  pub keypair : ℕ → Option (Bytes × Bytes)
  pub signature : Bytes → Bytes → Option Bytes
  pub verify : Bytes → Bytes → Bytes → Bool

-- `ed25519.GenerateKey` and `ed25519.Sign`.
pub record Ed25519 : Type 0 where
  pub generate_key : ℕ → Option (Bytes × Bytes)
  pub sign : Bytes → Bytes → Bytes

pub record KeyPair : Type 0 where
  pub public_key : Bytes
  pub private_key : Bytes

pub record Ed25519KeyPair : Type 0 where
  pub public_key : Bytes
  pub private_key : Bytes

-- The two texts of a file.
pub record KeyFile : Type 0 where
  pub public_key : Bytes
  pub private_key : Bytes

-- base64, JSON for a key file, and the files by their paths.
pub record Disk : Type 1 where
  pub Files : Type 0
  pub encode : Bytes → Bytes
  pub decode : Bytes → Option Bytes
  pub marshal : KeyFile → Result Bytes
  pub unmarshal : Bytes → Result KeyFile
  pub join : List Bytes → Bytes
  pub mkdir_all : Files → Bytes → Result Files
  pub write_file : Files → Bytes → Bytes → Result Files
  pub read_file : Files → Bytes → Result Bytes

-- `ed25519.PrivateKeySize`
abbrev pub private_key_size : ℕ
private_key_size = 64

module _ (d : Dilithium) where
  unfoldable pub generate_key_pair_c : ℕ → Result KeyPair
  generate_key_pair_c seed = do
    (pk, sk) ← or_err (d.keypair seed) "dilithium keypair generation failed"
    ok (record { public_key = pk; private_key = sk })

  unfoldable pub sign_c : Bytes → Bytes → Result Bytes
  sign_c private_key message = do
    fail_if (length private_key == 0) "private key is empty"
    or_err (d.signature private_key message) "dilithium sign failed"

  unfoldable pub dilithium_sign : KeyPair → Bytes → Result Bytes
  unfolding sign_c
  dilithium_sign kp message = do
    fail_if (length kp.private_key == 0) "private key not set"
    sign_c kp.private_key message

  unfoldable pub verify_c : Bytes → Bytes → Bytes → Bool
  verify_c public_key message signature =
      if length public_key == 0 || length signature == 0
      then false
      else d.verify signature message public_key

  unfoldable pub dilithium_verify : Bytes → Bytes → Bytes → Bool
  unfolding verify_c
  dilithium_verify message signature public_key =
      if length public_key == 0 || length signature == 0
      then false
      else verify_c public_key message signature

module _ (e : Ed25519) where
  unfoldable pub generate_ed25519 : ℕ → Result Ed25519KeyPair
  generate_ed25519 seed = do
    (pub_key, priv_key) ← or_err (e.generate_key seed) "ed25519 generate"
    ok (record { public_key = pub_key; private_key = priv_key })

  unfoldable pub sign_ed25519 : Bytes → Bytes → Result Bytes
  sign_ed25519 priv msg = do
    fail_if (not (length priv == private_key_size)) "invalid ed25519 private key"
    ok (e.sign priv msg)

module _ (disk : Disk) where
  open disk use {Files}

  unfoldable pub save_key_pair : Bytes → Option KeyPair → Files → Result Files
  save_key_pair path none files = err "keypair is nil"
  save_key_pair path (some kp) files = do
    raw ← disk.marshal (record {
      public_key = disk.encode kp.public_key;
      private_key = disk.encode kp.private_key;
    })
    disk.write_file files path raw

  unfoldable pub load_key_pair : Bytes → Files → Result KeyPair
  load_key_pair path files = do
    raw ← disk.read_file files path
    text ← disk.unmarshal raw
    public ← or_err (disk.decode text.public_key) "illegal base64 data"
    private ← or_err (disk.decode text.private_key) "illegal base64 data"
    ok (record { public_key = public; private_key = private })

  unfoldable pub save_ed25519 : Bytes → Option Ed25519KeyPair → Files → Result Files
  save_ed25519 path none files = err "keypair is nil"
  save_ed25519 path (some kp) files = do
    raw ← disk.marshal (record {
      public_key = disk.encode kp.public_key;
      private_key = disk.encode kp.private_key;
    })
    disk.write_file files path raw

  unfoldable pub load_ed25519 : Bytes → Files → Result Ed25519KeyPair
  load_ed25519 path files = do
    raw ← disk.read_file files path
    text ← disk.unmarshal raw
    public ← or_err (disk.decode text.public_key) "illegal base64 data"
    private ← or_err (disk.decode text.private_key) "illegal base64 data"
    ok (record { public_key = public; private_key = private })
