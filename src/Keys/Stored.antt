-- ===== src/Keys/Stored.antt =====
-- Reading back key pairs from their files.
use opencoin.Prelude.{
  ℕ, ◌≡◌, refl, none, some, Bytes, length, true, false, ◌==◌, Option, ok, or_err, >>=-eq-ok, arith,
  ◌∙◌,
}
use Prim.Native.String.{String}
use opencoin.Keys.{
  Dilithium, KeyPair, Ed25519KeyPair, KeyFile, Disk, generate_key_pair_c, sign_c, dilithium_sign,
  verify_c, dilithium_verify, save_key_pair, load_key_pair, save_ed25519, load_ed25519,
}

-- What was written is read and decoded.
pub record DiskLaws (disk : Disk) : Type 0 where
  pub decode_encode : (b : Bytes) → disk.decode (disk.encode b) ≡ some b
  pub unmarshal_marshal :
      (f : KeyFile) (raw : Bytes) → disk.marshal f ≡ ok raw → disk.unmarshal raw ≡ ok f
  pub read_write :
      (files files' : disk.Files) (path raw : Bytes)
      → disk.write_file files path raw ≡ ok files'
      → disk.read_file files' path ≡ ok raw

module _ (disk : Disk) (laws : DiskLaws disk) where
  load_key_pair-save_key_pair :
      (path : Bytes) (kp : KeyPair) (files files' : disk.Files)
      → save_key_pair disk path (some kp) files ≡ ok files'
      → load_key_pair disk path files' ≡ ok kp
  unfolding save_key_pair load_key_pair
  load_key_pair-save_key_pair path kp files files' e =
      let (raw, made, written) = >>=-eq-ok (disk.marshal _) _ e in
      rw
        (
          laws.read_write files files' path raw written,
          laws.unmarshal_marshal _ raw made,
          laws.decode_encode kp.public_key,
          laws.decode_encode kp.private_key,
        )
        refl

  pub load_ed25519-save_ed25519 :
      (path : Bytes) (kp : Ed25519KeyPair) (files files' : disk.Files)
      → save_ed25519 disk path (some kp) files ≡ ok files'
      → load_ed25519 disk path files' ≡ ok kp
  unfolding save_ed25519 load_ed25519
  load_ed25519-save_ed25519 path kp files files' e =
      let (raw, made, written) = >>=-eq-ok (disk.marshal _) _ e in
      rw
        (
          laws.read_write files files' path raw written,
          laws.unmarshal_marshal _ raw made,
          laws.decode_encode kp.public_key,
          laws.decode_encode kp.private_key,
        )
        refl

-- Dilithium2: keys have 1312 and 2560 bytes; with an empty context every message is signed, in 2420
-- bytes, and the signature verifies under the public key.
pub record DilithiumLaws (d : Dilithium) : Type 0 where
  pub public_size : (seed : ℕ) (pk sk : Bytes) → d.keypair seed ≡ some (pk, sk) → length pk ≡ 1312
  pub private_size : (seed : ℕ) (pk sk : Bytes) → d.keypair seed ≡ some (pk, sk) → length sk ≡ 2560
  pub signs :
      (seed : ℕ) (pk sk msg : Bytes)
      → d.keypair seed ≡ some (pk, sk)
      → (sig : Bytes) × (d.signature sk msg ≡ some sig)
        × (length sig ≡ 2420)
        × (d.verify sig msg pk ≡ true)

or_err-eq_ok : {A : Type 0} (o : Option A) (e : String) {a : A} → or_err o e ≡ ok a → o ≡ some a
or_err-eq_ok none e h = cc
or_err-eq_ok (some _) e h = cc

module _ (disk : Disk) (laws : DiskLaws disk) (d : Dilithium) (dilithium : DilithiumLaws d) where
  -- A validator's key that was generated and saved is loaded back, and every message that is signed
  -- with what was loaded verifies under its public key. This is for the documented laws of
  -- Dilithium2, base64, JSON and files.
  pub validator_key-signs :
      (seed : ℕ) (path msg : Bytes) (kp : KeyPair) (files files' : disk.Files)
      → generate_key_pair_c d seed ≡ ok kp
      → save_key_pair disk path (some kp) files ≡ ok files'
      → (load_key_pair disk path files' ≡ ok kp)
        × ((sig : Bytes) × (dilithium_sign d kp msg ≡ ok sig)
            × (dilithium_verify d msg sig kp.public_key ≡ true))
  unfolding generate_key_pair_c dilithium_sign sign_c dilithium_verify verify_c
  validator_key-signs seed path msg kp files files' generated saved =
      let (pair, made, answered) =
        >>=-eq-ok (or_err (d.keypair seed) "dilithium keypair generation failed") _ generated in
      let keys : d.keypair seed ≡ some (kp.public_key, kp.private_key) =
        or_err-eq_ok (d.keypair seed) _ made ∙ cc in
      let (sig, signs, size, verifies) =
        dilithium.signs seed kp.public_key kp.private_key msg keys in
      let public : (length kp.public_key == 0) ≡ false =
        ground (arith, dilithium.public_size seed _ _ keys) in
      let private : (length kp.private_key == 0) ≡ false =
        ground (arith, dilithium.private_size seed _ _ keys) in
      let sig_full : (length sig == 0) ≡ false = ground arith in
      (
        load_key_pair-save_key_pair disk laws path kp files files' saved,
        (sig, rw (private, signs) refl, rw (public, sig_full, verifies) refl),
      )
