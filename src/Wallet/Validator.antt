-- ===== src/Wallet/Validator.antt =====
-- A validator's key from the command line to its signatures.
use opencoin.Prelude.{ℕ, ◌≡◌, [], ◌∷◌, Bytes, true, some, Result, ok, >>=-eq-ok, ap, sym, ◌∙◌}
use opencoin.Keys.{
  Dilithium, KeyPair, Disk, generate_key_pair_c, save_key_pair, load_key_pair, dilithium_sign,
  dilithium_verify,
}
use opencoin.Keys.Stored.{DiskLaws, DilithiumLaws, validator_key-signs}
use opencoin.Crypto.{Crypto}
use opencoin.Keys.{Ed25519}
use opencoin.Wallet.{validator_dir, file_name, keys_validator}

pair_injective {ℓ} :
    {A B : Type ℓ} (a a' : A) (b b' : B)
    → ◌≡◌ {A = Result (A × B)} (ok (a, b)) (ok (a', b'))
    → (a ≡ a') × (b ≡ b')
pair_injective a a' b b' e = (cc, cc)

module _ (c : Crypto) (e : Ed25519) (disk : Disk) (laws : DiskLaws disk) (d : Dilithium)
    (dilithium : DilithiumLaws d) where
  -- The key that `keys validator` makes is loaded from the file that it names, and every message
  -- that is signed with what was loaded verifies under the public key that the command prints. This
  -- is for the documented laws of Dilithium2, base64, JSON and files.
  pub keys_validator-signs :
      (seed : ℕ) (home name msg public : Bytes) (files files' : disk.Files)
      → keys_validator c e disk d seed home name files ≡ ok (files', public)
      → let path = disk.join (validator_dir disk home ∷ file_name disk name ∷ []) in
        (kp : KeyPair) × (load_key_pair disk path files' ≡ ok kp)
        × (sig : Bytes) × (dilithium_sign d kp msg ≡ ok sig)
        × (dilithium_verify d msg sig public ≡ true)
  unfolding keys_validator
  keys_validator-signs seed home name msg public files files' h =
      let (made, _, h1) = >>=-eq-ok (disk.mkdir_all files (validator_dir disk home)) _ h in
      let (kp, generated, h2) = >>=-eq-ok (generate_key_pair_c d seed) _ h1 in
      let path = disk.join (validator_dir disk home ∷ file_name disk name ∷ []) in
      let (saved, written, h3) = >>=-eq-ok (save_key_pair disk path (some kp) made) _ h2 in
      let (at, printed) = pair_injective saved files' kp.public_key public h3 in
      let (loaded, (sig, signs, verifies)) =
        validator_key-signs disk laws d dilithium seed path msg kp made saved generated written in
      (
        kp,
        ap (λ f. load_key_pair disk path f) (sym at) ∙ loaded,
        sig,
        signs,
        ap (λ key. dilithium_verify d msg sig key) (sym printed) ∙ verifies,
      )
