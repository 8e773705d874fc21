-- ===== src/Crypto/Sender.antt =====
-- Which key a transaction is checked against.
use opencoin.Prelude.{
  if_pos, Bytes_discrete, ◌≡◌, refl, sym, not, ◌&&◌, ltb, ◌==◌, fail_if, ◌≢◌, ◌⊎◌, [], ◌∷◌, length,
  Bytes, true, false, some, Bool, Result, ok, arith, inl, inr, ◌>>◌, >>=-eq-ok, ap, ◌∙◌,
}
use Prim.Native.String.{String}
use opencoin.Types.{Address, Transaction}
use opencoin.Crypto.{
  Crypto, bytes_equal, address_from_pub_key, ensure_address_matches, resolve_sender_pub_key,
  first_spend, registered,
}

pub bytes_equal_self : (a : Bytes) → bytes_equal a a ≡ true
unfolding bytes_equal
bytes_equal_self a = if_pos (Bytes_discrete a a) refl true false

pub bytes_equal→eq : (a b : Bytes) → bytes_equal a b ≡ true → a ≡ b
unfolding bytes_equal
bytes_equal→eq a b h = ground arith

guarded-eq_ok {ℓ} :
    {A : Type ℓ} (t : Bool) (e : String) (m : Result A) (a : A)
    → (fail_if t e >> m) ≡ ok a
    → (t ≡ false) × (m ≡ ok a)
guarded-eq_ok true e m a h = cc
guarded-eq_ok false e m a h = (refl, h)

empty_key : (key : Bytes) → (length key == 0) ≡ false → key ≢ []
empty_key [] h = cc
empty_key (x ∷ key) h = λ e. cc

same_or_empty :
    (a b : Bytes) → (ltb 0 (length a) && not (bytes_equal a b)) ≡ false → (a ≡ []) ⊎ (a ≡ b)
same_or_empty [] b h = inl refl
same_or_empty (x ∷ a) b h = inr (bytes_equal→eq (x ∷ a) b (ground arith))

module _ (c : Crypto) where
  ensure-eq_ok :
      (addr : Address) (key : Bytes)
      → ensure_address_matches c addr key ≡ ok tt
      → address_from_pub_key c key ≡ ok addr
  unfolding ensure_address_matches
  ensure-eq_ok addr key h =
      let (derived, found, same) = >>=-eq-ok (address_from_pub_key c key) _ h in
      found ∙ ap ok (bytes_equal→eq derived addr (ground arith))

  ensured {ℓ} :
      {A : Type ℓ} (addr : Address) (key : Bytes) (m : Result A) (a : A)
      → (ensure_address_matches c addr key >> m) ≡ ok a
      → (address_from_pub_key c key ≡ ok addr) × (m ≡ ok a)
  ensured addr key m a h =
      let (_, found, rest) = >>=-eq-ok (ensure_address_matches c addr key) _ h in
      (ensure-eq_ok addr key (found), rest)

  first_spend-eq_ok :
      (from : Address) (payload_key key : Bytes) (register : Bool)
      → first_spend c from payload_key ≡ ok (key, register)
      → (address_from_pub_key c key ≡ ok from)
        × (key ≡ payload_key)
        × (register ≡ true)
        × (key ≢ [])
  unfolding first_spend
  first_spend-eq_ok from payload_key key register h =
      let answer : Result (Bytes × Bool) = ok (payload_key, true) in
      let after : Result (Bytes × Bool) = ensure_address_matches c from payload_key >> answer in
      let (present, h1) =
        guarded-eq_ok (length payload_key == 0) "sender_pubkey required for first spend" after
          (key, register) h in
      let (found, rest) = ensured from payload_key answer (key, register) h1 in
      let key_same : key ≡ payload_key = cc in
      (rw key_same found, key_same, cc, λ e. empty_key payload_key present (sym key_same ∙ e))

  registered-eq_ok :
      (from : Address) (stored payload_key key : Bytes) (register : Bool)
      → registered c from stored payload_key ≡ ok (key, register)
      → (address_from_pub_key c key ≡ ok from)
        × (key ≡ stored)
        × (register ≡ false)
        × ((payload_key ≡ []) ⊎ (payload_key ≡ stored))
  unfolding registered
  registered-eq_ok from stored payload_key key register h =
      let answer : Result (Bytes × Bool) = ok (stored, false) in
      let after : Result (Bytes × Bool) = ensure_address_matches c from stored >> answer in
      let (same, h1) =
        guarded-eq_ok (ltb 0 (length payload_key) && not (bytes_equal payload_key stored))
          "sender_pubkey does not match registered key" after (key, register) h in
      let (found, rest) = ensured from stored answer (key, register) h1 in
      let key_same : key ≡ stored = cc in
      (rw key_same found, key_same, cc, same_or_empty payload_key stored same)

  -- A key that is resolved has 32 bytes and the sender's address. If no key is stored, it is the
  -- one in the payload, and it is to be registered; otherwise it is the stored key, it is not to be
  -- registered, and the payload has no key or the same one.
  pub resolve-eq_ok :
      (txn : Transaction) (stored payload_key key : Bytes) (register : Bool)
      → resolve_sender_pub_key c (some txn) stored payload_key ≡ ok (key, register)
      → (address_from_pub_key c key ≡ ok txn.from)
        × (length key ≡ 32)
        × (((stored ≡ []) × (key ≡ payload_key) × (register ≡ true))
            ⊎ ((stored ≡ key) × (register ≡ false) × ((payload_key ≡ []) ⊎ (payload_key ≡ key))))
  unfolding resolve_sender_pub_key
  resolve-eq_ok txn stored payload_key key register h = ground (
    arith,
    first_spend-eq_ok txn.from payload_key key register,
    registered-eq_ok txn.from stored payload_key key register,
  )
