-- ===== src/Store/Codec/RoundTrip.antt =====
-- Round trip of accounts.
use opencoin.Prelude.{
  ◌≡◌, refl, [], ◌∷◌, ◌++◌, append-nil, append_assoc, Bytes, length, lt→ltb, IsU64, arith, ok, ◌∙◌,
  ℕ,
}
use opencoin.Prelude.Int.{ℤ, IsI64, to_u64, to_u64-IsU64, to_i64-to_u64}
use Prim.Native.String.{String}
use opencoin.Types.{Account, empty_account}
use opencoin.Wire.{Wire, WireLaws, varint_type, bytes_type}
use opencoin.Wire.Loop.{
  Runs, Runs-nil, Runs-field, decode-Runs, bytes_field-back, varint_field-back,
}
use opencoin.Store.Codec.{append_optional, account_bytes, account_step, unmarshal_account}

-- The numbers of an account are in the range of their Go types.
pub record IsValid (acct : Account) : Type 0 where
  pub balance : IsU64 acct.balance
  pub nonce : IsU64 acct.nonce
  pub stake : IsU64 acct.stake
  pub rc : IsU64 acct.rc
  pub rc_max : IsU64 acct.rc_max
  pub time : IsI64 acct.last_rc_effective_time

module _ ⦃w : Wire⦄ (l : WireLaws w) where
  -- A field that is written only if it is not empty.
  abbrev optional_field : ℕ → Bytes → Bytes
  optional_field num [] = []
  optional_field num (x ∷ v) = w.tag num bytes_type ++ (w.bytes (x ∷ v) ++ [])

  append_optional-eq : (num : ℕ) (b v : Bytes) → append_optional num b v ≡ b ++ optional_field num v
  unfolding append_optional
  append_optional-eq num b [] = simp append-nil
  append_optional-eq num b (x ∷ v) =
      rw (lt→ltb 0 (length (x ∷ v)) (omega arith)) (simp (append_assoc, append-nil))

  account_bytes-eq :
      (a : Account)
      → account_bytes a
        ≡ w.tag 1 bytes_type
          ++ (w.bytes a.address
              ++ (w.tag 2 varint_type
                  ++ (w.varint a.balance
                      ++ (w.tag 3 varint_type
                          ++ (w.varint a.nonce
                              ++ (w.tag 4 varint_type
                                  ++ (w.varint a.stake
                                      ++ (w.tag 5 varint_type
                                          ++ (w.varint a.rc
                                              ++ (w.tag 6 varint_type
                                                  ++ (w.varint a.rc_max
                                                      ++ (w.tag 7 varint_type
                                                          ++ (w.varint
                                                            (to_u64 a.last_rc_effective_time)
                                                            ++ (optional_field 8 a.code
                                                            ++ optional_field 9
                                                            a.pub_key))))))))))))))
  unfolding account_bytes
  account_bytes-eq a = simp (append_optional-eq, append_assoc)

  abbrev bad_tag : String
  bad_tag = "invalid account tag"

  time-back :
      (a : Account) (rest : Bytes) (t : ℤ)
      → IsI64 t
      → account_step a 7 varint_type (w.varint (to_u64 t) ++ rest)
        ≡ ok (record a { last_rc_effective_time = t }, rest)
  unfolding account_step
  time-back a rest t h =
      varint_field-back l _ _ (to_u64 t) rest _ (to_u64-IsU64 t) ∙ rw (to_i64-to_u64 t h)

  key-Runs :
      (a : Account) (v : Bytes)
      → a.pub_key ≡ []
      → Runs l bad_tag account_step a (optional_field 9 v) (ok (record a { pub_key = v }))
  unfolding account_step
  key-Runs a [] h = rw (← unchanged) (Runs-nil l bad_tag account_step a)
    where
      unchanged : a ≡ record a { pub_key = [] }
      unchanged = ground arith
  key-Runs a (x ∷ v) h =
      let next : Account = record a { pub_key = x ∷ v } in
      Runs-field l bad_tag account_step a next 9 bytes_type (w.bytes (x ∷ v)) [] (ok next)
        (omega arith) (bytes_field-back l _ _ (x ∷ v) _ _) (Runs-nil l bad_tag account_step next)

  code-Runs :
      (a : Account) (v key : Bytes)
      → a.pub_key ≡ []
      → a.code ≡ []
      → Runs l bad_tag account_step a
          (optional_field 8 v ++ optional_field 9 key)
          (ok (record a { code = v; pub_key = key }))
  unfolding account_step
  code-Runs a [] key h k = rw (← unchanged) (key-Runs a key h)
    where
      unchanged : record a { pub_key = key } ≡ record a { code = []; pub_key = key }
      unchanged = ground arith
  code-Runs a (x ∷ v) key h k =
      let next : Account = record a { code = x ∷ v } in
      rw (append_assoc, append_assoc)
        (Runs-field l bad_tag account_step a next 8 bytes_type (w.bytes (x ∷ v))
          (optional_field 9 key) (ok (record next { pub_key = key })) (omega arith)
          (bytes_field-back l _ _ (x ∷ v) _ _) (key-Runs next key h))

  account-Runs :
      (a : Account)
      → IsValid a
      → Runs l bad_tag account_step (empty_account []) (account_bytes a) (ok a)
  unfolding account_step
  account-Runs a v =
      let start : Account = empty_account [] in
      let one : Account = record start { address = a.address } in
      let two : Account = record one { balance = a.balance } in
      let three : Account = record two { nonce = a.nonce } in
      let four : Account = record three { stake = a.stake } in
      let five : Account = record four { rc = a.rc } in
      let six : Account = record five { rc_max = a.rc_max } in
      let seven : Account = record six { last_rc_effective_time = a.last_rc_effective_time } in
      rw (account_bytes-eq a) (
        Runs-field l bad_tag account_step start one 1 bytes_type (w.bytes a.address) _ (ok a)
          (omega arith) (bytes_field-back l _ _ a.address _ _)
          (Runs-field l bad_tag account_step one two 2 varint_type (w.varint a.balance) _ (ok a)
            (omega arith) (varint_field-back l _ _ a.balance _ _ v.balance)
            (Runs-field l bad_tag account_step two three 3 varint_type (w.varint a.nonce) _ (ok a)
              (omega arith) (varint_field-back l _ _ a.nonce _ _ v.nonce)
              (Runs-field l bad_tag account_step three four 4 varint_type (w.varint a.stake) _
                (ok a) (omega arith) (varint_field-back l _ _ a.stake _ _ v.stake)
                (Runs-field l bad_tag account_step four five 5 varint_type (w.varint a.rc) _ (ok a)
                  (omega arith) (varint_field-back l _ _ a.rc _ _ v.rc)
                  (Runs-field l bad_tag account_step five six 6 varint_type (w.varint a.rc_max) _
                    (ok a) (omega arith) (varint_field-back l _ _ a.rc_max _ _ v.rc_max)
                    (Runs-field l bad_tag account_step six seven 7 varint_type
                      (w.varint (to_u64 a.last_rc_effective_time)) _ (ok a) (omega arith)
                      (time-back six _ a.last_rc_effective_time v.time)
                      (code-Runs seven a.code a.pub_key refl refl))))))))

  -- An account in range is read back from its encoding, with its code and key, present or not.
  pub unmarshal_account-back :
      (a : Account) → IsValid a → unmarshal_account (account_bytes a) ≡ ok a
  unfolding unmarshal_account
  unmarshal_account-back a v =
      decode-Runs l bad_tag account_step (empty_account []) (account_bytes a) (ok a)
        (account-Runs a v)
