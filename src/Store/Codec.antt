-- ===== src/Store/Codec.antt =====
-- Encoding of accounts: pkg/state/codec.go.
pub mod RoundTrip
use opencoin.Prelude.{
  ℕ, [], length, ltb, Bytes, ◌==◌, if◌then◌else◌, Option, none, some, Result, ok, err,
}
use opencoin.Prelude.Int.{to_u64, to_i64}
use opencoin.Types.{Account, empty_account}
use opencoin.Wire.{
  Wire, append_tag, append_varint, append_bytes, varint_type, bytes_type, bytes_field, varint_field,
  skip_field, decode,
}

module _ ⦃w : Wire⦄ where
  -- `if len(v) > 0 { AppendTag; AppendBytes }`.
  unfoldable pub append_optional : ℕ → Bytes → Bytes → Bytes
  append_optional num b v =
      if ltb 0 (length v) then append_bytes (append_tag b num bytes_type) v else b

  unfoldable pub account_bytes : Account → Bytes
  account_bytes acct =
      let with_address = append_bytes (append_tag [] 1 bytes_type) acct.address in
      let with_balance = append_varint (append_tag with_address 2 varint_type) acct.balance in
      let with_nonce = append_varint (append_tag with_balance 3 varint_type) acct.nonce in
      let with_stake = append_varint (append_tag with_nonce 4 varint_type) acct.stake in
      let with_rc = append_varint (append_tag with_stake 5 varint_type) acct.rc in
      let with_rc_max = append_varint (append_tag with_rc 6 varint_type) acct.rc_max in
      let with_time =
        append_varint (append_tag with_rc_max 7 varint_type) (to_u64 acct.last_rc_effective_time) in
      append_optional 9 (append_optional 8 with_time acct.code) acct.pub_key

  unfoldable pub marshal_account : Option Account → Result Bytes
  marshal_account none = err "account is nil"
  marshal_account (some acct) = ok (account_bytes acct)

  unfoldable pub account_step : Account → ℕ → ℕ → Bytes → Result (Account × Bytes)
  account_step acct num typ b =
      if num == 1
      then bytes_field "invalid address type" "invalid address" typ b
          (λ v. record acct { address = v })
      else (if num == 2
          then varint_field "invalid balance type" "invalid balance" typ b
              (λ v. record acct { balance = v })
          else (if num == 3
              then varint_field "invalid nonce type" "invalid nonce" typ b
                  (λ v. record acct { nonce = v })
              else (if num == 4
                  then varint_field "invalid stake type" "invalid stake" typ b
                      (λ v. record acct { stake = v })
                  else (if num == 5
                      then varint_field "invalid rc type" "invalid rc" typ b
                          (λ v. record acct { rc = v })
                      else (if num == 6
                          then varint_field "invalid rc_max type" "invalid rc_max" typ b
                              (λ v. record acct { rc_max = v })
                          else (if num == 7
                              then varint_field "invalid last_rc_effective_time type"
                                  "invalid last_rc_effective_time" typ b
                                  (λ v. record acct { last_rc_effective_time = to_i64 v })
                              else (if num == 8
                                  then bytes_field "invalid code type" "invalid code" typ b
                                      (λ v. record acct { code = v })
                                  else (if num == 9
                                      then bytes_field "invalid pub_key type" "invalid pub_key" typ
                                          b (λ v. record acct { pub_key = v })
                                      else skip_field "invalid account field" num typ b acct))))))))

  unfoldable pub unmarshal_account : Bytes → Result Account
  unmarshal_account b = decode "invalid account tag" account_step (empty_account []) b
