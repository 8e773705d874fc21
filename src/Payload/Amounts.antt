-- ===== src/Payload/Amounts.antt =====
-- The three variants with an address and an amount: the decoder reads back what the encoder wrote.
use opencoin.Prelude.{ℕ, ◌≡◌, [], ◌++◌, append-nil, append_assoc, IsU64, arith, ok}
use Prim.Native.String.{String}
use opencoin.Types.{Address}
use opencoin.Wire.{Wire, WireLaws, varint_type, bytes_type}
use opencoin.Wire.Loop.{Runs-nil, Runs-field, decode-Runs, bytes_field-back, varint_field-back}
use opencoin.Payload.{
  Transfer, StakeDelegate, StakeUndelegate, transfer, stake_delegate, stake_undelegate,
  encode_amount,
}
use opencoin.Payload.Decode.{
  transfer_step, decode_transfer, stake_delegate_step, decode_stake_delegate, stake_undelegate_step,
  decode_stake_undelegate,
}

module _ ⦃w : Wire⦄ (l : WireLaws w) where
  encode_amount-eq :
      (addr : Address) (amount : ℕ)
      → encode_amount addr amount
        ≡ w.tag 1 bytes_type ++ (w.bytes addr ++ (w.tag 2 varint_type ++ (w.varint amount ++ [])))
  unfolding encode_amount
  encode_amount-eq addr amount = simp (append_assoc, append-nil)

  pub transfer-back :
      (t : Transfer)
      → IsU64 t.amount
      → decode_transfer (encode_amount t.to t.amount) ≡ ok (transfer t)
  unfolding decode_transfer
  transfer-back t h =
      let start : Transfer = record { to = []; amount = 0 } in
      let half : Transfer = record start { to = t.to } in
      let bad : String = "invalid transfer tag" in
      let run =
        Runs-field l bad transfer_step start half 1 bytes_type (w.bytes t.to) _ (ok t) (omega arith)
          (bytes_field-back l _ _ t.to _ _)
          (Runs-field l bad transfer_step half t 2 varint_type (w.varint t.amount) [] (ok t)
            (omega arith) (varint_field-back l _ _ t.amount [] _ h)
            (Runs-nil l bad transfer_step t)) in
      rw (encode_amount-eq t.to t.amount, decode-Runs l bad transfer_step start _ (ok t) run)

  pub stake_delegate-back :
      (t : StakeDelegate)
      → IsU64 t.amount
      → decode_stake_delegate (encode_amount t.validator t.amount) ≡ ok (stake_delegate t)
  unfolding decode_stake_delegate
  stake_delegate-back t h =
      let start : StakeDelegate = record { validator = []; amount = 0 } in
      let half : StakeDelegate = record start { validator = t.validator } in
      let bad : String = "invalid stake delegate tag" in
      let run =
        Runs-field l bad stake_delegate_step start half 1 bytes_type (w.bytes t.validator) _ (ok t)
          (omega arith) (bytes_field-back l _ _ t.validator _ _)
          (Runs-field l bad stake_delegate_step half t 2 varint_type (w.varint t.amount) [] (ok t)
            (omega arith) (varint_field-back l _ _ t.amount [] _ h)
            (Runs-nil l bad stake_delegate_step t)) in
      rw (
        encode_amount-eq t.validator t.amount,
        decode-Runs l bad stake_delegate_step start _ (ok t) run,
      )

  pub stake_undelegate-back :
      (t : StakeUndelegate)
      → IsU64 t.amount
      → decode_stake_undelegate (encode_amount t.validator t.amount) ≡ ok (stake_undelegate t)
  unfolding decode_stake_undelegate
  stake_undelegate-back t h =
      let start : StakeUndelegate = record { validator = []; amount = 0 } in
      let half : StakeUndelegate = record start { validator = t.validator } in
      let bad : String = "invalid stake undelegate tag" in
      let run =
        Runs-field l bad stake_undelegate_step start half 1 bytes_type (w.bytes t.validator) _
          (ok t) (omega arith) (bytes_field-back l _ _ t.validator _ _)
          (Runs-field l bad stake_undelegate_step half t 2 varint_type (w.varint t.amount) [] (ok t)
            (omega arith) (varint_field-back l _ _ t.amount [] _ h)
            (Runs-nil l bad stake_undelegate_step t)) in
      rw (
        encode_amount-eq t.validator t.amount,
        decode-Runs l bad stake_undelegate_step start _ (ok t) run,
      )
