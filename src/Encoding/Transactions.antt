-- ===== src/Encoding/Transactions.antt =====
-- Round trip of transactions, and what a signature covers.
use opencoin.Prelude.{◌≡◌, ◌≢◌, [], ◌++◌, some, append-nil, append_assoc, length, IsU64, arith, ok}
use Prim.Native.String.{String}
use opencoin.Types.{Transaction}
use opencoin.Wire.{Wire, WireLaws, varint_type, bytes_type}
use opencoin.Wire.Loop.{
  Runs, Runs-nil, Runs-field, decode-Runs, tag-nonempty, bytes_field-back, varint_field-back,
}
use opencoin.Encoding.{transaction_bytes, marshal_transaction, signing_bytes}
use opencoin.Encoding.Unmarshal.{transaction_step, unmarshal_transaction, empty_transaction}

module _ ⦃w : Wire⦄ (l : WireLaws w) where
  transaction_bytes-eq :
      (tx : Transaction)
      → transaction_bytes tx
        ≡ w.tag 1 bytes_type
          ++ (w.bytes tx.from
              ++ (w.tag 2 bytes_type
                  ++ (w.bytes tx.to
                      ++ (w.tag 3 varint_type
                          ++ (w.varint tx.nonce
                              ++ (w.tag 4 bytes_type
                                  ++ (w.bytes tx.payload
                                      ++ (w.tag 5 bytes_type ++ (w.bytes tx.signature ++ [])))))))))
  unfolding transaction_bytes
  transaction_bytes-eq tx = simp (append_assoc, append-nil)

  -- The encoding is not empty: it begins with a tag.
  pub transaction_bytes_nonempty : (tx : Transaction) → length (transaction_bytes tx) ≢ 0
  transaction_bytes_nonempty tx =
      rw (transaction_bytes-eq tx) (tag-nonempty l 1 bytes_type _ (omega arith))

  transaction-Runs :
      (tx : Transaction)
      → IsU64 tx.nonce
      → Runs l "invalid transaction tag" transaction_step empty_transaction
          (transaction_bytes tx)
          (ok tx)
  unfolding transaction_step
  transaction-Runs tx h =
      let one : Transaction = record empty_transaction { from = tx.from } in
      let two : Transaction = record one { to = tx.to } in
      let three : Transaction = record two { nonce = tx.nonce } in
      let four : Transaction = record three { payload = tx.payload } in
      let bad : String = "invalid transaction tag" in
      rw (transaction_bytes-eq tx) (
        Runs-field l bad transaction_step empty_transaction one 1 bytes_type (w.bytes tx.from) _
          (ok tx) (omega arith) (bytes_field-back l _ _ tx.from _ _)
          (Runs-field l bad transaction_step one two 2 bytes_type (w.bytes tx.to) _ (ok tx)
            (omega arith) (bytes_field-back l _ _ tx.to _ _)
            (Runs-field l bad transaction_step two three 3 varint_type (w.varint tx.nonce) _ (ok tx)
              (omega arith) (varint_field-back l _ _ tx.nonce _ _ h)
              (Runs-field l bad transaction_step three four 4 bytes_type (w.bytes tx.payload) _
                (ok tx) (omega arith) (bytes_field-back l _ _ tx.payload _ _)
                (Runs-field l bad transaction_step four tx 5 bytes_type (w.bytes tx.signature) []
                  (ok tx) (omega arith) (bytes_field-back l _ _ tx.signature [] _)
                  (Runs-nil l bad transaction_step tx))))))

  -- A transaction whose nonce is a uint64 is read back from its encoding.
  pub unmarshal_transaction-back :
      (tx : Transaction) → IsU64 tx.nonce → unmarshal_transaction (transaction_bytes tx) ≡ ok tx
  unfolding unmarshal_transaction
  unmarshal_transaction-back tx h = ground (
    arith,
    transaction_bytes_nonempty tx,
    decode-Runs l "invalid transaction tag" transaction_step empty_transaction
        (transaction_bytes tx) (ok tx) (transaction-Runs tx h),
  )

  -- The bytes that are signed determine everything of a transaction but its signature: two
  -- transactions with equal signing bytes have the same sender, recipient, nonce and payload.
  pub signing_bytes-injective :
      (tx tx' : Transaction)
      → IsU64 tx.nonce
      → IsU64 tx'.nonce
      → signing_bytes (some tx) ≡ signing_bytes (some tx')
      → record tx { signature = [] } ≡ record tx' { signature = [] }
  unfolding signing_bytes marshal_transaction
  signing_bytes-injective tx tx' h h' e =
      let bare : Transaction = record tx { signature = [] } in
      let bare' : Transaction = record tx' { signature = [] } in
      cc (unmarshal_transaction-back bare h, unmarshal_transaction-back bare' h', e)
