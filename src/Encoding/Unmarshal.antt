-- ===== src/Encoding/Unmarshal.antt =====
-- Decoding of transactions and blocks: pkg/encoding/unmarshal.go.
use opencoin.Prelude.{
  ℕ, not, [], ◌∷◌, ◌++◌, length, Bytes, ◌==◌, if◌then◌else◌, Result, ok, ◌>>=◌, ◌>>◌, fail_if,
}
use opencoin.Prelude.Int.{pos, to_i64}
use Prim.Native.String.{String}
use opencoin.Types.{Transaction, Block, zero_hash}
use opencoin.Wire.{Wire, bytes_field, varint_field, skip_field, decode}

abbrev pub empty_transaction : Transaction
empty_transaction = record { from = []; to = []; nonce = 0; payload = []; signature = [] }

abbrev pub empty_block : Block
empty_block = record {
  height = 0;
  prev_hash = zero_hash;
  state_root = zero_hash;
  timestamp = pos 0;
  proposer = [];
  transactions = [];
  validator_sigs = [];
}

module _ ⦃w : Wire⦄ where
  unfoldable pub transaction_step : Transaction → ℕ → ℕ → Bytes → Result (Transaction × Bytes)
  transaction_step tx num typ b =
      if num == 1
      then bytes_field "invalid from type" "invalid from" typ b (λ v. record tx { from = v })
      else (if num == 2
          then bytes_field "invalid to type" "invalid to" typ b (λ v. record tx { to = v })
          else (if num == 3
              then varint_field "invalid nonce type" "invalid nonce" typ b
                  (λ v. record tx { nonce = v })
              else (if num == 4
                  then bytes_field "invalid payload type" "invalid payload" typ b
                      (λ v. record tx { payload = v })
                  else (if num == 5
                      then bytes_field "invalid signature type" "invalid signature" typ b
                          (λ v. record tx { signature = v })
                      else skip_field "invalid transaction field" num typ b tx))))

  unfoldable pub unmarshal_transaction : Bytes → Result Transaction
  unmarshal_transaction b = do
    fail_if (length b == 0) "empty transaction"
    decode "invalid transaction tag" transaction_step empty_transaction b

  -- A hash is a byte string of length 32.
  unfoldable pub hash_field : String → String → ℕ → Bytes → (Bytes → Block) → Result (Block × Bytes)
  hash_field wrong_type invalid typ b store = do
    (v, rest) ← bytes_field wrong_type invalid typ b (λ v. v)
    fail_if (not (length v == 32)) invalid
    ok (store v, rest)

  unfoldable pub nested_transaction : ℕ → Bytes → Block → Result (Block × Bytes)
  nested_transaction typ b block = do
    (v, rest) ← bytes_field "invalid tx type" "invalid tx bytes" typ b (λ v. v)
    tx ← unmarshal_transaction v
    ok (record block { transactions = block.transactions ++ tx ∷ [] }, rest)

  unfoldable pub block_step : Block → ℕ → ℕ → Bytes → Result (Block × Bytes)
  block_step block num typ b =
      if num == 1
      then varint_field "invalid height type" "invalid height" typ b
          (λ v. record block { height = v })
      else (if num == 2
          then hash_field "invalid prev_hash type" "invalid prev_hash" typ b
              (λ v. record block { prev_hash = v })
          else (if num == 3
              then hash_field "invalid state_root type" "invalid state_root" typ b
                  (λ v. record block { state_root = v })
              else (if num == 4
                  then varint_field "invalid timestamp type" "invalid timestamp" typ b
                      (λ v. record block { timestamp = to_i64 v })
                  else (if num == 5
                      then bytes_field "invalid proposer type" "invalid proposer" typ b
                          (λ v. record block { proposer = v })
                      else (if num == 6
                          then nested_transaction typ b block
                          else (if num == 7
                              then bytes_field "invalid validator sig type" "invalid validator sig"
                                  typ b
                                  (λ v. record block {
                                    validator_sigs = block.validator_sigs ++ v ∷ [];
                                  })
                              else skip_field "invalid block field" num typ b block))))))

  unfoldable pub unmarshal_block : Bytes → Result Block
  unmarshal_block b = do
    fail_if (length b == 0) "empty block"
    decode "invalid block tag" block_step empty_block b
