-- ===== src/Encoding/Blocks.antt =====
-- Round trip of blocks, and what a block hash covers.
use opencoin.Prelude.{
  ◌≡◌, ◌≢◌, refl, List, [], ◌∷◌, ◌++◌, append-nil, append_assoc, Bytes, length, IsU64, All, arith,
  Result, ok, sym, ◌∙◌, subst,
}
use opencoin.Prelude.Int.{ℤ, IsI64, to_u64, to_u64-IsU64, to_i64-to_u64}
use Prim.Native.String.{String}
use opencoin.Types.{Transaction, Block}
use opencoin.Wire.{Wire, WireLaws, varint_type, bytes_type, append_tag, append_bytes}
use opencoin.Wire.Loop.{
  Runs, Runs-nil, Runs-field, decode-Runs, tag-nonempty, bytes_field-back, varint_field-back,
}
use opencoin.Encoding.{
  transaction_bytes, header_bytes, append_transactions, append_all, block_bytes,
}
use opencoin.Encoding.Unmarshal.{
  hash_field, nested_transaction, block_step, unmarshal_block, empty_block,
}
use opencoin.Encoding.Transactions.{unmarshal_transaction-back}

-- The fields of a block are in the range of their Go types: its hashes have 32 bytes.
pub record IsValid (block : Block) : Type 0 where
  pub height : IsU64 block.height
  pub prev_hash : length block.prev_hash ≡ 32
  pub state_root : length block.state_root ≡ 32
  pub timestamp : IsI64 block.timestamp
  pub nonces : All (λ tx. IsU64 tx.nonce) block.transactions

module _ ⦃w : Wire⦄ (l : WireLaws w) where
  -- What the loops over the transactions and the signatures append.
  abbrev transactions_fields : List Transaction → Bytes
  transactions_fields [] = []
  transactions_fields (tx ∷ txs) =
      w.tag 6 bytes_type ++ (w.bytes (transaction_bytes tx) ++ transactions_fields txs)

  abbrev sigs_fields : List Bytes → Bytes
  sigs_fields [] = []
  sigs_fields (sig ∷ sigs) = w.tag 7 bytes_type ++ (w.bytes sig ++ sigs_fields sigs)

  append_transactions-eq :
      (b : Bytes) (txs : List Transaction)
      → append_transactions b txs ≡ b ++ transactions_fields txs
  unfolding append_transactions
  append_transactions-eq b [] = sym (append-nil b)
  append_transactions-eq b (tx ∷ txs) =
      append_transactions-eq (append_bytes (append_tag b 6 bytes_type) (transaction_bytes tx)) txs
      ∙ simp append_assoc

  append_sigs-eq : (b : Bytes) (sigs : List Bytes) → append_all 7 b sigs ≡ b ++ sigs_fields sigs
  unfolding append_all
  append_sigs-eq b [] = sym (append-nil b)
  append_sigs-eq b (sig ∷ sigs) =
      append_sigs-eq (append_bytes (append_tag b 7 bytes_type) sig) sigs ∙ simp append_assoc

  block_bytes-eq :
      (block : Block)
      → block_bytes block
        ≡ w.tag 1 varint_type
          ++ (w.varint block.height
              ++ (w.tag 2 bytes_type
                  ++ (w.bytes block.prev_hash
                      ++ (w.tag 3 bytes_type
                          ++ (w.bytes block.state_root
                              ++ (w.tag 4 varint_type
                                  ++ (w.varint (to_u64 block.timestamp)
                                      ++ (w.tag 5 bytes_type
                                          ++ (w.bytes block.proposer
                                              ++ (transactions_fields block.transactions
                                                  ++ sigs_fields block.validator_sigs))))))))))
  unfolding block_bytes header_bytes
  block_bytes-eq block = rw (append_sigs-eq, append_transactions-eq) (simp append_assoc)

  abbrev bad_tag : String
  bad_tag = "invalid block tag"

  sigs-Runs :
      (block : Block) (sigs : List Bytes)
      → Runs l bad_tag block_step block
          (sigs_fields sigs)
          (ok (record block { validator_sigs = block.validator_sigs ++ sigs }))
  unfolding block_step
  sigs-Runs block [] = rw append-nil (Runs-nil l bad_tag block_step block)
  sigs-Runs block (sig ∷ sigs) =
      let next : Block = record block { validator_sigs = block.validator_sigs ++ sig ∷ [] } in
      Runs-field l bad_tag block_step block next 7 bytes_type (w.bytes sig) (sigs_fields sigs) _
        (omega arith) (bytes_field-back l _ _ sig _ _) (rw append_assoc at (sigs-Runs next sigs))

  nested_transaction-back :
      (tx : Transaction) (rest : Bytes) (block : Block)
      → IsU64 tx.nonce
      → nested_transaction bytes_type (w.bytes (transaction_bytes tx) ++ rest) block
        ≡ ok (record block { transactions = block.transactions ++ tx ∷ [] }, rest)
  unfolding nested_transaction
  nested_transaction-back tx rest block h =
      rw (bytes_field-back l _ _ (transaction_bytes tx) rest _, unmarshal_transaction-back l tx h)

  transactions-Runs :
      (block : Block) (txs : List Transaction) (rest : Bytes) (r : Result Block)
      → All (λ tx. IsU64 tx.nonce) txs
      → Runs l bad_tag block_step (record block { transactions = block.transactions ++ txs }) rest r
      → Runs l bad_tag block_step block (transactions_fields txs ++ rest) r
  unfolding block_step
  transactions-Runs block [] rest r h k = rw append-nil at k
  transactions-Runs block (tx ∷ txs) rest r h k =
      let next : Block = record block { transactions = block.transactions ++ tx ∷ [] } in
      rw (append_assoc, append_assoc)
        (Runs-field l bad_tag block_step block next 6 bytes_type (w.bytes (transaction_bytes tx))
          (transactions_fields txs ++ rest) r (omega arith) (nested_transaction-back tx _ block h.0)
          (transactions-Runs next txs rest r h.1
            (rw (append_assoc block.transactions (tx ∷ []) txs) k)))

  hash_field-back :
      (wrong invalid : String) (v rest : Bytes) (store : Bytes → Block)
      → length v ≡ 32
      → hash_field wrong invalid bytes_type (w.bytes v ++ rest) store ≡ ok (store v, rest)
  unfolding hash_field
  hash_field-back wrong invalid v rest store h = rw (bytes_field-back l _ _ v rest _, h)

  timestamp-back :
      (block : Block) (rest : Bytes) (t : ℤ)
      → IsI64 t
      → block_step block 4 varint_type (w.varint (to_u64 t) ++ rest)
        ≡ ok (record block { timestamp = t }, rest)
  unfolding block_step
  timestamp-back block rest t h =
      varint_field-back l _ _ (to_u64 t) rest _ (to_u64-IsU64 t) ∙ rw (to_i64-to_u64 t h)

  lists-Runs :
      (start block : Block)
      → All (λ tx. IsU64 tx.nonce) block.transactions
      → record start {
        transactions = start.transactions ++ block.transactions;
        validator_sigs = start.validator_sigs ++ block.validator_sigs;
      }
        ≡ block
      → Runs l bad_tag block_step start
          (transactions_fields block.transactions ++ sigs_fields block.validator_sigs)
          (ok block)
  lists-Runs start block h e =
      let middle : Block = record start {
        transactions = start.transactions ++ block.transactions;
      } in
      transactions-Runs start block.transactions (sigs_fields block.validator_sigs) (ok block) h (
        subst (λ b. Runs l bad_tag block_step middle (sigs_fields block.validator_sigs) (ok b)) e
          (sigs-Runs middle block.validator_sigs))

  block-Runs :
      (block : Block)
      → IsValid block
      → Runs l bad_tag block_step empty_block (block_bytes block) (ok block)
  unfolding block_step
  block-Runs block v =
      let one : Block = record empty_block { height = block.height } in
      let two : Block = record one { prev_hash = block.prev_hash } in
      let three : Block = record two { state_root = block.state_root } in
      let four : Block = record three { timestamp = block.timestamp } in
      let five : Block = record four { proposer = block.proposer } in
      rw (block_bytes-eq block) (
        Runs-field l bad_tag block_step empty_block one 1 varint_type (w.varint block.height) _
          (ok block) (omega arith) (varint_field-back l _ _ block.height _ _ v.height)
          (Runs-field l bad_tag block_step one two 2 bytes_type (w.bytes block.prev_hash) _
            (ok block) (omega arith) (hash_field-back _ _ block.prev_hash _ _ v.prev_hash)
            (Runs-field l bad_tag block_step two three 3 bytes_type (w.bytes block.state_root) _
              (ok block) (omega arith) (hash_field-back _ _ block.state_root _ _ v.state_root)
              (Runs-field l bad_tag block_step three four 4 varint_type
                (w.varint (to_u64 block.timestamp)) _ (ok block) (omega arith)
                (timestamp-back three _ block.timestamp v.timestamp)
                (Runs-field l bad_tag block_step four five 5 bytes_type (w.bytes block.proposer) _
                  (ok block) (omega arith) (bytes_field-back l _ _ block.proposer _ _)
                  (lists-Runs five block v.nonces refl))))))

  block_bytes_nonempty : (block : Block) → length (block_bytes block) ≢ 0
  block_bytes_nonempty block =
      rw (block_bytes-eq block) (tag-nonempty l 1 varint_type _ (omega arith))

  -- A block in range, with its transactions and the validators' signatures, is read back from its
  -- encoding.
  pub unmarshal_block-back :
      (block : Block) → IsValid block → unmarshal_block (block_bytes block) ≡ ok block
  unfolding unmarshal_block
  unmarshal_block-back block v = ground (
    arith,
    block_bytes_nonempty block,
    decode-Runs l bad_tag block_step empty_block (block_bytes block) (ok block)
        (block-Runs block v),
  )
