-- ===== src/Store/Metadata.antt =====
-- Round trip of the consensus metadata, and the reads that writing it leaves alone.
use opencoin.Prelude.{
  differ_at, ℕ, ◌≡◌, refl, ◌≢◌, if_pos, if_neg, ◌++◌, length, Bytes, Bytes_discrete, some, ok,
  IsU64, arith, >>=-eq-ok, ap, ◌∙◌,
}
use opencoin.Types.{Hash}
use opencoin.Wire.{Wire}
use opencoin.Encoding.{big_endian, marshal_uint64}
use opencoin.Store.{
  Kv, KvLaws, from_big_endian, get_consensus_state, set_consensus_state, get_block_by_height,
  block_prefix, block_height_prefix, meta_consensus_height, meta_consensus_round,
  meta_consensus_last_finalized, number_or_zero, hash_or_zero,
}
use opencoin.Store.Agree.{get_block_by_height-agrees}
use opencoin.Store.Timestamps.{from_big_endian-big_endian, length-big_endian}

marshal_uint64-eq : (v : ℕ) → marshal_uint64 v ≡ big_endian 8 v
unfolding marshal_uint64
marshal_uint64-eq v = refl

number_of_eight : (b : Bytes) → length b ≡ 8 → number_or_zero (some b) ≡ from_big_endian 0 b
number_of_eight b eight = rw eight refl

-- A number is read back from its eight bytes.
number_or_zero-back : (v : ℕ) → IsU64 v → number_or_zero (some (marshal_uint64 v)) ≡ v
number_or_zero-back v small =
    ap (λ b. number_or_zero (some b)) (marshal_uint64-eq v)
    ∙ number_of_eight (big_endian 8 v) (length-big_endian 8 v)
    ∙ from_big_endian-big_endian 8 v (omega arith)

hash_or_zero-back : (h : Hash) → length h ≡ 32 → hash_or_zero (some h) ≡ h
hash_or_zero-back h wide = rw wide refl

module _ ⦃w : Wire⦄ (kv : Kv) (laws : KvLaws kv) where
  -- Three writes under other keys.
  written_elsewhere :
      (k1 k2 k3 v1 v2 v3 key : Bytes) (db db1 db2 db' : kv.Db)
      → kv.set db k1 v1 ≡ ok db1
      → kv.set db1 k2 v2 ≡ ok db2
      → kv.set db2 k3 v3 ≡ ok db'
      → k1 ≢ key
      → k2 ≢ key
      → k3 ≢ key
      → kv.get db' key ≡ kv.get db key
  written_elsewhere k1 k2 k3 v1 v2 v3 key db db1 db2 db' s1 s2 s3 n1 n2 n3 =
      laws.get_set db2 db' k3 key v3 s3
      ∙ if_neg (Bytes_discrete k3 key) n3 _ _
      ∙ laws.get_set db1 db2 k2 key v2 s2
      ∙ if_neg (Bytes_discrete k2 key) n2 _ _
      ∙ laws.get_set db db1 k1 key v1 s1
      ∙ if_neg (Bytes_discrete k1 key) n1 _ _

  written_here :
      (k v : Bytes) (db db' : kv.Db) → kv.set db k v ≡ ok db' → kv.get db' k ≡ ok (some v)
  written_here k v db db' s = laws.get_set db db' k k v s ∙ if_pos (Bytes_discrete k k) refl _ _

  written_before :
      (k j v u : Bytes) (db db' : kv.Db)
      → kv.set db k v ≡ ok db'
      → k ≢ j
      → kv.get db j ≡ ok (some u)
      → kv.get db' j ≡ ok (some u)
  written_before k j v u db db' s ne found =
      laws.get_set db db' k j v s ∙ if_neg (Bytes_discrete k j) ne _ _ ∙ found

  -- The metadata that was stored is read back.
  pub get_consensus_state-set_consensus_state :
      (db db' : kv.Db) (height round : ℕ) (last : Hash)
      → IsU64 height
      → IsU64 round
      → length last ≡ 32
      → set_consensus_state kv db height round last ≡ ok db'
      → get_consensus_state kv db' ≡ ok (height, round, last)
  unfolding set_consensus_state get_consensus_state
  get_consensus_state-set_consensus_state db db' height round last small_h small_r wide e =
      let at_height = meta_consensus_height in
      let at_round = meta_consensus_round in
      let at_last = meta_consensus_last_finalized in
      let (db1, s1, e1) = >>=-eq-ok (kv.set db at_height (marshal_uint64 height)) _ e in
      let (db2, s2, s3) = >>=-eq-ok (kv.set db1 at_round (marshal_uint64 round)) _ e1 in
      let found_height =
        written_before at_last at_height last (marshal_uint64 height) db2 db' s3
          (differ_at 15 _ _ (omega arith))
          (written_before at_round at_height (marshal_uint64 round) _ db1 db2 s2
            (differ_at 15 _ _ (omega arith)) (written_here at_height _ db db1 s1)) in
      let found_round =
        written_before at_last at_round last (marshal_uint64 round) db2 db' s3
          (differ_at 15 _ _ (omega arith)) (written_here at_round _ db1 db2 s2) in
      rw
        (
          found_height,
          found_round,
          written_here at_last last db2 db' s3,
          number_or_zero-back height small_h,
          number_or_zero-back round small_r,
          hash_or_zero-back last wide,
        )
        refl

  -- A block that could be read is read as before.
  pub get_block_by_height-set_consensus_state :
      (db db' : kv.Db) (height round n : ℕ) (last : Hash)
      → set_consensus_state kv db height round last ≡ ok db'
      → get_block_by_height kv db' n ≡ get_block_by_height kv db n
  unfolding set_consensus_state
  get_block_by_height-set_consensus_state db db' height round n last e =
      let (db1, s1, e1) = >>=-eq-ok (kv.set db meta_consensus_height (marshal_uint64 height)) _ e in
      let (db2, s2, s3) = >>=-eq-ok (kv.set db1 meta_consensus_round (marshal_uint64 round)) _ e1 in
      let kept =
        λ (key : Bytes) (n1 : meta_consensus_height ≢ key) (n2 : meta_consensus_round ≢ key)
            (n3 : meta_consensus_last_finalized ≢ key).
          written_elsewhere _ _ _ _ _ _ key db db1 db2 db' s1 s2 s3 n1 n2 n3 in
      get_block_by_height-agrees kv db db' n
        (λ hash.
          kept (block_prefix ++ hash) (differ_at 0 _ _ (omega arith))
            (differ_at 0 _ _ (omega arith)) (differ_at 0 _ _ (omega arith)))
        (kept (block_height_prefix ++ marshal_uint64 n) (differ_at 0 _ _ (omega arith))
          (differ_at 0 _ _ (omega arith)) (differ_at 0 _ _ (omega arith)))
