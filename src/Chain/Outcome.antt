-- ===== src/Chain/Outcome.antt =====
-- What a block leaves behind, applied or refused.
use opencoin.Prelude.{
  ◌≡◌, refl, ◌≢◌, if_pos, if_neg, List, [], ◌∷◌, ◌++◌, length, Bytes, Bytes_discrete, Bool, true,
  false, not, some, Result, ok, err, panics, stuck, ◌>>=◌, ◌>>◌, fail_if, and_then, >>=-eq-ok,
  arith, sym, ap, ◌∙◌, subst,
}
use opencoin.Prelude.Int.{ℤ}
use opencoin.Types.{Hash, Block}
use opencoin.Wire.{Wire, WireLaws}
use opencoin.Encoding.{hash_block, marshal_block_for_hash, marshal_uint64, block_bytes}
use opencoin.Encoding.Blocks.{IsValid, unmarshal_block-back}
use opencoin.Store.{
  KvLaws, get_last_timestamps, set_last_timestamps, set_block_with_writer, get_block_by_hash,
  get_block_by_height, block_prefix, block_height_prefix,
}
use opencoin.Store.Agree.{get_block_by_hash-agrees, get_block_by_height-agrees}
use opencoin.Crypto.{Crypto, bytes_equal}
use opencoin.Crypto.Sender.{bytes_equal→eq}
use opencoin.Contracts.{Runtime}
use opencoin.Rc.{Params}
use opencoin.Roots.{compute_state_root}
use opencoin.Chain.{
  Database, Chain, trim, run_block, preview_block, write_block, record_root, finish, apply_block,
}

-- A read sees the last write, and a commit changes no read.
pub record DatabaseLaws (b : Database) : Type 0 where
  pub kv : KvLaws b.kv
  pub commit_get :
      (db db' : b.kv.Db) (k : Bytes) → b.commit db ≡ ok db' → b.kv.get db' k ≡ b.kv.get db k

passed : (bad : Bool) (message : _) (v : Unit {0}) → fail_if bad message ≡ ok v → bad ≡ false
passed true message v e = cc
passed false message v e = refl

same_bytes : (x y : Bytes) → not (bytes_equal x y) ≡ false → x ≡ y
same_bytes x y e = bytes_equal→eq x y (ground arith)

module _ (b : Database) (r : Runtime) ⦃w : Wire⦄ (c : Crypto) (p : Params) where
  abbrev pub Untouched : Chain b r → Chain b r → Type 0
  Untouched s s' = (s'.store ≡ s.store) × (s'.dag ≡ s.dag)

  -- A block that was applied has the root that was previewed and is read back by its hash and by
  -- its height; a refused block leaves the store and the graph as they were.
  abbrev pub Outcome : Chain b r → Block → Chain b r × Result Hash → Type 0
  Outcome s block (s', ok root) =
      (root ≡ block.state_root)
      × ((preview_block b r c p s (some block)).1 ≡ ok root)
      × ((hash : Hash) × (hash_block c.sha256 (some block) ≡ ok hash)
          × (get_block_by_hash b.kv s'.store hash ≡ ok (some block)))
      × (get_block_by_height b.kv s'.store block.height ≡ ok (some block))
  Outcome s block (s', err e) = Untouched s s'
  Outcome s block (s', panics e) = Untouched s s'
  Outcome s block (s', stuck) = Untouched s s'

  and_then-Outcome :
      {V : Type 0} (s s1 : Chain b r) (block : Block) (m : Result V)
      (next : V → Chain b r × Result Hash)
      → Untouched s s1
      → ((v : V) → m ≡ ok v → Outcome s block (next v))
      → Outcome s block (and_then s1 m next)
  and_then-Outcome s s1 block stuck next u h = u
  and_then-Outcome s s1 block (panics e) next u h = u
  and_then-Outcome s s1 block (err e) next u h = u
  and_then-Outcome s s1 block (ok v) next u h = h v refl

  module _ (l : WireLaws w) (laws : DatabaseLaws b)
      (wide : (x : Bytes) → length (c.sha256 x) ≡ 32) where
    hash_wide :
        (block : Block) (hash : Hash)
        → hash_block c.sha256 (some block) ≡ ok hash
        → length hash ≡ 32
    unfolding hash_block
    hash_wide block hash h =
        let (bytes, _, e) = >>=-eq-ok (marshal_block_for_hash (some block)) _ h in
        let same : c.sha256 bytes ≡ hash = cc in subst (λ x. length x ≡ 32) same (wide bytes)

    block_keys_differ : (x y : Bytes) → block_height_prefix ++ x ≢ block_prefix ++ y
    block_keys_differ x y e = absurd (grind arith)

    -- What was written under the block's hash and height is read back.
    written_back :
        (block : Block) (hash : Hash) (db db' : b.kv.Db)
        → IsValid block
        → length hash ≡ 32
        → set_block_with_writer b.kv db block hash ≡ ok db'
        → (get_block_by_hash b.kv db' hash ≡ ok (some block))
          × (get_block_by_height b.kv db' block.height ≡ ok (some block))
    unfolding set_block_with_writer get_block_by_hash get_block_by_height
    written_back block hash db db' v wide_hash h =
        let by_hash = block_prefix ++ hash in
        let by_height = block_height_prefix ++ marshal_uint64 block.height in
        let bytes = block_bytes block in
        let (db1, first, second) = >>=-eq-ok (b.kv.set db by_hash bytes) _ h in
        let at_height : b.kv.get db' by_height ≡ ok (some hash) =
          laws.kv.get_set db1 db' by_height by_height hash second
          ∙ if_pos (Bytes_discrete by_height by_height) refl _ _ in
        let at_hash : b.kv.get db' by_hash ≡ ok (some bytes) =
          laws.kv.get_set db1 db' by_height by_hash hash second
          ∙ if_neg (Bytes_discrete by_height by_hash)
              (block_keys_differ (marshal_uint64 block.height) hash) _ _
          ∙ laws.kv.get_set db db1 by_hash by_hash bytes first
          ∙ if_pos (Bytes_discrete by_hash by_hash) refl _ _ in
        let back = unmarshal_block-back l block v in
        (rw (at_hash, back) refl, rw (at_height, wide_hash, at_hash, back) refl)

    committed_by_hash :
        (hash : Hash) (db db' : b.kv.Db)
        → b.commit db ≡ ok db'
        → get_block_by_hash b.kv db' hash ≡ get_block_by_hash b.kv db hash
    committed_by_hash hash db db' h =
        get_block_by_hash-agrees b.kv db db' hash (laws.commit_get db db' (block_prefix ++ hash) h)

    pub committed_by_height :
        (height : _) (db db' : b.kv.Db)
        → b.commit db ≡ ok db'
        → get_block_by_height b.kv db' height ≡ get_block_by_height b.kv db height
    committed_by_height height db db' h =
        get_block_by_height-agrees b.kv db db' height
          (λ hash. laws.commit_get db db' (block_prefix ++ hash) h)
          (laws.commit_get db db' (block_height_prefix ++ marshal_uint64 height) h)

    write_block-back :
        (block : Block) (last : _) (batch : b.kv.Db) (done : b.kv.Db × Hash)
        → IsValid block
        → write_block b r c p block last batch ≡ ok done
        → (done.1 ≡ block.state_root)
          × ((hash : Hash) × (hash_block c.sha256 (some block) ≡ ok hash)
              × (get_block_by_hash b.kv done.0 hash ≡ ok (some block)))
          × (get_block_by_height b.kv done.0 block.height ≡ ok (some block))
    unfolding write_block
    write_block-back block last batch done v h =
        let (recent, _, h1) = >>=-eq-ok (trim p.window_n (last ++ block.timestamp ∷ [])) _ h in
        let (timed, _, h2) = >>=-eq-ok (set_last_timestamps b.kv batch recent) _ h1 in
        let (root, _, h3) = >>=-eq-ok (compute_state_root c.sha256 b.kv b.iter timed) _ h2 in
        let (u, agreed, h4) =
          >>=-eq-ok
            (fail_if (not (bytes_equal root block.state_root)) "state root mismatch after apply") _
            h3 in
        let (hash, hashed, h5) = >>=-eq-ok (hash_block c.sha256 (some block)) _ h4 in
        let (written, entered, h6) = >>=-eq-ok (set_block_with_writer b.kv timed block hash) _ h5 in
        let (committed, kept, h7) = >>=-eq-ok (b.commit written) _ h6 in
        let same : (committed, root) ≡ done = cc in
        let (found, at_height) =
          written_back block hash timed written v (hash_wide block hash hashed) entered in
        subst
          (λ x.
            (x.1 ≡ block.state_root)
            × ((hash : Hash) × (hash_block c.sha256 (some block) ≡ ok hash)
                × (get_block_by_hash b.kv x.0 hash ≡ ok (some block)))
            × (get_block_by_height b.kv x.0 block.height ≡ ok (some block)))
          same
          (
            same_bytes root block.state_root (passed _ _ u agreed),
            (hash, hashed, committed_by_hash hash written committed kept ∙ found),
            committed_by_height block.height written committed kept ∙ at_height,
          )

    finish-Outcome :
        (s s2 : Chain b r) (block : Block) (last : _) (ran : Result b.kv.Db)
        → IsValid block
        → Untouched s s2
        → (preview_block b r c p s (some block)).1 ≡ ok block.state_root
        → Outcome s block (finish b r c p s2 block (ran >>= write_block b r c p block last))
    finish-Outcome s s2 block last ran v u shown =
        and_then-Outcome s s2 block (ran >>= write_block b r c p block last)
          (λ done. (
            record s2 { store = done.0; dag = record_root b r c p block done.1 s2.dag },
            ok done.1,
          ))
          u
          (λ done m.
            let (batch, _, written) = >>=-eq-ok ran _ m in
            let (root_back, by_hash, at_height) =
              write_block-back block last batch done v written in
            (root_back, shown ∙ ap (λ x. ok x) (sym root_back), by_hash, at_height))

    -- Applying a block either succeeds or changes nothing of the store and the graph of state
    -- nodes. If it succeeds, its root is the block's and the one that the preview gave before, and
    -- the block is read back from the store by its hash and by its height. This is for a block in
    -- range, a wire format, a database and commits with the documented laws, and hashes of 32
    -- bytes.
    pub apply_block-Outcome :
        (s : Chain b r) (block : Block)
        → IsValid block
        → Outcome s block (apply_block b r c p s (some block))
    unfolding apply_block
    apply_block-Outcome s block v =
        let (previewed, preview_root) = preview_block b r c p s (some block) in
        let s1 : Chain b r = record s { contracts = previewed } in
        let rest : Hash → Result (List ℤ) = λ root.
          fail_if (not (bytes_equal block.state_root root)) "state root mismatch"
          >> get_last_timestamps b.kv s.store in
        and_then-Outcome s s1 block (preview_root >>= rest)
          (λ last.
            let (engine, ran) = run_block b r c p block false last s1.store s1.contracts in
            finish b r c p (record s1 { contracts = engine }) block
              (ran >>= write_block b r c p block last))
          (refl, refl)
          (λ last m.
            let (root, shown, h1) = >>=-eq-ok preview_root rest m in
            let (engine, ran) = run_block b r c p block false last s1.store s1.contracts in
            let (u, agreed, h2) =
              >>=-eq-ok (fail_if (not (bytes_equal block.state_root root)) "state root mismatch")
                (λ (x : Unit {0}). get_last_timestamps b.kv s.store) h1 in
            finish-Outcome s (record s1 { contracts = engine }) block last ran v (refl, refl)
              (shown
                ∙ ap (λ x. ok x) (sym (same_bytes block.state_root root (passed _ _ u agreed)))))
