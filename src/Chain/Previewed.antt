-- ===== src/Chain/Previewed.antt =====
-- When a block whose preview went through applies.
use opencoin.Prelude.{
  heads_agree, ◌≡◌, refl, ◌≢◌, ◌-◌, List, [], ◌∷◌, ◌++◌, All, length, drop, Bytes, Bool-cases, inl,
  inr, ltb, true, false, Option, none, some, ok, and_then-keeps, and_then-eq_ok, arith, sym, ap,
  ◌∙◌, ℕ,
}
use opencoin.Prelude.Int.{ℤ, pos}
use opencoin.Types.{Hash, Block, Address}
use opencoin.Wire.{Wire}
use opencoin.Encoding.{hash_block, marshal_block_for_hash, block_bytes, marshal_uint64}
use opencoin.Store.{
  account_prefix, block_prefix, block_height_prefix, meta_last_timestamps, encode_timestamps,
  get_last_timestamps, set_last_timestamps, set_block_with_writer,
}
use opencoin.Crypto.Sender.{bytes_equal_self}
use opencoin.Crypto.{Crypto}
use opencoin.Contracts.{Runtime, Engine}
use opencoin.Rc.{Params, effective_time}
use opencoin.Roots.{compute_state_root}
use opencoin.Ledger.Backend.{store_accounts}
use opencoin.Ledger.Preview.{
  IsPlainTransaction, apply_transactions-previews, apply_transactions-plain,
}
use opencoin.Chain.{Database, Chain, trim, run_block, preview_block, write_block, apply_block}

-- No write fails, and what is not stored under the prefix of the accounts is no account.
pub record WritesLaws (b : Database) : Type 0 where
  pub writes : (db : b.kv.Db) (k v : Bytes) → (db' : b.kv.Db) × (b.kv.set db k v ≡ ok db')
  pub commits : (db : b.kv.Db) → (db' : b.kv.Db) × (b.commit db ≡ ok db')
  pub entries_kept :
      (db db' : b.kv.Db) (k v : Bytes)
      → b.kv.set db k v ≡ ok db'
      → ((addr : Address) → k ≢ account_prefix ++ addr)
      → b.iter.account_entries db' ≡ b.iter.account_entries db

-- A window that is not negative is no error.
trim_pos : (n : ℕ) (ts : List ℤ) → (kept : List ℤ) × (trim (pos n) ts ≡ ok kept)
unfolding trim
trim_pos n ts = elim (Bool-cases (ltb n (length ts))) [
  | inl long ↦ (drop (length ts - n) ts, rw long refl)
  | inr short ↦ (ts, rw short refl)
]

trim-ok :
    (size : ℤ) (n : ℕ) (ts : List ℤ) → size ≡ pos n → (kept : List ℤ) × (trim size ts ≡ ok kept)
trim-ok size n ts e = let (kept, t) = trim_pos n ts in (kept, ap (λ z. trim z ts) e ∙ t)

module _ (b : Database) (r : Runtime) ⦃w : Wire⦄ (c : Crypto) (p : Params) where
  hash_block-ok : (block : Block) → (hash : Hash) × (hash_block c.sha256 (some block) ≡ ok hash)
  unfolding hash_block marshal_block_for_hash
  hash_block-ok block = (_, refl)

  run_block-previews :
      (block : Block) (last : List ℤ) (batch : b.kv.Db) (engine : Option (Engine r))
      → (run_block b r c p block true last batch engine).0 ≡ engine
  unfolding run_block
  run_block-previews block last batch engine =
      apply_transactions-previews (store_accounts b.kv) r c p block.transactions engine
        (effective_time block.timestamp last p.max_skew_sec) batch

  run_block-plain :
      (block : Block) (last : List ℤ) (batch : b.kv.Db) (engine : Option (Engine r))
      → All (IsPlainTransaction (store_accounts b.kv) r c p) block.transactions
      → run_block b r c p block false last batch engine
        ≡ run_block b r c p block true last batch engine
  unfolding run_block
  run_block-plain block last batch engine plain = sym (
      apply_transactions-plain (store_accounts b.kv) r c p block.transactions engine
        (effective_time block.timestamp last p.max_skew_sec) batch plain)

  -- A preview leaves the contract engine as it was.
  pub preview_block-keeps :
      (s : Chain b r) (block : Option Block) → (preview_block b r c p s block).0 ≡ s.contracts
  unfolding preview_block
  preview_block-keeps s none = refl
  preview_block-keeps s (some block) =
      and_then-keeps (λ e. e ≡ s.contracts) s.contracts (get_last_timestamps b.kv s.store) _ refl
        (λ last _.
          let (engine, ran) = run_block b r c p block true last s.store s.contracts in
          let same = run_block-previews block last s.store s.contracts in
          and_then-keeps (λ e. e ≡ s.contracts) engine ran _ same (λ _ _. same))

  module _ (laws : WritesLaws b) (n : ℕ) (window : p.window_n ≡ pos n) where
    -- The state root does not depend on the timestamps.
    timed-root :
        (db db' : b.kv.Db) (ts : List ℤ)
        → set_last_timestamps b.kv db ts ≡ ok db'
        → compute_state_root c.sha256 b.kv b.iter db' ≡ compute_state_root c.sha256 b.kv b.iter db
    unfolding set_last_timestamps compute_state_root
    timed-root db db' ts e =
        rw
          (laws.entries_kept db db' meta_last_timestamps (encode_timestamps ts) e
            (λ addr same. omega (arith, heads_agree _ _ same)))
          refl

    write_block-ok :
        (block : Block) (last : List ℤ) (batch : b.kv.Db)
        → compute_state_root c.sha256 b.kv b.iter batch ≡ ok block.state_root
        → (db : b.kv.Db) × (write_block b r c p block last batch ≡ ok (db, block.state_root))
    unfolding write_block set_block_with_writer set_last_timestamps
    write_block-ok block last batch rooted =
        let (recent, trimmed) = trim-ok p.window_n n (last ++ block.timestamp ∷ []) window in
        let (timed, stamped) = laws.writes batch meta_last_timestamps (encode_timestamps recent) in
        let (hash, hashed) = hash_block-ok block in
        let (entered, first) = laws.writes timed (block_prefix ++ hash) (block_bytes block) in
        let (written, second) =
          laws.writes entered (block_height_prefix ++ marshal_uint64 block.height) hash in
        let (committed, kept) = laws.commits written in
        (
          committed,
          rw
              (
                trimmed,
                stamped,
                timed-root batch timed recent stamped,
                rooted,
                bytes_equal_self block.state_root,
                hashed,
                first,
                second,
                kept,
              )
              refl,
        )

  -- A block without contract payloads whose preview comes to its state root is applied. This is for
  -- a window that is not negative, a store in which no write fails, and an iterator over the
  -- accounts alone.
  pub apply_block-previewed :
      (s : Chain b r) (block : Block) (n : ℕ)
      → WritesLaws b
      → p.window_n ≡ pos n
      → All (IsPlainTransaction (store_accounts b.kv) r c p) block.transactions
      → (preview_block b r c p s (some block)).1 ≡ ok block.state_root
      → (apply_block b r c p s (some block)).1 ≡ ok block.state_root
  unfolding apply_block preview_block
  apply_block-previewed s block n laws window plain h =
      let (last, stamps, h1) =
        and_then-eq_ok s.contracts (get_last_timestamps b.kv s.store) _ block.state_root h in
      let first = run_block b r c p block true last s.store s.contracts in
      let (batch, ran, rooted) = and_then-eq_ok first.0 first.1 _ block.state_root h1 in
      let (db, wrote) = write_block-ok laws n window block last batch rooted in
      rw
        (
          stamps,
          ran,
          rooted,
          bytes_equal_self block.state_root,
          run_block-previews block last s.store s.contracts,
          run_block-plain block last s.store s.contracts plain,
          ran,
          wrote,
        )
        refl
