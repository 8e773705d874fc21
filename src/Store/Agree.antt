-- ===== src/Store/Agree.antt =====
-- Two databases that read alike under the blocks' keys hold the same blocks.
use opencoin.Prelude.{
  ℕ, ◌≡◌, refl, ◌++◌, length, Bytes, not, ◌==◌, if◌then◌else◌, Option, none, some, Result, ok, err,
  ◌>>=◌, ap, ◌∙◌,
}
use mathlib.Core.Path.{fun_ext}
use opencoin.Types.{Hash, Block}
use opencoin.Wire.{Wire}
use opencoin.Encoding.{marshal_uint64}
use opencoin.Store.{Kv, get_block_by_hash, get_block_by_height, block_prefix, block_height_prefix}

module _ ⦃w : Wire⦄ (kv : Kv) (db db' : kv.Db) where
  pub get_block_by_hash-agrees :
      (hash : Hash)
      → kv.get db' (block_prefix ++ hash) ≡ kv.get db (block_prefix ++ hash)
      → get_block_by_hash kv db' hash ≡ get_block_by_hash kv db hash
  unfolding get_block_by_hash
  get_block_by_hash-agrees hash same = rw same refl

  -- How `GetBlockByHeight` goes on from the hash that it read.
  abbrev by_height : Result (Option Bytes) → (Hash → Result (Option Block)) → Result (Option Block)
  by_height read next = read >>= (λ val. elim val [
    | none ↦ ok none
    | some hash ↦ if not (length hash == 32) then err "invalid block hash length" else next hash
  ])

  pub get_block_by_height-agrees :
      (height : ℕ)
      → ((hash : Hash) → kv.get db' (block_prefix ++ hash) ≡ kv.get db (block_prefix ++ hash))
      → kv.get db' (block_height_prefix ++ marshal_uint64 height)
        ≡ kv.get db (block_height_prefix ++ marshal_uint64 height)
      → get_block_by_height kv db' height ≡ get_block_by_height kv db height
  unfolding get_block_by_height
  get_block_by_height-agrees height same_blocks same_height =
      ap (λ v. by_height v (get_block_by_hash kv db')) same_height
      ∙ ap (λ next. by_height (kv.get db (block_height_prefix ++ marshal_uint64 height)) next)
          (fun_ext (λ hash. get_block_by_hash-agrees hash (same_blocks hash)))
