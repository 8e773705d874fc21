-- ===== src/Store.antt =====
-- The persistent store: pkg/state/store.go and pkg/state/codec.go. The database, Pebble, is not
-- part
-- of the repository and enters as an argument.
pub mod Codec
pub mod Accounts
pub mod Timestamps
pub mod Agree
pub mod Metadata
use opencoin.Prelude.{
  ℕ, zero, suc, ◌+◌, ◌*◌, ◌≡◌, ◌≢◌, ite, Option, none, some, List, [], ◌∷◌, ◌++◌, length, drop,
  Bytes, Bytes_discrete, ltb, ◌==◌, not, if◌then◌else◌, Result, ok, err, ◌>>=◌, ◌>>◌, fail_if,
}
use opencoin.Prelude.Int.{ℤ, to_u64, to_i64}
use Prim.Native.String.{String}
use opencoin.Types.{Address, Account, Block, Hash, zero_hash}
use opencoin.Wire.{Wire}
use opencoin.Encoding.{big_endian, marshal_uint64, block_bytes, hash_block}
use opencoin.Encoding.Unmarshal.{unmarshal_block}
use Codec.{account_bytes, unmarshal_account}

-- A database, or a batch over one: a read answers nothing for a missing key, and both operations
-- may
-- fail.
pub record Kv : Type 1 where
  pub Db : Type 0
  pub get : Db → Bytes → Result (Option Bytes)
  pub set : Db → Bytes → Bytes → Result Db

-- A read sees the last write under its key, and a write fails no read that went through before.
pub record KvLaws (kv : Kv) : Type 0 where
  pub get_set :
      (db db' : kv.Db) (k j v : Bytes)
      → kv.set db k v ≡ ok db'
      → kv.get db' j ≡ ite (Bytes_discrete k j) (ok (some v)) (kv.get db j)

-- "acct/", "block/", "block_height/", "meta/last_timestamps", "meta/consensus_height",
-- "meta/consensus_round" and "meta/consensus_last_finalized".
abbrev pub account_prefix : Bytes
account_prefix = 97 ∷ 99 ∷ 99 ∷ 116 ∷ 47 ∷ []

abbrev pub block_prefix : Bytes
block_prefix = 98 ∷ 108 ∷ 111 ∷ 99 ∷ 107 ∷ 47 ∷ []

abbrev pub block_height_prefix : Bytes
block_height_prefix = 98 ∷ 108 ∷ 111 ∷ 99 ∷ 107 ∷ 95 ∷ 104 ∷ 101 ∷ 105 ∷ 103 ∷ 104 ∷ 116 ∷ 47 ∷ []

abbrev meta_prefix : Bytes
meta_prefix = 109 ∷ 101 ∷ 116 ∷ 97 ∷ 47 ∷ []

abbrev pub meta_last_timestamps : Bytes
meta_last_timestamps =
    meta_prefix
    ++ 108 ∷ 97 ∷ 115 ∷ 116 ∷ 95 ∷ 116 ∷ 105 ∷ 109 ∷ 101 ∷ 115 ∷ 116 ∷ 97 ∷ 109 ∷ 112 ∷ 115 ∷ []

abbrev consensus_prefix : Bytes
consensus_prefix = meta_prefix ++ 99 ∷ 111 ∷ 110 ∷ 115 ∷ 101 ∷ 110 ∷ 115 ∷ 117 ∷ 115 ∷ 95 ∷ []

abbrev pub meta_consensus_height : Bytes
meta_consensus_height = consensus_prefix ++ 104 ∷ 101 ∷ 105 ∷ 103 ∷ 104 ∷ 116 ∷ []

abbrev pub meta_consensus_round : Bytes
meta_consensus_round = consensus_prefix ++ 114 ∷ 111 ∷ 117 ∷ 110 ∷ 100 ∷ []

abbrev pub meta_consensus_last_finalized : Bytes
meta_consensus_last_finalized =
    consensus_prefix
    ++ 108 ∷ 97 ∷ 115 ∷ 116 ∷ 95 ∷ 102 ∷ 105 ∷ 110 ∷ 97 ∷ 108 ∷ 105 ∷ 122 ∷ 101 ∷ 100 ∷ []

-- The number that big-endian bytes stand for.
unfoldable pub from_big_endian : ℕ → Bytes → ℕ
from_big_endian acc [] = acc
from_big_endian acc (b ∷ bs) = from_big_endian (acc * 256 + b) bs

-- The first `n` bytes, `b[:n]`.
unfoldable pub take_bytes : ℕ → Bytes → Bytes
take_bytes zero b = []
take_bytes (suc n) [] = []
take_bytes (suc n) (x ∷ b) = x ∷ take_bytes n b

-- `uint32(len(ts))`, then eight bytes for each timestamp.
unfoldable pub append_timestamps : Bytes → List ℤ → Bytes
append_timestamps buf [] = buf
append_timestamps buf (t ∷ ts) = append_timestamps (buf ++ big_endian 8 (to_u64 t)) ts

unfoldable pub encode_timestamps : List ℤ → Bytes
encode_timestamps ts = append_timestamps (big_endian 4 (length ts)) ts

-- The loop over `b[i*8 : (i+1)*8]` for `i` from 0 to `n`.
unfoldable pub read_timestamps : ℕ → Bytes → List ℤ
read_timestamps zero b = []
read_timestamps (suc n) b =
    to_i64 (from_big_endian 0 (take_bytes 8 b)) ∷ read_timestamps n (drop 8 b)

unfoldable pub decode_timestamps : Bytes → Result (List ℤ)
decode_timestamps b =
    let n = from_big_endian 0 (take_bytes 4 b) in
    let rest = drop 4 b in
    if ltb (length b) 4
    then err "invalid timestamp encoding"
    else (if ltb (length rest) (n * 8)
        then err "invalid timestamp length"
        else ok (read_timestamps n rest))

-- A value of the wrong length is as none at all.
abbrev pub number_or_zero : Option Bytes → ℕ
number_or_zero none = 0
number_or_zero (some val) = if length val == 8 then from_big_endian 0 val else 0

abbrev pub hash_or_zero : Option Bytes → Hash
hash_or_zero none = zero_hash
hash_or_zero (some val) = if length val == 32 then val else zero_hash

module _ ⦃w : Wire⦄ (kv : Kv) where
  open kv use {Db}

  unfoldable pub get_account : Db → Address → Result (Option Account)
  get_account db addr = do
    val ← kv.get db (account_prefix ++ addr)
    elim val [ none ↦ ok none | some b ↦ unmarshal_account b >>= λ acct. ok (some acct) ]

  unfoldable pub set_account : Db → Option Account → Result Db
  set_account db none = err "account is nil"
  set_account db (some acct) = kv.set db (account_prefix ++ acct.address) (account_bytes acct)

  unfoldable pub get_last_timestamps : Db → Result (List ℤ)
  get_last_timestamps db = do
    val ← kv.get db meta_last_timestamps
    elim val [ none ↦ ok [] | some b ↦ decode_timestamps b ]

  unfoldable pub set_last_timestamps : Db → List ℤ → Result Db
  set_last_timestamps db ts = kv.set db meta_last_timestamps (encode_timestamps ts)

  unfoldable pub set_block_with_writer : Db → Block → Hash → Result Db
  set_block_with_writer db block hash = do
    db' ← kv.set db (block_prefix ++ hash) (block_bytes block)
    kv.set db' (block_height_prefix ++ marshal_uint64 block.height) hash

  unfoldable pub set_block : (Bytes → Hash) → Db → Option Block → Result (Hash × Db)
  set_block sha256 db none = err "block is nil"
  set_block sha256 db (some block) = do
    hash ← hash_block sha256 (some block)
    db' ← set_block_with_writer db block hash
    ok (hash, db')

  unfoldable pub get_block_by_hash : Db → Hash → Result (Option Block)
  get_block_by_hash db hash = do
    val ← kv.get db (block_prefix ++ hash)
    elim val [ none ↦ ok none | some b ↦ unmarshal_block b >>= λ block. ok (some block) ]

  unfoldable pub get_block_by_height : Db → ℕ → Result (Option Block)
  get_block_by_height db height = do
    val ← kv.get db (block_height_prefix ++ marshal_uint64 height)
    elim val [
      | none ↦ ok none
      | some hash ↦
          if not (length hash == 32)
          then err "invalid block hash length"
          else get_block_by_hash db hash
    ]

  -- A batch of three writes, committed as one.
  unfoldable pub set_consensus_state : Db → ℕ → ℕ → Hash → Result Db
  set_consensus_state db height round last_finalized = do
    db1 ← kv.set db meta_consensus_height (marshal_uint64 height)
    db2 ← kv.set db1 meta_consensus_round (marshal_uint64 round)
    kv.set db2 meta_consensus_last_finalized last_finalized

  unfoldable pub get_consensus_state : Db → Result (ℕ × ℕ × Hash)
  get_consensus_state db = do
    height ← kv.get db meta_consensus_height
    round ← kv.get db meta_consensus_round
    last_finalized ← kv.get db meta_consensus_last_finalized
    ok (number_or_zero height, number_or_zero round, hash_or_zero last_finalized)
