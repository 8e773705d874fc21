-- ===== src/Tests/Blocks.antt =====
-- A block on an empty store, the roots of two lists of items, and a graph that is pruned.
use opencoin.Prelude.{
  if◌then◌else◌, ℕ, ◌≡◌, ◌≢◌, ◌⊎◌, inl, inr, refl, [], ◌∷◌, ◌++◌, List, Bytes, none, some, ok,
  arith, Bytes_discrete,
}
use opencoin.Prelude.Int.{pos}
use opencoin.Prelude.Map.{Map, Bytes_key, lookup, insert}
use opencoin.Types.{Hash, Block, StateNode, zero_hash}
use opencoin.Encoding.{hash_block, marshal_block_for_hash}
use opencoin.Encoding.Blocks.{IsValid}
use opencoin.Store.{
  take_bytes, account_prefix, get_last_timestamps, set_last_timestamps, set_block_with_writer,
}
use opencoin.Crypto.{Crypto, bytes_equal}
use opencoin.Rc.{Params, effective_time}
use opencoin.Ledger.Block.{apply_transactions}
use opencoin.Roots.{Item, compute_state_root, merkle_root, leaves_of}
use opencoin.Roots.Inputs.{Distinct, contents, Clash}
use opencoin.Roots.Leaves.{root_inputs}
use opencoin.Roots.Binding.{merkle_root-binding}
use mathlib.Core.List.Memᴰ
use opencoin.Dag.{Dag, prune_non_final}
use opencoin.Dag.Pruning.{Kept, prune_non_final-Reach}
use opencoin.Chain.{trim, Database, Chain, apply_block}
use opencoin.Chain.Outcome.{DatabaseLaws, Outcome, apply_block-Outcome}
use opencoin.Tests.Fixtures.{
  plain_wire, plain_wire-laws, map_kv, map_kv-laws, open_crypto, idle_runtime,
}

-- A hash of 32 bytes.
abbrev pub flat_hash : Bytes → Hash
flat_hash b = zero_hash

abbrev item : ℕ → Item
item n = record { key = n ∷ []; val = [] }

abbrev two_items : List Item
two_items = item 1 ∷ item 2 ∷ []

abbrev three_items : List Item
three_items = item 1 ∷ item 2 ∷ item 3 ∷ []

two_items-Distinct : Distinct (contents two_items)
two_items-Distinct = (
  λ m. elim (Memᴰ.cases_cons m) [ inl e ↦ cc | inr none_left ↦ Memᴰ.not-nil none_left ],
  (Memᴰ.not-nil, tt),
)

three_items-Distinct : Distinct (contents three_items)
three_items-Distinct = (
  λ m. elim (Memᴰ.cases_cons m) [
    | inl e ↦ cc
    | inr later ↦ elim (Memᴰ.cases_cons later) [
      | inl e ↦ cc
      | inr none_left ↦ Memᴰ.not-nil none_left
    ]
  ],
  (
    λ m. elim (Memᴰ.cases_cons m) [ inl e ↦ cc | inr none_left ↦ Memᴰ.not-nil none_left ],
    (Memᴰ.not-nil, tt),
  ),
)

merkle_root-binding_example :
    (a b : Bytes) × (merkle_root flat_hash (leaves_of flat_hash two_items) ≡ ok a)
    × (merkle_root flat_hash (leaves_of flat_hash three_items) ≡ ok b)
    × ((a ≢ b)
        ⊎ (contents two_items ≡ contents three_items)
        ⊎ Clash flat_hash (root_inputs flat_hash two_items ++ root_inputs flat_hash three_items))
merkle_root-binding_example =
    merkle_root-binding flat_hash (λ b. refl) two_items three_items two_items-Distinct
      three_items-Distinct

abbrev state_node : ℕ → List Hash → StateNode
state_node n parents = record { root_hash = n ∷ []; parents = parents; height = n }

-- Two nodes under 1, and 4 apart from them.
abbrev graph : Dag
graph = record {
  nodes =
      (1 ∷ [], state_node 1 [])
      ∷ (2 ∷ [], state_node 2 ((1 ∷ []) ∷ []))
      ∷ (3 ∷ [], state_node 3 ((2 ∷ []) ∷ []))
      ∷ (4 ∷ [], state_node 4 [])
      ∷ [];
  children = (1 ∷ [], (2 ∷ []) ∷ []) ∷ (2 ∷ [], (3 ∷ []) ∷ []) ∷ [];
  tips = (3 ∷ []) ∷ (4 ∷ []) ∷ [];
}

prune_non_final-Reach_example :
    (d' : Dag) × (prune_non_final (1 ∷ []) graph ≡ ok d') × ((h : Hash) → Kept (1 ∷ []) graph d' h)
prune_non_final-Reach_example = prune_non_final-Reach (1 ∷ []) graph

-- The entries under the prefix of the accounts.
abbrev pub under_prefix : Map Bytes Bytes → Map Bytes Bytes
under_prefix [] = []
under_prefix ((k, v) ∷ db) =
    if bytes_equal (take_bytes 5 k) account_prefix
    then (k, v) ∷ under_prefix db
    else under_prefix db

abbrev pub map_database : Database
map_database = record {
  kv = map_kv;
  iter = record { account_entries = λ db. ok (under_prefix db) };
  commit = λ db. ok db;
}

pub map_database-laws : DatabaseLaws map_database
map_database-laws = record { kv = map_kv-laws; commit_get = λ db db' k h. same db db' k h }
  where
    same :
        (db db' : Map Bytes Bytes) (k : Bytes)
        → ok db ≡ ok db'
        → ok (lookup k db') ≡ ok (lookup k db)
    same db db' k h = cc

abbrev pub flat_crypto : Crypto
flat_crypto = record open_crypto { sha256 = flat_hash }

abbrev pub short_window : Params
short_window = record {
  alpha = 1;
  beta = 1;
  c_size = 1;
  c_compute = 1;
  c_storage = 1;
  max_skew_sec = pos 5;
  window_n = pos 3;
}

abbrev pub empty_block : Block
empty_block = record {
  height = 1;
  prev_hash = zero_hash;
  state_root = zero_hash;
  timestamp = pos 100;
  proposer = 1 ∷ [];
  transactions = [];
  validator_sigs = [];
}

abbrev pub first_state : Chain map_database idle_runtime
first_state = record {
  store = [];
  dag = record { nodes = []; children = []; tips = [] };
  contracts = none;
}

pub empty_block-IsValid : IsValid empty_block
empty_block-IsValid = record {
  height = omega arith;
  prev_hash = refl;
  state_root = refl;
  timestamp = record { above = omega arith; below = omega arith };
  nonces = tt;
}

apply_block-Outcome_example :
    Outcome map_database idle_runtime flat_crypto short_window first_state empty_block (
      apply_block map_database idle_runtime flat_crypto short_window first_state (some empty_block))
apply_block-Outcome_example =
    apply_block-Outcome map_database idle_runtime flat_crypto short_window plain_wire-laws
      map_database-laws (λ b. refl) first_state empty_block empty_block-IsValid

-- The block is applied.
applied :
    (apply_block map_database idle_runtime flat_crypto short_window first_state
      (some empty_block)).1
    ≡ ok zero_hash
unfolding apply_block get_last_timestamps set_last_timestamps set_block_with_writer
    apply_transactions compute_state_root hash_block marshal_block_for_hash trim bytes_equal lookup
    insert Bytes_discrete take_bytes effective_time
applied = refl
