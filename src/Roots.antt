-- ===== src/Roots.antt =====
-- The state root: pkg/state/merkle.go and `iterateAccounts` of pkg/state/store.go. The iterator of
-- the database is an argument.
pub mod Inputs
pub mod Levels
pub mod Leaves
pub mod Binding
use opencoin.Prelude.{
  ℕ, zero, suc, List, [], ◌∷◌, ◌++◌, length, Bytes, if◌then◌else◌, Result, ok, err, stuck, ◌>>=◌,
}
use opencoin.Types.{Hash, Account, zero_hash}
use opencoin.Wire.{Wire}
use opencoin.Dpos.{precedes}
use opencoin.Store.{Kv}
use opencoin.Store.Codec.{account_bytes, unmarshal_account}

-- The entries between the bounds of the accounts' keys, in the iterator's order.
pub record Iterator (kv : Kv) : Type 0 where
  pub account_entries : kv.Db → Result (List (Bytes × Bytes))

-- A leaf before it is hashed.
pub record Item : Type 0 where
  pub key : Bytes
  pub val : Bytes

-- `sort.Slice` by the keys.
unfoldable pub insert_item : Item → List Item → List Item
insert_item x [] = x ∷ []
insert_item x (y ∷ items) =
    let rest = insert_item x items in if precedes y.key x.key then y ∷ rest else x ∷ y ∷ items

unfoldable pub sort_items : List Item → List Item
unfolding insert_item
sort_items [] = []
sort_items (x ∷ items) = insert_item x (sort_items items)

module _ (sha256 : Bytes → Hash) where
  abbrev pub leaf : Item → Bytes
  leaf it = sha256 (0x00 ∷ it.key ++ it.val)

  abbrev pub node : Bytes → Bytes → Bytes
  node left right = sha256 (0x01 ∷ left ++ right)

  -- One turn of the loop over the levels. A last node with no partner is paired with itself.
  unfoldable pub next_level : List Bytes → List Bytes
  next_level [] = []
  next_level (left ∷ []) = node left left ∷ []
  next_level (left ∷ right ∷ nodes) = node left right ∷ next_level nodes

  -- The loop while there is more than one node.
  unfoldable pub climb : ℕ → List Bytes → Result Bytes
  climb fuel [] = ok []
  climb fuel (root ∷ []) = ok root
  climb zero (left ∷ right ∷ nodes) = stuck
  climb (suc fuel) (left ∷ right ∷ nodes) = climb fuel (next_level (left ∷ right ∷ nodes))

  unfoldable pub merkle_root : List Bytes → Result Bytes
  unfolding climb next_level
  merkle_root leaves = climb (length leaves) leaves

  unfoldable pub leaves_of : List Item → List Bytes
  leaves_of [] = []
  leaves_of (it ∷ items) = leaf it ∷ leaves_of items

  -- Each entry is read and written again.
  unfoldable pub read_items : ⦃w : Wire⦄ → List (Bytes × Bytes) → Result (List Item)
  read_items [] = ok []
  read_items ((key, val) ∷ entries) = do
    acct ← unmarshal_account val
    items ← read_items entries
    ok (record { key = key; val = account_bytes acct } ∷ items)

  -- The root of the items, the zero hash where there are none.
  unfoldable pub root_of : List Item → Result Hash
  unfolding sort_items leaves_of merkle_root
  root_of [] = ok zero_hash
  root_of (it ∷ items) = merkle_root (leaves_of (sort_items (it ∷ items)))

  unfoldable pub compute_state_root : ⦃w : Wire⦄ (kv : Kv) → Iterator kv → kv.Db → Result Hash
  unfolding root_of read_items
  compute_state_root kv iter db = do
    entries ← iter.account_entries db
    items ← read_items entries
    root_of items
