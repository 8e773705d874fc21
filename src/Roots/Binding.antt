-- ===== src/Roots/Binding.antt =====
-- What the root of pkg/state/merkle.go determines.
use opencoin.Prelude.{
  ℕ, zero, suc, ◌<◌, ◌≡◌, refl, ◌≢◌, ◌⊎◌, inl, inr, List, [], ◌∷◌, ◌++◌, length, Bytes,
  Bytes_discrete, ok, arith, sym, subst, ap, ◌∙◌,
}
use mathlib.Core.List.{Memᴰ}
use mathlib.Core.List.Memᴰ
use opencoin.Types.{Hash}
use opencoin.Roots.{Item, climb, merkle_root, leaves_of}
use opencoin.Roots.Inputs.{
  Distinct, contents, leaf_inputs, tree_inputs, Clash, Faithful, Clash-or_Faithful,
}
use opencoin.Roots.Levels.{Wide, Covered, level, level-Wide, level-Distinct, next_level-injective}
use opencoin.Roots.Leaves.{
  climb-eq_ok, root_inputs, climb-level, leaves_of-Wide, leaves_of-Distinct, leaves_of-injective,
  leaves_of-ne-next_level,
}

module _ (sha256 : Bytes → Hash) (wide : (b : Bytes) → length (sha256 b) ≡ 32) where
  -- Items with different contents, of which the levels below one are hashed.
  record Tree (inputs : List Bytes) (items : List Item) (height : ℕ) : Type 0 where
    nonempty : items ≢ []
    distinct : Distinct (leaves_of sha256 items)
    leaves_hashed : (b : Bytes) → Memᴰ b (leaf_inputs items) → Memᴰ b inputs
    nodes_hashed : (j : ℕ) → j < height → Covered inputs (level sha256 j (leaves_of sha256 items))

  lower :
      (inputs : List Bytes) (items : List Item) (k : ℕ)
      → Tree inputs items (suc k)
      → Tree inputs items k
  lower inputs items k t = record {
    nonempty = t.nonempty;
    distinct = t.distinct;
    leaves_hashed = t.leaves_hashed;
    nodes_hashed = λ j lt. t.nodes_hashed j (omega arith);
  }

  -- Equal levels stand as high over equal leaves.
  levels-binding :
      (inputs : List Bytes) (xs ys : List Item) (a b : ℕ)
      → Faithful sha256 inputs
      → Tree inputs xs a
      → Tree inputs ys b
      → level sha256 a (leaves_of sha256 xs) ≡ level sha256 b (leaves_of sha256 ys)
      → contents xs ≡ contents ys
  unfolding level
  levels-binding inputs xs ys zero zero faithful t u e =
      leaves_of-injective sha256 wide inputs faithful xs ys t.leaves_hashed u.leaves_hashed e
  levels-binding inputs xs ys zero (suc b) faithful t u e = absurd (
      leaves_of-ne-next_level sha256 wide inputs faithful xs (level sha256 b (leaves_of sha256 ys))
        t.nonempty t.leaves_hashed (u.nodes_hashed b (omega arith)) e)
  levels-binding inputs xs ys (suc a) zero faithful t u e = absurd (
      leaves_of-ne-next_level sha256 wide inputs faithful ys (level sha256 a (leaves_of sha256 xs))
        u.nonempty u.leaves_hashed (t.nodes_hashed a (omega arith)) (sym e))
  levels-binding inputs xs ys (suc a) (suc b) faithful t u e =
      let left = lower inputs xs a t in
      let right = lower inputs ys b u in
      let v = leaves_of-Wide sha256 wide xs in
      let w = leaves_of-Wide sha256 wide ys in
      levels-binding inputs xs ys a b faithful left right (
        next_level-injective sha256 wide inputs faithful (level sha256 a (leaves_of sha256 xs))
          (level sha256 b (leaves_of sha256 ys)) (level-Wide sha256 wide a (leaves_of sha256 xs) v)
          (level-Wide sha256 wide b (leaves_of sha256 ys) w)
          (level-Distinct sha256 wide inputs faithful a (leaves_of sha256 xs) v t.distinct
            left.nodes_hashed)
          (level-Distinct sha256 wide inputs faithful b (leaves_of sha256 ys) w u.distinct
            right.nodes_hashed)
          (t.nodes_hashed a (omega arith)) (u.nodes_hashed b (omega arith)) e)

  leaves_of-nonempty : (items : List Item) → items ≢ [] → leaves_of sha256 items ≢ []
  unfolding leaves_of
  leaves_of-nonempty [] full e = full refl
  leaves_of-nonempty (it ∷ items) full e = cc

  -- The root of some items stands on a level over them, and has 32 bytes.
  root-level :
      (inputs : List Bytes) (items : List Item) (root : Bytes)
      → Faithful sha256 inputs
      → items ≢ []
      → Distinct (contents items)
      → ((b : Bytes) → Memᴰ b (root_inputs sha256 items) → Memᴰ b inputs)
      → climb sha256 (length (leaves_of sha256 items)) (leaves_of sha256 items) ≡ ok root
      → (k : ℕ) × Tree inputs items k
        × (level sha256 k (leaves_of sha256 items) ≡ root ∷ [])
        × (length root ≡ 32)
  root-level inputs items root faithful full d cover e =
      let leaves = leaves_of sha256 items in
      let hashed : (b : Bytes) → Memᴰ b (leaf_inputs items) → Memᴰ b inputs =
        λ b m. cover b (Memᴰ.append_left (tree_inputs sha256 (length leaves) leaves) m) in
      let (k, top, below) =
        climb-level sha256 inputs (length leaves) leaves root (leaves_of-nonempty items full)
          (λ b m. cover b (Memᴰ.append_right (leaf_inputs items) m)) e in
      (
        k,
        record {
          nonempty = full;
          distinct = leaves_of-Distinct sha256 wide inputs faithful items hashed d;
          leaves_hashed = hashed;
          nodes_hashed = below;
        },
        top,
        (subst (λ l. Wide l) top
            (level-Wide sha256 wide k leaves (leaves_of-Wide sha256 wide items))).0,
      )

  climb-binding :
      (inputs : List Bytes) (xs ys : List Item) (root : Bytes)
      → Faithful sha256 inputs
      → Distinct (contents xs)
      → Distinct (contents ys)
      → ((b : Bytes) → Memᴰ b (root_inputs sha256 xs) → Memᴰ b inputs)
      → ((b : Bytes) → Memᴰ b (root_inputs sha256 ys) → Memᴰ b inputs)
      → climb sha256 (length (leaves_of sha256 xs)) (leaves_of sha256 xs) ≡ ok root
      → climb sha256 (length (leaves_of sha256 ys)) (leaves_of sha256 ys) ≡ ok root
      → contents xs ≡ contents ys
  unfolding climb leaves_of
  climb-binding inputs [] [] root faithful d f m n e g = refl
  climb-binding inputs [] (y ∷ ys) root faithful d f m n e g =
      let none_left : root ≡ [] = cc in
      let (k, u, top, size) = root-level inputs (y ∷ ys) root faithful (λ h. cc) f n g in
      absurd (omega (arith, size, ap (λ l. length l) none_left))
  climb-binding inputs (x ∷ xs) [] root faithful d f m n e g =
      let none_left : root ≡ [] = cc in
      let (k, u, top, size) = root-level inputs (x ∷ xs) root faithful (λ h. cc) d m e in
      absurd (omega (arith, size, ap (λ l. length l) none_left))
  climb-binding inputs (x ∷ xs) (y ∷ ys) root faithful d f m n e g =
      let (a, t, first, size) = root-level inputs (x ∷ xs) root faithful (λ h. cc) d m e in
      let (b, u, second, size') = root-level inputs (y ∷ ys) root faithful (λ h. cc) f n g in
      levels-binding inputs (x ∷ xs) (y ∷ ys) a b faithful t u (first ∙ sym second)

  -- For a hash of 32 bytes, and two lists of items, of any lengths, each with no content (a key
  -- followed by its value) twice: both Merkle roots over the items' leaves are computed, and they
  -- differ, or the contents are the same in the same order, or among the inputs that are hashed for
  -- the two roots there are two different ones with one hash.
  pub merkle_root-binding :
      (xs ys : List Item)
      → Distinct (contents xs)
      → Distinct (contents ys)
      → (a b : Bytes) × (merkle_root sha256 (leaves_of sha256 xs) ≡ ok a)
        × (merkle_root sha256 (leaves_of sha256 ys) ≡ ok b)
        × ((a ≢ b)
            ⊎ (contents xs ≡ contents ys)
            ⊎ Clash sha256 (root_inputs sha256 xs ++ root_inputs sha256 ys))
  unfolding merkle_root
  merkle_root-binding xs ys d f =
      let left = leaves_of sha256 xs in
      let right = leaves_of sha256 ys in
      let (a, first) = climb-eq_ok sha256 (length left) left (omega arith) in
      let (b, second) = climb-eq_ok sha256 (length right) right (omega arith) in
      (
        a,
        b,
        first,
        second,
        elim (Bytes_discrete a b) [
          | no ne ↦ inl ne
          | yes same ↦
              inr
                (elim (Clash-or_Faithful sha256 (root_inputs sha256 xs ++ root_inputs sha256 ys)) [
                  | inl clash ↦ inr clash
                  | inr faithful ↦ inl (
                      climb-binding (root_inputs sha256 xs ++ root_inputs sha256 ys) xs ys a
                        faithful d f (λ c m. Memᴰ.append_left (root_inputs sha256 ys) m)
                        (λ c m. Memᴰ.append_right (root_inputs sha256 xs) m) first
                        (second ∙ ap (λ x. ok x) (sym same)))
                ])
        ],
      )
