-- ===== src/Roots/Leaves.antt =====
-- The leaves and the loop of pkg/state/merkle.go, over items that the hash tells apart.
use opencoin.Prelude.{
  ℕ, zero, suc, ◌+◌, ◌<◌, ◌≤◌, ◌≡◌, refl, ◌≢◌, inl, inr, List, [], ◌∷◌, ◌++◌, length, Bytes, ok,
  arith, sym, subst, ◌∙◌,
}
use mathlib.Core.List.{Memᴰ}
use mathlib.Core.List.Memᴰ
use opencoin.Types.{Hash}
use opencoin.Roots.{Item, leaf, next_level, climb, leaves_of}
use opencoin.Roots.Inputs.{
  Distinct, content, contents, leaf_inputs, level_inputs, tree_inputs, Faithful,
}
use opencoin.Roots.Levels.{Wide, Covered, level, level-next_level}

-- The number of nodes on the next level.
abbrev half_up : ℕ → ℕ
half_up zero = 0
half_up (suc zero) = 1
half_up (suc (suc n)) = suc (half_up n)

half_up-le : (n : ℕ) → half_up n ≤ n
half_up-le zero = omega arith
half_up-le (suc zero) = omega arith
half_up-le (suc (suc n)) = omega (arith, half_up-le n)

module _ (sha256 : Bytes → Hash) where
  length-next_level : (xs : List Bytes) → length (next_level sha256 xs) ≡ half_up (length xs)
  unfolding next_level
  length-next_level [] = refl
  length-next_level (x ∷ []) = refl
  length-next_level (x ∷ y ∷ xs) = omega (arith, length-next_level xs)

  -- The loop ends.
  pub climb-eq_ok :
      (fuel : ℕ) (xs : List Bytes)
      → length xs ≤ fuel + 1
      → (root : Bytes) × (climb sha256 fuel xs ≡ ok root)
  unfolding climb
  climb-eq_ok fuel [] few = ([], refl)
  climb-eq_ok fuel (x ∷ []) few = (x, refl)
  climb-eq_ok zero (x ∷ y ∷ xs) few = absurd (omega arith)
  climb-eq_ok (suc fuel) (x ∷ y ∷ xs) few =
      climb-eq_ok fuel (next_level sha256 (x ∷ y ∷ xs))
        (omega (arith, length-next_level (x ∷ y ∷ xs), half_up-le (length xs)))

  -- Everything hashed on the way from items to their root: the leaves' inputs and the nodes'.
  abbrev pub root_inputs : List Item → List Bytes
  root_inputs items =
      let leaves = leaves_of sha256 items in
      leaf_inputs items ++ tree_inputs sha256 (length leaves) leaves

  next_level-nonempty : (xs : List Bytes) → xs ≢ [] → next_level sha256 xs ≢ []
  unfolding next_level
  next_level-nonempty [] full e = full refl
  next_level-nonempty (x ∷ []) full e = cc
  next_level-nonempty (x ∷ y ∷ xs) full e = cc

  Covered-next_level :
      (inputs : List Bytes) (k : ℕ) (nodes : List Bytes)
      → Covered inputs nodes
      → ((j : ℕ) → j < k → Covered inputs (level sha256 j (next_level sha256 nodes)))
      → (j : ℕ) → j < suc k
      → Covered inputs (level sha256 j nodes)
  unfolding level
  Covered-next_level inputs k nodes here below zero lt = here
  Covered-next_level inputs k nodes here below (suc j) lt =
      subst (λ l. Covered inputs l) (level-next_level sha256 j nodes) (below j (omega arith))

  -- A root stands alone on some level, and the levels below it are hashed.
  pub climb-level :
      (inputs : List Bytes) (fuel : ℕ) (xs : List Bytes) (root : Bytes)
      → xs ≢ []
      → ((b : Bytes) → Memᴰ b (tree_inputs sha256 fuel xs) → Memᴰ b inputs)
      → climb sha256 fuel xs ≡ ok root
      → (k : ℕ) × (level sha256 k xs ≡ root ∷ [])
        × ((j : ℕ) → j < k → Covered inputs (level sha256 j xs))
  unfolding climb level
  climb-level inputs fuel [] root full cover e = absurd (full refl)
  climb-level inputs fuel (x ∷ []) root full cover e = (zero, cc, λ j lt. absurd (omega arith))
  climb-level inputs zero (x ∷ y ∷ xs) root full cover e = absurd (cc)
  climb-level inputs (suc fuel) (x ∷ y ∷ xs) root full cover e =
      let nodes = x ∷ y ∷ xs in
      let (k, top, below) =
        climb-level inputs fuel (next_level sha256 nodes) root (next_level-nonempty nodes full)
          (λ b m. cover b (Memᴰ.append_right (level_inputs nodes) m)) e in
      (
        suc k,
        sym (level-next_level sha256 k nodes) ∙ top,
        Covered-next_level inputs k nodes
            (λ b m.
              cover b (Memᴰ.append_left (tree_inputs sha256 fuel (next_level sha256 nodes)) m))
            below,
      )

  module _ (wide : (b : Bytes) → length (sha256 b) ≡ 32) where
    pub leaves_of-Wide : (items : List Item) → Wide (leaves_of sha256 items)
    unfolding leaves_of
    leaves_of-Wide [] = tt
    leaves_of-Wide (it ∷ items) = (wide _, leaves_of-Wide items)

    module _ (inputs : List Bytes) (faithful : Faithful sha256 inputs) where
      leaf-absent :
          (it : Item) (items : List Item)
          → Memᴰ (0x00 ∷ content it) inputs
          → ((b : Bytes) → Memᴰ b (leaf_inputs items) → Memᴰ b inputs)
          → ¬ Memᴰ (content it) (contents items)
          → ¬ Memᴰ (leaf sha256 it) (leaves_of sha256 items)
      unfolding leaves_of
      leaf-absent it [] m cover out h = Memᴰ.not-nil h
      leaf-absent it (other ∷ items) m cover out h = elim (Memᴰ.cases_cons h) [
        | inl e ↦
            let same : 0x00 ∷ content it ≡ 0x00 ∷ content other =
              faithful (0x00 ∷ content it) (0x00 ∷ content other) m (cover _ (Memᴰ.head refl)) e in
            out (Memᴰ.head (cc))
        | inr there ↦
            leaf-absent it items m (λ b k. cover b (Memᴰ.tail k)) (λ k. out (Memᴰ.tail k)) there
      ]

      pub leaves_of-Distinct :
          (items : List Item)
          → ((b : Bytes) → Memᴰ b (leaf_inputs items) → Memᴰ b inputs)
          → Distinct (contents items)
          → Distinct (leaves_of sha256 items)
      unfolding leaves_of
      leaves_of-Distinct [] cover d = tt
      leaves_of-Distinct (it ∷ items) cover d = (
        leaf-absent it items (cover _ (Memᴰ.head refl)) (λ b k. cover b (Memᴰ.tail k)) d.0,
        leaves_of-Distinct items (λ b k. cover b (Memᴰ.tail k)) d.1,
      )

      pub leaves_of-injective :
          (xs ys : List Item)
          → ((b : Bytes) → Memᴰ b (leaf_inputs xs) → Memᴰ b inputs)
          → ((b : Bytes) → Memᴰ b (leaf_inputs ys) → Memᴰ b inputs)
          → leaves_of sha256 xs ≡ leaves_of sha256 ys
          → contents xs ≡ contents ys
      unfolding leaves_of
      leaves_of-injective [] [] m n e = refl
      leaves_of-injective [] (y ∷ ys) m n e = cc
      leaves_of-injective (x ∷ xs) [] m n e = cc
      leaves_of-injective (x ∷ xs) (y ∷ ys) m n e =
          let same : 0x00 ∷ content x ≡ 0x00 ∷ content y =
            faithful (0x00 ∷ content x) (0x00 ∷ content y) (m _ (Memᴰ.head refl))
              (n _ (Memᴰ.head refl)) (cc) in
          let rest : contents xs ≡ contents ys =
            leaves_of-injective xs ys (λ b k. m b (Memᴰ.tail k)) (λ b k. n b (Memᴰ.tail k)) (cc) in
          cc

      -- Leaves are no level of nodes: their inputs start with another byte.
      pub leaves_of-ne-next_level :
          (items : List Item) (nodes : List Bytes)
          → items ≢ []
          → ((b : Bytes) → Memᴰ b (leaf_inputs items) → Memᴰ b inputs)
          → Covered inputs nodes
          → leaves_of sha256 items ≢ next_level sha256 nodes
      unfolding leaves_of next_level
      leaves_of-ne-next_level [] nodes full m n e = full refl
      leaves_of-ne-next_level (it ∷ items) [] full m n e = cc
      leaves_of-ne-next_level (it ∷ items) (x ∷ []) full m n e =
          let same : 0x00 ∷ content it ≡ 0x01 ∷ x ++ x =
            faithful (0x00 ∷ content it) (0x01 ∷ x ++ x) (m _ (Memᴰ.head refl))
              (n _ (Memᴰ.head refl)) (cc) in
          absurd (cc)
      leaves_of-ne-next_level (it ∷ items) (x ∷ y ∷ nodes) full m n e =
          let same : 0x00 ∷ content it ≡ 0x01 ∷ x ++ y =
            faithful (0x00 ∷ content it) (0x01 ∷ x ++ y) (m _ (Memᴰ.head refl))
              (n _ (Memᴰ.head refl)) (cc) in
          absurd (cc)
