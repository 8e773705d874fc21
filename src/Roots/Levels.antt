-- ===== src/Roots/Levels.antt =====
-- The levels of the Merkle tree of pkg/state/merkle.go, of leaves that the hash tells apart.
use opencoin.Prelude.{
  ℕ, zero, suc, ◌<◌, ◌≡◌, refl, inl, inr, List, [], ◌∷◌, ◌++◌, All, length, Bytes, arith, sym, ap,
  ◌∙◌,
}
use mathlib.Core.List.{Memᴰ}
use mathlib.Core.List.Memᴰ
use opencoin.Types.{Hash}
use opencoin.Roots.{node, next_level}
use opencoin.Roots.Inputs.{Distinct, level_inputs, Faithful}

split_same : (a c b d : Bytes) → length a ≡ length c → a ++ b ≡ c ++ d → (a ≡ c) × (b ≡ d)
split_same [] [] b d l e = (refl, e)
split_same [] (y ∷ c) b d l e = absurd (omega arith)
split_same (x ∷ a) [] b d l e = absurd (omega arith)
split_same (x ∷ a) (y ∷ c) b d l e = let (p, q) = split_same a c b d (omega arith) (cc) in (cc, q)

abbrev pub Wide : List Bytes → Type 0
Wide nodes = All (λ n. length n ≡ 32) nodes

-- The inputs of the level over some nodes are among the inputs given.
abbrev pub Covered : List Bytes → List Bytes → Type 0
Covered inputs nodes = (b : Bytes) → Memᴰ b (level_inputs nodes) → Memᴰ b inputs

module _ (sha256 : Bytes → Hash) where
  unfoldable pub level : ℕ → List Bytes → List Bytes
  unfolding next_level
  level zero nodes = nodes
  level (suc k) nodes = next_level sha256 (level k nodes)

  pub level-next_level :
      (k : ℕ) (xs : List Bytes) → level k (next_level sha256 xs) ≡ level (suc k) xs
  unfolding level
  level-next_level zero xs = refl
  level-next_level (suc k) xs = ap (λ l. next_level sha256 l) (level-next_level k xs)

  module _ (wide : (b : Bytes) → length (sha256 b) ≡ 32) where
    next_level-Wide : (xs : List Bytes) → Wide (next_level sha256 xs)
    unfolding next_level
    next_level-Wide [] = tt
    next_level-Wide (x ∷ []) = (wide _, tt)
    next_level-Wide (x ∷ y ∷ xs) = (wide _, next_level-Wide xs)

    pub level-Wide : (k : ℕ) (xs : List Bytes) → Wide xs → Wide (level k xs)
    unfolding level
    level-Wide zero xs w = w
    level-Wide (suc k) xs w = next_level-Wide (level k xs)

    module _ (inputs : List Bytes) (faithful : Faithful sha256 inputs) where
      node-injective :
          (a b c d : Bytes)
          → length a ≡ 32
          → length c ≡ 32
          → Memᴰ (0x01 ∷ a ++ b) inputs
          → Memᴰ (0x01 ∷ c ++ d) inputs
          → node sha256 a b ≡ node sha256 c d
          → (a ≡ c) × (b ≡ d)
      node-injective a b c d v w m n e =
          let same : 0x01 ∷ a ++ b ≡ 0x01 ∷ c ++ d =
            faithful (0x01 ∷ a ++ b) (0x01 ∷ c ++ d) m n e in
          split_same a c b d (v ∙ sym w) (cc)

      -- Equal levels come of equal levels below, also where one of them has an odd last node: the
      -- other would have its last node twice.
      pub next_level-injective :
          (xs ys : List Bytes)
          → Wide xs
          → Wide ys
          → Distinct xs
          → Distinct ys
          → Covered inputs xs
          → Covered inputs ys
          → next_level sha256 xs ≡ next_level sha256 ys
          → xs ≡ ys
      unfolding next_level
      next_level-injective [] [] v w d f m n e = refl
      next_level-injective [] (y ∷ []) v w d f m n e = cc
      next_level-injective [] (y ∷ y' ∷ ys) v w d f m n e = cc
      next_level-injective (x ∷ []) [] v w d f m n e = cc
      next_level-injective (x ∷ x' ∷ xs) [] v w d f m n e = cc
      next_level-injective (x ∷ []) (y ∷ []) v w d f m n e =
          let (p, q) =
            node-injective x x y y v.0 w.0 (m _ (Memᴰ.head refl)) (n _ (Memᴰ.head refl)) (cc) in
          ap (λ z. z ∷ []) p
      next_level-injective (x ∷ []) (y ∷ y' ∷ ys) v w d f m n e =
          let (p, q) =
            node-injective x x y y' v.0 w.0 (m _ (Memᴰ.head refl)) (n _ (Memᴰ.head refl)) (cc) in
          absurd (f.0 (Memᴰ.head (sym p ∙ q)))
      next_level-injective (x ∷ x' ∷ xs) (y ∷ []) v w d f m n e =
          let (p, q) =
            node-injective x x' y y v.0 w.0 (m _ (Memᴰ.head refl)) (n _ (Memᴰ.head refl)) (cc) in
          absurd (d.0 (Memᴰ.head (p ∙ sym q)))
      next_level-injective (x ∷ x' ∷ xs) (y ∷ y' ∷ ys) v w d f m n e =
          let (p, q) =
            node-injective x x' y y' v.0 w.0 (m _ (Memᴰ.head refl)) (n _ (Memᴰ.head refl)) (cc) in
          let r : xs ≡ ys =
            next_level-injective xs ys v.1.1 w.1.1 d.1.1 f.1.1 (λ b h. m b (Memᴰ.tail h))
              (λ b h. n b (Memᴰ.tail h)) (cc) in
          cc

      node-absent :
          (l r : Bytes) (xs : List Bytes)
          → length l ≡ 32
          → Wide xs
          → Memᴰ (0x01 ∷ l ++ r) inputs
          → Covered inputs xs
          → ¬ Memᴰ l xs
          → ¬ Memᴰ (node sha256 l r) (next_level sha256 xs)
      unfolding next_level
      node-absent l r [] v w m n out h = Memᴰ.not-nil h
      node-absent l r (x ∷ []) v w m n out h = elim (Memᴰ.cases_cons h) [
        | inl e ↦ out (Memᴰ.head (node-injective l r x x v w.0 m (n _ (Memᴰ.head refl)) e).0)
        | inr none_left ↦ Memᴰ.not-nil none_left
      ]
      node-absent l r (x ∷ x' ∷ xs) v w m n out h = elim (Memᴰ.cases_cons h) [
        | inl e ↦ out (Memᴰ.head (node-injective l r x x' v w.0 m (n _ (Memᴰ.head refl)) e).0)
        | inr there ↦
            node-absent l r xs v w.1.1 m (λ b k. n b (Memᴰ.tail k))
              (λ k. out (Memᴰ.tail (Memᴰ.tail k))) there
      ]

      next_level-Distinct :
          (xs : List Bytes)
          → Wide xs
          → Distinct xs
          → Covered inputs xs
          → Distinct (next_level sha256 xs)
      unfolding next_level
      next_level-Distinct [] w d n = tt
      next_level-Distinct (x ∷ []) w d n = (Memᴰ.not-nil, tt)
      next_level-Distinct (x ∷ x' ∷ xs) w d n = (
        node-absent x x' xs w.0 w.1.1 (n _ (Memᴰ.head refl)) (λ b k. n b (Memᴰ.tail k))
            (λ k. d.0 (Memᴰ.tail k)),
        next_level-Distinct xs w.1.1 d.1.1 (λ b k. n b (Memᴰ.tail k)),
      )

      pub level-Distinct :
          (k : ℕ) (xs : List Bytes)
          → Wide xs
          → Distinct xs
          → ((j : ℕ) → j < k → Covered inputs (level j xs))
          → Distinct (level k xs)
      unfolding level
      level-Distinct zero xs w d below = d
      level-Distinct (suc k) xs w d below =
          next_level-Distinct (level k xs) (level-Wide k xs w)
            (level-Distinct k xs w d (λ j lt. below j (omega arith))) (below k (omega arith))
