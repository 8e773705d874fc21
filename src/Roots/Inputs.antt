-- ===== src/Roots/Inputs.antt =====
-- What is hashed on the way to a root.
use opencoin.Prelude.{
  ℕ, zero, suc, ◌≡◌, ◌≢◌, ◌⊎◌, inl, inr, List, [], ◌∷◌, ◌++◌, Bytes, Bytes_discrete, refl, sym, ap,
  ◌∙◌,
}
use mathlib.Core.List.{Memᴰ}
use mathlib.Core.List.Memᴰ
use opencoin.Types.{Hash}
use opencoin.Roots.{Item, next_level}

-- No member twice.
abbrev pub Distinct : List Bytes → Type 0
Distinct [] = Unit {0}
Distinct (x ∷ l) = (¬ Memᴰ x l) × Distinct l

abbrev pub content : Item → Bytes
content it = it.key ++ it.val

abbrev pub contents : List Item → List Bytes
contents [] = []
contents (it ∷ items) = content it ∷ contents items

abbrev pub leaf_inputs : List Item → List Bytes
leaf_inputs [] = []
leaf_inputs (it ∷ items) = (0x00 ∷ content it) ∷ leaf_inputs items

-- The inputs of the nodes over a level.
abbrev pub level_inputs : List Bytes → List Bytes
level_inputs [] = []
level_inputs (left ∷ []) = (0x01 ∷ left ++ left) ∷ []
level_inputs (left ∷ right ∷ nodes) = (0x01 ∷ left ++ right) ∷ level_inputs nodes

module _ (sha256 : Bytes → Hash) where
  abbrev pub tree_inputs : ℕ → List Bytes → List Bytes
  tree_inputs fuel [] = []
  tree_inputs fuel (root ∷ []) = []
  tree_inputs zero (left ∷ right ∷ nodes) = []
  tree_inputs (suc fuel) (left ∷ right ∷ nodes) =
      level_inputs (left ∷ right ∷ nodes)
      ++ tree_inputs fuel (next_level sha256 (left ∷ right ∷ nodes))

  -- Two of some inputs that differ and have one hash.
  pub record Clash (inputs : List Bytes) : Type 0 where
    pub left : Bytes
    pub right : Bytes
    pub left_hashed : Memᴰ left inputs
    pub right_hashed : Memᴰ right inputs
    pub differ : left ≢ right
    pub same : sha256 left ≡ sha256 right

  abbrev pub Faithful : List Bytes → Type 0
  Faithful inputs = (a b : Bytes) → Memᴰ a inputs → Memᴰ b inputs → sha256 a ≡ sha256 b → a ≡ b

  clash_with :
      (x : Bytes) (inputs : List Bytes)
      → ((b : Bytes) × Memᴰ b inputs × (x ≢ b) × (sha256 x ≡ sha256 b))
        ⊎ ((b : Bytes) → Memᴰ b inputs → sha256 x ≡ sha256 b → x ≡ b)
  clash_with x [] = inr (λ b m e. absurd (Memᴰ.not-nil m))
  clash_with x (y ∷ inputs) = elim (clash_with x inputs) [
    | inl (b, m, ne, e) ↦ inl (b, Memᴰ.tail m, ne, e)
    | inr apart ↦ elim (Bytes_discrete x y) [
      | yes p ↦
          inr
            (λ b m e. elim (Memᴰ.cases_cons m) [ inl q ↦ p ∙ sym q | inr there ↦ apart b there e ])
      | no ne ↦ elim (Bytes_discrete (sha256 x) (sha256 y)) [
        | yes e ↦ inl (y, Memᴰ.head refl, ne, e)
        | no other ↦ inr (λ b m e. elim (Memᴰ.cases_cons m) [
          | inl q ↦ absurd (other (e ∙ ap (λ z. sha256 z) q))
          | inr there ↦ apart b there e
        ])
      ]
    ]
  ]

  -- Of some inputs two clash, or the hash tells them apart.
  pub Clash-or_Faithful : (inputs : List Bytes) → Clash inputs ⊎ Faithful inputs
  Clash-or_Faithful [] = inr (λ a b m n e. absurd (Memᴰ.not-nil m))
  Clash-or_Faithful (x ∷ inputs) = elim (clash_with x inputs) [
    | inl (b, m, ne, e) ↦ inl (record {
      left = x;
      right = b;
      left_hashed = Memᴰ.head refl;
      right_hashed = Memᴰ.tail m;
      differ = ne;
      same = e;
    })
    | inr apart ↦ elim (Clash-or_Faithful inputs) [
      | inl found ↦ inl (record {
        left = found.left;
        right = found.right;
        left_hashed = Memᴰ.tail found.left_hashed;
        right_hashed = Memᴰ.tail found.right_hashed;
        differ = found.differ;
        same = found.same;
      })
      | inr faithful ↦ inr (λ a b m n e. elim (Memᴰ.cases_cons m) [
        | inl p ↦ elim (Memᴰ.cases_cons n) [
          | inl q ↦ p ∙ sym q
          | inr there ↦ p ∙ apart b there (ap (λ z. sha256 z) (sym p) ∙ e)
        ]
        | inr here ↦ elim (Memᴰ.cases_cons n) [
          | inl q ↦ sym (q ∙ apart a here (ap (λ z. sha256 z) (sym q) ∙ sym e))
          | inr there ↦ faithful a b here there e
        ]
      ])
    ]
  ]
