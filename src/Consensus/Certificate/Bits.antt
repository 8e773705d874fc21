-- ===== src/Consensus/Certificate/Bits.antt =====
-- Bitmaps of bytes.
use opencoin.Prelude.{
  ℕ, zero, suc, ℕ_discrete, ◌/◌, ◌%◌, ◌<◌, ◌≡◌, refl, ◌⊎◌, inl, inr, List, [], ◌∷◌, length, get_or,
  set, All, Bool, true, false, not, ◌||◌, ltb, ◌==◌, if◌then◌else◌, ltb→lt, arith, sym, ◌∙◌, ==_iff,
  Bytes, get_elem?, some, ap, Bool-cases,
}
use opencoin.Consensus.Tally.{bit_at, with_bit}

-- Whether a test passes for every number below a bound.
passes_below : (ℕ → Bool) → ℕ → Bool
passes_below test zero = true
passes_below test (suc bound) =
    let rest = passes_below test bound in if test bound then rest else false

passes_below-lt :
    (test : ℕ → Bool) (bound : ℕ)
    → passes_below test bound ≡ true
    → (n : ℕ) → n < bound
    → test n ≡ true
unfolding passes_below
passes_below-lt test zero passed n less = absurd (omega arith)
passes_below-lt test (suc bound) passed n less = elim (Bool-cases (test bound)) [
  | inl last ↦ elim (ℕ_discrete n bound) [
    | yes e ↦ ap test e ∙ last
    | no ne ↦ passes_below-lt test bound (ground (arith, last)) n (omega arith)
  ]
  | inr last ↦ absurd (ground (arith, last))
]

abbrev keeps_bit : ℕ → ℕ → ℕ → Bool
keeps_bit b k l = not (bit_at (with_bit b k) l) || (k == l) || bit_at b l

keeps_bit_table :
    passes_below (λ b. passes_below (λ k. passes_below (λ l. keeps_bit b k l) 8) 8) 256 ≡ true
unfolding passes_below
keeps_bit_table = refl

range_table : passes_below (λ b. passes_below (λ k. ltb (with_bit b k) 256) 8) 256 ≡ true
unfolding passes_below
range_table = refl

-- A bit that is set after another was written was set before, or is the one.
pub with_bit-bit_at :
    (b k l : ℕ)
    → b < 256
    → k < 8
    → l < 8
    → bit_at (with_bit b k) l ≡ true
    → (k ≡ l) ⊎ (bit_at b l ≡ true)
with_bit-bit_at b k l hb hk hl h =
    let row =
      passes_below-lt (λ x. passes_below (λ y. passes_below (λ z. keeps_bit x y z) 8) 8) 256
        keeps_bit_table b hb in
    let column = passes_below-lt (λ y. passes_below (λ z. keeps_bit b y z) 8) 8 row k hk in
    let cell = passes_below-lt (λ z. keeps_bit b k z) 8 column l hl in
    kept (bit_at (with_bit b k) l) (k == l) (bit_at b l) h cell (λ e. (==_iff k l).0 e)
  where
    kept :
        (after same before : Bool)
        → after ≡ true
        → (not after || same || before) ≡ true
        → (same ≡ true → k ≡ l)
        → (k ≡ l) ⊎ (before ≡ true)
    kept true true before h c e = inl (e refl)
    kept true false true h c e = inr refl
    kept true false false h c e = cc
    kept false same before h c e = cc

pub with_bit-lt : (b k : ℕ) → b < 256 → k < 8 → with_bit b k < 256
with_bit-lt b k hb hk =
    let row =
      passes_below-lt (λ x. passes_below (λ y. ltb (with_bit x y) 256) 8) 256 range_table b hb in
    ltb→lt _ _ (passes_below-lt (λ y. ltb (with_bit b y) 256) 8 row k hk)

pub get_or-set {ℓ} :
    {A : Type ℓ} (xs : List A) (i j : ℕ) (v d : A)
    → i < length xs
    → get_or (set xs i v) j d ≡ (if i == j then v else get_or xs j d)
get_or-set [] i j v d h = absurd (omega arith)
get_or-set (x ∷ xs) zero zero v d h = refl
get_or-set (x ∷ xs) (suc i) (suc j) v d h = ground (arith, get_or-set xs i j v d)
get_or-set (x ∷ xs) zero (suc j) v d h = ground arith
get_or-set (x ∷ xs) (suc i) zero v d h = ground arith

pub All-get_or : (xs : Bytes) (i : ℕ) → All (λ b. b < 256) xs → get_or xs i 0 < 256
All-get_or [] i h = omega arith
All-get_or (x ∷ xs) zero h = h.0
All-get_or (x ∷ xs) (suc i) h = All-get_or xs i h.1

pub All-set :
    (xs : Bytes) (i v : ℕ) → v < 256 → All (λ b. b < 256) xs → All (λ b. b < 256) (set xs i v)
All-set [] i v h a = tt
All-set (x ∷ xs) zero v h a = (h, a.1)
All-set (x ∷ xs) (suc i) v h a = (a.0, All-set xs i v h a.1)

pub get_elem?-lt {ℓ} :
    {A : Type ℓ} (xs : List A) (i : ℕ) (v : A) → get_elem? xs i ≡ some v → i < length xs
get_elem?-lt [] i v h = cc
get_elem?-lt (x ∷ xs) zero v h = omega arith
get_elem?-lt (x ∷ xs) (suc i) v h = omega (arith, get_elem?-lt xs i v h)

-- Whether bit `i` of a bitmap is set.
abbrev pub is_set : Bytes → ℕ → Bool
is_set bitmap i = bit_at (get_or bitmap (i / 8) 0) (i % 8)

-- `bitmap[i/8] |= 1 << (i%8)`
abbrev pub set_bit : Bytes → ℕ → Bytes
set_bit bitmap i = set bitmap (i / 8) (with_bit (get_or bitmap (i / 8) 0) (i % 8))

pub is_set-set_bit :
    (bitmap : Bytes) (i j : ℕ)
    → All (λ b. b < 256) bitmap
    → i / 8 < length bitmap
    → is_set (set_bit bitmap i) j ≡ true
    → (i ≡ j) ⊎ (is_set bitmap j ≡ true)
is_set-set_bit bitmap i j a h s =
    let old = get_or bitmap (i / 8) 0 in
    let byte = get_or-set bitmap (i / 8) (j / 8) (with_bit old (i % 8)) 0 h in
    elim (Bool-cases (i / 8 == j / 8)) [
      | inl here ↦
          let same : i / 8 ≡ j / 8 = (==_iff (i / 8) (j / 8)).0 here in
          let now : get_or (set_bit bitmap i) (j / 8) 0 ≡ with_bit old (i % 8) =
            byte ∙ ap (λ t. if t then with_bit old (i % 8) else get_or bitmap (j / 8) 0) here in
          let after : bit_at (with_bit old (i % 8)) (j % 8) ≡ true =
            ap (λ b. bit_at b (j % 8)) (sym now) ∙ s in
          elim (with_bit-bit_at old (i % 8) (j % 8) (All-get_or bitmap (i / 8) a) (omega arith)
            (omega arith) after) [
              | inl e ↦ inl (omega arith)
              | inr q ↦ inr (ap (λ n. bit_at (get_or bitmap n 0) (j % 8)) (sym same) ∙ q)
            ]
      | inr there ↦
          let now : get_or (set_bit bitmap i) (j / 8) 0 ≡ get_or bitmap (j / 8) 0 =
            byte ∙ ap (λ t. if t then with_bit old (i % 8) else get_or bitmap (j / 8) 0) there in
          inr (ap (λ b. bit_at b (j % 8)) (sym now) ∙ s)
    ]

clear_table : passes_below (λ n. not (bit_at 0 n)) 8 ≡ true
unfolding passes_below
clear_table = refl

pub zero_bit : (n : ℕ) → n < 8 → bit_at 0 n ≡ false
zero_bit n h = flip (bit_at 0 n) (passes_below-lt (λ x. not (bit_at 0 x)) 8 clear_table n h)
  where
    flip : (b : Bool) → not b ≡ true → b ≡ false
    flip true e = cc
    flip false e = refl
