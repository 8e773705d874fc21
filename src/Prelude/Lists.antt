-- ===== src/Prelude/Lists.antt =====
-- Lists measured by native numbers, under the library's names, and byte strings.
use Prim.Native.Nat.{ℕ, zero, suc, ◌+◌, ◌-◌, ◌<◌}
use opencoin.Prelude.Tests.{◌==◌, if◌then◌else◌}
use mathlib.Core.Path.{◌≡◌, refl, ap}
use mathlib.Core.List.{List, [], ◌∷◌, ◌++◌}
use mathlib.Core.Option.{Option, none, some}
use native.Mathlib.Omega.{arith}
use native.Mathlib.Decide.{ℕ_discrete}

-- A Go string or byte slice: the list of its bytes. A nil slice is the empty list.
abbrev pub Bytes : Type 0
Bytes = List ℕ

module _ {ℓ} {A : Type ℓ} where
  abbrev pub length : List A → ℕ
  length [] = 0
  length (x ∷ xs) = suc (length xs)

  abbrev pub get_elem? : List A → ℕ → Option A
  get_elem? [] i = none
  get_elem? (x ∷ xs) zero = some x
  get_elem? (x ∷ xs) (suc i) = get_elem? xs i

  abbrev pub get_or : List A → ℕ → A → A
  get_or [] i d = d
  get_or (x ∷ xs) zero d = x
  get_or (x ∷ xs) (suc i) d = get_or xs i d

  abbrev pub drop : ℕ → List A → List A
  drop zero xs = xs
  drop (suc n) [] = []
  drop (suc n) (x ∷ xs) = drop n xs

  -- A write out of bounds changes nothing.
  abbrev pub set : List A → ℕ → A → List A
  set [] i v = []
  set (x ∷ xs) zero v = v ∷ xs
  set (x ∷ xs) (suc i) v = x ∷ set xs i v

  abbrev pub replicate : ℕ → A → List A
  replicate zero v = []
  replicate (suc n) v = v ∷ replicate n v

  pub length-set : (xs : List A) (i : ℕ) (v : A) → length (set xs i v) ≡ length xs
  length-set [] i v = refl
  length-set (x ∷ xs) zero v = refl
  length-set (x ∷ xs) (suc i) v = omega (arith, length-set xs i v)

  pub length-replicate : (n : ℕ) (v : A) → length (replicate n v) ≡ n
  length-replicate zero v = refl
  length-replicate (suc n) v = omega (arith, length-replicate n v)

  pub get_elem?-set :
      (xs : List A) (i j : ℕ) (v : A)
      → i < length xs
      → get_elem? (set xs i v) j ≡ (if i == j then some v else get_elem? xs j)
  get_elem?-set [] i j v h = absurd (omega arith)
  get_elem?-set (x ∷ xs) zero zero v h = refl
  get_elem?-set (x ∷ xs) (suc i) (suc j) v h = ground (arith, get_elem?-set xs i j v)
  get_elem?-set (x ∷ xs) zero (suc j) v h = ground arith
  get_elem?-set (x ∷ xs) (suc i) zero v h = ground arith

  pub length-append : (xs ys : List A) → length (xs ++ ys) ≡ length xs + length ys
  length-append [] ys = omega arith
  length-append (x ∷ xs) ys = omega (arith, length-append xs ys)

  pub length-drop : (n : ℕ) (xs : List A) → length (drop n xs) ≡ length xs - n
  length-drop zero xs = omega arith
  length-drop (suc n) [] = omega arith
  length-drop (suc n) (x ∷ xs) = omega (arith, length-drop n xs)

  abbrev pub All {κ} : (A → Type κ) → List A → Type κ
  All P [] = Unit {κ}
  All P (x ∷ xs) = P x × All P xs

-- Equality of byte strings, by comparing byte after byte.
∷_ne_tail : {x y : ℕ} {xs ys : Bytes} → ¬ (xs ≡ ys) → ¬ ((x ∷ xs) ≡ (y ∷ ys))
∷_ne_tail h e = h (cc)

∷_ne_head : {x y : ℕ} {xs ys : Bytes} → ¬ (x ≡ y) → ¬ ((x ∷ xs) ≡ (y ∷ ys))
∷_ne_head h e = h (cc)

nil_ne_cons : {x : ℕ} {xs : Bytes} → ¬ ([] ≡ x ∷ xs)
nil_ne_cons e = cc

cons_ne_nil : {x : ℕ} {xs : Bytes} → ¬ (x ∷ xs ≡ [])
cons_ne_nil e = cc

∷_eq : {x y : ℕ} {xs ys : Bytes} → x ≡ y → xs ≡ ys → (x ∷ xs) ≡ (y ∷ ys)
∷_eq p q = cc

unfoldable pub Bytes_discrete : Discrete Bytes
unfolding ℕ_discrete ∷_ne_tail ∷_ne_head nil_ne_cons cons_ne_nil ∷_eq
Bytes_discrete [] [] = yes refl
Bytes_discrete [] (y ∷ ys) = no nil_ne_cons
Bytes_discrete (x ∷ xs) [] = no cons_ne_nil
Bytes_discrete (x ∷ xs) (y ∷ ys) =
    let rest = Bytes_discrete xs ys in
    elim (ℕ_discrete x y) [
      | yes p ↦ elim rest [ yes q ↦ yes (∷_eq p q) | no q ↦ no (∷_ne_tail q) ]
      | no p ↦ no (∷_ne_head p)
    ]

pub heads_agree {ℓ} : {A : Type ℓ} {x y : A} (xs ys : List A) → x ∷ xs ≡ y ∷ ys → x ≡ y
heads_agree xs ys e = cc

-- Byte strings that differ at a place.
pub differ_at : (i : ℕ) (a b : Bytes) → ¬ (get_or a i 0 ≡ get_or b i 0) → ¬ (a ≡ b)
differ_at i a b ne e = ne (ap (λ l. get_or l i 0) e)
