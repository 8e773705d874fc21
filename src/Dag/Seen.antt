-- ===== src/Dag/Seen.antt =====
-- Membership in the seen hashes of `PruneNonFinal`, and how many children are still unseen.
use opencoin.Prelude.{
  ℕ, ◌+◌, ◌≤◌, ◌≡◌, refl, ◌⊎◌, inl, inr, if_pos, if_neg, List, [], ◌∷◌, ◌++◌, length, Bool, true,
  false, if◌then◌else◌, arith, Bool-cases, Bytes_discrete, sym, ap, subst,
}
use opencoin.Prelude.Map.{Map, Bytes_key, lookup, lookup-cons_self, lookup-cons_ne}
use opencoin.Types.{Hash}
use opencoin.Crypto.{bytes_equal}
use opencoin.Dag.{children_of, contains, count_children}

abbrev pub Children : Type 0
Children = Map Hash (List Hash)

pub contains-cons :
    (h x : Hash) (xs : List Hash) → contains h (x ∷ xs) ≡ true → (x ≡ h) ⊎ (contains h xs ≡ true)
unfolding contains bytes_equal
contains-cons h x xs c = elim (Bytes_discrete x h) [
  | yes p ↦ inl p
  | no ne ↦ inr (rw (if_neg (Bytes_discrete x h) ne) at c)
]

pub contains-head : (h : Hash) (xs : List Hash) → contains h (h ∷ xs) ≡ true
unfolding contains bytes_equal
contains-head h xs = rw (if_pos (Bytes_discrete h h) refl) refl

pub contains-tail :
    (h x : Hash) (xs : List Hash) → contains h xs ≡ true → contains h (x ∷ xs) ≡ true
unfolding contains bytes_equal
contains-tail h x xs c = elim (Bytes_discrete x h) [
  | yes p ↦ rw (if_pos (Bytes_discrete x h) p) refl
  | no ne ↦ rw (if_neg (Bytes_discrete x h) ne) c
]

pub contains-append :
    (h : Hash) (xs ys : List Hash)
    → contains h (xs ++ ys) ≡ true
    → (contains h xs ≡ true) ⊎ (contains h ys ≡ true)
contains-append h [] ys c = inr c
contains-append h (x ∷ xs) ys c = elim (contains-cons h x (xs ++ ys) c) [
  | inl p ↦ inl (subst (λ z. contains z (x ∷ xs) ≡ true) p (contains-head x xs))
  | inr q ↦ elim (contains-append h xs ys q) [
    | inl l ↦ inl (contains-tail h x xs l)
    | inr r ↦ inr r
  ]
]

pub contains-append_left :
    (h : Hash) (xs ys : List Hash) → contains h xs ≡ true → contains h (xs ++ ys) ≡ true
unfolding contains
contains-append_left h [] ys c = cc
contains-append_left h (x ∷ xs) ys c = elim (contains-cons h x xs c) [
  | inl p ↦ subst (λ z. contains z (x ∷ xs ++ ys) ≡ true) p (contains-head x (xs ++ ys))
  | inr q ↦ contains-tail h x (xs ++ ys) (contains-append_left h xs ys q)
]

pub contains-append_right :
    (h : Hash) (xs ys : List Hash) → contains h ys ≡ true → contains h (xs ++ ys) ≡ true
contains-append_right h [] ys c = c
contains-append_right h (x ∷ xs) ys c =
    contains-tail h x (xs ++ ys) (contains-append_right h xs ys c)

-- How many children are recorded of nodes that were not seen.
abbrev pub unseen : List Hash → Children → ℕ
unseen seen [] = 0
unseen seen ((h, hs) ∷ m) = (if contains h seen then 0 else length hs) + unseen seen m

pub unseen-le : (seen : List Hash) (m : Children) → unseen seen m ≤ count_children m
unfolding unseen count_children
unseen-le seen [] = omega arith
unseen-le seen ((h, hs) ∷ m) = elim (Bool-cases (contains h seen)) [
  | inl p ↦ rw p (omega (arith, unseen-le seen m))
  | inr p ↦ rw p (omega (arith, unseen-le seen m))
]

pub unseen-cons : (c : Hash) (seen : List Hash) (m : Children) → unseen (c ∷ seen) m ≤ unseen seen m
unfolding unseen
unseen-cons c seen [] = omega arith
unseen-cons c seen ((h, hs) ∷ m) = elim (Bool-cases (contains h seen)) [
  | inl p ↦ rw (p, contains-tail h c seen p) (omega (arith, unseen-cons c seen m))
  | inr p ↦ elim (Bool-cases (contains h (c ∷ seen))) [
    | inl q ↦ rw (p, q) (omega (arith, unseen-cons c seen m))
    | inr q ↦ rw (p, q) (omega (arith, unseen-cons c seen m))
  ]
]

-- A node that is seen for the first time takes its children out of this number.
pub unseen_drops :
    (c : Hash) (seen : List Hash) (m : Children)
    → contains c seen ≡ false
    → unseen (c ∷ seen) m + length (children_of c m) ≤ unseen seen m
unfolding unseen lookup
unseen_drops c seen [] new = omega arith
unseen_drops c seen ((h, hs) ∷ m) new = elim (Bytes_discrete h c) [
  | yes p ↦
      let mine : children_of c ((h, hs) ∷ m) ≡ hs =
        rw (lookup-cons_self h c hs m p, children_of) refl in
      let marked : contains h (c ∷ seen) ≡ true =
        subst (λ z. contains h (z ∷ seen) ≡ true) p (contains-head h seen) in
      let before : contains h seen ≡ false = subst (λ z. contains z seen ≡ false) (sym p) new in
      rw (marked, before) (omega (arith, ap length mine, unseen-cons c seen m))
  | no ne ↦
      let other : children_of c ((h, hs) ∷ m) ≡ children_of c m =
        rw (lookup-cons_ne h c hs m ne, children_of) refl in
      let ih = unseen_drops c seen m new in
      elim (Bool-cases (contains h seen)) [
        | inl q ↦ rw (q, contains-tail h c seen q) (omega (arith, ap length other))
        | inr q ↦
            let still : contains h (c ∷ seen) ≡ false = not_marked (contains h (c ∷ seen)) (λ e.
              elim (contains-cons h c seen e) [
                | inl s ↦ absurd (ne (sym s))
                | inr s ↦ absurd (cc)
              ]) in
            rw (q, still) (omega (arith, ap length other))
      ]
]
  where
    not_marked : (b : Bool) → (b ≡ true → ⊥) → b ≡ false
    not_marked true n = absurd (n refl)
    not_marked false n = refl
