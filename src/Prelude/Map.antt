-- ===== src/Prelude/Map.antt =====
-- A Go map as an association list; a new key goes to the end. The keys' equality is an instance.
use opencoin.Prelude.{
  sym, ap, ◌∙◌, All, ℕ, ◌≡◌, refl, ◌≢◌, ite, if_pos, if_neg, Option, none, some, List, [], ◌∷◌,
  arith, Bytes, Bytes_discrete, ℕ_discrete,
}

-- The types that Go maps are keyed by.
pub record Key {ℓ} (K : Type ℓ) : Type ℓ where
  pub same? : Discrete K

instance abbrev pub ℕ_key : Key ℕ
ℕ_key = record { same? = ℕ_discrete }

instance abbrev pub Bytes_key : Key Bytes
Bytes_key = record { same? = Bytes_discrete }

abbrev pub Map {ℓ} : Type ℓ → Type ℓ → Type ℓ
Map K V = List (K × V)

module _ {ℓ} {K : Type ℓ} ⦃d : Key K⦄ {V : Type ℓ} where
  -- `m[k]` with its second result.
  unfoldable pub lookup : K → Map K V → Option V
  lookup k [] = none
  lookup k ((j, v) ∷ m) = ite (d.same? j k) (some v) (lookup k m)

  -- `m[k] = v`
  unfoldable pub insert : K → V → Map K V → Map K V
  insert k v [] = (k, v) ∷ []
  insert k v ((j, w) ∷ m) = ite (d.same? j k) ((j, v) ∷ m) ((j, w) ∷ insert k v m)

  -- `delete(m, k)`
  unfoldable pub erase : K → Map K V → Map K V
  erase k [] = []
  erase k ((j, v) ∷ m) = ite (d.same? j k) (erase k m) ((j, v) ∷ erase k m)

  pub lookup-cons_self : (k j : K) (v : V) (m : Map K V) → k ≡ j → lookup j ((k, v) ∷ m) ≡ some v
  unfolding lookup
  lookup-cons_self k j v m h = if_pos (d.same? k j) h _ _

  pub lookup-cons_ne : (k j : K) (v : V) (m : Map K V) → k ≢ j → lookup j ((k, v) ∷ m) ≡ lookup j m
  unfolding lookup
  lookup-cons_ne k j v m h = if_neg (d.same? k j) h _ _

  -- A lookup after a write: the new value under the key, and nothing else changed.
  pub lookup-insert :
      (k j : K) (v : V) (m : Map K V)
      → lookup j (insert k v m) ≡ ite (d.same? k j) (some v) (lookup j m)
  unfolding lookup insert
  lookup-insert k j v [] = refl
  lookup-insert k j v ((i, w) ∷ m) = ground (arith, lookup-insert k j v m)

  pub lookup-insert_self : (k : K) (v : V) (m : Map K V) → lookup k (insert k v m) ≡ some v
  lookup-insert_self k v m = ground (arith, lookup-insert k k v m)

  pub lookup-insert_ne :
      (k j : K) (v : V) (m : Map K V) → k ≢ j → lookup j (insert k v m) ≡ lookup j m
  lookup-insert_ne k j v m h = ground (arith, lookup-insert k j v m)

  pub lookup-erase :
      (k j : K) (m : Map K V) → lookup j (erase k m) ≡ ite (d.same? k j) none (lookup j m)
  unfolding lookup erase
  lookup-erase k j [] = ground arith
  lookup-erase k j ((i, w) ∷ m) = ground (arith, lookup-erase k j m)

  -- A Go map has a key once.
  abbrev pub DistinctKeys : Map K V → Type ℓ
  DistinctKeys [] = Unit {ℓ}
  DistinctKeys ((k, v) ∷ m) = (lookup k m ≡ none) × DistinctKeys m

  found-behind :
      (j : K) (w : V) (k : K) (v : V) (m : Map K V)
      → lookup j m ≡ none
      → lookup k m ≡ some v
      → lookup k ((j, w) ∷ m) ≡ some v
  unfolding lookup
  found-behind j w k v m absent found = elim (d.same? j k) [
    | yes p ↦ absurd (none_ne_some (sym absent ∙ ap (λ x. lookup x m) p ∙ found))
    | no ne ↦ if_neg (d.same? j k) ne _ _ ∙ found
  ]
    where
      none_ne_some : none ≡ some v → ⊥
      none_ne_some e = cc

  -- Every entry of a map is found under its key.
  pub entry-found :
      (j : K) (w : V) (m rest : Map K V)
      → lookup j m ≡ none
      → All (λ e. lookup e.0 m ≡ some e.1) rest
      → All (λ e. lookup e.0 ((j, w) ∷ m) ≡ some e.1) rest
  entry-found j w m [] absent found = tt
  entry-found j w m ((k, v) ∷ rest) absent found =
      (found-behind j w k v m absent found.0, entry-found j w m rest absent found.1)

  pub entries-found : (m : Map K V) → DistinctKeys m → All (λ e. lookup e.0 m ≡ some e.1) m
  entries-found [] distinct = tt
  entries-found ((k, v) ∷ m) distinct =
      (lookup-cons_self k k v m refl, entry-found k v m m distinct.0 (entries-found m distinct.1))

  insert_absent :
      (k j : K) (v : V) (m : Map K V) → lookup j m ≡ none → k ≢ j → lookup j (insert k v m) ≡ none
  insert_absent k j v m absent ne = lookup-insert_ne k j v m ne ∙ absent

  pub insert-DistinctKeys :
      (k : K) (v : V) (m : Map K V) → DistinctKeys m → DistinctKeys (insert k v m)
  unfolding insert lookup
  insert-DistinctKeys k v [] distinct = (refl, tt)
  insert-DistinctKeys k v ((j, w) ∷ m) distinct = elim (d.same? j k) [
    | yes p ↦ rw (if_pos (d.same? j k) p) distinct
    | no ne ↦
        rw (if_neg (d.same? j k) ne)
          (insert_absent k j v m distinct.0 (λ e. ne (sym e)), insert-DistinctKeys k v m distinct.1)
  ]

  pub absent-All : (k : K) (m : Map K V) → lookup k m ≡ none → All (λ e. e.0 ≢ k) m
  unfolding lookup
  absent-All k [] absent = tt
  absent-All k ((j, v) ∷ m) absent = elim (d.same? j k) [
    | yes p ↦ absurd (some_ne_none (sym (if_pos (d.same? j k) p _ _) ∙ absent))
    | no ne ↦ (ne, absent-All k m (sym (if_neg (d.same? j k) ne _ _) ∙ absent))
  ]
    where
      some_ne_none : some v ≡ none → ⊥
      some_ne_none e = cc
