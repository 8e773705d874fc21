-- ===== src/Wire/Loop.antt =====
-- The decoders' loop: it ends, and it reads back a field that was written.
use opencoin.Prelude.{
  ℕ, zero, suc, ◌^◌, ◌≤◌, ◌<◌, ◌≡◌, refl, ◌≢◌, inl, inr, Bool, true, false, some, Option-cases, [],
  ◌∷◌, ◌++◌, length, length-append, Bytes, IsU64, arith, Result, ok, err, panics, stuck, ◌>>=◌,
  ◌>>◌, fail_if, if◌then◌else◌,
}
use Prim.Native.String.{String}
use opencoin.Wire.{
  Wire, WireLaws, bytes_field, varint_field, skip_field, decode_loop, decode, varint_type,
  bytes_type,
}

-- A value or an error: no panic, and no loop that ran out of fuel.
abbrev pub Answers : {A : Type 0} → Result A → Type 0
Answers (ok a) = Unit
Answers (err e) = Unit
Answers (panics e) = ⊥
Answers stuck = ⊥

-- A step that answers a value leaves no more bytes than it was given; it does not panic and is never
-- stuck.
abbrev pub Consumes : {A : Type 0} → Bytes → Result (A × Bytes) → Type 0
Consumes b (ok (a, rest)) = length rest ≤ length b
Consumes b (err e) = Unit
Consumes b (panics e) = ⊥
Consumes b stuck = ⊥

pub Consumes-if :
    {A : Type 0} (t : Bool) (b : Bytes) (x y : Result (A × Bytes))
    → Consumes b x
    → Consumes b y
    → Consumes b (if t then x else y)
Consumes-if true b x y h k = h
Consumes-if false b x y h k = k

pub Consumes->>= :
    {A B : Type 0} (b : Bytes) (m : Result (A × Bytes)) (f : A × Bytes → Result (B × Bytes))
    → Consumes b m
    → ((a : A) (rest : Bytes) → length rest ≤ length b → Consumes b (f (a, rest)))
    → Consumes b (m >>= f)
Consumes->>= b (ok (a, rest)) f h k = k a rest h
Consumes->>= b (err e) f h k = tt
Consumes->>= b (panics e) f h k = h
Consumes->>= b stuck f h k = h

pub Consumes-guard :
    {A : Type 0} (t : Bool) (e : String) (b : Bytes) (m : Result (A × Bytes))
    → Consumes b m
    → Consumes b (fail_if t e >> m)
Consumes-guard true e b m h = tt
Consumes-guard false e b m h = h

-- An inner decoder that answers keeps the rest of the outer bytes.
pub Consumes-inner :
    {A B : Type 0} (b rest : Bytes) (m : Result A) (f : A → B)
    → length rest ≤ length b
    → Answers m
    → Consumes b (m >>= λ a. ok (f a, rest))
Consumes-inner b rest (ok a) f h k = h
Consumes-inner b rest (err e) f h k = tt
Consumes-inner b rest (panics e) f h k = k
Consumes-inner b rest stuck f h k = k

module _ ⦃w : Wire⦄ (l : WireLaws w) where
  pub bytes_field-Consumes :
      {A : Type 0} (wrong invalid : String) (typ : ℕ) (b : Bytes) (store : Bytes → A)
      → Consumes b (bytes_field wrong invalid typ b store)
  unfolding bytes_field
  bytes_field-Consumes wrong invalid typ b store = grind (arith, l.bytes_shrinks)

  pub varint_field-Consumes :
      {A : Type 0} (wrong invalid : String) (typ : ℕ) (b : Bytes) (store : ℕ → A)
      → Consumes b (varint_field wrong invalid typ b store)
  unfolding varint_field
  varint_field-Consumes wrong invalid typ b store = elim (Option-cases (w.consume_varint b)) [
    | inl e ↦ ground arith
    | inr ((v, rest), e) ↦ ground (arith, l.varint_shrinks b e)
  ]

  pub skip_field-Consumes :
      {A : Type 0} (invalid : String) (num typ : ℕ) (b : Bytes) (a : A)
      → Consumes b (skip_field invalid num typ b a)
  unfolding skip_field
  skip_field-Consumes invalid num typ b a = grind (arith, l.field_shrinks)

  -- A tag is never empty.
  pub tag-nonempty :
      (num typ : ℕ) (rest : Bytes)
      → (1 ≤ num) × (num < 2 ^ 29) × (typ < 8)
      → length (w.tag num typ ++ rest) ≢ 0
  tag-nonempty num typ rest (lo, hi, ht) e =
      let shorter = l.tag_shrinks _ (l.tag_back num typ rest lo hi ht) in absurd (omega arith)

  -- A written value is read back by its case.
  pub bytes_field-back :
      {A : Type 0} (wrong invalid : String) (v rest : Bytes) (store : Bytes → A)
      → bytes_field wrong invalid bytes_type (w.bytes v ++ rest) store ≡ ok (store v, rest)
  unfolding bytes_field
  bytes_field-back wrong invalid v rest store = rw (l.bytes_back v rest)

  pub varint_field-back :
      {A : Type 0} (wrong invalid : String) (v : ℕ) (rest : Bytes) (store : ℕ → A)
      → IsU64 v
      → varint_field wrong invalid varint_type (w.varint v ++ rest) store ≡ ok (store v, rest)
  unfolding varint_field
  varint_field-back wrong invalid v rest store h = rw (l.varint_back v rest h)

  module _ {A : Type 0} (bad : String) (step : A → ℕ → ℕ → Bytes → Result (A × Bytes)) where
    -- One round: the rest of the loop is given fewer bytes.
    round-Answers :
        (fuel : ℕ) (r : Result (A × Bytes)) (b : Bytes)
        → ((a' : A) (b' : Bytes) → length b' ≤ fuel → Answers (decode_loop bad step fuel a' b'))
        → Consumes b r
        → length b ≤ fuel
        → Answers (r >>= λ p. decode_loop bad step fuel p.0 p.1)
    round-Answers fuel (ok (a', b')) b ih c s = ih a' b' (omega arith)
    round-Answers fuel (err m) b ih c s = tt
    round-Answers fuel (panics m) b ih c s = c
    round-Answers fuel stuck b ih c s = c

    decode_loop-Answers :
        ((a : A) (num typ : ℕ) (b : Bytes) → Consumes b (step a num typ b))
        → (fuel : ℕ) (a : A) (b : Bytes) → length b ≤ fuel
        → Answers (decode_loop bad step fuel a b)
    unfolding decode_loop
    decode_loop-Answers h fuel a [] k = tt
    decode_loop-Answers h zero a (x ∷ xs) k = absurd (omega arith)
    decode_loop-Answers h (suc fuel) a (x ∷ xs) k = elim (Option-cases (w.consume_tag (x ∷ xs))) [
      | inl e ↦ rw e tt
      | inr ((num, typ, b), e) ↦ rw e (
          round-Answers fuel (step a num typ b) b (decode_loop-Answers h fuel) (h a num typ b)
            (omega (arith, l.tag_shrinks _ e)))
    ]

    -- If no step panics or is stuck, the decoder ends with a value or an error on every input.
    pub decode-Answers :
        ((a : A) (num typ : ℕ) (b : Bytes) → Consumes b (step a num typ b))
        → (a : A) (b : Bytes) → Answers (decode bad step a b)
    unfolding decode
    decode-Answers h a b = decode_loop-Answers h (length b) a b (omega arith)

    -- The loop started at `a` on `b` ends with `r`, given fuel for each byte.
    abbrev pub Runs : A → Bytes → Result A → Type 0
    Runs a b r = (fuel : ℕ) → length b ≤ fuel → decode_loop bad step fuel a b ≡ r

    pub Runs-nil : (a : A) → Runs a [] (ok a)
    unfolding decode_loop
    Runs-nil a fuel h = refl

    Runs-tag :
        (a a' : A) (num typ : ℕ) (b mid rest : Bytes) (r : Result A)
        → w.consume_tag b ≡ some (num, typ, mid)
        → step a num typ mid ≡ ok (a', rest)
        → length rest ≤ length mid
        → Runs a' rest r
        → (fuel : ℕ) → length b ≤ fuel
        → decode_loop bad step fuel a b ≡ r
    unfolding decode_loop
    Runs-tag a a' num typ [] mid rest r e s c k fuel h = absurd (omega (arith, l.tag_shrinks _ e))
    Runs-tag a a' num typ (x ∷ xs) mid rest r e s c k zero h = absurd (omega arith)
    Runs-tag a a' num typ (x ∷ xs) mid rest r e s c k (suc fuel) h =
        rw (e, s) (k fuel (omega (arith, l.tag_shrinks _ e)))

    -- A field in front: the tag, then a value that its case reads back.
    pub Runs-field :
        (a a' : A) (num typ : ℕ) (value rest : Bytes) (r : Result A)
        → (1 ≤ num) × (num < 2 ^ 29) × (typ < 8)
        → step a num typ (value ++ rest) ≡ ok (a', rest)
        → Runs a' rest r
        → Runs a (w.tag num typ ++ (value ++ rest)) r
    Runs-field a a' num typ value rest r (lo, hi, ht) s k =
        Runs-tag a a' num typ _ (value ++ rest) rest r (l.tag_back num typ (value ++ rest) lo hi ht)
          s (omega (arith, length-append value rest)) k

    pub decode-Runs : (a : A) (b : Bytes) (r : Result A) → Runs a b r → decode bad step a b ≡ r
    unfolding decode
    decode-Runs a b r k = k (length b) (omega arith)
