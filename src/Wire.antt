-- ===== src/Wire.antt =====
-- What the program uses of google.golang.org/protobuf/encoding/protowire, which is not part of the
-- repository, and the loop that all decoders of pkg/tx, pkg/encoding and pkg/state share.
pub mod Loop
use opencoin.Prelude.{
  ℕ, zero, suc, ◌+◌, ◌^◌, ◌≤◌, ◌<◌, ◌≡◌, not, Option, some, List, [], ◌∷◌, ◌++◌, length, Bytes,
  IsU64, ◌==◌, Result, ok, stuck, ◌>>=◌, ◌>>◌, fail_if, or_err,
}
use Prim.Native.String.{String}

-- `protowire.VarintType` and `protowire.BytesType`.
abbrev pub varint_type : ℕ
varint_type = 0

abbrev pub bytes_type : ℕ
bytes_type = 2

-- `tag`, `varint` and `bytes` are the bytes that the package's `Append` functions add; a `Consume`
-- function answers
-- its value with the bytes behind it, `b[n:]`, or `none` for a negative length.
pub record Wire : Type 0 where
  pub tag : ℕ → ℕ → Bytes
  pub varint : ℕ → Bytes
  pub bytes : Bytes → Bytes
  pub consume_tag : Bytes → Option (ℕ × ℕ × Bytes)
  pub consume_varint : Bytes → Option (ℕ × Bytes)
  pub consume_bytes : Bytes → Option (Bytes × Bytes)
  pub consume_field_value : ℕ → ℕ → Bytes → Option Bytes

-- The documented behaviour: what an `Append` function wrote the `Consume` function reads back, for
-- field numbers from 1 to 2^29 - 1, types of three bits and uint64s (the length of a Go slice
-- always fits), and a `Consume` function takes bytes from the front, a tag at least one.
pub record WireLaws (w : Wire) : Type 0 where
  pub tag_back :
      (num typ : ℕ) (rest : Bytes)
      → 1 ≤ num
      → num < 2 ^ 29
      → typ < 8
      → w.consume_tag (w.tag num typ ++ rest) ≡ some (num, typ, rest)
  pub varint_back :
      (v : ℕ) (rest : Bytes) → IsU64 v → w.consume_varint (w.varint v ++ rest) ≡ some (v, rest)
  pub bytes_back : (v rest : Bytes) → w.consume_bytes (w.bytes v ++ rest) ≡ some (v, rest)
  pub tag_shrinks :
      (b : Bytes) {num typ : ℕ} {rest : Bytes}
      → w.consume_tag b ≡ some (num, typ, rest)
      → length rest < length b
  pub varint_shrinks :
      (b : Bytes) {v : ℕ} {rest : Bytes}
      → w.consume_varint b ≡ some (v, rest)
      → length rest ≤ length b
  pub varint_u64 :
      (b : Bytes) {v : ℕ} {rest : Bytes} → w.consume_varint b ≡ some (v, rest) → IsU64 v
  pub bytes_shrinks :
      (b : Bytes) {v rest : Bytes} → w.consume_bytes b ≡ some (v, rest) → length rest ≤ length b
  pub field_shrinks :
      (num typ : ℕ) (b : Bytes) {rest : Bytes}
      → w.consume_field_value num typ b ≡ some rest
      → length rest ≤ length b

module _ ⦃w : Wire⦄ where
  -- `b = protowire.AppendTag(b, num, typ)` and so on.
  abbrev pub append_tag : Bytes → ℕ → ℕ → Bytes
  append_tag b num typ = b ++ w.tag num typ

  abbrev pub append_varint : Bytes → ℕ → Bytes
  append_varint b v = b ++ w.varint v

  abbrev pub append_bytes : Bytes → Bytes → Bytes
  append_bytes b v = b ++ w.bytes v

  -- A case of a decoder's switch that reads a byte string or a number: the type is checked, the
  -- value read and stored by `store`, and the rest of the bytes kept.
  unfoldable pub bytes_field :
      {A : Type 0} → String → String → ℕ → Bytes → (Bytes → A) → Result (A × Bytes)
  bytes_field wrong_type invalid typ b store = do
    fail_if (not (typ == bytes_type)) wrong_type
    (v, rest) ← or_err (w.consume_bytes b) invalid
    ok (store v, rest)

  unfoldable pub varint_field :
      {A : Type 0} → String → String → ℕ → Bytes → (ℕ → A) → Result (A × Bytes)
  varint_field wrong_type invalid typ b store = do
    fail_if (not (typ == varint_type)) wrong_type
    (v, rest) ← or_err (w.consume_varint b) invalid
    ok (store v, rest)

  -- The default case: an unknown field is skipped.
  unfoldable pub skip_field : {A : Type 0} → String → ℕ → ℕ → Bytes → A → Result (A × Bytes)
  skip_field invalid num typ b a = do
    rest ← or_err (w.consume_field_value num typ b) invalid
    ok (a, rest)

  -- `for len(b) > 0 { num, typ, n := ConsumeTag(b); ...; switch num { ... } }`. A round takes a
  -- byte
  -- at least, so `length b` rounds are enough.
  unfoldable pub decode_loop :
      {A : Type 0} → String → (A → ℕ → ℕ → Bytes → Result (A × Bytes)) → ℕ → A → Bytes → Result A
  decode_loop bad step fuel a [] = ok a
  decode_loop bad step zero a (x ∷ xs) = stuck
  decode_loop bad step (suc fuel) a (x ∷ xs) = do
    (num, typ, b) ← or_err (w.consume_tag (x ∷ xs)) bad
    (a', b') ← step a num typ b
    decode_loop bad step fuel a' b'

  unfoldable pub decode :
      {A : Type 0} → String → (A → ℕ → ℕ → Bytes → Result (A × Bytes)) → A → Bytes → Result A
  unfolding decode_loop
  decode bad step a b = decode_loop bad step (length b) a b
