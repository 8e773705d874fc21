-- ===== src/P2p/Framing.antt =====
-- What is read of a message that was written.
use opencoin.Prelude.{
  Bool-cases, inl, inr, true, false, ℕ, zero, suc, ◌+◌, ◌*◌, ◌/◌, ◌%◌, ◌^◌, ◌≤◌, ◌≡◌, refl, [], ◌∷◌,
  ◌++◌, length, length-append, drop, Bytes, ◌||◌, ltb, leb, ◌==◌, if◌then◌else◌, Result, ok, err,
  ◌>>◌, fail_if, arith, ap, ◌∙◌,
}
use opencoin.Store.{take_bytes}
use opencoin.P2p.{write_bytes, read_full, read_size, read_bytes}

front : (n : ℕ) (b rest : Bytes) → n ≤ length b → take_bytes n (b ++ rest) ≡ take_bytes n b
unfolding take_bytes
front zero b rest h = refl
front (suc n) [] rest h = absurd (omega arith)
front (suc n) (x ∷ b) rest h = ap (λ z. x ∷ z) (front n b rest (omega arith))

back : (n : ℕ) (b rest : Bytes) → n ≤ length b → drop n (b ++ rest) ≡ drop n b ++ rest
back zero b rest h = refl
back (suc n) [] rest h = absurd (omega arith)
back (suc n) (x ∷ b) rest h = back n b rest (omega arith)

pub take_all : (b : Bytes) → take_bytes (length b) b ≡ b
unfolding take_bytes
take_all [] = refl
take_all (x ∷ b) = ap (λ z. x ∷ z) (take_all b)

pub drop_all : (b : Bytes) → drop (length b) b ≡ []
drop_all [] = refl
drop_all (x ∷ b) = drop_all b

-- The length modulo 2^16, which the two bytes hold.
abbrev pub written_size : Bytes → ℕ
written_size b = length b % 65536

read_full-eq_ok :
    (n : ℕ) (b rest : Bytes)
    → n ≤ length b
    → read_full n (b ++ rest) ≡ ok (take_bytes n b, drop n b ++ rest)
unfolding read_full
read_full-eq_ok n b rest h =
    let long : ltb (length (b ++ rest)) n ≡ false = ground (arith, length-append b rest) in
    rw (long, front n b rest h, back n b rest h) refl

read_header : (high low : ℕ) (s : Bytes) → read_full 2 (high ∷ low ∷ s) ≡ ok (high ∷ low ∷ [], s)
unfolding read_full take_bytes
read_header high low s = ground arith

-- What is read after the size.
read_sized : ℕ → Bytes → Result (Bytes × Bytes)
read_sized size rest = do
  fail_if (leb size 0 || ltb (2 ^ 20) size) "invalid size"
  read_full size rest

read_bytes_lem :
    (high low : ℕ) (s : Bytes) → read_bytes (high ∷ low ∷ s) ≡ read_sized (high * 256 + low) s
unfolding read_bytes read_size read_sized
read_bytes_lem high low s = rw (read_header high low s) refl

read_sized-written :
    (b rest : Bytes)
    → read_sized (written_size b) (b ++ rest) ≡ (
        if written_size b == 0
        then err "invalid size"
        else ok (take_bytes (written_size b) b, drop (written_size b) b ++ rest))
unfolding read_sized
read_sized-written b rest = elim (Bool-cases (written_size b == 0)) [
  | inl p ↦
      let none_left : (leb (written_size b) 0 || ltb (2 ^ 20) (written_size b)) ≡ true =
        ground arith in
      rw (p, none_left) refl
  | inr p ↦
      let fits : (leb (written_size b) 0 || ltb (2 ^ 20) (written_size b)) ≡ false = ground arith in
      rw (p, fits) (read_full-eq_ok (written_size b) b rest (omega arith))
]

-- Of a message of up to 2^20 bytes the reader gets the first bytes, as many as the message's length
-- modulo 2^16, and the rest is left on the stream; where this number is 0 the reader fails.
pub read_bytes-write_bytes :
    (b rest : Bytes)
    → length b ≤ 2 ^ 20
    → (sent : Bytes) × (write_bytes b ≡ ok sent)
      × (read_bytes (sent ++ rest) ≡ (
          if written_size b == 0
          then err "invalid size"
          else ok (take_bytes (written_size b) b, drop (written_size b) b ++ rest)))
unfolding write_bytes
read_bytes-write_bytes b rest h =
    let high = length b / 256 % 256 in
    let low = length b % 256 in
    let size : high * 256 + low ≡ written_size b = omega arith in
    (
      high ∷ low ∷ b,
      ground arith,
      read_bytes_lem high low (b ++ rest)
          ∙ ap (λ n. read_sized n (b ++ rest)) size
          ∙ read_sized-written b rest,
    )
