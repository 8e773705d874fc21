-- ===== src/Store/Timestamps.antt =====
-- Round trip of the recent timestamps.
use opencoin.Prelude.{
  ℕ, zero, suc, ◌+◌, ◌*◌, ◌/◌, ◌%◌, ◌^◌, ◌<◌, ◌≡◌, refl, List, [], ◌∷◌, ◌++◌, append-nil,
  append_assoc, length, length-append, drop, Bytes, All, arith, ok, ◌∙◌, ap, sym,
}
use opencoin.Prelude.Int.{ℤ, IsI64, to_u64, to_u64-IsU64, to_i64-to_u64}
use native.Mathlib.Nat.{pow-suc}
use opencoin.Encoding.{big_endian}
use opencoin.Store.{
  from_big_endian, take_bytes, append_timestamps, encode_timestamps, read_timestamps,
  decode_timestamps,
}

from_big_endian-snoc :
    (acc : ℕ) (b : Bytes) (x : ℕ)
    → from_big_endian acc (b ++ x ∷ []) ≡ from_big_endian acc b * 256 + x
unfolding from_big_endian
from_big_endian-snoc acc [] x = refl
from_big_endian-snoc acc (y ∷ b) x = from_big_endian-snoc (acc * 256 + y) b x

-- Big-endian bytes of a number that fits are read back.
pub from_big_endian-big_endian : (n v : ℕ) → v < 256 ^ n → from_big_endian 0 (big_endian n v) ≡ v
unfolding big_endian
from_big_endian-big_endian zero v h = unfold from_big_endian in omega arith
from_big_endian-big_endian (suc n) v h =
    rw (from_big_endian-snoc, from_big_endian-big_endian n (v / 256) (smaller n v h)) (omega arith)
  where
    smaller : (n v : ℕ) → v < 256 ^ suc n → v / 256 < 256 ^ n
    smaller n v h = let h' : v < 256 ^ n * 256 = rw (← pow-suc) h in omega arith

pub length-big_endian : (n v : ℕ) → length (big_endian n v) ≡ n
unfolding big_endian
length-big_endian zero v = refl
length-big_endian (suc n) v =
    omega
      (arith, length-append (big_endian n (v / 256)) (v % 256 ∷ []), length-big_endian n (v / 256))

take_bytes-append : (b rest : Bytes) → take_bytes (length b) (b ++ rest) ≡ b
unfolding take_bytes
take_bytes-append [] rest = refl
take_bytes-append (x ∷ b) rest = ap (◌∷◌ x) (take_bytes-append b rest)

drop-append : (b rest : Bytes) → drop (length b) (b ++ rest) ≡ rest
drop-append [] rest = refl
drop-append (x ∷ b) rest = drop-append b rest

-- The bytes of all timestamps.
abbrev timestamp_bytes : List ℤ → Bytes
timestamp_bytes [] = []
timestamp_bytes (t ∷ ts) = big_endian 8 (to_u64 t) ++ timestamp_bytes ts

append_timestamps-eq :
    (buf : Bytes) (ts : List ℤ) → append_timestamps buf ts ≡ buf ++ timestamp_bytes ts
unfolding append_timestamps
append_timestamps-eq buf [] = sym (append-nil buf)
append_timestamps-eq buf (t ∷ ts) =
    append_timestamps-eq (buf ++ big_endian 8 (to_u64 t)) ts ∙ append_assoc buf _ _

length-timestamp_bytes : (ts : List ℤ) → length (timestamp_bytes ts) ≡ length ts * 8
length-timestamp_bytes [] = refl
length-timestamp_bytes (t ∷ ts) = omega (
  arith,
  length-append (big_endian 8 (to_u64 t)) (timestamp_bytes ts),
  length-big_endian 8 (to_u64 t),
  length-timestamp_bytes ts,
)

front : (n : ℕ) (b rest : Bytes) → length b ≡ n → take_bytes n (b ++ rest) ≡ b
front n b rest e = rw (← e) (take_bytes-append b rest)

back : (n : ℕ) (b rest : Bytes) → length b ≡ n → drop n (b ++ rest) ≡ rest
back n b rest e = rw (← e) (drop-append b rest)

read_timestamps-back :
    (ts : List ℤ) → All IsI64 ts → read_timestamps (length ts) (timestamp_bytes ts) ≡ ts
unfolding read_timestamps
read_timestamps-back [] h = refl
read_timestamps-back (t ∷ ts) h =
    let word = big_endian 8 (to_u64 t) in
    let width = length-big_endian 8 (to_u64 t) in
    rw (
      front 8 word (timestamp_bytes ts) width,
      back 8 word (timestamp_bytes ts) width,
      from_big_endian-big_endian 8 (to_u64 t) (to_u64-IsU64 t),
      to_i64-to_u64 t h.0,
      read_timestamps-back ts h.1,
    )

-- The timestamps that were stored are read back, if they are int64s and fewer than 2^32.
pub decode_timestamps-encode_timestamps :
    (ts : List ℤ)
    → All IsI64 ts
    → length ts < 2 ^ 32
    → decode_timestamps (encode_timestamps ts) ≡ ok ts
unfolding decode_timestamps encode_timestamps
decode_timestamps-encode_timestamps ts h k =
    let count = big_endian 4 (length ts) in
    let width = length-big_endian 4 (length ts) in
    rw
      (
        append_timestamps-eq,
        front 4 count (timestamp_bytes ts) width,
        back 4 count (timestamp_bytes ts) width,
        from_big_endian-big_endian 4 (length ts) k,
      )
      (ground (
        arith,
        read_timestamps-back ts h,
        length-timestamp_bytes ts,
        length-append count (timestamp_bytes ts),
        width,
      ))
