-- ===== src/Tests/Fixtures.antt =====
-- Concrete instances of the packages that the models take as parameters: a wire format that writes
-- a
-- number as one element, a database and accounts as association lists, and keys that are addresses.
use opencoin.Prelude.{
  ℕ, zero, suc, ◌≤◌, ◌<◌, ◌≡◌, refl, Option, none, some, [], ◌∷◌, ◌++◌, length, Bytes, ltb,
  if◌then◌else◌, arith, ok, ap, true, u64_mod, ite, Bytes_discrete,
}
use opencoin.Prelude.Map.{Map, Bytes_key, lookup, insert, lookup-insert}
use opencoin.Wire.{Wire, WireLaws}
use opencoin.Types.{Address, Account}
use opencoin.Store.{Kv, KvLaws}
use opencoin.Crypto.{Crypto, address_hrp}
use opencoin.Contracts.{Runtime, no_handle}
use opencoin.Ledger.{Accounts, AccountsLaws}

abbrev read_tag : Bytes → Option (ℕ × ℕ × Bytes)
read_tag (num ∷ typ ∷ rest) = some (num, typ, rest)
read_tag (x ∷ []) = none
read_tag [] = none

abbrev read_varint : Bytes → Option (ℕ × Bytes)
read_varint [] = none
read_varint (v ∷ rest) = if ltb v u64_mod then some (v, rest) else none

abbrev into_front : ℕ → Option (Bytes × Bytes) → Option (Bytes × Bytes)
into_front x none = none
into_front x (some (v, rest)) = some (x ∷ v, rest)

into_front-eq_some :
    (x : ℕ) (m : Option (Bytes × Bytes)) (v rest : Bytes)
    → into_front x m ≡ some (v, rest)
    → (u : Bytes) × (m ≡ some (u, rest))
into_front-eq_some x none v rest h = cc
into_front-eq_some x (some (u, r)) v rest h = (u, ap (λ q. some (u, q)) cc)

abbrev pub split : ℕ → Bytes → Option (Bytes × Bytes)
split zero b = some ([], b)
split (suc n) [] = none
split (suc n) (x ∷ b) = into_front x (split n b)

abbrev read_bytes : Bytes → Option (Bytes × Bytes)
read_bytes [] = none
read_bytes (n ∷ b) = split n b

-- Any field value is skipped as one element.
abbrev read_value : ℕ → ℕ → Bytes → Option Bytes
read_value num typ [] = none
read_value num typ (x ∷ rest) = some rest

instance abbrev pub plain_wire : Wire
plain_wire = record {
  tag = λ num typ. num ∷ typ ∷ [];
  varint = λ v. v ∷ [];
  bytes = λ v. length v ∷ v;
  consume_tag = read_tag;
  consume_varint = read_varint;
  consume_bytes = read_bytes;
  consume_field_value = read_value;
}

pub split-append : (v rest : Bytes) → split (length v) (v ++ rest) ≡ some (v, rest)
split-append [] rest = refl
split-append (x ∷ v) rest = rw (split-append v rest) refl

split_shrinks : (n : ℕ) (b v rest : Bytes) → split n b ≡ some (v, rest) → length rest ≤ length b
split_shrinks zero b v rest h = ground arith
split_shrinks (suc n) [] v rest h = cc
split_shrinks (suc n) (x ∷ b) v rest h =
    let (u, found) = into_front-eq_some x (split n b) v rest h in
    omega (arith, split_shrinks n b u rest found)

pub plain_wire-laws : WireLaws plain_wire
plain_wire-laws = record {
  tag_back = λ num typ rest h k j. refl;
  varint_back = λ v rest h. ground arith;
  bytes_back = split-append;
  tag_shrinks = read_tag_shrinks;
  varint_shrinks = read_varint_shrinks;
  varint_u64 = read_varint_u64;
  bytes_shrinks = read_bytes_shrinks;
  field_shrinks = read_value_shrinks;
}
  where
    read_tag_shrinks :
        (b : Bytes) {num typ : ℕ} {rest : Bytes}
        → read_tag b ≡ some (num, typ, rest)
        → length rest < length b
    read_tag_shrinks (x ∷ y ∷ b) h = ground arith
    read_tag_shrinks (x ∷ []) h = cc
    read_tag_shrinks [] h = cc

    read_varint_shrinks :
        (b : Bytes) {v : ℕ} {rest : Bytes} → read_varint b ≡ some (v, rest) → length rest ≤ length b
    read_varint_shrinks [] h = cc
    read_varint_shrinks (x ∷ b) h = ground arith

    read_varint_u64 :
        (b : Bytes) {v : ℕ} {rest : Bytes} → read_varint b ≡ some (v, rest) → v < u64_mod
    read_varint_u64 [] h = cc
    read_varint_u64 (x ∷ b) h = ground arith

    read_bytes_shrinks :
        (b : Bytes) {v rest : Bytes} → read_bytes b ≡ some (v, rest) → length rest ≤ length b
    read_bytes_shrinks [] h = cc
    read_bytes_shrinks (n ∷ b) {v} {rest} h = omega (arith, split_shrinks n b v rest h)

    read_value_shrinks :
        (num typ : ℕ) (b : Bytes) {rest : Bytes}
        → read_value num typ b ≡ some rest
        → length rest ≤ length b
    read_value_shrinks num typ [] h = cc
    read_value_shrinks num typ (x ∷ b) h = ground arith

read_inserted :
    {V : Type 0} (m m' : Map Bytes V) (k j : Bytes) (v : V)
    → ok (insert k v m) ≡ ok m'
    → ok (lookup j m') ≡ ite (Bytes_discrete k j) (ok (some v)) (ok (lookup j m))
read_inserted m m' k j v h = ground (arith, lookup-insert k j v m)

abbrev pub map_kv : Kv
map_kv = record {
  Db = Map Bytes Bytes;
  get = λ db k. ok (lookup k db);
  set = λ db k v. ok (insert k v db);
}

pub map_kv-laws : KvLaws map_kv
map_kv-laws = record { get_set = λ db db' k j v h. read_inserted db db' k j v h }

-- Accounts by their address.
abbrev pub map_accounts : Accounts
map_accounts = record {
  State = Map Address Account;
  get = λ s addr. ok (lookup addr s);
  set = λ s acct. ok (insert acct.address acct s);
}

pub map_accounts-laws : AccountsLaws map_accounts
map_accounts-laws = record {
  get_set = λ s s' acct addr v h. read_inserted s s' acct.address addr acct h;
}

-- Every key hashes to itself and is its own address; every signature verifies.
abbrev pub open_crypto : Crypto
open_crypto = record {
  sha256 = λ b. b;
  convert_bits = λ b from to pad. some b;
  bech32_encode = λ hrp b. some b;
  bech32_decode = λ b. some (address_hrp, b);
  ed25519_verify = λ key msg sig. true;
}

-- A runtime that compiles every code, and whose modules export no `handle`.
abbrev pub idle_runtime : Runtime
idle_runtime = record {
  Compiled = Bytes;
  Module = Bytes;
  compile_module = λ code. some code;
  instantiate_module = λ m. some m;
  call_handle = λ m. (m, no_handle);
}
