-- ===== src/P2p.antt =====
-- The key exchange between two peers and the encryption under its key: pkg/p2p/p2p.go, with the
-- wrappers of pkg/crypto/kyber.go and pkg/crypto/kyber_cgo.go. A stream is the bytes that are sent in
-- one direction; a stream that breaks ends early. What is drawn at random is an argument.
pub mod Framing
pub mod Channel
pub mod Host
use opencoin.Prelude.{
  ℕ, ◌+◌, ◌*◌, ◌/◌, ◌%◌, ◌^◌, List, [], ◌∷◌, ◌++◌, length, drop, Bytes, Bool, not, ◌||◌, ltb, leb,
  ◌==◌, if◌then◌else◌, Option, none, some, Result, ok, err, panics, stuck, ◌>>=◌, ◌>>◌, fail_if,
  or_err,
}
use opencoin.Prelude.Map.{Map, Bytes_key, lookup, insert}
use opencoin.Store.{take_bytes}

-- The reference implementation of Kyber-768 in C; `none` is a return code other than 0.
pub record Kyber : Type 0 where
  pub keypair : ℕ → Option (Bytes × Bytes)
  pub enc : ℕ → Bytes → Option (Bytes × Bytes)
  pub dec : Bytes → Bytes → Option Bytes

-- HKDF, of which the first 32 bytes are read, and ChaCha20-Poly1305.
pub record Ciphers : Type 0 where
  pub hkdf : Bytes → Result Bytes
  pub seal : Bytes → Bytes → Bytes → Bytes
  pub unseal : Bytes → Bytes → Bytes → Option Bytes

-- `chacha20poly1305.KeySize` and the size of its nonces.
abbrev pub key_size : ℕ
key_size = 32

abbrev pub nonce_size : ℕ
nonce_size = 12

abbrev pub PeerId : Type 0
PeerId = Bytes

-- The session keys; the host is P2p/Host's.
pub record P2p : Type 0 where
  pub sessions : Map PeerId Bytes

-- `binary` by hand: two bytes of the length, which may be up to 2^20.
unfoldable pub write_bytes : Bytes → Result Bytes
write_bytes b = do
  fail_if (ltb (2 ^ 20) (length b)) "message too large"
  ok (length b / 256 % 256 ∷ length b % 256 ∷ b)

-- `io.ReadFull` of `n` bytes, and what is left of the stream.
unfoldable pub read_full : ℕ → Bytes → Result (Bytes × Bytes)
read_full n stream =
    if ltb (length stream) n then err "unexpected EOF" else ok (take_bytes n stream, drop n stream)

unfoldable pub read_size : Bytes → Result ℕ
read_size (high ∷ low ∷ []) = ok (high * 256 + low)
read_size other = panics "index out of range"

unfoldable pub read_bytes : Bytes → Result (Bytes × Bytes)
unfolding read_full read_size
read_bytes stream = do
  (len_buf, rest) ← read_full 2 stream
  size ← read_size len_buf
  fail_if (leb size 0 || ltb (2 ^ 20) size) "invalid size"
  read_full size rest

module _ (k : Kyber) (x : Ciphers) where
  unfoldable pub generate_key_pair : ℕ → Result (Bytes × Bytes)
  generate_key_pair seed = or_err (k.keypair seed) "kyber keypair generation failed"

  unfoldable pub encapsulate : ℕ → Bytes → Result (Bytes × Bytes)
  encapsulate seed pk = do
    fail_if (length pk == 0) "public key empty"
    or_err (k.enc seed pk) "kyber encapsulation failed"

  unfoldable pub decapsulate : Bytes → Bytes → Result Bytes
  decapsulate sk ct = do
    fail_if (length sk == 0 || length ct == 0) "sk or ct empty"
    or_err (k.dec ct sk) "kyber decapsulation failed"

  -- A key that cannot be derived is not stored.
  unfoldable pub store_session : PeerId → Bytes → P2p → P2p
  store_session peer secret p = elim (x.hkdf secret) [
    | ok key ↦ record p { sessions = insert peer key p.sessions }
    | err _ ↦ p
    | panics _ ↦ p
    | stuck ↦ p
  ]

  -- What the initiator sends, and the secret key that it keeps for the answer.
  unfoldable pub open_kyber : ℕ → Result (Bytes × Bytes)
  unfolding generate_key_pair write_bytes
  open_kyber seed = do (pk, sk) ← generate_key_pair seed; sent ← write_bytes pk; ok (sent, sk)

  -- The secret from the answer.
  unfoldable pub close_kyber : Bytes → Bytes → Result Bytes
  unfolding read_bytes decapsulate
  close_kyber sk answer = do (ct, _) ← read_bytes answer; decapsulate sk ct

  -- `initiateKyber`, where `peer` answers what it is sent. Every error ends it without a session.
  unfoldable pub initiate_kyber : ℕ → PeerId → (Bytes → Bytes) → P2p → P2p
  unfolding open_kyber close_kyber store_session
  initiate_kyber seed peer answers p =
      elim (open_kyber seed >>= λ opened. close_kyber opened.1 (answers opened.0)) [
        | ok secret ↦ store_session peer secret p
        | err _ ↦ p
        | panics _ ↦ p
        | stuck ↦ p
      ]

  -- The answer and the secret of the other side.
  unfoldable pub answer_kyber : ℕ → Bytes → Result (Bytes × Bytes)
  unfolding read_bytes encapsulate write_bytes
  answer_kyber seed incoming = do
    (pk, _) ← read_bytes incoming
    (ct, secret) ← encapsulate seed pk
    sent ← write_bytes ct
    ok (sent, secret)

  -- `handleKyberStream`: the new state and what is sent back.
  unfoldable pub handle_kyber_stream : ℕ → PeerId → Bytes → P2p → P2p × Bytes
  unfolding answer_kyber store_session
  handle_kyber_stream seed peer incoming p = elim (answer_kyber seed incoming) [
    | ok answered ↦ (store_session peer answered.1 p, answered.0)
    | err _ ↦ (p, [])
    | panics _ ↦ (p, [])
    | stuck ↦ (p, [])
  ]

  -- `SessionKey`: the empty key where there is none.
  unfoldable pub session_key : PeerId → P2p → Bytes
  session_key peer p = elim (lookup peer p.sessions) [ none ↦ [] | some key ↦ key ]

  unfoldable pub encrypt_for_peer : PeerId → Bytes → Bytes → P2p → Result Bytes
  unfolding session_key
  encrypt_for_peer peer nonce plaintext p = do
    let key = session_key peer p
    fail_if (not (length key == key_size)) "missing session key"
    ok (nonce ++ x.seal key nonce plaintext)

  unfoldable pub decrypt_from_peer : PeerId → Bytes → P2p → Result Bytes
  unfolding session_key
  decrypt_from_peer peer ciphertext p = do
    let key = session_key peer p
    fail_if (not (length key == key_size)) "missing session key"
    fail_if (ltb (length ciphertext) nonce_size) "ciphertext too short"
    or_err (x.unseal key (take_bytes nonce_size ciphertext) (drop nonce_size ciphertext))
        "message authentication failed"
