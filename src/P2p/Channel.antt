-- ===== src/P2p/Channel.antt =====
-- The channel between two peers after the key exchange.
use opencoin.Prelude.{
  ℕ, ◌<◌, ◌≡◌, refl, ◌≢◌, [], ◌∷◌, ◌++◌, append-nil, length, length-append, drop, Bytes, ◌||◌, true,
  false, ltb, ◌==◌, if◌then◌else◌, some, Result, ok, err, arith, sym, ap, ◌∙◌, subst,
}
use opencoin.Prelude.Map.{Bytes_key, insert, lookup-insert_self}
use opencoin.Store.{take_bytes}
use opencoin.P2p.{
  Kyber, Ciphers, PeerId, P2p, write_bytes, read_bytes, generate_key_pair, encapsulate, decapsulate,
  store_session, open_kyber, close_kyber, initiate_kyber, answer_kyber, handle_kyber_stream,
  session_key, encrypt_for_peer, decrypt_from_peer,
}
use opencoin.P2p.Framing.{read_bytes-write_bytes, written_size, take_all, drop_all}

-- Keys and ciphertexts of Kyber-768 have 1184, 2400 and 1088 bytes, and a ciphertext opens to its secret.
pub record KyberLaws (k : Kyber) : Type 0 where
  pub pk_size : (s : ℕ) (pk sk : Bytes) → k.keypair s ≡ some (pk, sk) → length pk ≡ 1184
  pub sk_size : (s : ℕ) (pk sk : Bytes) → k.keypair s ≡ some (pk, sk) → length sk ≡ 2400
  pub ct_size : (s : ℕ) (pk ct secret : Bytes) → k.enc s pk ≡ some (ct, secret) → length ct ≡ 1088
  pub dec_enc :
      (s t : ℕ) (pk sk ct secret : Bytes)
      → k.keypair s ≡ some (pk, sk)
      → k.enc t pk ≡ some (ct, secret)
      → k.dec ct sk ≡ some secret

-- What was sealed is opened under its key and nonce.
pub record CiphersLaws (x : Ciphers) : Type 0 where
  pub unseal_seal :
      (key nonce plaintext : Bytes)
      → length key ≡ 32
      → length nonce ≡ 12
      → x.unseal key nonce (x.seal key nonce plaintext) ≡ some plaintext

-- What is read of a message of which `n` bytes were announced.
abbrev answer : Bytes → ℕ → Result (Bytes × Bytes)
answer b n = if n == 0 then err "invalid size" else ok (take_bytes n b, drop n b ++ [])

take_front : (b rest : Bytes) → take_bytes (length b) (b ++ rest) ≡ b
unfolding take_bytes
take_front [] rest = refl
take_front (y ∷ b) rest = ap (λ z. y ∷ z) (take_front b rest)

drop_front : (b rest : Bytes) → drop (length b) (b ++ rest) ≡ rest
drop_front [] rest = refl
drop_front (y ∷ b) rest = drop_front b rest

-- A message that is not empty and shorter than 2^16 comes through whole.
whole :
    (b : Bytes)
    → 0 < length b
    → length b < 65536
    → (sent : Bytes) × (write_bytes b ≡ ok sent) × (read_bytes sent ≡ ok (b, []))
whole b some_bytes short =
    let (sent, wrote, read) = read_bytes-write_bytes b [] (omega arith) in
    let size : written_size b ≡ length b = omega arith in
    let not_zero : (length b == 0) ≡ false = ground arith in
    let all : answer b (length b) ≡ ok (b, []) = rw (not_zero, take_all b, drop_all b) refl in
    (sent, wrote, ap read_bytes (sym (append-nil sent)) ∙ read ∙ ap (answer b) size ∙ all)

module _ (k : Kyber) (x : Ciphers) (laws : KyberLaws k) (ciphers : CiphersLaws x) where
  -- What each side comes to by itself.
  opened :
      (seed : ℕ) (pk sk : Bytes)
      → k.keypair seed ≡ some (pk, sk)
      → (sent : Bytes) × (open_kyber k x seed ≡ ok (sent, sk)) × (read_bytes sent ≡ ok (pk, []))
  unfolding open_kyber generate_key_pair
  opened seed pk sk made =
      let size = laws.pk_size seed pk sk made in
      let (sent, wrote, read) = whole pk (omega arith) (omega arith) in
      (sent, rw (made, wrote) refl, read)

  answered :
      (seed : ℕ) (incoming pk ct secret : Bytes)
      → read_bytes incoming ≡ ok (pk, [])
      → length pk ≢ 0
      → k.enc seed pk ≡ some (ct, secret)
      → (sent : Bytes) × (answer_kyber k x seed incoming ≡ ok (sent, secret))
        × (read_bytes sent ≡ ok (ct, []))
  unfolding answer_kyber encapsulate
  answered seed incoming pk ct secret read nonempty made =
      let size = laws.ct_size seed pk ct secret made in
      let (sent, wrote, back) = whole ct (omega arith) (omega arith) in
      let full : (length pk == 0) ≡ false = ground arith in
      (sent, rw (read, full, made, wrote) refl, back)

  closed :
      (sk answer ct secret : Bytes)
      → read_bytes answer ≡ ok (ct, [])
      → length sk ≢ 0
      → length ct ≢ 0
      → k.dec ct sk ≡ some secret
      → close_kyber k x sk answer ≡ ok secret
  unfolding close_kyber decapsulate
  closed sk answer ct secret read some_key some_text made =
      let full : (length sk == 0 || length ct == 0) ≡ false = ground arith in
      rw (read, full, made) refl

  stored :
      (peer : PeerId) (secret key : Bytes) (p : P2p)
      → x.hkdf secret ≡ ok key
      → session_key k x peer (store_session k x peer secret p) ≡ key
  unfolding session_key store_session
  stored peer secret key p derived =
      let entered : store_session k x peer secret p
          ≡ record p { sessions = insert peer key p.sessions } =
        rw (derived, store_session) refl in
      let found : session_key k x peer (record p { sessions = insert peer key p.sessions }) ≡ key =
        rw (lookup-insert_self peer key p.sessions, session_key) refl in
      ap (session_key k x peer) entered ∙ found

  -- What is encrypted under one side's key is decrypted under the other's, if they are the same.
  passes :
      (there here : PeerId) (nonce plaintext key : Bytes) (a b : P2p)
      → session_key k x there a ≡ key
      → session_key k x here b ≡ key
      → length key ≡ 32
      → length nonce ≡ 12
      → (ciphertext : Bytes) × (encrypt_for_peer k x there nonce plaintext a ≡ ok ciphertext)
        × (decrypt_from_peer k x here ciphertext b ≡ ok plaintext)
  unfolding encrypt_for_peer decrypt_from_peer
  passes there here nonce plaintext key a b mine yours wide short =
      let sealed = x.seal key nonce plaintext in
      let good : (length key == 32) ≡ true = ground arith in
      let long : ltb (length (nonce ++ sealed)) 12 ≡ false =
        ground (arith, length-append nonce sealed) in
      let head : take_bytes 12 (nonce ++ sealed) ≡ nonce =
        subst (λ n. take_bytes n (nonce ++ sealed) ≡ nonce) short (take_front nonce sealed) in
      let tail : drop 12 (nonce ++ sealed) ≡ sealed =
        subst (λ n. drop n (nonce ++ sealed) ≡ sealed) short (drop_front nonce sealed) in
      (
        nonce ++ sealed,
        rw (mine, good) refl,
        rw (yours, good, long, head, tail, ciphers.unseal_seal key nonce plaintext wide short) refl,
      )

  handled :
      (seed : ℕ) (peer : PeerId) (incoming sent secret : Bytes) (p : P2p)
      → answer_kyber k x seed incoming ≡ ok (sent, secret)
      → handle_kyber_stream k x seed peer incoming p ≡ (store_session k x peer secret p, sent)
  unfolding handle_kyber_stream
  handled seed peer incoming sent secret p e = rw (e, handle_kyber_stream) refl

  initiated :
      (seed : ℕ) (peer : PeerId) (answers : Bytes → Bytes) (sent sk secret : Bytes) (p : P2p)
      → open_kyber k x seed ≡ ok (sent, sk)
      → close_kyber k x sk (answers sent) ≡ ok secret
      → initiate_kyber k x seed peer answers p ≡ store_session k x peer secret p
  unfolding initiate_kyber
  initiated seed peer answers sent sk secret p e f = rw (e, f, initiate_kyber) refl

  -- After the exchange both peers hold the same key, and what one encrypts for the other is
  -- decrypted there. This is for an exchange in which no call of Kyber or HKDF fails, a derived key
  -- of 32 bytes and a nonce of 12, and the documented laws of Kyber-768 and ChaCha20-Poly1305.
  pub handshake-agrees :
      (seed t : ℕ) (pk sk ct secret key nonce plaintext : Bytes) (here there : PeerId) (a b : P2p)
      → k.keypair seed ≡ some (pk, sk)
      → k.enc t pk ≡ some (ct, secret)
      → x.hkdf secret ≡ ok key
      → length key ≡ 32
      → length nonce ≡ 12
      → let a' =
          initiate_kyber k x seed there (λ sent. (handle_kyber_stream k x t here sent b).1) a in
        (sent : Bytes) × (open_kyber k x seed ≡ ok (sent, sk))
        × (let b' = (handle_kyber_stream k x t here sent b).0 in
            (session_key k x there a' ≡ key)
            × (session_key k x here b' ≡ key)
            × ((ciphertext : Bytes) × (encrypt_for_peer k x there nonce plaintext a'
                  ≡ ok ciphertext)
                × (decrypt_from_peer k x here ciphertext b' ≡ ok plaintext)))
  handshake-agrees seed t pk sk ct secret key nonce plaintext here there a b made sealed derived
        wide short =
      let pk_size = laws.pk_size seed pk sk made in
      let sk_size = laws.sk_size seed pk sk made in
      let ct_size = laws.ct_size t pk ct secret sealed in
      let (sent, opens, read) = opened seed pk sk made in
      let (reply, answers, back) = answered t sent pk ct secret read (omega arith) sealed in
      let handles = handled t here sent reply secret b answers in
      let closes =
        closed sk reply ct secret back (omega arith) (omega arith)
          (laws.dec_enc seed t pk sk ct secret made sealed) in
      let mine = stored there secret key a derived in
      let yours = stored here secret key b derived in
      (
        sent,
        opens,
        rw
            (
              initiated seed there (λ s. (handle_kyber_stream k x t here s b).1) sent sk secret a
                  opens (ap (λ r. close_kyber k x sk r.1) handles ∙ closes),
              handles,
            )
            (
              mine,
              yours,
              passes there here nonce plaintext key (store_session k x there secret a)
                  (store_session k x here secret b) mine yours wide short,
            ),
      )
