-- ===== src/Tests/Peers.antt =====
-- A key exchange between two peers, a message on a stream, and a restart.
use opencoin.Prelude.{
  ℕ, ◌≡◌, refl, [], ◌∷◌, ◌++◌, length, drop, Bytes, replicate, length-replicate, none, some, ok,
  err, arith, ap, sym, ◌==◌, if◌then◌else◌, ◌∙◌,
}
use opencoin.Prelude.Int.{pos}
use opencoin.Types.{Address, Account, empty_account}
use opencoin.Prelude.Map.{Map, Bytes_key, insert}
use opencoin.Store.{take_bytes, account_prefix, meta_last_timestamps, encode_timestamps}
use opencoin.Store.Codec.{account_bytes}
use opencoin.P2p.{
  Kyber, Ciphers, P2p, write_bytes, read_bytes, open_kyber, initiate_kyber, handle_kyber_stream,
  session_key, encrypt_for_peer, decrypt_from_peer,
}
use opencoin.P2p.Framing.{read_bytes-write_bytes, written_size}
use opencoin.P2p.Channel.{KyberLaws, CiphersLaws, handshake-agrees}
use opencoin.Rc.{Params}
use opencoin.Genesis.{Genesis}
use opencoin.Node.{genesis_account}
use opencoin.Tests.Fixtures.{plain_wire}

abbrev public_key : Bytes
public_key = replicate 1184 1

abbrev secret_key : Bytes
secret_key = replicate 2400 2

abbrev secret : Bytes
secret = replicate 32 3

-- One pair of keys, and one ciphertext.
abbrev flat_kyber : Kyber
flat_kyber = record {
  keypair = λ seed. some (public_key, secret_key);
  enc = λ seed pk. some (replicate 1088 4, secret);
  dec = λ ct sk. some secret;
}

of_size : {b : Bytes} {n : ℕ} (x : ℕ) → replicate n x ≡ b → length b ≡ n
of_size {b} {n} x e = ap length (sym e) ∙ length-replicate n x

flat_kyber-laws : KyberLaws flat_kyber
flat_kyber-laws = record {
  pk_size = λ s pk sk h. of_size 1 (cc);
  sk_size = λ s pk sk h. of_size 2 (cc);
  ct_size = λ s pk ct ss h. of_size 4 (cc);
  dec_enc = λ s t pk sk ct ss h k. ap (λ r. elim r [ none ↦ none | some p ↦ some p.1 ]) k;
}

-- The secret is the key, and the text is sent in the clear.
abbrev clear_ciphers : Ciphers
clear_ciphers = record {
  hkdf = λ b. ok b;
  seal = λ key nonce plaintext. plaintext;
  unseal = λ key nonce ciphertext. some ciphertext;
}

clear_ciphers-laws : CiphersLaws clear_ciphers
clear_ciphers-laws = record { unseal_seal = λ key nonce plaintext h k. refl }

abbrev no_sessions : P2p
no_sessions = record { sessions = [] }

handshake-agrees_example :
    let a' =
      initiate_kyber flat_kyber clear_ciphers 0
        (2 ∷ [])
        (λ sent. (handle_kyber_stream flat_kyber clear_ciphers 0 (1 ∷ []) sent no_sessions).1)
        no_sessions in
    (sent : Bytes) × (open_kyber flat_kyber clear_ciphers 0 ≡ ok (sent, secret_key))
    × (let b' = (handle_kyber_stream flat_kyber clear_ciphers 0 (1 ∷ []) sent no_sessions).0 in
        (session_key flat_kyber clear_ciphers (2 ∷ []) a' ≡ secret)
        × (session_key flat_kyber clear_ciphers (1 ∷ []) b' ≡ secret)
        × ((ciphertext : Bytes) × (encrypt_for_peer flat_kyber clear_ciphers
                (2 ∷ [])
                (replicate 12 9)
                (8 ∷ 7 ∷ [])
                a'
              ≡ ok ciphertext)
            × (decrypt_from_peer flat_kyber clear_ciphers (1 ∷ []) ciphertext b'
                ≡ ok (8 ∷ 7 ∷ []))))
handshake-agrees_example =
    handshake-agrees flat_kyber clear_ciphers flat_kyber-laws clear_ciphers-laws 0 0 public_key
      secret_key (replicate 1088 4) secret secret (replicate 12 9) (8 ∷ 7 ∷ []) (1 ∷ []) (2 ∷ [])
      no_sessions no_sessions refl refl refl refl refl

read_bytes-write_bytes_example :
    (sent : Bytes) × (write_bytes (5 ∷ 6 ∷ []) ≡ ok sent)
    × (read_bytes (sent ++ 4 ∷ []) ≡ (
        if written_size (5 ∷ 6 ∷ []) == 0
        then err "invalid size"
        else ok (
          take_bytes (written_size (5 ∷ 6 ∷ [])) (5 ∷ 6 ∷ []),
          drop (written_size (5 ∷ 6 ∷ [])) (5 ∷ 6 ∷ []) ++ 4 ∷ [],
        )))
read_bytes-write_bytes_example = read_bytes-write_bytes (5 ∷ 6 ∷ []) (4 ∷ []) (omega arith)

abbrev user : Address
user = 7 ∷ []

abbrev params : Params
params = record {
  alpha = 1000;
  beta = 1;
  c_size = 1;
  c_compute = 1;
  c_storage = 50;
  max_skew_sec = pos 30;
  window_n = pos 11;
}

abbrev small_genesis : Genesis
small_genesis = record {
  chain_id = 1 ∷ [];
  genesis_time = pos 100;
  rc_params = params;
  min_stake = 1_000_000;
  validators = [];
  accounts = record { address = user; balance = 500; stake = 3 } ∷ [];
}

abbrev store_account : Account → Map Bytes Bytes → Map Bytes Bytes
store_account acct db = insert (account_prefix ++ acct.address) (account_bytes acct) db

-- The user has sent five transactions.
abbrev store_before : Map Bytes Bytes
store_before = store_account (record (empty_account user) { balance = 20; nonce = 5 }) []

abbrev store_after : Map Bytes Bytes
store_after = insert meta_last_timestamps (encode_timestamps (pos 100 ∷ [])) (
    store_account (genesis_account params (record { address = user; balance = 500; stake = 3 }))
      store_before)
