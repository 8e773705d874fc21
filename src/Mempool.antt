-- ===== src/Mempool.antt =====
-- Pending transactions: `AddTx` of pkg/mempool/mempool.go. The account view and the coster are the
-- source's interfaces and enter as functions.
pub mod Order
pub mod Select
pub mod Heap
pub mod Offered
pub mod Filled
pub mod Selection
use opencoin.Prelude.{
  ℕ, List, [], ◌∷◌, Bytes, Bool, true, false, ltb, ◌==◌, ◌||◌, Option, none, some, Result, ok, err,
  ◌>>=◌, ◌>>◌, fail_if,
}
use opencoin.Prelude.Map.{Map, Bytes_key, lookup, insert}
use opencoin.Types.{Address, Transaction, Account, empty_account}
use opencoin.Wire.{Wire}
use opencoin.Payload.{PayloadEnvelope}
use opencoin.Payload.Decode.{decode_payload}
use opencoin.Crypto.{Crypto, resolve_sender_pub_key, verify_signature}
use opencoin.Ledger.{is_empty}

abbrev pub Pool : Type 0
Pool = Map Address (List Transaction)

-- `m.pool[addr]`, nil for a missing key.
abbrev pub queue_of : Address → Pool → List Transaction
queue_of addr pool = elim (lookup addr pool) [ none ↦ [] | some queue ↦ queue ]

-- One turn of the insertion loop at the entry `existing`, with the outcome of the turns behind it.
abbrev pub place :
    Bool
    → Bool
    → Transaction
    → Transaction
    → List Transaction
    → Result (List Transaction)
    → Result (List Transaction)
place true below txn existing queue rest = err "duplicate nonce"
place false true txn existing queue rest = ok (txn ∷ existing ∷ queue)
place false false txn existing queue rest = do behind ← rest; ok (existing ∷ behind)

-- Insertion by nonce order.
unfoldable pub enqueue : Transaction → List Transaction → Result (List Transaction)
enqueue txn [] = ok (txn ∷ [])
enqueue txn (existing ∷ queue) =
    place (txn.nonce == existing.nonce) (ltb txn.nonce existing.nonce) txn existing queue
      (enqueue txn queue)

module _ ⦃w : Wire⦄ (c : Crypto) (view : Address → Result (Option Account))
    (coster : Transaction → Result ℕ) where
  -- The checks before the pool is locked.
  unfoldable pub admit : Transaction → Result (Unit {0})
  admit txn = do
    fail_if (is_empty txn.from || is_empty txn.to) "invalid sender or recipient"
    found ← view txn.from
    let acct : Account = elim found [ none ↦ empty_account txn.from | some acct ↦ acct ]
    env ← decode_payload txn.payload
    (key, _) ← resolve_sender_pub_key c (some txn) acct.pub_key env.sender_pub_key
    verify_signature c (some txn) key
    fail_if (ltb txn.nonce acct.nonce) "stale nonce"
    cost ← coster txn
    fail_if (ltb acct.rc cost) "insufficient rc"

  unfoldable pub add_tx : Option Transaction → Pool → Result Pool
  add_tx none pool = err "tx is nil"
  add_tx (some txn) pool = do
    admit txn
    queue ← enqueue txn (queue_of txn.from pool)
    ok (insert txn.from queue pool)
