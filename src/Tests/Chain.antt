-- ===== src/Tests/Chain.antt =====
-- Transactions applied to concrete accounts.
use opencoin.Prelude.{
  Result, Option, length, All, ℕ, ◌≡◌, refl, none, some, [], ◌∷◌, ◌++◌, Bytes, ok, true, false, ◌≢◌,
  ◌+◌, Bytes_discrete, arith, subst, ap, sym,
}
use opencoin.Prelude.Int.{pos, IsI64, to_u64, to_i64, sub_i64, add_i64, ◌-ℤ◌}
use opencoin.Prelude.Map.{Bytes_key, lookup, insert}
use opencoin.Types.{Address, Transaction, Account, empty_account, zero_hash}
use opencoin.Wire.{decode, decode_loop, bytes_field, varint_field, skip_field}
use opencoin.Payload.{transfer}
use opencoin.Payload.Decode.{
  decode_payload, payload_step, variant_field, pub_key_field, finish, decode_transfer,
  transfer_step,
}
use opencoin.Encoding.{transaction_bytes, signing_bytes, marshal_transaction}
use opencoin.Store.{take_bytes}
use opencoin.Crypto.{
  bytes_equal, address_from_pub_key, verify_ed25519, ensure_address_matches, first_spend,
  registered, resolve_sender_pub_key, verify_signature,
}
use opencoin.Rc.{Params, rc_max, scale, refill, elapsed, regen, add_cost, cost}
use opencoin.Ledger.{
  Effect, refresh, charge, account_at, run_transfer, run_payload, authorize, prepare, settle,
  run_prepared, apply_transaction,
}
use opencoin.Ledger.Effects.{
  Charged, apply_transaction-Charged, apply_transaction-ne-replayed, apply_transaction-ne-unstaked,
}
use opencoin.Ledger.Payments.{Moved, apply_transaction-Moved, apply_transaction-self_transfer}
use opencoin.Ledger.Invariant.{IsSound, written-IsSound}
use opencoin.Ledger.Block.{apply_transactions, apply_transactions-IsSound}
use opencoin.Mempool.{Pool, queue_of, enqueue, admit, add_tx}
use opencoin.Mempool.Order.{Ascending, IsOrdered, inserted-IsOrdered, add_tx-IsOrdered}
use opencoin.Ledger.Coster.{estimate_cost, estimate_cost-eq-charged}
use opencoin.Store.Codec.RoundTrip.{IsValid}
use opencoin.Tests.Fixtures.{
  plain_wire, plain_wire-laws, map_accounts, map_accounts-laws, open_crypto, idle_runtime,
}

abbrev payer_address : Address
payer_address = 0 ∷ 0 ∷ 0 ∷ 0 ∷ 0 ∷ 0 ∷ 0 ∷ 0 ∷ 0 ∷ 0 ∷ 0 ∷ 0 ∷ 0 ∷ 0 ∷ 0 ∷ 0 ∷ 0 ∷ 0 ∷ 0 ∷ 0 ∷ []

abbrev payer : Account
payer = record {
  address = payer_address;
  balance = 100;
  nonce = 3;
  stake = 1000;
  rc = 0;
  rc_max = 0;
  last_rc_effective_time = pos 0;
  code = [];
  pub_key = [];
}

abbrev params : Params
params = record {
  alpha = 1;
  beta = 1;
  c_size = 1;
  c_compute = 1;
  c_storage = 1;
  max_skew_sec = pos 5;
  window_n = pos 3;
}

-- A transfer of 5 to the address `to` of one byte, with the sender's key.
abbrev payload_to : ℕ → Bytes
payload_to to = 1 ∷ 2 ∷ 7 ∷ 1 ∷ 2 ∷ 1 ∷ to ∷ 2 ∷ 0 ∷ 5 ∷ 8 ∷ 2 ∷ 32 ∷ zero_hash

abbrev payment : Transaction
payment = record {
  from = payer_address;
  to = 7 ∷ [];
  nonce = 3;
  payload = payload_to 7;
  signature = zero_hash ++ zero_hash;
}

abbrev other_account : ℕ → ℕ → Account
other_account name balance = record (empty_account (name ∷ [])) { balance = balance }

abbrev payer_after : Account
payer_after = record {
  address = payer_address;
  balance = 95;
  nonce = 4;
  stake = 1000;
  rc = 853;
  rc_max = 1000;
  last_rc_effective_time = pos 1000;
  code = [];
  pub_key = zero_hash;
}

abbrev before : map_accounts.State
before = (payer_address, payer) ∷ []

abbrev after : map_accounts.State
after = (payer_address, payer_after) ∷ (7 ∷ [], other_account 7 5) ∷ []

payment_applied :
    (apply_transaction map_accounts idle_runtime open_crypto params
      (some payment)
      none
      (pos 1000)
      false
      before).1
    ≡ ok after
unfolding apply_transaction run_prepared settle prepare authorize run_payload run_transfer
    account_at charge refresh cost add_cost regen elapsed refill scale rc_max verify_signature
    resolve_sender_pub_key registered first_spend ensure_address_matches verify_ed25519
    address_from_pub_key bytes_equal take_bytes signing_bytes marshal_transaction transaction_bytes
    decode_payload payload_step variant_field pub_key_field finish decode_transfer transfer_step
    decode decode_loop bytes_field varint_field skip_field lookup insert to_u64 to_i64 sub_i64
    add_i64 ◌-ℤ◌ Bytes_discrete
payment_applied = refl

payload_decoded :
    decode_payload payment.payload
    ≡ ok (record {
      sender_pub_key = zero_hash;
      payload = transfer (record { to = 7 ∷ []; amount = 5 });
    })
unfolding decode_payload payload_step variant_field pub_key_field finish decode_transfer
    transfer_step decode decode_loop bytes_field varint_field skip_field
payload_decoded = refl

payer-IsValid : IsValid payer
payer-IsValid = record {
  balance = omega arith;
  nonce = omega arith;
  stake = omega arith;
  rc = omega arith;
  rc_max = omega arith;
  time = record { above = omega arith; below = omega arith };
}

other-IsValid : IsValid (other_account 7 0)
other-IsValid = record {
  balance = omega arith;
  nonce = omega arith;
  stake = omega arith;
  rc = omega arith;
  rc_max = omega arith;
  time = record { above = omega arith; below = omega arith };
}

time-IsI64 : IsI64 (pos 1000)
time-IsI64 = record { above = omega arith; below = omega arith }

payer_found : account_at map_accounts before payer_address ≡ ok payer
unfolding account_at lookup Bytes_discrete
payer_found = refl

other_found : account_at map_accounts before (7 ∷ []) ≡ ok (other_account 7 0)
unfolding account_at lookup Bytes_discrete
other_found = refl

empty-IsValid : (addr : Address) → IsValid (empty_account addr)
empty-IsValid addr = record {
  balance = omega arith;
  nonce = omega arith;
  stake = omega arith;
  rc = omega arith;
  rc_max = omega arith;
  time = record { above = omega arith; below = omega arith };
}

nobody_found :
    (addr : Address) (acct : Account)
    → account_at map_accounts [] addr ≡ ok acct
    → empty_account addr ≡ acct
unfolding account_at lookup
nobody_found addr acct h = cc

before-IsSound : IsSound map_accounts before
unfolding insert
before-IsSound =
    written-IsSound map_accounts map_accounts-laws [] before payer payer-IsValid refl (record {
      valid = λ addr acct h. subst IsValid (nobody_found addr acct h) (empty-IsValid addr);
      own = λ addr acct h. ap (λ x. x.address) (sym (nobody_found addr acct h));
    })

apply_transaction-Charged_example :
    Charged map_accounts map_accounts-laws idle_runtime open_crypto params payment
      (pos 1000)
      payer
      after
apply_transaction-Charged_example =
    apply_transaction-Charged map_accounts map_accounts-laws idle_runtime open_crypto params payment
      none (pos 1000) false before after payer payer_found refl payer-IsValid time-IsI64
      payment_applied

apply_transaction-ne-replayed_example :
    (apply_transaction map_accounts idle_runtime open_crypto params
      (some payment)
      none
      (pos 1001)
      true
      after).1
    ≢ ok after
apply_transaction-ne-replayed_example =
    apply_transaction-ne-replayed map_accounts map_accounts-laws idle_runtime open_crypto params
      payment none none (pos 1000) (pos 1001) false true before after after payer payer_found refl
      payer-IsValid time-IsI64 payment_applied

apply_transaction-ne-unstaked_example :
    (apply_transaction map_accounts idle_runtime open_crypto params
      (some payment)
      none
      (pos 1000)
      false
      []).1
    ≢ ok after
unfolding account_at lookup
apply_transaction-ne-unstaked_example =
    apply_transaction-ne-unstaked map_accounts map_accounts-laws idle_runtime open_crypto params
      plain_wire-laws (omega arith) payment none (pos 1000) false [] after
      (empty_account payer_address) refl refl

apply_transaction-Moved_example :
    Moved map_accounts map_accounts-laws idle_runtime open_crypto params
      (record { to = 7 ∷ []; amount = 5 })
      payer_address
      before
      after
      payer
      (other_account 7 0)
apply_transaction-Moved_example =
    apply_transaction-Moved map_accounts map_accounts-laws idle_runtime open_crypto params payment
      none (pos 1000) false before after payer (other_account 7 0)
      (record { to = 7 ∷ []; amount = 5 }) zero_hash payload_decoded payer_found refl payer-IsValid
      other_found refl other-IsValid time-IsI64 (λ h. cc) payment_applied

-- A transfer of 5 to the sender's own address.
abbrev self_payment : Transaction
self_payment = record payment {
  payload = 1 ∷ 2 ∷ 26 ∷ 1 ∷ 2 ∷ 20 ∷ (payer_address ++ 2 ∷ 0 ∷ 5 ∷ 8 ∷ 2 ∷ 32 ∷ zero_hash);
}

abbrev after_self : map_accounts.State
after_self = (payer_address, record payer_after { rc = 834 }) ∷ []

self_payment_applied :
    (apply_transaction map_accounts idle_runtime open_crypto params
      (some self_payment)
      none
      (pos 1000)
      false
      before).1
    ≡ ok after_self
unfolding apply_transaction run_prepared settle prepare authorize run_payload run_transfer
    account_at charge refresh cost add_cost regen elapsed refill scale rc_max verify_signature
    resolve_sender_pub_key registered first_spend ensure_address_matches verify_ed25519
    address_from_pub_key bytes_equal take_bytes signing_bytes marshal_transaction transaction_bytes
    decode_payload payload_step variant_field pub_key_field finish decode_transfer transfer_step
    decode decode_loop bytes_field varint_field skip_field lookup insert to_u64 to_i64 sub_i64
    add_i64 ◌-ℤ◌ Bytes_discrete
self_payment_applied = refl

self_payload_decoded :
    decode_payload self_payment.payload
    ≡ ok (record {
      sender_pub_key = zero_hash;
      payload = transfer (record { to = payer_address; amount = 5 });
    })
unfolding decode_payload payload_step variant_field pub_key_field finish decode_transfer
    transfer_step decode decode_loop bytes_field varint_field skip_field
self_payload_decoded = refl

apply_transaction-self_transfer_example :
    (last : Account) × (account_at map_accounts after_self payer_address ≡ ok last)
    × (last.balance + 5 ≡ 100)
apply_transaction-self_transfer_example =
    apply_transaction-self_transfer map_accounts map_accounts-laws idle_runtime open_crypto params
      self_payment none (pos 1000) false before after_self payer
      (record { to = payer_address; amount = 5 }) zero_hash self_payload_decoded payer_found refl
      payer-IsValid time-IsI64 refl self_payment_applied

block_applied :
    (apply_transactions map_accounts idle_runtime open_crypto params
      (payment ∷ [])
      none
      (pos 1000)
      false
      before).1
    ≡ ok after
unfolding apply_transactions
block_applied = rw payment_applied refl

apply_transactions-IsSound_example : IsSound map_accounts after
apply_transactions-IsSound_example =
    apply_transactions-IsSound map_accounts map_accounts-laws idle_runtime open_crypto params
      (payment ∷ []) none (pos 1000) false before after time-IsI64 before-IsSound block_applied

-- The transaction enters the queue of its sender before one with a later nonce.
abbrev later : Transaction
later = record payment { nonce = 5 }

abbrev pool : Pool
pool = (payer_address, later ∷ []) ∷ []

abbrev payer_view : Address → Result (Option Account)
payer_view addr = ok (some (record payer { rc = 1000 }))

abbrev flat_cost : Transaction → Result ℕ
flat_cost txn = ok 100

entered :
    add_tx open_crypto payer_view flat_cost (some payment) pool
    ≡ ok ((payer_address, payment ∷ later ∷ []) ∷ [])
unfolding apply_transaction run_prepared settle prepare authorize run_payload run_transfer
    account_at charge refresh cost add_cost regen elapsed refill scale rc_max verify_signature
    resolve_sender_pub_key registered first_spend ensure_address_matches verify_ed25519
    address_from_pub_key bytes_equal take_bytes signing_bytes marshal_transaction transaction_bytes
    decode_payload payload_step variant_field pub_key_field finish decode_transfer transfer_step
    decode decode_loop bytes_field varint_field skip_field lookup insert to_u64 to_i64 sub_i64
    add_i64 ◌-ℤ◌ Bytes_discrete add_tx admit enqueue
entered = refl

nobody_queued : (addr : Address) → queue_of addr [] ≡ []
unfolding lookup
nobody_queued addr = refl

pool-IsOrdered : IsOrdered pool
unfolding insert
pool-IsOrdered =
    inserted-IsOrdered payer_address (later ∷ []) [] (tt, tt) (refl, tt)
      (record {
        ascending = λ addr. subst Ascending (sym (nobody_queued addr)) tt;
        own = λ addr. subst (All (λ t. t.from ≡ addr)) (sym (nobody_queued addr)) tt;
      })

add_tx-IsOrdered_example : IsOrdered ((payer_address, payment ∷ later ∷ []) ∷ [])
add_tx-IsOrdered_example =
    add_tx-IsOrdered open_crypto payer_view flat_cost payment pool
      ((payer_address, payment ∷ later ∷ []) ∷ []) entered pool-IsOrdered

abbrev previewed : Effect map_accounts.State
previewed = record {
  sender = record payer { balance = 95 };
  accounts = (payer_address, payer) ∷ (7 ∷ [], other_account 7 5) ∷ [];
  instructions = 0;
  state_writes = 2;
}

estimate_cost-eq-charged_example :
    estimate_cost idle_runtime params none (some payment)
    ≡ ok (cost params (length (transaction_bytes payment)) 0 2)
unfolding run_payload run_transfer account_at lookup insert Bytes_discrete
estimate_cost-eq-charged_example =
    estimate_cost-eq-charged idle_runtime map_accounts params payment
      (transfer (record { to = 7 ∷ []; amount = 5 })) zero_hash payer none before previewed
      payload_decoded (λ d h. cc) refl
