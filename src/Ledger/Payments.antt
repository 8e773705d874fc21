-- ===== src/Ledger/Payments.antt =====
-- What a transfer does to the balances of its sender, its receiver and everyone else.
use opencoin.Prelude.{
  ℕ, ◌+◌, ◌-◌, ◌%◌, ◌≤◌, ◌≡◌, ◌≢◌, Bool, Option, some, ok, arith, u64_mod, ltb, fail_if, >>=-eq-ok,
  ◌∙◌, ap, sym, subst, length, Bytes,
}
use opencoin.Prelude.Int.{ℤ, IsI64}
use opencoin.Types.{Address, Transaction, Account}
use opencoin.Wire.{Wire}
use opencoin.Payload.{Transfer, transfer}
use opencoin.Payload.Decode.{decode_payload}
use opencoin.Encoding.{transaction_bytes}
use opencoin.Store.Codec.RoundTrip.{IsValid}
use opencoin.Crypto.{Crypto}
use opencoin.Contracts.{Runtime, Engine}
use opencoin.Rc.{Params}
use opencoin.Ledger.{
  Accounts, AccountsLaws, Effect, account_at, run_transfer, run_payload, apply_transaction,
}
use opencoin.Ledger.Apply.{apply_transaction-eq_ok}
use opencoin.Ledger.Effects.{charge-eq_ok, account_at_written, account_at_elsewhere, settled}

-- The receiver after a transfer.
abbrev pub credited : ℕ → Account → Account
credited amount receiver = record receiver { balance = (receiver.balance + amount) % u64_mod }

module _ (a : Accounts) where
  -- What a transfer that succeeds went through.
  pub record Transferred (t : Transfer) (sender : Account) (s : a.State) (eff : Effect a.State)
      : Type 0 where
    pub covered : t.amount ≤ sender.balance
    pub receiver : Account
    pub found : account_at a s t.to ≡ ok receiver
    pub written : a.set s (credited t.amount receiver) ≡ ok eff.accounts
    pub balance : eff.sender.balance ≡ sender.balance - t.amount

  pub run_transfer-eq_ok :
      (t : Transfer) (sender : Account) (s : a.State) (eff : Effect a.State)
      → run_transfer a t sender s ≡ ok eff
      → Transferred t sender s eff
  unfolding run_transfer
  run_transfer-eq_ok t sender s eff h =
      let (_, enough, h1) =
        >>=-eq-ok (fail_if (ltb sender.balance t.amount) "insufficient balance") _ h in
      let (receiver, found, h2) = >>=-eq-ok (account_at a s t.to) _ h1 in
      let (after, written, h3) = >>=-eq-ok (a.set s (credited t.amount receiver)) _ h2 in
      record {
        covered = ground arith;
        receiver = receiver;
        found = found;
        written = written ∙ ap (λ x. ok x) cc;
        balance = ground arith;
      }

pub credited-IsValid :
    (amount : ℕ) {receiver : Account} → IsValid receiver → IsValid (credited amount receiver)
credited-IsValid amount v = record {
  balance = omega arith;
  nonce = v.nonce;
  stake = v.stake;
  rc = v.rc;
  rc_max = v.rc_max;
  time = v.time;
}

module _ (a : Accounts) (laws : AccountsLaws a) (r : Runtime) ⦃w : Wire⦄ (c : Crypto)
    (p : Params) where
  -- The balances behind a transfer from `from` to another address.
  pub record Moved (t : Transfer) (from : Address) (s s' : a.State) (payer payee : Account)
      : Type 0 where
    pub covered : t.amount ≤ payer.balance
    pub payer_after : Account
    pub payer_stored : account_at a s' from ≡ ok payer_after
    pub payer_balance : payer_after.balance ≡ payer.balance - t.amount
    pub payee_stored : account_at a s' t.to ≡ ok (credited t.amount payee)
    pub others :
        (addr : Address) → addr ≢ from → addr ≢ t.to → account_at a s' addr ≡ account_at a s addr

  -- A transfer to another address that applied was covered by the sender's balance; the sender's
  -- address reads a balance that is lower by the amount, the receiver's address reads the old
  -- account with the amount added (modulo 2^64), and every third address reads what it read before.
  -- This is for accounts of the sender and the receiver that read as accounts in range under their
  -- own addresses, and an effective time that is an int64.
  pub apply_transaction-Moved :
      (txn : Transaction) (e : Option (Engine r)) (time : ℤ) (v : Bool) (s s' : a.State)
      (payer payee : Account) (t : Transfer) (key : Bytes)
      → decode_payload txn.payload ≡ ok (record { sender_pub_key = key; payload = transfer t })
      → account_at a s txn.from ≡ ok payer
      → payer.address ≡ txn.from
      → IsValid payer
      → account_at a s t.to ≡ ok payee
      → payee.address ≡ t.to
      → IsValid payee
      → IsI64 time
      → t.to ≢ txn.from
      → (apply_transaction a r c p (some txn) e time v s).1 ≡ ok s'
      → Moved t txn.from s s' payer payee
  unfolding run_payload
  apply_transaction-Moved txn e time v s s' payer payee t key decoded at own valid at' own' valid'
        time_valid ne h =
      let done = apply_transaction-eq_ok a r c p txn e time v s s' h in
      let last = settled a laws r c p done at own valid time_valid in
      let is_transfer : done.payload ≡ transfer t = cc in
      let ran : run_transfer a t done.sender s ≡ ok done.effect =
        subst (λ q. (run_payload a r q txn.to done.sender e v s).1 ≡ ok done.effect) is_transfer
          done.ran in
      let moved = run_transfer-eq_ok a t done.sender s done.effect ran in
      let paid =
        charge-eq_ok p (length (transaction_bytes txn)) done.effect done.charged done.paid in
      let same : moved.receiver ≡ payee = cc in
      let credit : a.set s (credited t.amount payee) ≡ ok done.effect.accounts =
        subst (λ x. a.set s (credited t.amount x) ≡ ok done.effect.accounts) same moved.written in
      let at_payer =
        account_at_written a laws done.effect.accounts s' done.charged last.valid done.written in
      let credit_valid = credited-IsValid t.amount valid' in
      let at_payee =
        account_at_written a laws s done.effect.accounts (credited t.amount payee) credit_valid
          credit in
      record {
        covered = omega (arith, moved.covered, last.refreshed);
        payer_after = done.charged;
        payer_stored = subst (λ x. account_at a s' x ≡ ok done.charged) last.address at_payer;
        payer_balance =
            ap (λ x. x.balance) paid.charged
            ∙ moved.balance
            ∙ ap (λ n. n - t.amount) last.refreshed;
        payee_stored =
            account_at_elsewhere a laws done.effect.accounts s' done.charged t.to last.valid
              (λ q. ne (sym q ∙ last.address)) done.written
            ∙ subst (λ x. account_at a done.effect.accounts x ≡ ok (credited t.amount payee)) own'
                at_payee;
        others = λ addr ne1 ne2.
            account_at_elsewhere a laws done.effect.accounts s' done.charged addr last.valid
              (λ q. ne1 (sym q ∙ last.address)) done.written
            ∙ account_at_elsewhere a laws s done.effect.accounts (credited t.amount payee) addr
                credit_valid (λ q. ne2 (sym q ∙ own')) credit;
      }

  -- A transfer to the sender's own address that applied destroys the amount: the address reads a
  -- balance that is lower by it. This is for a sender that reads as an account in range under its
  -- own address, and an effective time that is an int64.
  pub apply_transaction-self_transfer :
      (txn : Transaction) (e : Option (Engine r)) (time : ℤ) (v : Bool) (s s' : a.State)
      (payer : Account) (t : Transfer) (key : Bytes)
      → decode_payload txn.payload ≡ ok (record { sender_pub_key = key; payload = transfer t })
      → account_at a s txn.from ≡ ok payer
      → payer.address ≡ txn.from
      → IsValid payer
      → IsI64 time
      → t.to ≡ txn.from
      → (apply_transaction a r c p (some txn) e time v s).1 ≡ ok s'
      → (after : Account) × (account_at a s' txn.from ≡ ok after)
        × (after.balance + t.amount ≡ payer.balance)
  unfolding run_payload
  apply_transaction-self_transfer txn e time v s s' payer t key decoded at own valid time_valid self
        h =
      let done = apply_transaction-eq_ok a r c p txn e time v s s' h in
      let last = settled a laws r c p done at own valid time_valid in
      let is_transfer : done.payload ≡ transfer t = cc in
      let ran : run_transfer a t done.sender s ≡ ok done.effect =
        subst (λ q. (run_payload a r q txn.to done.sender e v s).1 ≡ ok done.effect) is_transfer
          done.ran in
      let moved = run_transfer-eq_ok a t done.sender s done.effect ran in
      let paid =
        charge-eq_ok p (length (transaction_bytes txn)) done.effect done.charged done.paid in
      let at_payer =
        account_at_written a laws done.effect.accounts s' done.charged last.valid done.written in
      let balance : done.charged.balance ≡ done.sender.balance - t.amount =
        ap (λ x. x.balance) paid.charged ∙ moved.balance in
      (
        done.charged,
        subst (λ x. account_at a s' x ≡ ok done.charged) last.address at_payer,
        omega (arith, moved.covered, last.refreshed, balance),
      )
