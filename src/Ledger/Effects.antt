-- ===== src/Ledger/Effects.antt =====
-- What a successful application does to its sender: the nonce, the credit and replay.
use opencoin.Prelude.{
  ℕ, ◌+◌, ◌-◌, ◌%◌, ◌≤◌, ◌≡◌, refl, ◌≢◌, length, Bool, Option, some, ok, arith, u64_mod, ◌∙◌, ap,
  sym, subst, Bytes_discrete, if_pos, if_neg, Bytes,
}
use opencoin.Prelude.Int.{ℤ, IsI64}
use opencoin.Types.{Address, Transaction, Account}
use opencoin.Wire.{Wire, WireLaws}
use opencoin.Encoding.{transaction_bytes}
use opencoin.Encoding.Transactions.{transaction_bytes_nonempty}
use opencoin.Store.Codec.RoundTrip.{IsValid}
use opencoin.Crypto.{Crypto}
use opencoin.Contracts.{Runtime, Engine}
use opencoin.Rc.{Params, regen, rc_max, cost}
use opencoin.Rc.Bounds.{regen-le-rc_max, rc_max-IsU64, regen_no_stake, cost-eq, le_mul}
use opencoin.Ledger.{Accounts, AccountsLaws, Effect, refresh, charge, account_at, apply_transaction}
use opencoin.Ledger.Apply.{Keeps-IsValid, Applied, apply_transaction-eq_ok, run_payload-Keeps}

regen_time : (p : Params) (rc stake : ℕ) (last new : ℤ) → (regen p rc stake last new).1 ≡ new
unfolding regen
regen_time p rc stake last new = ground arith

refresh-IsValid :
    (p : Params) (time : ℤ) (acct : Account)
    → IsI64 time
    → IsValid acct
    → IsValid (refresh p time acct)
unfolding refresh
refresh-IsValid p time acct t v = record {
  balance = v.balance;
  nonce = v.nonce;
  stake = v.stake;
  rc = omega (
    arith,
    regen-le-rc_max p acct.rc acct.stake acct.last_rc_effective_time time,
    rc_max-IsU64 p acct.stake,
  );
  rc_max = rc_max-IsU64 p acct.stake;
  time = subst IsI64 (sym (regen_time p acct.rc acct.stake acct.last_rc_effective_time time)) t;
}

-- A charge that succeeds: the price was there, and it, the nonce and the greatest credit are all
-- that changes.
pub record Paid (p : Params) (price : ℕ) (before after : Account) : Type 0 where
  pub affordable : price ≤ before.rc
  pub charged : after ≡ record before {
    rc = before.rc - price;
    nonce = (before.nonce + 1) % u64_mod;
    rc_max = rc_max p before.stake;
  }

pub charge-eq_ok :
    (p : Params) (size : ℕ) {State : Type 0} (eff : Effect State) (after : Account)
    → charge p size eff ≡ ok after
    → Paid p (cost p size eff.instructions eff.state_writes) eff.sender after
unfolding charge
charge-eq_ok p size eff after h = ground arith

Paid-IsValid :
    {p : Params} {price : ℕ} {before after : Account}
    → Paid p price before after
    → IsValid before
    → IsValid after
Paid-IsValid {p} {price} {before} {after} h v = subst IsValid (sym h.charged) (record {
  balance = v.balance;
  nonce = omega arith;
  stake = v.stake;
  rc = omega (arith, v.rc);
  rc_max = rc_max-IsU64 p before.stake;
  time = v.time;
})

cost-positive :
    (p : Params) (size instructions writes : ℕ)
    → p.c_size ≢ 0
    → size ≢ 0
    → cost p size instructions writes ≢ 0
cost-positive p size instructions writes hc hs h =
    hs (omega (arith, cost-eq p size instructions writes, le_mul p.c_size size hc))

with_key-IsValid :
    {acct : Account} (key : Bytes) → IsValid acct → IsValid (record acct { pub_key = key })
with_key-IsValid key v = record {
  balance = v.balance;
  nonce = v.nonce;
  stake = v.stake;
  rc = v.rc;
  rc_max = v.rc_max;
  time = v.time;
}

module _ (a : Accounts) (laws : AccountsLaws a) where
  -- An account written elsewhere is not seen.
  pub account_at_elsewhere :
      (s s' : a.State) (acct : Account) (addr : Address)
      → IsValid acct
      → acct.address ≢ addr
      → a.set s acct ≡ ok s'
      → account_at a s' addr ≡ account_at a s addr
  unfolding account_at
  account_at_elsewhere s s' acct addr v ne h =
      rw (laws.get_set s s' acct addr v h, if_neg (Bytes_discrete acct.address addr) ne) refl

  -- A written account is read back.
  pub account_at_written :
      (s s' : a.State) (acct : Account)
      → IsValid acct
      → a.set s acct ≡ ok s'
      → account_at a s' acct.address ≡ ok acct
  unfolding account_at
  account_at_written s s' acct v h =
      rw
        (
          laws.get_set s s' acct acct.address v h,
          if_pos (Bytes_discrete acct.address acct.address) refl,
        )
        refl

  module _ (r : Runtime) ⦃w : Wire⦄ (c : Crypto) (p : Params) where
    -- The account written at the end is the sender's, in range, with the balance the payload left.
    pub record Settled (txn : Transaction) (time : ℤ) (found charged before : Account)
        : Type 0 where
      pub refreshed : before.balance ≡ found.balance
      pub address : charged.address ≡ txn.from
      pub valid : IsValid charged

    pub settled :
        {txn : Transaction} {e : Option (Engine r)} {time : ℤ} {v : Bool} {s s' : a.State}
        {found : Account} (done : Applied a r c p txn e time v s s')
        → account_at a s txn.from ≡ ok found
        → found.address ≡ txn.from
        → IsValid found
        → IsI64 time
        → Settled txn time found done.charged done.sender
    unfolding refresh
    settled {txn} {e} {time} {v} {s} {s'} {found} done at own valid t =
        let pre = done.prepared in
        let with_key : Account → Account = λ x. record x { pub_key = pre.key } in
        let same : pre.found ≡ found = cc in
        let refreshed : done.sender ≡ refresh p time (with_key found) =
          pre.refreshed ∙ ap (λ x. refresh p time (with_key x)) same in
        let kept =
          run_payload-Keeps a r done.payload txn.to done.sender e v s done.effect done.ran in
        let size = length (transaction_bytes txn) in
        let paid = charge-eq_ok p size done.effect done.charged done.paid in
        let ready = refresh-IsValid p time (with_key found) t (with_key-IsValid pre.key valid) in
        record {
          refreshed = ap (λ x. x.balance) refreshed;
          address =
              ap (λ x. x.address) paid.charged ∙ kept.address ∙ ap (λ x. x.address) refreshed ∙ own;
          valid = Paid-IsValid paid (Keeps-IsValid kept (subst IsValid (sym refreshed) ready));
        }

    -- What a successful application leaves under the sender's address.
    pub record Charged (txn : Transaction) (time : ℤ) (found : Account) (s' : a.State)
        : Type 0 where
      pub credit : ℕ
      pub regenerated : credit ≡ (regen p found.rc found.stake found.last_rc_effective_time time).0
      pub instructions : ℕ
      pub state_writes : ℕ
      pub affordable : cost p (length (transaction_bytes txn)) instructions state_writes ≤ credit
      pub after : Account
      pub stored : account_at a s' txn.from ≡ ok after
      pub nonce_before : found.nonce ≡ txn.nonce
      pub nonce_after : after.nonce ≡ (txn.nonce + 1) % u64_mod
      pub rc : after.rc ≡ credit - cost p (length (transaction_bytes txn)) instructions state_writes
      pub rc_max : after.rc_max ≡ rc_max p after.stake
      pub time_after : after.last_rc_effective_time ≡ time
      pub valid : IsValid after
      pub address : after.address ≡ txn.from

    -- Whatever its payload is, a transaction that applies had the nonce of its sender, and for some
    -- numbers of instructions and of writes the cost of these and of the transaction's size was
    -- within the sender's regenerated credit; afterwards the sender's address reads an account in
    -- range whose nonce is one more (modulo 2^64), whose credit is the regenerated one less this
    -- cost, whose greatest credit is that of its new stake, and whose time is the effective time.
    -- This is for a sender that reads as an account in range under its own address, and an
    -- effective time that is an int64.
    pub apply_transaction-Charged :
        (txn : Transaction) (e : Option (Engine r)) (time : ℤ) (v : Bool) (s s' : a.State)
        (found : Account)
        → account_at a s txn.from ≡ ok found
        → found.address ≡ txn.from
        → IsValid found
        → IsI64 time
        → (apply_transaction a r c p (some txn) e time v s).1 ≡ ok s'
        → Charged txn time found s'
    unfolding refresh
    apply_transaction-Charged txn e time v s s' found at own valid t h =
        let done = apply_transaction-eq_ok a r c p txn e time v s s' h in
        let pre = done.prepared in
        let with_key : Account → Account = λ x. record x { pub_key = pre.key } in
        let same : pre.found ≡ found = cc in
        let refreshed : done.sender ≡ refresh p time (with_key found) =
          pre.refreshed ∙ ap (λ x. refresh p time (with_key x)) same in
        let kept =
          run_payload-Keeps a r done.payload txn.to done.sender e v s done.effect done.ran in
        let size = length (transaction_bytes txn) in
        let paid = charge-eq_ok p size done.effect done.charged done.paid in
        let last = settled done at own valid t in
        record {
          credit = done.effect.sender.rc;
          regenerated = kept.rc ∙ ap (λ x. x.rc) refreshed;
          instructions = done.effect.instructions;
          state_writes = done.effect.state_writes;
          affordable = paid.affordable;
          after = done.charged;
          stored =
              subst (λ x. account_at a s' x ≡ ok done.charged) last.address
                (account_at_written done.effect.accounts s' done.charged last.valid done.written);
          nonce_before = sym (ap (λ x. x.nonce) refreshed) ∙ pre.nonce;
          nonce_after =
              ap (λ x. x.nonce) paid.charged ∙ ap (λ n. (n + 1) % u64_mod) (kept.nonce ∙ pre.nonce);
          rc = ap (λ x. x.rc) paid.charged;
          rc_max =
              ap (λ x. x.rc_max) paid.charged
              ∙ ap (λ x. rc_max p x) (sym (ap (λ x. x.stake) paid.charged));
          time_after =
              ap (λ x. x.last_rc_effective_time) paid.charged
              ∙ kept.time
              ∙ ap (λ x. x.last_rc_effective_time) refreshed
              ∙ regen_time p found.rc found.stake found.last_rc_effective_time time;
          valid = last.valid;
          address = last.address;
        }

    -- A transaction that applied is refused when it is applied again to the accounts it left, with
    -- any contract engine, at any effective time, as a preview or not. This is for a sender that
    -- reads as an account in range under its own address, and an effective time that is an int64.
    pub apply_transaction-ne-replayed :
        (txn : Transaction) (e e' : Option (Engine r)) (time time' : ℤ) (v v' : Bool)
        (s s' s2 : a.State) (found : Account)
        → account_at a s txn.from ≡ ok found
        → found.address ≡ txn.from
        → IsValid found
        → IsI64 time
        → (apply_transaction a r c p (some txn) e time v s).1 ≡ ok s'
        → (apply_transaction a r c p (some txn) e' time' v' s').1 ≢ ok s2
    unfolding refresh
    apply_transaction-ne-replayed txn e e' time time' v v' s s' s2 found at own valid t h again =
        let first = apply_transaction-Charged txn e time v s s' found at own valid t h in
        let done = apply_transaction-eq_ok a r c p txn e' time' v' s' s2 again in
        let pre = done.prepared in
        let same : pre.found ≡ first.after = cc in
        let nonce : pre.found.nonce ≡ txn.nonce =
          sym (ap (λ x. x.nonce) pre.refreshed) ∙ pre.nonce in
        let advanced : pre.found.nonce ≡ (txn.nonce + 1) % u64_mod =
          ap (λ x. x.nonce) same ∙ first.nonce_after in
        omega arith

    -- A sender without stake can apply no transaction, the one that would delegate its first stake
    -- included, when the price of a byte is not 0. This is for a wire format with the documented
    -- laws.
    pub apply_transaction-ne-unstaked :
        WireLaws w
        → p.c_size ≢ 0
        → (txn : Transaction) (e : Option (Engine r)) (time : ℤ) (v : Bool) (s s' : a.State)
          (found : Account)
        → account_at a s txn.from ≡ ok found
        → found.stake ≡ 0
        → (apply_transaction a r c p (some txn) e time v s).1 ≢ ok s'
    unfolding refresh
    apply_transaction-ne-unstaked l hc txn e time v s s' found at none_staked h =
        let done = apply_transaction-eq_ok a r c p txn e time v s s' h in
        let pre = done.prepared in
        let same : pre.found ≡ found = cc in
        let kept =
          run_payload-Keeps a r done.payload txn.to done.sender e v s done.effect done.ran in
        let size = length (transaction_bytes txn) in
        let paid = charge-eq_ok p size done.effect done.charged done.paid in
        let regenerated : done.effect.sender.rc ≡ 0 =
          kept.rc
          ∙ ap (λ x. x.rc) pre.refreshed
          ∙ ap (λ n. (regen p pre.found.rc n pre.found.last_rc_effective_time time).0)
              (ap (λ x. x.stake) same ∙ none_staked)
          ∙ ap (λ x. x.0) (regen_no_stake p pre.found.rc pre.found.last_rc_effective_time time) in
        cost-positive p size done.effect.instructions done.effect.state_writes hc
          (transaction_bytes_nonempty l txn) (omega (arith, paid.affordable))
