-- ===== src/Ledger/Block.antt =====
-- The loop over a block's transactions in `ApplyBlock` and, as a preview, in `PreviewBlock` of
-- pkg/state/state.go.
use opencoin.Prelude.{
  List, [], ◌∷◌, ◌≡◌, subst, Bool, Option, some, Result, ok, and_then, and_then-eq_ok,
}
use opencoin.Prelude.Int.{ℤ, IsI64}
use opencoin.Types.{Transaction}
use opencoin.Wire.{Wire}
use opencoin.Crypto.{Crypto}
use opencoin.Contracts.{Runtime, Engine}
use opencoin.Rc.{Params}
use opencoin.Ledger.{Accounts, AccountsLaws, apply_transaction}
use opencoin.Ledger.Invariant.{IsSound, apply_transaction-IsSound}

module _ (a : Accounts) (r : Runtime) ⦃w : Wire⦄ (c : Crypto) (p : Params) where
  -- The loop ends at the first transaction that fails; the engine keeps what was done to it.
  unfoldable pub apply_transactions :
      List Transaction → Option (Engine r) → ℤ → Bool → a.State → Option (Engine r) × Result a.State
  apply_transactions [] e time preview s = (e, ok s)
  apply_transactions (txn ∷ txns) e time preview s =
      let (e', applied) = apply_transaction a r c p (some txn) e time preview s in
      and_then e' applied (λ s'. apply_transactions txns e' time preview s')

module _ (a : Accounts) (laws : AccountsLaws a) (r : Runtime) ⦃w : Wire⦄ (c : Crypto)
    (p : Params) where
  -- A block whose transactions all apply keeps the accounts sound: when every address reads an
  -- account in range that carries the address before the block, every address does so after it.
  -- This is for an effective time that is an int64.
  pub apply_transactions-IsSound :
      (txns : List Transaction) (e : Option (Engine r)) (time : ℤ) (v : Bool) (s s' : a.State)
      → IsI64 time
      → IsSound a s
      → (apply_transactions a r c p txns e time v s).1 ≡ ok s'
      → IsSound a s'
  unfolding apply_transactions
  apply_transactions-IsSound [] e time v s s' t i h =
      let same : s ≡ s' = cc in subst (IsSound a) same i
  apply_transactions-IsSound (txn ∷ txns) e time v s s' t i h =
      let (e', applied) = apply_transaction a r c p (some txn) e time v s in
      let (middle, one, rest) =
        and_then-eq_ok e' applied (λ x. apply_transactions a r c p txns e' time v x) s' h in
      apply_transactions-IsSound txns e' time v middle s' t
        (apply_transaction-IsSound a laws r c p txn e time v s middle t i one) rest
