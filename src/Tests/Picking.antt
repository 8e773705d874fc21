-- ===== src/Tests/Picking.antt =====
-- A pool of two transactions, from which a block is filled.
use opencoin.Prelude.{
  ℕ, ◌≤◌, ◌≡◌, refl, [], ◌∷◌, List, none, some, ok, arith, length, Option, Result,
}
use opencoin.Prelude.Int.{pos}
use opencoin.Prelude.Map.{Bytes_key, lookup, insert}
use mathlib.Core.List.Permᴰ
use opencoin.Types.{Address, Transaction, Account, empty_account}
use opencoin.Mempool.{Pool}
use opencoin.Mempool.Order.{IsOrdered, inserted-IsOrdered}
use opencoin.Mempool.Select.{TxItem, HeapPackage, select_for_block}
use opencoin.Mempool.Heap.{HeapLaws}
use opencoin.Mempool.Offered.{Executable, budget}
use opencoin.Mempool.Selection.{select_for_block-Executable}
use opencoin.Tests.Fixtures.{plain_wire}

abbrev last_pushed : List TxItem → Option (TxItem × List TxItem)
last_pushed [] = none
last_pushed (x ∷ h) = some (x, h)

-- What was pushed last is popped first.
abbrev pub stack_heap : HeapPackage
stack_heap = record { init = λ i h. h; push = λ i h x. x ∷ h; pop = λ i h. last_pushed h }

stack_heap-laws : HeapLaws stack_heap
stack_heap-laws = record {
  init_empty = refl;
  push_perm = λ h x. Permᴰ.refl (x ∷ h);
  pop_perm = λ top below. (top, below, refl, Permᴰ.refl (top ∷ below));
}

abbrev buyer : Address
buyer = 4 ∷ []

abbrev purchase : ℕ → Transaction
purchase nonce = record { from = buyer; to = 5 ∷ []; nonce = nonce; payload = []; signature = [] }

abbrev purchases : Pool
purchases = (buyer, purchase 3 ∷ purchase 4 ∷ []) ∷ []

abbrev buyer_view : Address → Result (Option Account)
buyer_view addr = ok (some (record (empty_account addr) { nonce = 3; rc = 100 }))

purchases-IsOrdered : IsOrdered purchases
unfolding insert lookup
purchases-IsOrdered =
    inserted-IsOrdered buyer (purchase 3 ∷ purchase 4 ∷ []) [] (omega arith) (refl, (refl, tt))
      (record { ascending = λ addr. tt; own = λ addr. tt })

select_for_block-Executable_example :
    (txns : List Transaction) × (select_for_block
        (λ b. b)
        stack_heap
        (λ txn. ok 5)
        buyer_view
        (pos 2)
        purchases
      ≡ ok txns)
    × (length txns ≤ 2)
    × Executable purchases (λ txn. ok 5) (budget buyer_view) txns
unfolding lookup
select_for_block-Executable_example =
    select_for_block-Executable (λ b. b) stack_heap (λ txn. ok 5) buyer_view purchases (pos 2)
      stack_heap-laws (λ addr. (some (record (empty_account addr) { nonce = 3; rc = 100 }), refl))
      (λ addr i txn at. (5, refl)) (purchases-IsOrdered.own) (refl, tt)
