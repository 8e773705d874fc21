-- ===== src/Mempool/Select.antt =====
-- `SelectForBlock` of pkg/mempool/mempool.go and the heap under it. The package container/heap is a
-- record of functions that take the heap's own methods.
use opencoin.Prelude.{
  ℕ, zero, suc, ◌+◌, ◌-◌, ◌/◌, ◌%◌, List, [], ◌∷◌, ◌++◌, Bytes, Bool, false, not, ltb, leb, ◌==◌,
  if◌then◌else◌, Option, none, some, Result, ok, panics, ◌>>=◌, length, get_elem?, set, u64_mod,
}
use opencoin.Prelude.Int.{ℤ, pos, pos_part, ltb_ℤ}
use opencoin.Prelude.Map.{Map, Bytes_key, lookup, insert}
use opencoin.Types.{Address, Hash, Transaction, Account}
use opencoin.Wire.{Wire}
use opencoin.Encoding.{hash_transaction}
use opencoin.Dpos.{precedes}
use opencoin.Mempool.{Pool}

pub record TxItem : Type 0 where
  pub tx : Transaction
  pub cost : ℕ
  pub hash : Hash
  pub sender : Address

-- The digits of `%x`.
abbrev hex_digit : ℕ → ℕ
hex_digit d = if ltb d 10 then b'0' + d else b'a' + (d - 10)

-- `Hash.String`
unfoldable pub hash_string : Hash → Bytes
hash_string [] = []
hash_string (b ∷ h) = hex_digit (b / 16) ∷ hex_digit (b % 16) ∷ hash_string h

abbrev pub precedes_item : TxItem → TxItem → Bool
precedes_item x y =
    if x.cost == y.cost
    then precedes (hash_string x.hash) (hash_string y.hash)
    else ltb y.cost x.cost

-- The methods that container/heap calls. An index beyond the slice is never asked for.
pub record HeapInterface : Type 0 where
  pub less : List TxItem → ℕ → ℕ → Bool
  pub swap : List TxItem → ℕ → ℕ → List TxItem
  pub push : List TxItem → TxItem → List TxItem
  pub pop : List TxItem → Option (TxItem × List TxItem)

unfoldable pub heap_less : List TxItem → ℕ → ℕ → Bool
heap_less h i j = elim (get_elem? h i) [
  | none ↦ false
  | some x ↦ elim (get_elem? h j) [ none ↦ false | some y ↦ precedes_item x y ]
]

unfoldable pub heap_swap : List TxItem → ℕ → ℕ → List TxItem
heap_swap h i j = elim (get_elem? h i) [
  | none ↦ h
  | some x ↦ elim (get_elem? h j) [ none ↦ h | some y ↦ set (set h i y) j x ]
]

unfoldable pub heap_push : List TxItem → TxItem → List TxItem
heap_push h x = h ++ x ∷ []

abbrev behind : TxItem → Option (TxItem × List TxItem) → Option (TxItem × List TxItem)
behind x none = some (x, [])
behind x (some (last, h)) = some (last, x ∷ h)

-- The last item and the items before it.
unfoldable pub heap_pop : List TxItem → Option (TxItem × List TxItem)
heap_pop [] = none
heap_pop (x ∷ h) = behind x (heap_pop h)

abbrev pub tx_heap : HeapInterface
unfolding heap_less heap_swap heap_push heap_pop
tx_heap = record { less = heap_less; swap = heap_swap; push = heap_push; pop = heap_pop }

-- `heap.Init`, `heap.Push` and `heap.Pop`; the last is not called on an empty heap.
pub record HeapPackage : Type 0 where
  pub init : HeapInterface → List TxItem → List TxItem
  pub push : HeapInterface → List TxItem → TxItem → List TxItem
  pub pop : HeapInterface → List TxItem → Option (TxItem × List TxItem)

-- What the selection knows of a sender.
pub record SenderState : Type 0 where
  pub acct : Account
  pub cursor : ℕ
  pub queue : List Transaction

abbrev pub Senders : Type 0
Senders = Map Address SenderState

-- `st.acct.RC` after a cost, and the sender after its transaction was selected.
abbrev pub advance : ℕ → SenderState → SenderState
advance cost st = record st {
  acct = record st.acct {
    nonce = (st.acct.nonce + 1) % u64_mod;
    rc = if leb cost st.acct.rc then st.acct.rc - cost else 0;
  };
  cursor = st.cursor + 1;
}

-- The states of the senders that have an account and transactions.
unfoldable pub gather : (Address → Result (Option Account)) → Pool → Senders → Result Senders
gather view [] senders = ok senders
gather view ((addr, queue) ∷ pool) senders = do
  found ← view addr
  let senders' : Senders = elim found [
    | none ↦ senders
    | some acct ↦
        if length queue == 0
        then senders
        else insert addr (record { acct = acct; cursor = 0; queue = queue }) senders
  ]
  gather view pool senders'

module _ ⦃w : Wire⦄ (sha256 : Bytes → Hash) (heap : HeapPackage)
    (coster : Transaction → Result ℕ) where
  -- A sender's next transaction enters the heap if its nonce is the next and its cost is covered.
  unfoldable pub offer : Address → Account → Transaction → List TxItem → Result (List TxItem)
  offer sender acct txn h = if not (txn.nonce == acct.nonce) then ok h else do
    cost ← coster txn
    if ltb acct.rc cost then ok h else do
      hash ← hash_transaction sha256 (some txn)
      ok (heap.push tx_heap h (record { tx = txn; cost = cost; hash = hash; sender = sender }))

  unfoldable pub offer_next : Address → SenderState → List TxItem → Result (List TxItem)
  unfolding offer
  offer_next sender st h = elim (get_elem? st.queue st.cursor) [
    | none ↦ ok h
    | some txn ↦ offer sender st.acct txn h
  ]

  -- The loop that offers every sender's first transaction.
  unfoldable pub seed : Senders → List TxItem → Result (List TxItem)
  seed [] h = ok h
  seed ((sender, st) ∷ senders) h = do h' ← offer_next sender st h; seed senders h'

  -- The loop while the heap is not empty and the block has room. The transactions behind one are
  -- appended in the later turns.
  unfoldable pub fill : ℕ → Senders → List TxItem → Result (List Transaction)
  fill zero senders h = ok []
  fill (suc room) senders [] = ok []
  fill (suc room) senders (top ∷ below) = elim (heap.pop tx_heap (top ∷ below)) [
    | none ↦ panics "index out of range"
    | some (item, h) ↦ elim (lookup item.sender senders) [
      | none ↦ panics "nil pointer dereference"
      | some st ↦ (do
        h' ← offer_next item.sender (advance item.cost st) h
        txs ← fill room (insert item.sender (advance item.cost st) senders) h'
        ok (item.tx ∷ txs))
    ]
  ]

  unfoldable pub select_for_block :
      (Address → Result (Option Account)) → ℤ → Pool → Result (List Transaction)
  select_for_block view max pool = if not (ltb_ℤ (pos 0) max) then ok [] else do
    senders ← gather view pool []
    h ← seed senders (heap.init tx_heap [])
    fill (pos_part max) senders h
