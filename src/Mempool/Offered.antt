-- ===== src/Mempool/Offered.antt =====
-- What can be executed in its order, and what is offered to the heap: `SelectForBlock` of
-- pkg/mempool/mempool.go.
use opencoin.Prelude.{
  ℕ, zero, suc, ◌+◌, ◌-◌, ◌%◌, ◌≤◌, ◌≡◌, refl, ◌⊎◌, inl, inr, ite, List, [], ◌∷◌, All, Bytes, ltb,
  ◌==◌, Option, none, some, Result, ok, get_elem?, u64_mod, arith, subst, Bytes_discrete,
  Bool-cases, Option-cases,
}
use opencoin.Prelude.Map.{Bytes_key, lookup}
use mathlib.Core.List.{Permᴰ}
use opencoin.Types.{Address, Hash, Transaction, Account}
use opencoin.Wire.{Wire}
use opencoin.Encoding.{hash_transaction, marshal_transaction, transaction_bytes}
use opencoin.Mempool.{Pool, queue_of}
use opencoin.Mempool.Select.{TxItem, HeapPackage, tx_heap, SenderState, Senders, offer, offer_next}
use opencoin.Mempool.Heap.{HeapLaws}

-- The next nonce and the credit of an account.
pub record Budget : Type 0 where
  pub nonce : ℕ
  pub rc : ℕ

-- The budgets after a sender's transaction of a cost.
abbrev pub spend : Address → ℕ → (Address → Budget) → Address → Budget
spend sender cost budgets addr =
    ite (Bytes_discrete sender addr)
      (record { nonce = ((budgets sender).nonce + 1) % u64_mod; rc = (budgets sender).rc - cost })
      (budgets addr)

-- A transaction of a queue of the pool.
abbrev pub Queued : Pool → Address → Transaction → Type 0
Queued pool addr txn = (i : ℕ) × (get_elem? (queue_of addr pool) i ≡ some txn)

-- Each transaction is pending under its sender and has the next nonce of its sender, whose credit
-- covers its cost and those of the sender's transactions before it.
abbrev pub Executable :
    Pool → (Transaction → Result ℕ) → (Address → Budget) → List Transaction → Type 0
Executable pool coster budgets [] = Unit {0}
Executable pool coster budgets (txn ∷ txns) =
    (cost : ℕ) × Queued pool txn.from txn
    × (txn.nonce ≡ (budgets txn.from).nonce)
    × (coster txn ≡ ok cost)
    × (cost ≤ (budgets txn.from).rc)
    × Executable pool coster (spend txn.from cost budgets) txns

-- What the account view says of an address.
abbrev pub budget : (Address → Result (Option Account)) → Address → Budget
budget view addr = elim (view addr) [
  | ok found ↦ elim found [
    | some acct ↦ record { nonce = acct.nonce; rc = acct.rc }
    | none ↦ record { nonce = 0; rc = 0 }
  ]
  | _ ↦ record { nonce = 0; rc = 0 }
]

-- What the selection runs on: the transactions that are pending have costs and own senders.
pub record Setup : Type 0 where
  pub sha256 : Bytes → Hash
  pub heap : HeapPackage
  pub laws : HeapLaws heap
  pub coster : Transaction → Result ℕ
  pub pool : Pool
  pub priced :
      (addr : Address) (i : ℕ) (txn : Transaction)
      → get_elem? (queue_of addr pool) i ≡ some txn
      → (cost : ℕ) × (coster txn ≡ ok cost)
  pub own : (addr : Address) → All (λ t. t.from ≡ addr) (queue_of addr pool)

pub All-get_elem? :
    (P : Transaction → Type 0) (l : List Transaction) (i : ℕ) (t : Transaction)
    → All P l
    → get_elem? l i ≡ some t
    → P t
All-get_elem? P [] i t a e = cc
All-get_elem? P (x ∷ l) zero t a e = let same : x ≡ t = cc in subst P same a.0
All-get_elem? P (x ∷ l) (suc i) t a e = All-get_elem? P l i t a.1 e

module _ ⦃w : Wire⦄ (u : Setup) where
  open u use {sha256, heap, laws, coster, pool, priced, own}

  abbrev pub Tracks : (Address → Budget) → Senders → Type 0
  Tracks budgets senders =
      (addr : Address) (st : SenderState)
      → lookup addr senders ≡ some st
      → (st.acct.nonce ≡ (budgets addr).nonce)
        × (st.acct.rc ≡ (budgets addr).rc)
        × (st.queue ≡ queue_of addr pool)

  pub record IsReady (senders : Senders) (item : TxItem) : Type 0 where
    pub state : SenderState
    pub found : lookup item.sender senders ≡ some state
    pub queued : Queued pool item.sender item.tx
    pub nonce : item.tx.nonce ≡ state.acct.nonce
    pub price : coster item.tx ≡ ok item.cost
    pub paid : item.cost ≤ state.acct.rc

  -- The heap after a sender's next transaction was offered: as before, or with a ready item more.
  unfoldable pub Offered : Senders → Address → List TxItem → Result (List TxItem) → Type 0
  Offered senders sender h offered =
      (h' : List TxItem) × (offered ≡ ok h')
      × ((h' ≡ h)
          ⊎ ((item : TxItem) × (item.sender ≡ sender) × IsReady senders item × Permᴰ h' (item ∷ h)))

  offer_lem :
      (senders : Senders) (sender : Address) (st : SenderState) (txn : Transaction)
      (h : List TxItem)
      → lookup sender senders ≡ some st
      → Queued pool sender txn
      → Offered senders sender h (offer sha256 heap coster sender st.acct txn h)
  unfolding Offered offer hash_transaction marshal_transaction
  offer_lem senders sender st txn h found (i, at) = elim (Bool-cases (txn.nonce == st.acct.nonce)) [
    | inr other ↦ (h, rw other refl, inl refl)
    | inl next ↦
        let (cost, price) = priced sender i txn at in
        elim (Bool-cases (ltb st.acct.rc cost)) [
          | inl dear ↦ (h, rw (next, price, dear) refl, inl refl)
          | inr cheap ↦
              let item : TxItem = record {
                tx = txn;
                cost = cost;
                hash = sha256 (transaction_bytes txn);
                sender = sender;
              } in
              (
                heap.push tx_heap h item,
                rw (next, price, cheap) refl,
                inr (
                  item,
                  refl,
                  record {
                    state = st;
                    found = found;
                    queued = (i, at);
                    nonce = ground arith;
                    price = price;
                    paid = ground arith;
                  },
                  laws.push_perm h item,
                ),
              )
        ]
  ]

  pub offer_next_lem :
      (senders : Senders) (sender : Address) (st : SenderState) (h : List TxItem)
      → lookup sender senders ≡ some st
      → st.queue ≡ queue_of sender pool
      → Offered senders sender h (offer_next sha256 heap coster sender st h)
  unfolding Offered offer_next
  offer_next_lem senders sender st h found queue =
      elim (Option-cases (get_elem? st.queue st.cursor)) [
        | inl beyond ↦ (h, rw (beyond, offer_next) refl, inl refl)
        | inr (txn, at) ↦
            rw (at, offer_next)
              (offer_lem senders sender st txn h found
                (st.cursor, subst (λ q. get_elem? q st.cursor ≡ some txn) queue at))
      ]
