-- ===== src/Mempool/Selection.antt =====
-- The transactions that are selected for a block can be executed in their order.
use opencoin.Prelude.{
  some-injective, ℕ, ◌≤◌, ◌≡◌, refl, ◌≢◌, inl, inr, List, [], ◌∷◌, All, Bytes, ◌==◌, Option, none,
  some, Result, ok, length, get_elem?, arith, sym, ◌∙◌, subst, Bytes_discrete, Bool-cases,
}
use opencoin.Prelude.Int.{ℤ, pos, pos_part, ltb_ℤ}
use opencoin.Prelude.Map.{
  DistinctKeys, Bytes_key, lookup, insert, lookup-insert_self, lookup-insert_ne, entries-found,
  insert-DistinctKeys, absent-All,
}
use opencoin.Types.{Address, Hash, Transaction, Account}
use opencoin.Wire.{Wire}
use opencoin.Mempool.{Pool, queue_of}
use opencoin.Mempool.Select.{
  TxItem, HeapPackage, SenderState, Senders, gather, offer_next, seed, select_for_block,
}
use opencoin.Mempool.Heap.{HeapLaws}
use opencoin.Mempool.Offered.{Budget, budget, Executable, Setup, Tracks, offer_next_lem}
use opencoin.Mempool.Filled.{IsSteady, Offered-IsSteady, fill_lem}

-- The senders whose transactions are still to be offered.
abbrev Waiting : Senders → List TxItem → Type 0
Waiting rest h = All (λ e. All (λ y. e.0 ≢ y.sender) h) rest

module _ ⦃w : Wire⦄ (u : Setup) where
  open u use {sha256, heap, laws, coster, pool, priced, own}

  Waiting-pushed :
      (sender : Address) (rest : Senders) (h h' : List TxItem)
      → All (λ e. e.0 ≢ sender) rest
      → ((k : Address) → sender ≢ k → All (λ y. k ≢ y.sender) h → All (λ y. k ≢ y.sender) h')
      → Waiting rest h
      → Waiting rest h'
  Waiting-pushed sender [] h h' others keep waiting = tt
  Waiting-pushed sender ((k, st) ∷ rest) h h' others keep waiting = (
    keep k (λ e. others.0 (sym e)) waiting.0,
    Waiting-pushed sender rest h h' others.1 keep waiting.1,
  )

  seed_lem :
      (budgets : Address → Budget) (senders rest : Senders) (h : List TxItem)
      → DistinctKeys rest
      → All (λ e. lookup e.0 senders ≡ some e.1) rest
      → Waiting rest h
      → IsSteady u budgets senders h
      → (h' : List TxItem) × (seed sha256 heap coster rest h ≡ ok h')
        × IsSteady u budgets senders h'
  unfolding seed
  seed_lem budgets senders [] h distinct found waiting s = (h, refl, s)
  seed_lem budgets senders ((sender, st) ∷ rest) h distinct found waiting s =
      let offered = offer_next_lem u senders sender st h found.0 (s.tracks sender st found.0).2 in
      let (h', pushed, s', keep) =
        Offered-IsSteady u budgets senders sender h (offer_next sha256 heap coster sender st h) s
          waiting.0 offered in
      let waiting' =
        Waiting-pushed sender rest h h' (absent-All sender rest distinct.0) keep waiting.1 in
      let (h'', seeded, s'') = seed_lem budgets senders rest h' distinct.1 found.1 waiting' s' in
      (h'', rw pushed seeded, s'')

  module _ (view : Address → Result (Option Account))
      (views : (addr : Address) → (found : Option Account) × (view addr ≡ ok found)) where
    gathered-Tracks :
        (addr : Address) (queue : List Transaction) (senders : Senders) (acct : Account)
        → view addr ≡ ok (some acct)
        → lookup addr pool ≡ some queue
        → Tracks u (budget view) senders
        → Tracks u
            (budget view)
            (insert addr (record { acct = acct; cursor = 0; queue = queue }) senders)
    gathered-Tracks addr queue senders acct viewed pooled t other st found =
        elim (Bytes_discrete addr other) [
          | yes p ↦
              let fresh : SenderState = record { acct = acct; cursor = 0; queue = queue } in
              let now =
                subst (λ x. lookup x (insert addr fresh senders) ≡ some fresh) p
                  (lookup-insert_self addr fresh senders) in
              let same : fresh ≡ st = some-injective (sym now ∙ found) in
              let known : budget view other ≡ record { nonce = acct.nonce; rc = acct.rc } =
                subst (λ x. budget view x ≡ record { nonce = acct.nonce; rc = acct.rc }) p
                  (rw (viewed, budget) refl) in
              let queued : queue ≡ queue_of other pool =
                subst (λ x. queue ≡ queue_of x pool) p (rw (pooled, queue_of) refl) in
              rw known (
                subst
                  (λ x.
                    (x.acct.nonce ≡ acct.nonce)
                    × (x.acct.rc ≡ acct.rc)
                    × (x.queue ≡ queue_of other pool))
                  same (refl, refl, queued))
          | no ne ↦ t other st (sym (lookup-insert_ne addr other _ senders ne) ∙ found)
        ]

    Gathered : Pool → Senders → Type 0
    Gathered rest senders =
        (senders' : Senders) × (gather view rest senders ≡ ok senders')
        × DistinctKeys senders'
        × Tracks u (budget view) senders'

    gather_step :
        (addr : Address) (queue : List Transaction) (rest : Pool) (senders : Senders)
        (found : Option Account)
        → view addr ≡ ok found
        → lookup addr pool ≡ some queue
        → DistinctKeys senders
        → Tracks u (budget view) senders
        → ((s : Senders) → DistinctKeys s → Tracks u (budget view) s → Gathered rest s)
        → Gathered ((addr, queue) ∷ rest) senders
    unfolding Gathered gather
    gather_step addr queue rest senders none viewed pooled distinct t again =
        let (senders', gathered, d, t') = again senders distinct t in
        (senders', rw viewed gathered, d, t')
    gather_step addr queue rest senders (some acct) viewed pooled distinct t again =
        elim (Bool-cases (length queue == 0)) [
          | inl idle ↦
              let (senders', gathered, d, t') = again senders distinct t in
              (senders', rw (viewed, idle) gathered, d, t')
          | inr busy ↦
              let fresh : SenderState = record { acct = acct; cursor = 0; queue = queue } in
              let (senders', gathered, d, t') =
                again (insert addr fresh senders) (insert-DistinctKeys addr fresh senders distinct)
                  (gathered-Tracks addr queue senders acct viewed pooled t) in
              (senders', rw (viewed, busy) gathered, d, t')
        ]

    gather_lem :
        (rest : Pool) (senders : Senders)
        → All (λ e. lookup e.0 pool ≡ some e.1) rest
        → DistinctKeys senders
        → Tracks u (budget view) senders
        → Gathered rest senders
    unfolding Gathered gather
    gather_lem [] senders pooled distinct t = (senders, refl, distinct, t)
    gather_lem ((addr, queue) ∷ rest) senders pooled distinct t =
        let (found, viewed) = views addr in
        gather_step addr queue rest senders found viewed pooled.0 distinct t
          (λ s d t'. gather_lem rest s pooled.1 d t')

-- `SelectForBlock` answers, and what it answers fits into the block and can be executed in its
-- order: each transaction is pending under its sender and has the next nonce of its sender, whose
-- stored credit covers its cost and the costs of the sender's transactions before it. This is for
-- an account view that answers, pending transactions that have a cost and stand under their own
-- sender, and a heap that rearranges what it holds.
pub select_for_block-Executable :
    ⦃w : Wire⦄ (sha256 : Bytes → Hash) (heap : HeapPackage) (coster : Transaction → Result ℕ)
    (view : Address → Result (Option Account)) (pool : Pool) (max : ℤ)
    → HeapLaws heap
    → ((addr : Address) → (found : Option Account) × (view addr ≡ ok found))
    → ((addr : Address) (i : ℕ) (txn : Transaction)
        → get_elem? (queue_of addr pool) i ≡ some txn
        → (cost : ℕ) × (coster txn ≡ ok cost))
    → ((addr : Address) → All (λ t. t.from ≡ addr) (queue_of addr pool))
    → DistinctKeys pool
    → (txns : List Transaction) × (select_for_block sha256 heap coster view max pool ≡ ok txns)
      × (length txns ≤ pos_part max)
      × Executable pool coster (budget view) txns
unfolding select_for_block Gathered lookup
select_for_block-Executable sha256 heap coster view pool max laws views priced own distinct =
    elim (Bool-cases (ltb_ℤ (pos 0) max)) [
      | inr nothing ↦ ([], rw nothing refl, omega arith, tt)
      | inl some_room ↦
          let u : Setup = record {
            sha256 = sha256;
            heap = heap;
            laws = laws;
            coster = coster;
            pool = pool;
            priced = priced;
            own = own;
          } in
          let (senders, gathered, d, t) =
            gather_lem u view views pool [] (entries-found pool distinct) tt
              (λ addr st found. absurd (cc)) in
          let start : IsSteady u (budget view) senders [] = record {
            tracks = t;
            ready = tt;
            apart = tt;
          } in
          let (h, seeded, s) =
            seed_lem u (budget view) senders senders [] d (entries-found senders d) (nobody senders)
              start in
          let (txns, filled, few, run) = fill_lem u (pos_part max) (budget view) senders h s in
          (txns, rw (some_room, gathered, laws.init_empty, seeded, filled) refl, few, run)
    ]
  where
    nobody : (rest : Senders) → Waiting rest []
    nobody [] = tt
    nobody (e ∷ rest) = (tt, nobody rest)
