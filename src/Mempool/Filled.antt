-- ===== src/Mempool/Filled.antt =====
-- The loop that fills a block: `SelectForBlock` of pkg/mempool/mempool.go from its heap on.
use opencoin.Prelude.{
  some-injective, ℕ, zero, suc, ◌+◌, ◌-◌, ◌%◌, ◌≤◌, ◌≡◌, refl, ◌≢◌, inl, inr, if_pos, if_neg, List,
  [], ◌∷◌, All, some, Result, ok, length, u64_mod, arith, sym, ap, ◌∙◌, subst, Bytes_discrete,
}
use opencoin.Prelude.Map.{Bytes_key, lookup, insert, lookup-insert_self, lookup-insert_ne}
use mathlib.Core.List.Permᴰ
use opencoin.Types.{Address, Transaction}
use opencoin.Wire.{Wire}
use opencoin.Mempool.{queue_of}
use opencoin.Mempool.Select.{TxItem, tx_heap, SenderState, Senders, advance, offer_next, fill}
use opencoin.Mempool.Heap.{Apart, Permᴰ-All, Permᴰ-Apart}
use opencoin.Mempool.Offered.{
  Budget, spend, Queued, Executable, Setup, Tracks, IsReady, Offered, offer_next_lem, All-get_elem?,
}

module _ ⦃w : Wire⦄ (u : Setup) where
  open u use {sha256, heap, laws, coster, pool, priced, own}

  -- What holds between the turns of the loops.
  pub record IsSteady (budgets : Address → Budget) (senders : Senders) (h : List TxItem)
      : Type 0 where
    pub tracks : Tracks u budgets senders
    pub ready : All (IsReady u senders) h
    pub apart : Apart h

  pub Offered-IsSteady :
      (budgets : Address → Budget) (senders : Senders) (sender : Address) (h : List TxItem)
      (offered : Result (List TxItem))
      → IsSteady budgets senders h
      → All (λ y. sender ≢ y.sender) h
      → Offered u senders sender h offered
      → (h' : List TxItem) × (offered ≡ ok h')
        × IsSteady budgets senders h'
        × ((k : Address) → sender ≢ k → All (λ y. k ≢ y.sender) h → All (λ y. k ≢ y.sender) h')
  unfolding Offered
  Offered-IsSteady budgets senders sender h offered s fresh (h', answered, inl same) = (
    h',
    answered,
    subst (IsSteady budgets senders) (sym same) s,
    λ k ne other. subst (All (λ y. k ≢ y.sender)) (sym same) other,
  )
  Offered-IsSteady budgets senders sender h offered s fresh
        (h', answered, inr (item, mine, ready, perm)) =
      let apart = subst (λ x. All (λ y. x ≢ y.sender) h) (sym mine) fresh in
      (
        h',
        answered,
        record {
          tracks = s.tracks;
          ready = Permᴰ-All (IsReady u senders) (Permᴰ.symm perm) (ready, s.ready);
          apart = Permᴰ-Apart (Permᴰ.symm perm) (apart, s.apart);
        },
        λ k ne other.
            Permᴰ-All (λ y. k ≢ y.sender) (Permᴰ.symm perm) ((λ e. ne (sym mine ∙ sym e)), other),
      )

  -- Where a sender's transaction was selected, the items of the others stay ready.
  IsReady-insert :
      (senders : Senders) (sender : Address) (st : SenderState) (h : List TxItem)
      → All (λ y. sender ≢ y.sender) h
      → All (IsReady u senders) h
      → All (IsReady u (insert sender st senders)) h
  IsReady-insert senders sender st [] fresh ready = tt
  IsReady-insert senders sender st (y ∷ h) fresh ready =
      let r = ready.0 in
      (
        record {
          state = r.state;
          found = lookup-insert_ne sender y.sender st senders fresh.0 ∙ r.found;
          queued = r.queued;
          nonce = r.nonce;
          price = r.price;
          paid = r.paid;
        },
        IsReady-insert senders sender st h fresh.1 ready.1,
      )

  advance-Tracks :
      (budgets : Address → Budget) (senders : Senders) (sender : Address) (st : SenderState)
      (cost : ℕ)
      → Tracks u budgets senders
      → lookup sender senders ≡ some st
      → Tracks u (spend sender cost budgets) (insert sender (advance cost st) senders)
  advance-Tracks budgets senders sender st cost t found addr st' found' =
      elim (Bytes_discrete sender addr) [
        | yes p ↦
            let known = t sender st found in
            let now =
              subst
                (λ x. lookup x (insert sender (advance cost st) senders) ≡ some (advance cost st)) p
                (lookup-insert_self sender (advance cost st) senders) in
            let same : advance cost st ≡ st' = some-injective (sym now ∙ found') in
            let less : Budget = record {
              nonce = ((budgets sender).nonce + 1) % u64_mod;
              rc = (budgets sender).rc - cost;
            } in
            let spent : spend sender cost budgets addr ≡ less =
              if_pos (Bytes_discrete sender addr) p less (budgets addr) in
            rw spent (
              subst
                (λ x.
                  (x.acct.nonce ≡ ((budgets sender).nonce + 1) % u64_mod)
                  × (x.acct.rc ≡ (budgets sender).rc - cost)
                  × (x.queue ≡ queue_of addr pool))
                same
                (
                  ground (arith, known),
                  ground (arith, known),
                  known.2 ∙ ap (λ x. queue_of x pool) p,
                ))
        | no ne ↦
            let less : Budget = record {
              nonce = ((budgets sender).nonce + 1) % u64_mod;
              rc = (budgets sender).rc - cost;
            } in
            let kept : spend sender cost budgets addr ≡ budgets addr =
              if_neg (Bytes_discrete sender addr) ne less (budgets addr) in
            rw kept (
              t addr st' (sym (lookup-insert_ne sender addr (advance cost st) senders ne) ∙ found'))
      ]

  fill_step :
      (room : ℕ) (senders : Senders) (top item : TxItem) (below h h' : List TxItem)
      (st : SenderState) (txns : List Transaction)
      → heap.pop tx_heap (top ∷ below) ≡ some (item, h)
      → lookup item.sender senders ≡ some st
      → offer_next sha256 heap coster item.sender (advance item.cost st) h ≡ ok h'
      → fill sha256 heap coster room (insert item.sender (advance item.cost st) senders) h'
        ≡ ok txns
      → fill sha256 heap coster (suc room) senders (top ∷ below) ≡ ok (item.tx ∷ txns)
  unfolding fill
  fill_step room senders top item below h h' st txns popped found pushed filled =
      ground (arith, popped, found, pushed, filled)

  pub fill_lem :
      (room : ℕ) (budgets : Address → Budget) (senders : Senders) (h : List TxItem)
      → IsSteady budgets senders h
      → (txns : List Transaction) × (fill sha256 heap coster room senders h ≡ ok txns)
        × (length txns ≤ room)
        × Executable pool coster budgets txns
  unfolding fill
  fill_lem zero budgets senders h s = ([], refl, omega arith, tt)
  fill_lem (suc room) budgets senders [] s = ([], refl, omega arith, tt)
  fill_lem (suc room) budgets senders (top ∷ below) s =
      let (item, h, popped, perm) = laws.pop_perm top below in
      let ready = Permᴰ-All (IsReady u senders) perm s.ready in
      let apart = Permᴰ-Apart perm s.apart in
      let r = ready.0 in
      let st = r.state in
      let sender = item.sender in
      let after = advance item.cost st in
      let from : item.tx.from ≡ sender =
        All-get_elem? (λ t. t.from ≡ sender) (queue_of sender pool) r.queued.0 item.tx (own sender)
          r.queued.1 in
      let steady : IsSteady (spend sender item.cost budgets) (insert sender after senders) h =
        record {
          tracks = advance-Tracks budgets senders sender st item.cost s.tracks r.found;
          ready = IsReady-insert senders sender after h apart.0 ready.1;
          apart = apart.1;
        } in
      let known = s.tracks sender st r.found in
      let offered =
        offer_next_lem u (insert sender after senders) sender after h
          (lookup-insert_self sender after senders) known.2 in
      let (h', pushed, steady', _) =
        Offered-IsSteady (spend sender item.cost budgets) (insert sender after senders) sender h
          (offer_next sha256 heap coster sender after h) steady apart.0 offered in
      let (txns, filled, few, rest) =
        fill_lem room (spend sender item.cost budgets) (insert sender after senders) h' steady' in
      (
        item.tx ∷ txns,
        fill_step room senders top item below h h' st txns popped r.found pushed filled,
        omega arith,
        subst
            (λ x.
              (cost : ℕ) × Queued pool x item.tx
              × (item.tx.nonce ≡ (budgets x).nonce)
              × (coster item.tx ≡ ok cost)
              × (cost ≤ (budgets x).rc)
              × Executable pool coster (spend x cost budgets) txns)
            (sym from)
            (item.cost, r.queued, r.nonce ∙ known.0, r.price, omega (arith, r.paid, known.1), rest),
      )
