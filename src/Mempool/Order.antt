-- ===== src/Mempool/Order.antt =====
-- The order of the queues.
use opencoin.Prelude.{
  ℕ, ◌<◌, ◌≡◌, refl, ◌⊎◌, inl, inr, List, [], ◌∷◌, All, Bool, true, false, ltb, ◌==◌,
  Bytes_discrete, Option, some, Result, ok, arith, >>=-eq-ok, sym, ap, ◌∙◌, subst,
}
use opencoin.Prelude.Map.{Bytes_key, insert, lookup-insert}
use opencoin.Types.{Address, Transaction, Account}
use opencoin.Wire.{Wire}
use opencoin.Crypto.{Crypto}
use opencoin.Mempool.{Pool, queue_of, place, enqueue, admit, add_tx}

-- Strictly ascending nonces.
abbrev pub Ascending : List Transaction → Type 0
Ascending [] = Unit {0}
Ascending (t ∷ ts) = All (λ u. t.nonce < u.nonce) ts × Ascending ts

place-eq_ok :
    (same below : Bool) (txn existing : Transaction) (queue : List Transaction)
    (rest : Result (List Transaction)) (q : List Transaction)
    → place same below txn existing queue rest ≡ ok q
    → ((below ≡ true) × (q ≡ txn ∷ existing ∷ queue))
      ⊎ ((same ≡ false)
          × (below ≡ false)
          × (behind : List Transaction) × (rest ≡ ok behind)
          × (q ≡ existing ∷ behind))
place-eq_ok true below txn existing queue rest q h = cc
place-eq_ok false true txn existing queue rest q h = inl (refl, cc)
place-eq_ok false false txn existing queue rest q h =
    let (behind, found, h1) = >>=-eq-ok rest _ h in inr (refl, refl, behind, found, cc)

enqueue-All :
    (P : Transaction → Type 0) (txn : Transaction) (queue q : List Transaction)
    → enqueue txn queue ≡ ok q
    → P txn
    → All P queue
    → All P q
unfolding enqueue
enqueue-All P txn [] q h p ps = let same : txn ∷ [] ≡ q = cc in subst (All P) same (p, tt)
enqueue-All P txn (e ∷ queue) q h p ps =
    elim (place-eq_ok (txn.nonce == e.nonce) (ltb txn.nonce e.nonce) txn e queue (enqueue txn queue)
      q h) [
        | inl (_, same) ↦ subst (All P) (sym same) (p, ps)
        | inr (_, _, behind, found, same) ↦
            subst (All P) (sym same) (ps.0, enqueue-All P txn queue behind found p ps.1)
      ]

later_nonces :
    (n m : ℕ) (ts : List Transaction)
    → n < m
    → All (λ u. m < u.nonce) ts
    → All (λ u. n < u.nonce) ts
later_nonces n m [] h a = tt
later_nonces n m (t ∷ ts) h a = (omega (arith, a.0), later_nonces n m ts h a.1)

enqueue-Ascending :
    (txn : Transaction) (queue q : List Transaction)
    → enqueue txn queue ≡ ok q
    → Ascending queue
    → Ascending q
unfolding enqueue
enqueue-Ascending txn [] q h a = let same : txn ∷ [] ≡ q = cc in subst Ascending same (tt, tt)
enqueue-Ascending txn (e ∷ queue) q h a =
    elim (place-eq_ok (txn.nonce == e.nonce) (ltb txn.nonce e.nonce) txn e queue (enqueue txn queue)
      q h) [
        | inl (below, same) ↦
            let less : txn.nonce < e.nonce = ground arith in
            subst Ascending (sym same) ((less, later_nonces txn.nonce e.nonce queue less a.0), a)
        | inr (differ, not_below, behind, found, same) ↦
            let greater : e.nonce < txn.nonce = ground arith in
            subst Ascending (sym same) (
              enqueue-All (λ u. e.nonce < u.nonce) txn queue behind found greater a.0,
              enqueue-Ascending txn queue behind found a.1,
            )
      ]

-- Every queue holds transactions of its own sender, in strictly ascending nonces.
pub record IsOrdered (pool : Pool) : Type 0 where
  pub ascending : (addr : Address) → Ascending (queue_of addr pool)
  pub own : (addr : Address) → All (λ t. t.from ≡ addr) (queue_of addr pool)

queue_of-insert_self :
    (k : Address) (queue : List Transaction) (pool : Pool)
    → queue_of k (insert k queue pool) ≡ queue
queue_of-insert_self k queue pool = ground (arith, lookup-insert k k queue pool)

queue_of-insert_ne :
    (k addr : Address) (queue : List Transaction) (pool : Pool)
    → ¬ (k ≡ addr)
    → queue_of addr (insert k queue pool) ≡ queue_of addr pool
queue_of-insert_ne k addr queue pool ne = ground (arith, lookup-insert k addr queue pool)

pub inserted-IsOrdered :
    (k : Address) (queue : List Transaction) (pool : Pool)
    → Ascending queue
    → All (λ t. t.from ≡ k) queue
    → IsOrdered pool
    → IsOrdered (insert k queue pool)
inserted-IsOrdered k queue pool a o i = record {
  ascending = λ addr. elim (Bytes_discrete k addr) [
    | yes p ↦
        subst Ascending
          (sym (
            ap (λ x. queue_of x (insert k queue pool)) (sym p) ∙ queue_of-insert_self k queue pool))
          a
    | no ne ↦ subst Ascending (sym (queue_of-insert_ne k addr queue pool ne)) (i.ascending addr)
  ];
  own = λ addr. elim (Bytes_discrete k addr) [
    | yes p ↦
        subst (λ x. All (λ t. t.from ≡ x) (queue_of x (insert k queue pool))) p
          (subst (All (λ t. t.from ≡ k)) (sym (queue_of-insert_self k queue pool)) o)
    | no ne ↦
        subst (All (λ t. t.from ≡ addr)) (sym (queue_of-insert_ne k addr queue pool ne))
          (i.own addr)
  ];
}

-- Adding a transaction keeps every queue sorted by strictly ascending nonces and free of other
-- senders' transactions, whatever the accounts and the costs are.
pub add_tx-IsOrdered :
    ⦃w : Wire⦄ (c : Crypto) (view : Address → Result (Option Account))
    (coster : Transaction → Result ℕ) (txn : Transaction) (pool pool' : Pool)
    → add_tx c view coster (some txn) pool ≡ ok pool'
    → IsOrdered pool
    → IsOrdered pool'
unfolding add_tx
add_tx-IsOrdered c view coster txn pool pool' h i =
    let (_, _, h1) = >>=-eq-ok (admit c view coster txn) _ h in
    let before = queue_of txn.from pool in
    let (queue, entered, h2) = >>=-eq-ok (enqueue txn before) _ h1 in
    let same : insert txn.from queue pool ≡ pool' = cc in
    subst IsOrdered same (
      inserted-IsOrdered txn.from queue pool
        (enqueue-Ascending txn before queue entered (i.ascending txn.from))
        (enqueue-All (λ t. t.from ≡ txn.from) txn before queue entered refl (i.own txn.from)) i)
