-- ===== src/Mempool/Heap.antt =====
-- What container/heap promises of the heap of transactions, and what rearranging it keeps.
use opencoin.Prelude.{◌≡◌, ◌≢◌, List, [], ◌∷◌, All, some, sym, ap, ◌∙◌, subst}
use mathlib.Core.List.{Permᴰ}
use opencoin.Mempool.Select.{TxItem, HeapPackage, tx_heap}

-- A push adds the item, and a pop of a heap that is not empty takes one away; the rest is
-- rearranged.
pub record HeapLaws (heap : HeapPackage) : Type 0 where
  pub init_empty : heap.init tx_heap [] ≡ []
  pub push_perm : (h : List TxItem) (x : TxItem) → Permᴰ (heap.push tx_heap h x) (x ∷ h)
  pub pop_perm :
      (top : TxItem) (below : List TxItem)
      → (x : TxItem) × (h : List TxItem) × (heap.pop tx_heap (top ∷ below) ≡ some (x, h))
        × Permᴰ (top ∷ below) (x ∷ h)

-- No two items of one sender.
abbrev pub Apart : List TxItem → Type 0
Apart [] = Unit {0}
Apart (x ∷ h) = All (λ y. x.sender ≢ y.sender) h × Apart h

pub Permᴰ-All : (P : TxItem → Type 0) {g h : List TxItem} → Permᴰ g h → All P g → All P h
Permᴰ-All P Permᴰ.nil a = a
Permᴰ-All P (Permᴰ.cons e p) a = (subst P e a.0, Permᴰ-All P p a.1)
Permᴰ-All P (Permᴰ.swap e f) a = (subst P f a.1.0, (subst P e a.0, a.1.1))
Permᴰ-All P (Permᴰ.trans p q) a = Permᴰ-All P q (Permᴰ-All P p a)

abbrev ApartFrom : TxItem → List TxItem → Type 0
ApartFrom x h = All (λ y. x.sender ≢ y.sender) h

pub Permᴰ-Apart : {g h : List TxItem} → Permᴰ g h → Apart g → Apart h
Permᴰ-Apart Permᴰ.nil a = a
Permᴰ-Apart (Permᴰ.cons {l₂ = l} e p) a =
    (subst (λ x. ApartFrom x l) e (Permᴰ-All _ p a.0), Permᴰ-Apart p a.1)
Permᴰ-Apart (Permᴰ.swap {l = l} e f) a = (
  (
    (λ s. a.0.0 (ap (λ x. x.sender) e ∙ sym s ∙ sym (ap (λ x. x.sender) f))),
    subst (λ x. ApartFrom x l) f a.1.0,
  ),
  (subst (λ x. ApartFrom x l) e a.0.1, a.1.1),
)
Permᴰ-Apart (Permᴰ.trans p q) a = Permᴰ-Apart q (Permᴰ-Apart p a)
