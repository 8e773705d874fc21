-- ===== src/Dpos/Unique.antt =====
-- No address stands twice in the order of the validators.
use opencoin.Prelude.{
  some_ne_none, ◌≡◌, ◌≢◌, List, [], ◌∷◌, All, Bytes_discrete, none, Bool-cases, inl, inr, sym, ap,
  ◌∙◌,
}
use opencoin.Prelude.Map.{Map, DistinctKeys, Bytes_key, lookup, lookup-cons_self, lookup-cons_ne}
use opencoin.Types.{Address, Validator}
use opencoin.Dpos.{Dpos, ranks_before, insert_ranked, rank}

abbrev pub Absent : Address → List Validator → Type 0
Absent addr l = All (λ v. addr ≢ v.operator_address) l

abbrev pub Unique : List Validator → Type 0
Unique [] = Unit {0}
Unique (v ∷ l) = Absent v.operator_address l × Unique l

-- Every validator stands once, under its own address.
pub record IsKeyed (d : Dpos) : Type 0 where
  pub once : DistinctKeys d.validators
  pub own : All (λ entry. entry.1.operator_address ≡ entry.0) d.validators

insert_ranked-Absent :
    (addr : Address) (v : Validator) (l : List Validator)
    → addr ≢ v.operator_address
    → Absent addr l
    → Absent addr (insert_ranked v l)
unfolding insert_ranked
insert_ranked-Absent addr v [] ne a = (ne, tt)
insert_ranked-Absent addr v (u ∷ l) ne (other, a) = elim (Bool-cases (ranks_before u v)) [
  | inl first ↦ rw first (other, insert_ranked-Absent addr v l ne a)
  | inr later ↦ rw later (ne, (other, a))
]

insert_ranked-Unique :
    (v : Validator) (l : List Validator)
    → Absent v.operator_address l
    → Unique l
    → Unique (insert_ranked v l)
unfolding insert_ranked
insert_ranked-Unique v [] a n = (tt, tt)
insert_ranked-Unique v (u ∷ l) (other, a) (apart, n) = elim (Bool-cases (ranks_before u v)) [
  | inl first ↦ rw first (
    insert_ranked-Absent u.operator_address v l (λ e. other (sym e)) apart,
    insert_ranked-Unique v l a n,
  )
  | inr later ↦ rw later ((other, a), (apart, n))
]

rank-Absent :
    (addr : Address) (m : Map Address Validator)
    → lookup addr m ≡ none
    → All (λ entry. entry.1.operator_address ≡ entry.0) m
    → Absent addr (rank m)
unfolding rank
rank-Absent addr [] h own = tt
rank-Absent addr ((k, v) ∷ m) h (mine, own) = elim (Bytes_discrete k addr) [
  | yes same ↦ absurd (some_ne_none v (sym (lookup-cons_self k addr v m same) ∙ h))
  | no other ↦
      insert_ranked-Absent addr v (rank m) (λ e. other (sym (e ∙ mine)))
        (rank-Absent addr m (sym (lookup-cons_ne k addr v m other) ∙ h) own)
]

rank-Unique_of :
    (m : Map Address Validator)
    → DistinctKeys m
    → All (λ entry. entry.1.operator_address ≡ entry.0) m
    → Unique (rank m)
unfolding rank
rank-Unique_of [] d own = tt
rank-Unique_of ((k, v) ∷ m) (fresh, d) (mine, own) =
    insert_ranked-Unique v (rank m)
      (rank-Absent v.operator_address m (ap (λ a. lookup a m) mine ∙ fresh) own)
      (rank-Unique_of m d own)

pub rank-Unique : (d : Dpos) → IsKeyed d → Unique (rank d.validators)
rank-Unique d k = rank-Unique_of d.validators k.once k.own
