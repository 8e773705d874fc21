-- ===== src/Dag/Pruning.antt =====
-- What `PruneNonFinal` keeps.
use opencoin.Prelude.{
  ℕ, zero, suc, ◌+◌, ◌≤◌, ◌≡◌, refl, ◌⊎◌, inl, inr, List, [], ◌∷◌, ◌++◌, length, length-append,
  Bool, true, false, ◌||◌, if◌then◌else◌, none, is_some, not, ok, arith, Bool-cases, Bytes_discrete,
  sym, ap, ◌∙◌, subst,
}
use opencoin.Prelude.Map.{Map, Bytes_key, lookup, lookup-cons_self, lookup-cons_ne}
use opencoin.Types.{Hash}
use opencoin.Dag.Seen.{
  Children, contains-cons, contains-head, contains-tail, contains-append, contains-append_left,
  contains-append_right, unseen, unseen-le, unseen_drops,
}
use opencoin.Dag.{
  recompute_tips, Dag, children_of, contains, walk, count_children, keep_seen, prune_non_final,
}

-- What is reached from a node along the recorded children.
pub data Reach (m : Map Hash (List Hash)) (root : Hash) : Hash → Type 0 where
  here : Reach m root root
  next : {p c : Hash} → Reach m root p → contains c (children_of p m) ≡ true → Reach m root c

module _ (m : Children) (root : Hash) where
  -- What holds between two turns of the walk: what is seen or still to be looked at is reached, and
  -- a child of a seen node is one of these.
  record IsWalked (work seen : List Hash) : Type 0 where
    reached : (h : Hash) → contains h seen ≡ true → Reach m root h
    ahead : (h : Hash) → contains h work ≡ true → Reach m root h
    closed :
        (p c : Hash)
        → contains p seen ≡ true
        → contains c (children_of p m) ≡ true
        → (contains c seen ≡ true) ⊎ (contains c work ≡ true)
    rooted : contains root seen ≡ true

  -- A child that was seen is passed over.
  skipped-IsWalked :
      (c : Hash) (work seen : List Hash)
      → contains c seen ≡ true
      → IsWalked (c ∷ work) seen
      → IsWalked work seen
  skipped-IsWalked c work seen old w = record {
    reached = w.reached;
    ahead = λ h e. w.ahead h (contains-tail h c work e);
    closed = λ p x q e. elim (w.closed p x q e) [
      | inl s ↦ inl s
      | inr s ↦ elim (contains-cons x c work s) [
        | inl same ↦ inl (subst (λ z. contains z seen ≡ true) same old)
        | inr later ↦ inr later
      ]
    ];
    rooted = w.rooted;
  }

  -- A child that is marked has its own children looked at.
  marked-IsWalked :
      (c : Hash) (work seen : List Hash)
      → IsWalked (c ∷ work) seen
      → IsWalked (children_of c m ++ work) (c ∷ seen)
  marked-IsWalked c work seen w =
      let mine = w.ahead c (contains-head c work) in
      record {
        reached = λ h e. elim (contains-cons h c seen e) [
          | inl same ↦ subst (Reach m root) same mine
          | inr s ↦ w.reached h s
        ];
        ahead = λ h e. elim (contains-append h (children_of c m) work e) [
          | inl child ↦ next mine child
          | inr later ↦ w.ahead h (contains-tail h c work later)
        ];
        closed = λ p x q e. elim (contains-cons p c seen q) [
          | inl same ↦ inr (
              contains-append_left x (children_of c m) work
                (subst (λ z. contains x (children_of z m) ≡ true) (sym same) e))
          | inr s ↦ elim (w.closed p x s e) [
            | inl r ↦ inl (contains-tail x c seen r)
            | inr r ↦ elim (contains-cons x c work r) [
              | inl same ↦
                  inl (subst (λ z. contains z (c ∷ seen) ≡ true) same (contains-head c seen))
              | inr later ↦ inr (contains-append_right x (children_of c m) work later)
            ]
          ]
        ];
        rooted = contains-tail root c seen w.rooted;
      }

  walk_turn :
      (fuel : ℕ) (c : Hash) (work seen : List Hash) (b : Bool)
      → contains c seen ≡ b
      → walk (suc fuel) m (c ∷ work) seen
        ≡ walk fuel m (if b then work else children_of c m ++ work) (if b then seen else c ∷ seen)
  unfolding walk
  walk_turn fuel c work seen b e =
      ap
        (λ b.
          walk fuel m (if b then work else children_of c m ++ work) (if b then seen else c ∷ seen))
        e

  walk-IsWalked :
      (fuel : ℕ) (work seen : List Hash)
      → length work + unseen seen m ≤ fuel
      → IsWalked work seen
      → (seen' : List Hash) × (walk fuel m work seen ≡ ok seen') × IsWalked [] seen'
  unfolding walk
  walk-IsWalked fuel [] seen enough w = (seen, refl, w)
  walk-IsWalked zero (c ∷ work) seen enough w = absurd (omega arith)
  walk-IsWalked (suc fuel) (c ∷ work) seen enough w = elim (Bool-cases (contains c seen)) [
    | inl old ↦
        let (seen', walked, w') =
          walk-IsWalked fuel work seen (omega arith) (skipped-IsWalked c work seen old w) in
        (seen', walk_turn fuel c work seen true old ∙ walked, w')
    | inr new ↦
        let (seen', walked, w') =
          walk-IsWalked fuel (children_of c m ++ work) (c ∷ seen)
            (omega (arith, length-append (children_of c m) work, unseen_drops c seen m new))
            (marked-IsWalked c work seen w) in
        (seen', walk_turn fuel c work seen false new ∙ walked, w')
  ]

  -- At the end of the walk what is seen is what is reached.
  Reach-seen :
      {seen : List Hash} {h : Hash} → IsWalked [] seen → Reach m root h → contains h seen ≡ true
  unfolding contains
  Reach-seen w here = w.rooted
  Reach-seen {seen} w (next {p} {c} r child) = elim (w.closed p c (Reach-seen w r) child) [
    | inl s ↦ s
    | inr s ↦ cc
  ]

lookup-keep_seen :
    {V : Type 0} (kept : Hash → Bool) (h : Hash) (m : Map Hash V)
    → lookup h (keep_seen kept m) ≡ (if kept h then lookup h m else none)
unfolding keep_seen lookup
lookup-keep_seen kept h [] = elim (Bool-cases (kept h)) [ inl p ↦ rw p refl | inr p ↦ rw p refl ]
lookup-keep_seen kept h ((j, v) ∷ m) = elim (Bytes_discrete j h) [
  | yes p ↦ elim (Bool-cases (kept j)) [
    | inl k ↦
        let here : kept h ≡ true = subst (λ z. kept z ≡ true) p k in
        rw (k, here, lookup-cons_self j h v m p, lookup-cons_self j h v (keep_seen kept m) p) refl
    | inr k ↦
        let here : kept h ≡ false = subst (λ z. kept z ≡ false) p k in
        rw (k, here) (lookup-keep_seen kept h m ∙ ap (λ b. if b then lookup h m else none) here)
  ]
  | no ne ↦ elim (Bool-cases (kept j)) [
    | inl k ↦
        rw (k, lookup-cons_ne j h v m ne, lookup-cons_ne j h v (keep_seen kept m) ne)
          (lookup-keep_seen kept h m)
    | inr k ↦ rw (k, lookup-cons_ne j h v m ne) (lookup-keep_seen kept h m)
  ]
]

abbrev pub Kept : Hash → Dag → Dag → Hash → Type 0
Kept final_root d d' h =
    (Reach d.children final_root h
      × (lookup h d'.nodes ≡ lookup h d.nodes)
      × (lookup h d'.children ≡ lookup h d.children))
    ⊎ ((¬ (Reach d.children final_root h)) × (lookup h d'.nodes ≡ none))

-- Pruning ends, and it keeps what is reached from the final root along the recorded children, with
-- the children recorded of it; of everything else no node is left.
pub prune_non_final-Reach :
    (final_root : Hash) (d : Dag)
    → (d' : Dag) × (prune_non_final final_root d ≡ ok d') × ((h : Hash) → Kept final_root d d' h)
unfolding prune_non_final contains
prune_non_final-Reach final_root d =
    let m = d.children in
    let start : IsWalked m final_root (children_of final_root m) (final_root ∷ []) = record {
      reached = λ h e. elim (contains-cons h final_root [] e) [
        | inl same ↦ subst (Reach m final_root) same here
        | inr s ↦ cc
      ];
      ahead = λ h e. next here e;
      closed = λ p c q e. elim (contains-cons p final_root [] q) [
        | inl same ↦ inr (subst (λ z. contains c (children_of z m) ≡ true) (sym same) e)
        | inr s ↦ cc
      ];
      rooted = contains-head final_root [];
    } in
    let enough : length (children_of final_root m) + unseen (final_root ∷ []) m ≤ count_children m =
      omega (arith, unseen_drops final_root [] m refl, unseen-le [] m) in
    let (seen, walked, w) =
      walk-IsWalked m final_root (count_children m) (children_of final_root m) (final_root ∷ [])
        enough start in
    let kept : Hash → Bool = λ h. contains h seen in
    let kept' : Hash → Bool = λ h. contains h seen || not (is_some (lookup h d.nodes)) in
    (
      record {
        nodes = keep_seen kept d.nodes;
        children = keep_seen kept' m;
        tips = recompute_tips (keep_seen kept' m) (keep_seen kept d.nodes);
      },
      rw walked refl,
      λ h. elim (Bool-cases (contains h seen)) [
        | inl s ↦ inl (
          w.reached h s,
          lookup-keep_seen kept h d.nodes ∙ ap (λ b. if b then lookup h d.nodes else none) s,
          lookup-keep_seen kept' h m
              ∙ ap (λ b. if b || not (is_some (lookup h d.nodes)) then lookup h m else none) s,
        )
        | inr s ↦ inr (
          (λ r. let yes_seen = Reach-seen m final_root w r in cc),
          lookup-keep_seen kept h d.nodes ∙ ap (λ b. if b then lookup h d.nodes else none) s,
        )
      ],
    )
