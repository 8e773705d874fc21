-- ===== src/Rc/Median.antt =====
-- The median and the effective time: few wrong timestamps cannot move them.
use opencoin.Prelude.{
  ℕ, zero, suc, ◌+◌, ◌-◌, ◌*◌, ◌/◌, ◌≤◌, ◌<◌, ◌≡◌, refl, ◌≢◌, Bool, true, List, [], ◌∷◌, arith,
  length, get_or, if◌then◌else◌,
}
use opencoin.Prelude.Int.{
  ℤ, pos, ltb_ℤ, ◌≤ℤ◌, ◌+ℤ◌, ◌-ℤ◌, IsI64, +ℤ_parts, -ℤ_parts, add_i64-eq, sub_i64-eq,
}
use opencoin.Rc.{insert_sorted, sort, median, effective_time}

-- How many members of a list pass a test.
abbrev pub count_if : (ℤ → Bool) → List ℤ → ℕ
count_if f [] = 0
count_if f (t ∷ ts) = (if f t then 1 else 0) + count_if f ts

-- Ascending.
abbrev pub IsSorted : List ℤ → Type 0
IsSorted [] = Unit {0}
IsSorted (t ∷ []) = Unit {0}
IsSorted (t ∷ u ∷ us) = (t ≤ℤ u) × IsSorted (u ∷ us)

insert_sorted-IsSorted : (t : ℤ) (us : List ℤ) → IsSorted us → IsSorted (insert_sorted t us)
unfolding insert_sorted
insert_sorted-IsSorted t [] h = tt
insert_sorted-IsSorted t (u ∷ []) h = ground arith
insert_sorted-IsSorted t (u ∷ v ∷ us) h = ground (arith, insert_sorted-IsSorted t (v ∷ us) h.1)

pub sort-IsSorted : (ts : List ℤ) → IsSorted (sort ts)
unfolding sort
sort-IsSorted [] = tt
sort-IsSorted (t ∷ ts) = insert_sorted-IsSorted t (sort ts) (sort-IsSorted ts)

count_if-insert_sorted :
    (f : ℤ → Bool) (t : ℤ) (us : List ℤ)
    → count_if f (insert_sorted t us) ≡ (if f t then 1 else 0) + count_if f us
unfolding insert_sorted
count_if-insert_sorted f t [] = refl
count_if-insert_sorted f t (u ∷ us) = ground (arith, count_if-insert_sorted f t us)

pub count_if-sort : (f : ℤ → Bool) (ts : List ℤ) → count_if f (sort ts) ≡ count_if f ts
unfolding sort
count_if-sort f [] = refl
count_if-sort f (t ∷ ts) = omega (arith, count_if-insert_sorted f t (sort ts), count_if-sort f ts)

length-insert_sorted : (t : ℤ) (us : List ℤ) → length (insert_sorted t us) ≡ suc (length us)
unfolding insert_sorted
length-insert_sorted t [] = refl
length-insert_sorted t (u ∷ us) = ground (arith, length-insert_sorted t us)

length-sort : (ts : List ℤ) → length (sort ts) ≡ length ts
unfolding sort
length-sort [] = refl
length-sort (t ∷ ts) = omega (arith, length-insert_sorted t (sort ts), length-sort ts)

abbrev pub is_below : ℤ → ℤ → Bool
is_below lo t = ltb_ℤ t lo

abbrev pub is_above : ℤ → ℤ → Bool
is_above hi t = ltb_ℤ hi t

-- In a sorted list whatever stands behind a member above `hi` is above `hi` too.
above_tail :
    (hi t : ℤ) (ts : List ℤ)
    → IsSorted (t ∷ ts)
    → is_above hi t ≡ true
    → count_if (is_above hi) (t ∷ ts) ≡ length (t ∷ ts)
above_tail hi t [] s h = ground arith
above_tail hi t (u ∷ us) s h = ground (arith, above_tail hi u us s.1)

-- Member `m` of a sorted list is above `hi` only if all but `m` members are.
above_from :
    (hi : ℤ) (m : ℕ) (ts : List ℤ)
    → IsSorted ts
    → m < length ts
    → is_above hi (get_or ts m (pos 0)) ≡ true
    → length ts ≤ count_if (is_above hi) ts + m
above_from hi m [] s l h = absurd (omega arith)
above_from hi zero (t ∷ ts) s l h = omega (arith, above_tail hi t ts s h)
above_from hi (suc m) (t ∷ []) s l h = absurd (omega arith)
above_from hi (suc m) (t ∷ u ∷ us) s l h = ground (arith, above_from hi m (u ∷ us) s.1)

-- The head of a sorted list is below `lo` if any member is.
below_head :
    (lo : ℤ) (m : ℕ) (t : ℤ) (ts : List ℤ)
    → IsSorted (t ∷ ts)
    → m < length (t ∷ ts)
    → is_below lo (get_or (t ∷ ts) m (pos 0)) ≡ true
    → is_below lo t ≡ true
below_head lo zero t ts s l h = h
below_head lo (suc m) t [] s l h = absurd (omega arith)
below_head lo (suc m) t (u ∷ us) s l h = ground (arith, below_head lo m u us s.1)

below_upto :
    (lo : ℤ) (m : ℕ) (ts : List ℤ)
    → IsSorted ts
    → m < length ts
    → is_below lo (get_or ts m (pos 0)) ≡ true
    → m < count_if (is_below lo) ts
below_upto lo m [] s l h = absurd (omega arith)
below_upto lo zero (t ∷ ts) s l h = ground arith
below_upto lo (suc m) (t ∷ []) s l h = absurd (omega arith)
below_upto lo (suc m) (t ∷ u ∷ us) s l h =
    ground (arith, below_upto lo m (u ∷ us) s.1, below_head lo (suc m) t (u ∷ us) s)

get_or_at : (ts : List ℤ) (i j : ℕ) → i ≡ j → get_or ts i (pos 0) ≡ get_or ts j (pos 0)
get_or_at ts i j e = rw e

-- The median of a nonempty list is the lower middle member of the sorted list.
median-eq :
    (ts : List ℤ) → length ts ≢ 0 → median ts ≡ get_or (sort ts) ((length ts - 1) / 2) (pos 0)
unfolding median
median-eq ts h = ground (
  arith,
  length-sort ts,
  get_or_at (sort ts) (length (sort ts) / 2) ((length ts - 1) / 2),
  get_or_at (sort ts) (length (sort ts) / 2 - 1) ((length ts - 1) / 2),
)

-- How many timestamps lie outside the interval.
abbrev pub outside : ℤ → ℤ → List ℤ → ℕ
outside lo hi ts = count_if (is_below lo) ts + count_if (is_above hi) ts

-- If more than half of the timestamps lie between `lo` and `hi`, so does the median.
median-bounds :
    (lo hi : ℤ) (ts : List ℤ)
    → 2 * outside lo hi ts < length ts
    → (lo ≤ℤ median ts) × (median ts ≤ℤ hi)
median-bounds lo hi ts h =
    let m = (length ts - 1) / 2 in
    rw (median-eq ts (omega arith)) (
      ground (
        arith,
        length-sort ts,
        count_if-sort (is_below lo) ts,
        count_if-sort (is_above hi) ts,
        below_upto lo m (sort ts) (sort-IsSorted ts),
        above_from hi m (sort ts) (sort-IsSorted ts),
      ))

skew_range :
    (lo mid hi skew : ℤ)
    → lo ≤ℤ mid
    → mid ≤ℤ hi
    → pos 0 ≤ℤ skew
    → IsI64 (lo -ℤ skew)
    → IsI64 (hi +ℤ skew)
    → IsI64 (mid -ℤ skew) × IsI64 (mid +ℤ skew)
unfolding ◌+ℤ◌ ◌-ℤ◌
skew_range lo mid hi skew h k s a b = (
  record { above = ground (arith, a.above); below = ground (arith, b.below) },
  record { above = ground (arith, a.above); below = ground (arith, b.below) },
)

-- If more than half of the recent timestamps lie between `lo` and `hi`, the effective time of a
-- block lies between `lo - max_skew` and `hi + max_skew`, whatever the block's own timestamp and
-- the other recent timestamps are. The two ends must be int64s and `max_skew` not negative.
pub effective_time-bounds :
    (b : ℤ) (ts : List ℤ) (skew lo hi : ℤ)
    → 2 * outside lo hi ts < length ts
    → pos 0 ≤ℤ skew
    → IsI64 (lo -ℤ skew)
    → IsI64 (hi +ℤ skew)
    → (lo -ℤ skew ≤ℤ effective_time b ts skew) × (effective_time b ts skew ≤ℤ hi +ℤ skew)
unfolding effective_time
effective_time-bounds b [] skew lo hi h k x y = absurd (omega arith)
effective_time-bounds b (t ∷ ts) skew lo hi h k x y =
    let mid = median (t ∷ ts) in
    let (above, below) = median-bounds lo hi (t ∷ ts) h in
    let (u, v) = skew_range lo mid hi skew above below k x y in
    rw (add_i64-eq mid skew v, sub_i64-eq mid skew u)
      (ground (
        arith,
        above,
        below,
        +ℤ_parts mid skew,
        -ℤ_parts mid skew,
        +ℤ_parts hi skew,
        -ℤ_parts lo skew,
      ))

-- The clamp is idempotent: an effective time is its own effective time, so a block that carries it
-- passes the check for the allowed window. The interval around the median must not wrap.
effective_time_idempotent :
    (b : ℤ) (ts : List ℤ) (skew : ℤ)
    → pos 0 ≤ℤ skew
    → IsI64 (median ts -ℤ skew)
    → IsI64 (median ts +ℤ skew)
    → effective_time (effective_time b ts skew) ts skew ≡ effective_time b ts skew
unfolding effective_time
effective_time_idempotent b [] skew k x y = refl
effective_time_idempotent b (t ∷ ts) skew k x y =
    let mid = median (t ∷ ts) in
    rw (add_i64-eq mid skew y, sub_i64-eq mid skew x)
      (ground (arith, +ℤ_parts mid skew, -ℤ_parts mid skew))
