-- ===== src/Rc.antt =====
-- Resource credits: pkg/rc/rc.go. Each uint64 operation has its wrap-around written out.
pub mod Bounds
pub mod Median
use opencoin.Prelude.{
  ℕ, ◌+◌, ◌-◌, ◌*◌, ◌/◌, ◌%◌, ◌^◌, Bool, List, [], ◌∷◌, ltb, leb, ◌==◌, if◌then◌else◌, u64_mod,
  u64_max, length, get_or, Result, ok, ◌>>=◌, ◌>>◌, fail_if, not, ◌&&◌, ◌||◌,
}
use opencoin.Prelude.Int.{ℤ, pos, ltb_ℤ, to_u64, add_i64, sub_i64}

pub record Params : Type 0 where
  pub alpha : ℕ
  pub beta : ℕ
  pub c_size : ℕ
  pub c_compute : ℕ
  pub c_storage : ℕ
  pub max_skew_sec : ℤ
  pub window_n : ℤ

unfoldable pub within : ℕ → ℕ → ℕ → Bool
within v lo hi = leb lo v && leb v hi

unfoldable pub validate_genesis : Params → Result (Unit {0})
unfolding within
validate_genesis p = do
  fail_if (not (within p.alpha 1 1_000_000)) "alpha out of bounds"
  fail_if (not (within p.beta 1 1_000_000)) "beta out of bounds"
  fail_if (not (within p.c_size 1 1_000_000)) "c_size out of bounds"
  fail_if (not (within p.c_compute 1 1_000_000)) "c_compute out of bounds"
  fail_if (not (within p.c_storage 1 1_000_000)) "c_storage out of bounds"
  fail_if (ltb_ℤ p.window_n (pos 1)) "window_n must be >= 1"
  fail_if (ltb_ℤ p.max_skew_sec (pos 0)) "max_skew must be >= 0"
  ok tt

-- `sort.Slice` with `<` on int64.
unfoldable pub insert_sorted : ℤ → List ℤ → List ℤ
insert_sorted t [] = t ∷ []
insert_sorted t (u ∷ us) = if ltb_ℤ u t then u ∷ insert_sorted t us else t ∷ u ∷ us

unfoldable pub sort : List ℤ → List ℤ
unfolding insert_sorted
sort [] = []
sort (t ∷ ts) = insert_sorted t (sort ts)

-- The index is below the length, so the default is never read.
unfoldable pub median : List ℤ → ℤ
median ts =
    let cp = sort ts in
    let m = length cp / 2 in
    if length ts == 0
    then pos 0
    else (if length cp % 2 == 1 then get_or cp m (pos 0) else get_or cp (m - 1) (pos 0))

unfoldable pub effective_time : ℤ → List ℤ → ℤ → ℤ
effective_time block_timestamp [] max_skew = block_timestamp
effective_time block_timestamp (t ∷ ts) max_skew =
    let mid = median (t ∷ ts) in
    let lo = sub_i64 mid max_skew in
    let hi = add_i64 mid max_skew in
    if ltb_ℤ block_timestamp lo
    then lo
    else (if ltb_ℤ hi block_timestamp then hi else block_timestamp)

unfoldable pub rc_max : Params → ℕ → ℕ
rc_max p stake =
    if stake == 0 || p.alpha == 0
    then 0
    else (if ltb (u64_max / p.alpha) stake then u64_max else p.alpha * stake % u64_mod)

-- `if x > max/k { x = max } else { x *= k }`
unfoldable pub scale : ℕ → ℕ → ℕ
scale x k = if ltb (u64_max / k) x then u64_max else x * k % u64_mod

-- `if rc > max-regen { rc = max } else { rc += regen }`, under `regen > 0`.
unfoldable pub refill : ℕ → ℕ → ℕ
refill rc amount =
    if ltb 0 amount
    then (if ltb (u64_max - amount) rc then u64_max else (rc + amount) % u64_mod)
    else rc

-- The seconds since the last update, never below 0.
unfoldable pub elapsed : ℤ → ℤ → ℕ
unfolding sub_i64 to_u64
elapsed last_time new_time =
    let dt = sub_i64 new_time last_time in to_u64 (if ltb_ℤ dt (pos 0) then pos 0 else dt)

unfoldable pub regen : Params → ℕ → ℕ → ℤ → ℤ → ℕ × ℤ
regen p current_rc stake last_time new_time =
    let dt = elapsed last_time new_time in
    let amount : ℕ = if p.beta == 0 then dt else scale (scale dt p.beta) stake in
    let rc = refill current_rc amount in
    let cap = rc_max p stake in
    if stake == 0 then (0, new_time) else ((if ltb cap rc then cap else rc), new_time)

-- The closure `add` of `Cost`, with `total` as an argument.
unfoldable pub add_cost : ℕ → ℕ → ℕ → ℕ
add_cost total a b =
    if a == 0 || b == 0
    then total
    else (if ltb (u64_max / a) b
        then u64_max
        else (if ltb (u64_max - a * b % u64_mod) total
            then u64_max
            else (total + a * b % u64_mod) % u64_mod))

unfoldable pub cost : Params → ℕ → ℕ → ℕ → ℕ
cost p size_bytes wasm_instructions state_writes =
    let with_size = add_cost 0 p.c_size size_bytes in
    let with_compute = add_cost with_size p.c_compute wasm_instructions in
    add_cost with_compute p.c_storage state_writes
