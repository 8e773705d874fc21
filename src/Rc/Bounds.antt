-- ===== src/Rc/Bounds.antt =====
-- The saturating arithmetic of pkg/rc/rc.go against plain arithmetic.
use opencoin.Prelude.{ℕ, ◌+◌, ◌*◌, ◌/◌, ◌≤◌, ◌<◌, min, ◌≡◌, refl, ◌≢◌, arith, u64_max, IsU64}
use opencoin.Rc.{Params, rc_max, scale, refill, add_cost, cost, regen, elapsed}
use opencoin.Prelude.Int.{ℤ, to_u64-IsU64}

-- The test by division decides whether a product fits.
div_test_fits : (a b m : ℕ) → a ≢ 0 → b ≤ m / a → a * b ≤ m
div_test_fits a b m h k = grind arith

div_test_exceeds : (a b m : ℕ) → a ≢ 0 → m / a < b → m < a * b
div_test_exceeds a b m h k = grind arith

scale-eq : (x k : ℕ) → k ≢ 0 → scale x k ≡ min u64_max (k * x)
unfolding scale
scale-eq x k h = ground (arith, div_test_fits k x u64_max, div_test_exceeds k x u64_max)

refill-eq : (rc amount : ℕ) → IsU64 rc → IsU64 amount → refill rc amount ≡ min u64_max (rc + amount)
unfolding refill
refill-eq rc amount h k = ground arith

add_cost-eq : (total a b : ℕ) → IsU64 total → add_cost total a b ≡ min u64_max (total + a * b)
unfolding add_cost
add_cost-eq total a b h = ground (arith, div_test_fits a b u64_max, div_test_exceeds a b u64_max)

-- The greatest credit of a stake is alpha times the stake, cut off at the largest uint64.
pub rc_max-eq : (p : Params) (stake : ℕ) → rc_max p stake ≡ min u64_max (p.alpha * stake)
unfolding rc_max
rc_max-eq p stake =
    ground (arith, div_test_fits p.alpha stake u64_max, div_test_exceeds p.alpha stake u64_max)

-- The cost is the weighted sum of size, instructions and writes, cut off at the largest uint64.
pub cost-eq :
    (p : Params) (size instructions writes : ℕ)
    → cost p size instructions writes
      ≡ min u64_max (p.c_size * size + p.c_compute * instructions + p.c_storage * writes)
unfolding cost
cost-eq p size instructions writes = ground (
  arith,
  add_cost-eq 0 p.c_size size,
  add_cost-eq (add_cost 0 p.c_size size) p.c_compute instructions,
  add_cost-eq (add_cost (add_cost 0 p.c_size size) p.c_compute instructions) p.c_storage writes,
)

elapsed-IsU64 : (last new : ℤ) → IsU64 (elapsed last new)
unfolding elapsed
elapsed-IsU64 last new = to_u64-IsU64 _

pub le_mul : (s x : ℕ) → s ≢ 0 → x ≤ s * x
le_mul s x h = grind arith

-- A cut-off before a multiplication does not show behind the cut-off after it.
scale_twice : (x k s : ℕ) → k ≢ 0 → s ≢ 0 → scale (scale x k) s ≡ min u64_max (s * (k * x))
scale_twice x k s hk hs =
    rw (scale-eq (scale x k) s hs, scale-eq x k hk)
      (ground (arith, le_mul s u64_max hs, le_mul s (k * x) hs))

scale-IsU64 : (x k : ℕ) → IsU64 (scale x k)
unfolding scale
scale-IsU64 x k = ground arith

-- Regeneration of an account with stake adds elapsed * beta * stake and cuts off at `rc_max` alone:
-- the cut-offs at the largest uint64 on the way never show. It also records the new time. This is
-- for a positive beta and a credit that is a uint64.
pub regen-eq :
    (p : Params) (rc stake : ℕ) (last new : ℤ)
    → p.beta ≢ 0
    → stake ≢ 0
    → IsU64 rc
    → regen p rc stake last new
      ≡ (min (rc_max p stake) (rc + stake * (p.beta * elapsed last new)), new)
unfolding regen
regen-eq p rc stake last new hb hs hr =
    let dt = elapsed last new in
    let amount = scale (scale dt p.beta) stake in
    ground (
      arith,
      rc_max-eq p stake,
      scale_twice dt p.beta stake hb hs,
      scale-IsU64 (scale dt p.beta) stake,
      refill-eq rc amount,
    )

-- An account without stake has no credit after regeneration, whatever it had before.
pub regen_no_stake : (p : Params) (rc : ℕ) (last new : ℤ) → regen p rc 0 last new ≡ (0, new)
unfolding regen
regen_no_stake p rc last new = refl

-- After regeneration the credit is within `rc_max`, and so a uint64.
pub regen-le-rc_max :
    (p : Params) (rc stake : ℕ) (last new : ℤ) → (regen p rc stake last new).0 ≤ rc_max p stake
unfolding regen
regen-le-rc_max p rc stake last new = ground arith

pub rc_max-IsU64 : (p : Params) (stake : ℕ) → IsU64 (rc_max p stake)
rc_max-IsU64 p stake = omega (arith, rc_max-eq p stake)
