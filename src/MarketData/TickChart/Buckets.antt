-- ===== src/MarketData/TickChart/Buckets.antt =====
-- The candidates of the buckets: each bucket has some, and the next bucket's start where they end.
use native.Mathlib.Nat.{
  mul-div_left, div-mul-le_self, le-div_iff_mul-le, div-lt_iff_lt-mul, mul-lt-mul_of_pos_right,
}
use algo_trading_system.Prelude.{
  ℕ, suc, ◌+◌, ◌-◌, ◌*◌, ◌/◌, ◌≤◌, ◌<◌, ◌≡◌, arith, Bool-cases, inl, inr, ltb, ltb→lt, ltb-false→le,
}
use algo_trading_system.MarketData.TickChart.{floor_width, candidate_start, candidate_end}

quotient_moves : (x w d : ℕ) → 0 < d → d ≤ w → x / d < (x + w) / d
quotient_moves x w d h k = (le-div_iff_mul-le {k = d} h).1 (omega (arith, div-mul-le_self x d))

-- A width of one tick or more moves the floor by one or more.
floor_width-strict : (n m b : ℕ) → 3 ≤ m → m < n → floor_width n m b < floor_width n m (suc b)
unfolding floor_width
floor_width-strict n m b h k =
    let next : suc b * (n - 2) ≡ b * (n - 2) + (n - 2) = omega arith in
    rw next (quotient_moves (b * (n - 2)) (n - 2) (m - 2) (omega arith) (omega arith))

floor_width-bound : (n m b : ℕ) → 3 ≤ m → m < n → b < m - 2 → floor_width n m b < n - 2
unfolding floor_width
floor_width-bound n m b h k lt =
    (div-lt_iff_lt-mul {k = m - 2} (omega arith)).1
      (omega (arith, mul-lt-mul_of_pos_right {m = b} {n = m - 2} {k = n - 2} lt (omega arith)))

pub floor_width_last : (n m : ℕ) → 3 ≤ m → m < n → floor_width n m (m - 2) ≡ n - 2
unfolding floor_width
floor_width_last n m h k =
    let swap : (m - 2) * (n - 2) ≡ (n - 2) * (m - 2) = omega arith in
    rw swap (mul-div_left (n - 2) {n = m - 2} (omega arith))

floor_width-le : (n m b : ℕ) → 3 ≤ m → m < n → b ≤ m - 2 → floor_width n m b ≤ n - 2
floor_width-le n m b h k le = elim (Bool-cases (ltb b (m - 2))) [
  | inl less ↦ omega (arith, floor_width-bound n m b h k (ltb→lt _ _ less))
  | inr more ↦
      let last : b ≡ m - 2 = omega (arith, ltb-false→le _ _ more) in
      rw last (omega (arith, floor_width_last n m h k))
]

-- The candidates of a bucket are the ticks behind its floor, up to the floor of the next one.
pub candidate_start-floor_width :
    (n m b : ℕ) → 3 ≤ m → m < n → b < m - 2 → candidate_start n m b ≡ floor_width n m b + 1
unfolding candidate_start
candidate_start-floor_width n m b h k lt = omega (arith, floor_width-bound n m b h k lt)

pub candidate_end-floor_width :
    (n m b : ℕ) → 3 ≤ m → m < n → b < m - 2 → candidate_end n m b ≡ floor_width n m (suc b) + 1
unfolding candidate_end candidate_start
candidate_end-floor_width n m b h k lt = ground (
  arith,
  floor_width-bound n m b h k lt,
  floor_width-strict n m b h k,
  floor_width-le n m (suc b) h k lt,
)

-- The candidates of a bucket lie between the first and the last tick, and there is one.
pub candidates_bounds :
    (n m b : ℕ)
    → 3 ≤ m
    → m < n
    → b < m - 2
    → (0 < candidate_start n m b)
      × (candidate_start n m b < candidate_end n m b)
      × (candidate_end n m b ≤ n - 1)
candidates_bounds n m b h k lt = omega (
  arith,
  candidate_start-floor_width n m b h k lt,
  candidate_end-floor_width n m b h k lt,
  floor_width-strict n m b h k,
  floor_width-le n m (suc b) h k lt,
)
