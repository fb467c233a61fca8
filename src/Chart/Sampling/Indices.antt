-- ===== src/Chart/Sampling/Indices.antt =====
-- The indices that a sample reads: they rise strictly, from the first point to the last.
use native.Mathlib.Nat.{
  div-eq_of_lt, add-mul-div_left, div-mul-le_self, le-div_iff_mul-le, le_trans,
}
use algo_trading_system.Prelude.{
  ℕ, suc, ◌+◌, ◌-◌, ◌*◌, ◌/◌, ◌%◌, ◌≤◌, ◌<◌, ◌≡◌, ◌≢◌, arith, ◌∙◌, ap,
}
use algo_trading_system.Chart.Sampling.{sample_index}

-- Over the gaps between points instead of the points: `c` gaps, read at `b` steps.
index_of : ℕ → ℕ → ℕ → ℕ
index_of c b i = (2 * (i * c) + b) / (2 * b)

sample_index-index_of : (n m i : ℕ) → sample_index n m i ≡ index_of (n - 1) (m - 1) i
unfolding sample_index index_of
sample_index-index_of n m i = omega arith

index_of_last : (c b : ℕ) → 0 < b → index_of c b b ≡ c
unfolding index_of
index_of_last c b h =
    ap (λ (t : ℕ). t / (2 * b)) (omega arith)
    ∙ add-mul-div_left b c (omega arith)
    ∙ omega (arith, div-eq_of_lt {n = b} {m = 2 * b} (omega arith))

index_of_mono : (c b i j : ℕ) → 0 < b → i ≤ j → index_of c b i ≤ index_of c b j
unfolding index_of
index_of_mono c b i j h k =
    (le-div_iff_mul-le {k = 2 * b} (omega arith)).1
      (le_trans (div-mul-le_self (2 * (i * c) + b) (2 * b)) (grind arith))

mul_le_mul_right' : (i j c : ℕ) → i ≤ j → i * c ≤ j * c
mul_le_mul_right' i j c h = grind arith

gap : (c b i j : ℕ) → b ≤ c → i < j → 2 * (i * c) + b + 2 * b ≤ 2 * (j * c) + b
gap c b i j le k = omega (arith, mul_le_mul_right' (suc i) j c k)

index_of-strict : (c b i j : ℕ) → 0 < b → b ≤ c → i < j → index_of c b i < index_of c b j
unfolding index_of
index_of-strict c b i j h le k =
    (le-div_iff_mul-le {k = 2 * b} (omega arith)).1
      (le_trans (omega (arith, div-mul-le_self (2 * (i * c) + b) (2 * b))) (gap c b i j le k))

pub sample_index_first : (n m : ℕ) → 2 ≤ m → sample_index n m 0 ≡ 0
unfolding sample_index
sample_index_first n m h = div-eq_of_lt {n = 2 * (0 * (n - 1)) + (m - 1)} (omega arith)

pub sample_index_last : (n m : ℕ) → 2 ≤ m → sample_index n m (m - 1) ≡ n - 1
sample_index_last n m h =
    sample_index-index_of n m (m - 1) ∙ index_of_last (n - 1) (m - 1) (omega arith)

pub sample_index_mono : (n m i j : ℕ) → 2 ≤ m → i ≤ j → sample_index n m i ≤ sample_index n m j
sample_index_mono n m i j h k = omega (
  arith,
  sample_index-index_of n m i,
  sample_index-index_of n m j,
  index_of_mono (n - 1) (m - 1) i j (omega arith) k,
)

pub sample_index-strict :
    (n m i j : ℕ) → 2 ≤ m → m ≤ n → i < j → sample_index n m i < sample_index n m j
sample_index-strict n m i j h le k = omega (
  arith,
  sample_index-index_of n m i,
  sample_index-index_of n m j,
  index_of-strict (n - 1) (m - 1) i j (omega arith) (omega arith) k,
)

pub sample_index-lt : (n m i : ℕ) → 2 ≤ m → 0 < n → i < m → sample_index n m i < n
sample_index-lt n m i h k lt =
    omega (arith, sample_index_mono n m i (m - 1) h (omega arith), sample_index_last n m h)

-- With 720 points on the screen no index lies half-way between two integers.
sample_index_no_tie : (n i : ℕ) → (2 * (i * (n - 1))) % (2 * 719) ≢ 719
sample_index_no_tie n i = omega arith
