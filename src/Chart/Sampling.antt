-- ===== src/Chart/Sampling.antt =====
-- frontend/src/main.jsx: `samplePoints` and `capLiveSeries`.
--
-- `Math.round(index * step)` with `step = (n - 1) / (maximum - 1)` is computed on the exact fraction.
-- Every call passes 720 as `maximum`; a `maximum` below 2, for which the code would read at NaN, does
-- not occur. The doubles of the code give the same index: a fraction with the denominator 719 keeps a distance
-- of at least 1/1438 from every tie of the rounding (Sampling/Indices, `sample_index_no_tie`).
pub mod Indices
pub mod Laws
pub mod Subsequence
pub mod Sample
use algo_trading_system.Prelude.{
  ℕ, zero, suc, ◌+◌, ◌-◌, ◌*◌, ◌/◌, List, [], ◌∷◌, map, leb, if◌then◌else◌, length, get_or,
}
use algo_trading_system.Chart.{max_display_points, max_live_series_points}

-- `Math.round(a / b)`: the nearest integer, halves upwards.
unfoldable pub round_div : ℕ → ℕ → ℕ
round_div a b = (2 * a + b) / (2 * b)

-- `Math.round(index * step)` for `n` points.
unfoldable pub sample_index : ℕ → ℕ → ℕ → ℕ
unfolding round_div
sample_index n maximum index = round_div (index * (n - 1)) (maximum - 1)

-- The indices that `Array.from({ length })` passes, from `start` on.
abbrev pub range_from : ℕ → ℕ → List ℕ
range_from start zero = []
range_from start (suc k) = start ∷ range_from (suc start) k

module _ {ℓ} {A : Type ℓ} where
  -- `points[i]` of a list that is not empty; every index that `sample_points` reads is in range.
  unfoldable pub sample : A → List A → ℕ → List A
  unfolding sample_index
  sample p ps maximum =
      map (λ index. get_or (p ∷ ps) (sample_index (length (p ∷ ps)) maximum index) p)
        (range_from 0 maximum)

  unfoldable pub sample_points : List A → ℕ → List A
  unfolding sample
  sample_points [] maximum = []
  sample_points (p ∷ ps) maximum =
      if leb (length (p ∷ ps)) maximum then p ∷ ps else sample p ps maximum

  unfoldable pub cap_live_series : List A → List A
  unfolding sample_points
  cap_live_series points =
      if leb (length points) max_live_series_points
      then points
      else sample_points points max_display_points
