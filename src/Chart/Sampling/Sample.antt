-- ===== src/Chart/Sampling/Sample.antt =====
-- The points of a chart are a sample of its series.
use algo_trading_system.Prelude.{ℕ, ◌≤◌, List}
use algo_trading_system.Prelude.Samples.{IsSample}
use algo_trading_system.Chart.Sampling.{sample_points}
use algo_trading_system.Chart.Sampling.Laws.{length-sample_points, sample_points_ends}
use algo_trading_system.Chart.Sampling.Subsequence.{sample_points-sublist}

-- A sample of at most m points, for an m of 2 or more, is a subsequence of the series, so that no point
-- is repeated, moved or made up; it begins with the first point and ends with the last; and it has m
-- points, or those of a series that has fewer.
pub sample_points-IsSample {ℓ} :
    {A : Type ℓ} (xs : List A) (m : ℕ) → 2 ≤ m → IsSample xs m (sample_points xs m)
sample_points-IsSample xs m h = record {
  drawn_from = sample_points-sublist xs m h;
  begins = (sample_points_ends xs m h).0;
  ends = (sample_points_ends xs m h).1;
  size = length-sample_points xs m;
}
