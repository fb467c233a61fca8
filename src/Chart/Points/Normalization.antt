-- ===== src/Chart/Points/Normalization.antt =====
-- What the normalized series of a response is.
use algo_trading_system.Prelude.{ℕ, ◌≡◌, List, map, Option, some, filterb}
use algo_trading_system.Chart.{Point}
use algo_trading_system.Chart.Points.{normalize_points, present, usable, at_time, IsSeries}
use algo_trading_system.Chart.Points.Order.{normalize_points-IsSeries, normalize_points_self}
use algo_trading_system.Chart.Points.Stability.{at_time-normalize_points}

pub record IsNormalized (xs : List (Option Point)) (ps : List Point) : Type 0 where
  pub series : IsSeries ps
  pub kept : (t : ℕ) → at_time t ps ≡ at_time t (filterb usable (present xs))
  pub fixed : normalize_points (map some ps) ≡ ps

-- Whatever the response holds, its normalized series is chronological and holds points with a finite
-- price and a timestamp that parses only; it holds for every instant the usable points that were given
-- for it, each as often as given and in the order given; and normalizing it again changes nothing.
pub normalize_points-IsNormalized :
    (xs : List (Option Point)) → IsNormalized xs (normalize_points xs)
normalize_points-IsNormalized xs = record {
  series = normalize_points-IsSeries xs;
  kept = λ t. at_time-normalize_points t xs;
  fixed = normalize_points_self (normalize_points xs) (normalize_points-IsSeries xs);
}
