-- ===== src/Chart/Points/Stability.antt =====
-- Which points a normalized series holds.
use algo_trading_system.Prelude.{ℕ, ◌≡◌, refl, List, [], ◌∷◌, Option, arith, filterb, ◌∙◌}
use algo_trading_system.Chart.{Point}
use algo_trading_system.Chart.Points.{
  usable, present, insert_by_time, sort_by_time, normalize_points, at_time,
}

at_time-insert_by_time :
    (t : ℕ) (p : Point) (qs : List Point) → at_time t (insert_by_time p qs) ≡ at_time t (p ∷ qs)
unfolding insert_by_time
at_time-insert_by_time t p [] = refl
at_time-insert_by_time t p (q ∷ qs) = ground (arith, at_time-insert_by_time t p qs)

at_time-sort_by_time : (t : ℕ) (ps : List Point) → at_time t (sort_by_time ps) ≡ at_time t ps
unfolding sort_by_time
at_time-sort_by_time t [] = refl
at_time-sort_by_time t (p ∷ ps) =
    at_time-insert_by_time t p (sort_by_time ps) ∙ ground (arith, at_time-sort_by_time t ps)

-- At every instant the normalized series holds the usable points that were given for that instant,
-- each as often as given and in the order given; so normalizing loses, repeats and invents nothing.
pub at_time-normalize_points :
    (t : ℕ) (xs : List (Option Point))
    → at_time t (normalize_points xs) ≡ at_time t (filterb usable (present xs))
unfolding normalize_points
at_time-normalize_points t xs = at_time-sort_by_time t (filterb usable (present xs))
