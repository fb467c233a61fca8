-- ===== src/Chart/Labels/Axis.antt =====
-- The points under which the time axis has its texts.
use algo_trading_system.Prelude.{
  ◌⊎◌, inl, inr, Bool-cases, ltb, ltb→lt, ltb-false→le, ℕ, zero, suc, ◌+◌, ◌*◌, ◌/◌, ◌≤◌, ◌<◌, ◌≡◌,
  refl, List, [], ◌∷◌, map, Option, arith, length, length-map, get_or, get_or_mono, max,
}
use algo_trading_system.Prelude.Int.{pos, ◌≤ℤ◌, int_laws}
use algo_trading_system.Chart.{Point}
use algo_trading_system.Chart.Points.{IsSeries, time_of}
use algo_trading_system.Chart.Viewport.{PriceDomain, DomainRef, PlotPoint, plot_point, chart_view}
use algo_trading_system.Chart.Labels.{axis_points}

get_or-map :
    (f : Point → PlotPoint) (xs : List Point) (i : ℕ) (p : Point)
    → get_or (map f xs) i (f p) ≡ f (get_or xs i p)
get_or-map f [] i p = refl
get_or-map f (x ∷ xs) zero p = refl
get_or-map f (x ∷ xs) (suc i) p = get_or-map f xs i p

plot_point_mono :
    (d : PriceDomain) (first last : ℕ) (p q : Point)
    → time_of p ≤ time_of q
    → (plot_point d first last p).x ≤ℤ (plot_point d first last q).x
unfolding plot_point
plot_point_mono d first last p q h = omega int_laws

plot_point_left :
    (d : PriceDomain) (last : ℕ) (p : Point)
    → (plot_point d (time_of p) last p).x
      ≡ pos (12 * (plot_point d (time_of p) last p).x_denominator)
unfolding plot_point
plot_point_left d last p = omega int_laws

plot_point_right :
    (d : PriceDomain) (first : ℕ) (p : Point)
    → first < time_of p
    → (plot_point d first (max (time_of p) (first + 1)) p).x
      ≡ pos (550 * (plot_point d first (max (time_of p) (first + 1)) p).x_denominator)
unfolding plot_point
plot_point_right d first p h = omega int_laws

-- The texts of the axis stand under three points: the oldest at the left edge, the newest, and one between.
pub record IsAxis (oldest newest : Point) (shown : List PlotPoint) : Type 0 where
  pub left : PlotPoint
  pub middle : PlotPoint
  pub right : PlotPoint
  pub three : shown ≡ left ∷ middle ∷ right ∷ []
  pub from : left.point ≡ oldest
  pub to : right.point ≡ newest
  pub at_left_edge : left.x ≡ pos (12 * left.x_denominator)
  pub before_middle : left.x ≤ℤ middle.x
  pub behind_middle : middle.x ≤ℤ right.x
  pub at_right_edge :
      (right.x ≡ pos (550 * right.x_denominator)) ⊎ (time_of newest ≤ time_of oldest)

axis_of_map :
    (f : Point → PlotPoint) (p : Point) (ps : List Point)
    → axis_points (map f (p ∷ ps))
      ≡ f p ∷ f (get_or (p ∷ ps) (length (p ∷ ps) / 2) p) ∷ f (get_or (p ∷ ps) (length ps) p) ∷ []
unfolding axis_points
axis_of_map f p ps =
    rw
      (
        length-map ps f,
        get_or-map f (p ∷ ps) (length (p ∷ ps) / 2) p,
        get_or-map f (p ∷ ps) (length ps) p,
      )
      refl

-- Whatever domain was kept, the time axis of the chart of a series has three points in the order of
-- time: the oldest at the left edge of the plot, one of the series between, and the newest, which is
-- at the right edge if it is newer than the oldest.
pub axis_points-IsAxis :
    (prior : Option DomainRef) (key : ℕ) (p : Point) (ps : List Point)
    → IsSeries (p ∷ ps)
    → IsAxis p (get_or (p ∷ ps) (length ps) p) (axis_points (chart_view prior key p ps).0.points)
unfolding chart_view
axis_points-IsAxis prior key p ps h =
    let newest = get_or (p ∷ ps) (length ps) p in
    let middle = get_or (p ∷ ps) (length (p ∷ ps) / 2) p in
    let view = (chart_view prior key p ps).0 in
    let draw = plot_point view.domain (time_of p) (max (time_of newest) (time_of p + 1)) in
    record {
      left = draw p;
      middle = draw middle;
      right = draw newest;
      three = axis_of_map draw p ps;
      from = unfold plot_point in refl;
      to = unfold plot_point in refl;
      at_left_edge = plot_point_left _ _ p;
      before_middle = plot_point_mono _ _ _ p middle (
          get_or_mono time_of (p ∷ ps) 0 (length (p ∷ ps) / 2) p h.chronological (omega arith)
            (omega arith));
      behind_middle = plot_point_mono _ _ _ middle newest (
          get_or_mono time_of (p ∷ ps) (length (p ∷ ps) / 2) (length ps) p h.chronological
            (omega arith) (omega arith));
      at_right_edge = elim (Bool-cases (ltb (time_of p) (time_of newest))) [
        | inl newer ↦ inl (plot_point_right _ (time_of p) newest (ltb→lt _ _ newer))
        | inr equal ↦ inr (ltb-false→le _ _ equal)
      ];
    }
