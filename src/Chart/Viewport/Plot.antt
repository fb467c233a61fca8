-- ===== src/Chart/Viewport/Plot.antt =====
-- Every point of a series is drawn inside the plot.
use algo_trading_system.Prelude.{
  ℕ, ◌*◌, ◌≤◌, ◌<◌, List, [], ◌∷◌, map, Option, arith, All, All-mono, le-get_last?,
  get_last?-get_or,
}
use algo_trading_system.Prelude.Int.{pos, ◌≤ℤ◌, ◌+ℤ◌, int_laws}
use algo_trading_system.Chart.{Point}
use algo_trading_system.Chart.Points.{IsSeries, time_of}
use algo_trading_system.Chart.Viewport.{
  price_of, PriceDomain, DomainRef, vertical_range, PlotPoint, plot_point, chart_view,
}
use algo_trading_system.Chart.Viewport.Domain.{Holds, next_domain-Holds}

-- Inside the plot area: 12 ≤ x ≤ 550 and 14 ≤ y ≤ 192.
pub record IsInside (q : PlotPoint) : Type 0 where
  pub left : pos (12 * q.x_denominator) ≤ℤ q.x
  pub right : q.x ≤ℤ pos (550 * q.x_denominator)
  pub top : pos (14 * q.y_denominator) ≤ℤ q.y
  pub bottom : q.y ≤ℤ pos (192 * q.y_denominator)
  pub x_defined : 0 < q.x_denominator
  pub y_defined : 0 < q.y_denominator

high-le : (d : PriceDomain) → d.high ≤ℤ d.low +ℤ pos (vertical_range d)
unfolding vertical_range
high-le d = omega int_laws

vertical_range-pos : (d : PriceDomain) → 0 < vertical_range d
unfolding vertical_range
vertical_range-pos d = omega arith

plot_point-IsInside :
    (d : PriceDomain) (first last : ℕ) (p : Point)
    → Holds d (price_of p)
    → first ≤ time_of p
    → time_of p ≤ last
    → first < last
    → IsInside (plot_point d first last p)
unfolding plot_point
plot_point-IsInside d first last p h a b c = record {
  left = omega int_laws;
  right = omega int_laws;
  top = omega (int_laws, high-le d, h.above_low, h.below_high);
  bottom = omega (int_laws, h.above_low);
  x_defined = omega arith;
  y_defined = vertical_range-pos d;
}

All-plot :
    (d : PriceDomain) (first last : ℕ) (ps : List Point)
    → All (λ q. Holds d (price_of q)) ps
    → All (λ q. first ≤ time_of q) ps
    → All (λ q. time_of q ≤ last) ps
    → first < last
    → All IsInside (map (plot_point d first last) ps)
All-plot d first last [] h a b c = tt
All-plot d first last (p ∷ ps) h a b c =
    (plot_point-IsInside d first last p h.0 a.0 b.0 c, All-plot d first last ps h.1 a.1 b.1 c)

-- Whatever domain the chart kept from before, every point of a series is drawn inside the plot area,
-- between its left and right and its top and bottom edge, and no coordinate divides by 0.
pub chart_view-IsInside :
    (prior : Option DomainRef) (key : ℕ) (p : Point) (ps : List Point)
    → IsSeries (p ∷ ps)
    → All IsInside (chart_view prior key p ps).0.points
unfolding chart_view
chart_view-IsInside prior key p ps h =
    All-plot _ _ _ (p ∷ ps) (next_domain-Holds prior key p ps) (omega arith, h.chronological.0)
      (All-mono _ _ (p ∷ ps) (λ q le. omega (arith, le))
        (le-get_last? time_of (p ∷ ps) _ h.chronological (get_last?-get_or p ps p)))
      (omega arith)
