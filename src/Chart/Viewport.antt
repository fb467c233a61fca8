-- ===== src/Chart/Viewport.antt =====
-- frontend/src/main.jsx, `PriceChart`: the price domain of the chart and the place of each point.
--
-- A price is an integer of units 1e-8. The domain is kept in units of 1e-12, in which the factors
-- 0.002 and 0.15 of the source are whole; a coordinate is an exact fraction of plot units.
pub mod Domain
pub mod Plot
use algo_trading_system.Prelude.{
  ℕ, suc, ◌+◌, ◌-◌, ◌*◌, Bool, true, false, ◌||◌, not, List, [], ◌∷◌, map, Option, none, some, ◌==◌,
  if◌then◌else◌, max, get_or, length,
}
use algo_trading_system.Prelude.Int.{
  ℤ, pos, pos_part, ◌+ℤ◌, ◌-ℤ◌, ltb_ℤ, leb_ℤ, max_ℤ, min_ℤ, abs, scale,
}
use algo_trading_system.Chart.{Point, Number, finite, not_finite}
use algo_trading_system.Chart.Points.{time_of}

abbrev pub plot_left : ℕ
plot_left = 12

abbrev pub plot_right : ℕ
plot_right = 550

abbrev pub plot_top : ℕ
plot_top = 14

abbrev pub plot_bottom : ℕ
plot_bottom = 192

-- The price of a point that is drawn; no other point reaches the chart.
abbrev pub price_of : Point → ℤ
price_of p = elim p.price [ finite v ↦ v | not_finite ↦ pos 0 ]

-- `Math.min(...prices)` and `Math.max(...prices)`
unfoldable pub min_price : Point → List Point → ℤ
min_price p [] = price_of p
min_price p (q ∷ qs) = min_ℤ (price_of p) (min_price q qs)

unfoldable pub max_price : Point → List Point → ℤ
max_price p [] = price_of p
max_price p (q ∷ qs) = max_ℤ (price_of p) (max_price q qs)

pub record PriceDomain : Type 0 where
  pub low : ℤ
  pub high : ℤ

-- `rawRange * 0.15`: `rawRange` is the largest of the spread, a 500th of the maximum and one cent.
unfoldable pub padding : ℤ → ℤ → ℕ
padding minimum maximum =
    3 * max (max (500 * abs (maximum -ℤ minimum)) (abs maximum)) (500 * 1_000_000)

unfoldable pub padded_domain : Point → List Point → PriceDomain
unfolding padding
padded_domain p ps =
    let minimum = min_price p ps in
    let maximum = max_price p ps in
    record {
      low = scale 10_000 minimum -ℤ pos (padding minimum maximum);
      high = scale 10_000 maximum +ℤ pos (padding minimum maximum);
    }

-- `domainRef.current`
pub record DomainRef : Type 0 where
  pub domain : PriceDomain
  pub transition_key : ℕ

abbrev pub widen : PriceDomain → PriceDomain → PriceDomain
widen padded prior = record {
  low = if ltb_ℤ padded.low prior.low then padded.low else prior.low;
  high = if ltb_ℤ prior.high padded.high then padded.high else prior.high;
}

-- The domain keeps its width within one transition, and starts anew with the next.
unfoldable pub next_domain : Option DomainRef → ℕ → PriceDomain → PriceDomain
next_domain none key padded = padded
next_domain (some prior) key padded =
    if not (prior.transition_key == key) then padded else widen padded prior.domain

-- `Math.max(domain.high - domain.low, 0.01)`, a positive number: a difference below 0 counts as 0.
unfoldable pub vertical_range : PriceDomain → ℕ
vertical_range d = max (pos_part (d.high -ℤ d.low)) 10_000_000_000

pub record PlotPoint : Type 0 where
  pub point : Point
  pub x : ℤ
  pub x_denominator : ℕ
  pub y : ℤ
  pub y_denominator : ℕ

unfoldable pub plot_point : PriceDomain → ℕ → ℕ → Point → PlotPoint
plot_point domain first_time last_time p = record {
  point = p;
  x =
      pos (plot_left * (last_time - first_time))
      +ℤ scale (plot_right - plot_left) (pos (time_of p) -ℤ pos first_time);
  x_denominator = last_time - first_time;
  y =
      pos (plot_bottom * vertical_range domain)
      -ℤ scale (plot_bottom - plot_top) (scale 10_000 (price_of p) -ℤ domain.low);
  y_denominator = vertical_range domain;
}

pub record ChartView : Type 0 where
  pub points : List PlotPoint
  pub domain : PriceDomain
  pub upward : Bool
  pub first_time : ℕ
  pub last_time : ℕ

-- The chart of `data`, and the new `domainRef.current`.
unfoldable pub chart_view : Option DomainRef → ℕ → Point → List Point → ChartView × DomainRef
unfolding padded_domain
chart_view prior key p ps =
    let last = get_or (p ∷ ps) (length ps) p in
    let domain = next_domain prior key (padded_domain p ps) in
    let first_time = time_of p in
    let last_time = max (time_of last) (first_time + 1) in
    (
      record {
        points = map (plot_point domain first_time last_time) (p ∷ ps);
        domain = domain;
        upward = leb_ℤ (price_of p) (price_of last);
        first_time = first_time;
        last_time = last_time;
      },
      record { domain = domain; transition_key = key },
    )
