-- ===== src/Chart/Tests.antt =====
-- Concrete series, and the theorems about the chart at them.
use algo_trading_system.Prelude.{
  ℕ, ◌+◌, ◌*◌, ◌≤◌, ◌≡◌, ◌⊎◌, inr, refl, true, List, [], ◌∷◌, Option, none, some, arith, All,
  length, get_last?, max,
}
use algo_trading_system.Prelude.Int.{pos, scale, ◌-ℤ◌}
use algo_trading_system.Prelude.Texts.{codes}
use algo_trading_system.Chart.{
  Point, PointSource, instant, unparsable, finite, not_finite, max_live_series_points, date_parse,
  one_day,
}
use algo_trading_system.Chart.Points.{
  normalize_points, sort_by_time, insert_by_time, present, IsSeries, point_from_tick,
}
use algo_trading_system.Chart.Points.Normalization.{IsNormalized, normalize_points-IsNormalized}
use algo_trading_system.Chart.Sampling.{sample_points, sample_index, round_div}
use algo_trading_system.Prelude.Samples.{IsSample}
use algo_trading_system.Chart.Sampling.Sample.{sample_points-IsSample}
use algo_trading_system.Chart.Live.{merge_live_point, before}
use algo_trading_system.Chart.Live.Invariant.{merge_live_point-IsSeries, merge_live_point_outcome}
use algo_trading_system.Chart.Nearest.{Target, nearest_index, search}
use algo_trading_system.Chart.Nearest.Search.{IsNearest, nearest_index_lem}
use algo_trading_system.Chart.Labels.{label_height, price_label, domain_width}
use algo_trading_system.Chart.Labels.Grid.{IsDrawnFor, label_height_even}
use algo_trading_system.Chart.Viewport.{plot_point, DomainRef, PriceDomain, chart_view}
use algo_trading_system.Chart.Viewport.Plot.{IsInside, chart_view-IsInside}
use algo_trading_system.Chart.Pointer.{
  PointerEvent, no_hover, HoverEvent, pointer_moves, pointer_leaves, frame, transition, hover_run,
}
use algo_trading_system.Chart.Pointer.Hover.{IsSettled, hover_run-IsSettled}
use algo_trading_system.Chart.Loader.{
  Network, ok, load_chart_series, LoadedSeries, SeriesSource, request,
}
use algo_trading_system.Chart.Loader.Outcome.{IsLoaded, load_chart_series-IsLoaded}

abbrev point_at : ℕ → ℕ → Point
point_at t v = record {
  timestamp = instant t;
  price = finite (pos v);
  source = PointSource.tick;
  bar = none;
}

abbrev first_point : Point
first_point = point_at 1000 500

abbrev rest : List Point
rest = point_at 2000 700 ∷ point_at 4000 600 ∷ []

abbrev series : List Point
series = first_point ∷ rest

series-IsSeries : IsSeries series
series-IsSeries = record {
  usable = (refl, (refl, (refl, tt)));
  chronological = ((omega arith, (omega arith, tt)), ((omega arith, tt), (tt, tt)));
}

-- A response out of order, with a gap, an infinite price and an unreadable date.
abbrev raw : List (Option Point)
raw =
    some (point_at 4000 600)
    ∷ none
    ∷ some (record first_point { price = not_finite })
    ∷ some (point_at 2000 700)
    ∷ some (record first_point { timestamp = unparsable })
    ∷ some first_point
    ∷ []

raw_normalized : normalize_points raw ≡ series
unfolding normalize_points sort_by_time insert_by_time present
raw_normalized = refl

normalize_points-IsNormalized_example : IsNormalized raw (normalize_points raw)
normalize_points-IsNormalized_example = normalize_points-IsNormalized raw

sampled : sample_points series 2 ≡ first_point ∷ point_at 4000 600 ∷ []
unfolding sample_points sample_index round_div
sampled = refl

sample_points-IsSample_example : IsSample series 2 (sample_points series 2)
sample_points-IsSample_example = sample_points-IsSample series 2 (omega arith)

-- A tick 100 ms after the last point takes its place.
merged :
    merge_live_point series (point_at 4100 650)
    ≡ first_point ∷ point_at 2000 700 ∷ point_at 4100 650 ∷ []
unfolding merge_live_point
merged = refl

merge_live_point-IsSeries_example : IsSeries (merge_live_point series (point_at 4100 650))
merge_live_point-IsSeries_example =
    merge_live_point-IsSeries series (point_at 4100 650) series-IsSeries refl

merge_live_point_outcome_example :
    (length (merge_live_point series (point_at 3000 650))
      ≤ max (length series) max_live_series_points)
    × ((get_last? (merge_live_point series (point_at 3000 650)) ≡ some (point_at 3000 650))
        ⊎ ((last : Point) × (get_last? series ≡ some last)
            × (before (date_parse (instant 3000)) (date_parse last.timestamp) ≡ true)
            × (merge_live_point series (point_at 3000 650) ≡ series)))
merge_live_point_outcome_example = merge_live_point_outcome series (point_at 3000 650)

abbrev target : Target
target = record { numerator = 5500; denominator = 2 }

nearest_found : nearest_index series target ≡ some 1
unfolding nearest_index search
nearest_found = refl

nearest_index_example :
    (r : ℕ) × (nearest_index series target ≡ some r) × IsNearest target first_point rest r
nearest_index_example = nearest_index_lem target first_point rest series-IsSeries

abbrev prior_domain : DomainRef
prior_domain = record { domain = record { low = pos 2; high = pos 90 }; transition_key = 4 }

abbrev padded : PriceDomain
padded = record { low = pos 10; high = pos 100 }

abbrev wide_domain : PriceDomain
wide_domain = record { low = pos 0; high = pos 200 }

chart_view-IsInside_example :
    All IsInside (chart_view (some prior_domain) 4 first_point rest).0.points
chart_view-IsInside_example =
    chart_view-IsInside (some prior_domain) 4 first_point rest series-IsSeries

abbrev pointer : PointerEvent
pointer = record { offset = 300; width = 800 }

abbrev hover_events : List HoverEvent
hover_events = pointer_moves series 1000 4000 pointer ∷ frame ∷ transition ∷ pointer_leaves ∷ []

hover_run-IsSettled_example : IsSettled (hover_run no_hover hover_events)
hover_run-IsSettled_example = hover_run-IsSettled no_hover hover_events (inr refl)

-- A server that answers every query for ticks with two of them, out of order, and has no candles.
abbrev network : Network
network = record {
  ticks = λ query. ok (record {
    is_ok = true;
    status = 200;
    body_detail = none;
    json = ok (
        record { price = finite (pos 7); timestamp = instant 20 }
        ∷ record { price = finite (pos 5); timestamp = instant 10 }
        ∷ []);
  });
  candles = λ query. ok (record { is_ok = true; status = 200; body_detail = none; json = ok [] });
}

abbrev loaded : LoadedSeries
loaded = record { points = point_at 10 5 ∷ point_at 20 7 ∷ []; source = SeriesSource.ticks }

ticks_loaded : load_chart_series network (codes "AAPL") one_day 0 100 ≡ ok loaded
unfolding load_chart_series request normalize_points point_from_tick sort_by_time insert_by_time
    present
ticks_loaded = refl

load_chart_series-IsLoaded_example :
    IsLoaded network
      (codes "AAPL")
      0
      100
      one_day
      (load_chart_series network (codes "AAPL") one_day 0 100)
load_chart_series-IsLoaded_example = load_chart_series-IsLoaded network (codes "AAPL") 0 100 one_day

-- A domain of a millionth of a dollar, with a point at its top: it is drawn below the line of its price.
abbrev narrow_domain : PriceDomain
narrow_domain = record { low = pos 0; high = pos 1_000_000 }

price_on_top : scale 3 (scale 10_000 (pos 100)) ≡ price_label narrow_domain 0
unfolding scale price_label ◌-ℤ◌
price_on_top = refl

label_height_even_example :
    (label_height narrow_domain (price_label narrow_domain 0)
      ≡ pos ((42 + 178 * 0) * domain_width narrow_domain))
    × IsDrawnFor narrow_domain 0 (plot_point narrow_domain 1000 3000 (point_at 1000 100))
label_height_even_example =
    label_height_even narrow_domain 0 1000 3000 (point_at 1000 100) (omega arith) (omega arith)
      price_on_top
