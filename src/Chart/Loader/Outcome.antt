-- ===== src/Chart/Loader/Outcome.antt =====
-- What a load comes to: where its points come from, or which of its requests failed.
use algo_trading_system.Prelude.{
  ℕ, ◌≤◌, ◌<◌, ◌≡◌, ◌≢◌, inl, inr, refl, List, map, leb, leb→le, leb-false→lt, Bool-cases, length,
}
use algo_trading_system.Prelude.Texts.{Text}
use algo_trading_system.Chart.{Point, ChartRange, one_day, chart_ranges, max_display_points}
use algo_trading_system.Chart.Points.{
  WireTick, WireCandle, point_from_tick, point_from_candle, normalize_points,
}
use algo_trading_system.Chart.Points.Normalization.{IsNormalized, normalize_points-IsNormalized}
use algo_trading_system.Chart.Loader.{
  Failure, Result, ok, err, ◌>>=◌, request, Network, SeriesSource, LoadedSeries, load_candles,
  prefer_ticks, load_chart_series,
}

module _ (net : Network) (symbol : Text) (start end : ℕ) where
  -- What the server answers to the query of the ticks, and to that of the candles of a range.
  abbrev pub tick_answer : Result (List WireTick)
  tick_answer = request (
      net.ticks (record {
        symbol = symbol;
        start_at = start;
        end_at = end;
        max_points = max_display_points;
      }))

  abbrev pub candle_answer : ChartRange → Result (List WireCandle)
  candle_answer range = request (
      net.candles (record {
        symbol = symbol;
        interval = (chart_ranges range).interval;
        start_at = start;
        end_at = end;
      }))

  -- Why candles are shown: the range is not that of one day, or the ticks answered were too few.
  pub data NeedsCandles (range : ChartRange) : Type 0 where
    longer_range : range ≢ one_day → NeedsCandles range
    too_few_ticks :
        (ts : List WireTick) (points : List Point)
        → tick_answer ≡ ok ts
        → IsNormalized (map point_from_tick ts) points
        → length points < 2
        → NeedsCandles range

  -- What a load comes to: where the points of its series come from, or which request failed.
  pub data IsLoaded (range : ChartRange) : Result LoadedSeries → Type 0 where
    from_ticks :
        (ts : List WireTick) (points : List Point)
        → range ≡ one_day
        → tick_answer ≡ ok ts
        → IsNormalized (map point_from_tick ts) points
        → 2 ≤ length points
        → IsLoaded range (ok (record { points = points; source = SeriesSource.ticks }))
    from_candles :
        (cs : List WireCandle) (points : List Point)
        → NeedsCandles range
        → candle_answer range ≡ ok cs
        → IsNormalized (map point_from_candle cs) points
        → IsLoaded range (ok (record { points = points; source = SeriesSource.candles }))
    ticks_failed : (e : Failure) → range ≡ one_day → tick_answer ≡ err e → IsLoaded range (err e)
    candles_failed :
        (e : Failure) → NeedsCandles range → candle_answer range ≡ err e → IsLoaded range (err e)

  candles-IsLoaded :
      (range : ChartRange) (answer : Result (List WireCandle))
      → candle_answer range ≡ answer
      → NeedsCandles range
      → IsLoaded range (
          answer >>= λ cs. ok (record {
            points = normalize_points (map point_from_candle cs);
            source = SeriesSource.candles;
          }))
  candles-IsLoaded range (ok cs) asked needs =
      from_candles cs (normalize_points (map point_from_candle cs)) needs asked
        (normalize_points-IsNormalized (map point_from_candle cs))
  candles-IsLoaded range (err e) asked needs = candles_failed e needs asked

  load_candles-IsLoaded :
      (range : ChartRange)
      → NeedsCandles range
      → IsLoaded range (load_candles net symbol range start end)
  unfolding load_candles
  load_candles-IsLoaded range needs = candles-IsLoaded range (candle_answer range) refl needs

  prefer_ticks-IsLoaded :
      (ts : List WireTick)
      → tick_answer ≡ ok ts
      → IsLoaded one_day (
          prefer_ticks
            (normalize_points (map point_from_tick ts))
            (load_candles net symbol one_day start end))
  unfolding prefer_ticks
  prefer_ticks-IsLoaded ts asked =
      let points = normalize_points (map point_from_tick ts) in
      let normal = normalize_points-IsNormalized (map point_from_tick ts) in
      elim (Bool-cases (leb 2 (length points))) [
        | inl e ↦
            rw (e, prefer_ticks)
              (from_ticks ts points refl asked normal (leb→le 2 (length points) e))
        | inr e ↦
            rw (e, prefer_ticks)
              (load_candles-IsLoaded one_day
                (too_few_ticks ts points asked normal (leb-false→lt 2 (length points) e)))
      ]

  ticks-IsLoaded :
      (answer : Result (List WireTick))
      → tick_answer ≡ answer
      → IsLoaded one_day (
          answer >>= λ ts.
          prefer_ticks
            (normalize_points (map point_from_tick ts))
            (load_candles net symbol one_day start end))
  ticks-IsLoaded (ok ts) asked = prefer_ticks-IsLoaded ts asked
  ticks-IsLoaded (err e) asked = ticks_failed e refl asked

  -- A load in the range of one day, where the server answers ticks of which at least two are usable,
  -- has loaded exactly those; in any other range, or where it answers ticks of which fewer than two are
  -- usable, it has loaded the candles that the server answers for the interval of the range. The points
  -- are the usable points of that answer, each as often as given, in the order of time, and drawable
  -- throughout. A load fails only where the request for those ticks or for those candles fails, and
  -- with the failure of that request.
  pub load_chart_series-IsLoaded :
      (range : ChartRange) → IsLoaded range (load_chart_series net symbol range start end)
  unfolding load_chart_series
  load_chart_series-IsLoaded ChartRange.one_day = ticks-IsLoaded tick_answer refl
  load_chart_series-IsLoaded range = load_candles-IsLoaded range (longer_range (λ e. cc))
