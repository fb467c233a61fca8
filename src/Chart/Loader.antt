-- ===== src/Chart/Loader.antt =====
-- frontend/src/main.jsx: `request` and `loadChartSeries`.
--
-- The network is a parameter: what `fetch` and the body of the response come to.
pub mod Outcome
use algo_trading_system.Prelude.{
  ℕ, ◌-◌, ◌*◌, Bool, true, false, List, map, Option, none, some, leb, if◌then◌else◌, length,
}
use algo_trading_system.Prelude.Texts.{Text}
use algo_trading_system.Chart.{Point, ChartRange, Interval, chart_ranges, max_display_points}
use algo_trading_system.Chart.Points.{
  WireTick, WireCandle, point_from_tick, point_from_candle, normalize_points,
}

-- A thrown error: the abort of the request, or one with a message.
pub data Message : Type 0 where
  detail : Text → Message
  request_failed : ℕ → Message
  other : Text → Message

pub data Failure : Type 0 where
  abort_error : Failure
  error : Message → Failure

pub data Result {ℓ} (A : Type ℓ) : Type ℓ where
  ok : A → Result A
  err : Failure → Result A

infixl 5 ◌>>=◌
abbrev pub ◌>>=◌ {ℓ κ} : {A : Type ℓ} {B : Type κ} → Result A → (A → Result B) → Result B
ok a >>= f = f a
err e >>= f = err e

-- A response: its status, the text of `detail` in the body of an error if there is one, and what
-- `json()` comes to.
pub record HttpResponse {ℓ} (A : Type ℓ) : Type ℓ where
  pub is_ok : Bool
  pub status : ℕ
  pub body_detail : Option Text
  pub json : Result A

abbrev error_message : ℕ → Option Text → Message
error_message status none = request_failed status
error_message status (some d) = detail d

-- An abort while the body of an error is read is caught there, and ends as `request_failed`.
unfoldable pub request {ℓ} : {A : Type ℓ} → Result (HttpResponse A) → Result A
request fetched = do
  response ← fetched
  if response.is_ok
      then response.json
      else err (error (error_message response.status response.body_detail))

pub record TickQuery : Type 0 where
  pub symbol : Text
  pub start_at : ℕ
  pub end_at : ℕ
  pub max_points : ℕ

pub record CandleQuery : Type 0 where
  pub symbol : Text
  pub interval : Interval
  pub start_at : ℕ
  pub end_at : ℕ

-- What the server answers to each query.
pub record Network : Type 0 where
  pub ticks : TickQuery → Result (HttpResponse (List WireTick))
  pub candles : CandleQuery → Result (HttpResponse (List WireCandle))

pub data SeriesSource : Type 0 where
  ticks candles : SeriesSource

pub record LoadedSeries : Type 0 where
  pub points : List Point
  pub source : SeriesSource

-- `new Date(end.getTime() - rangeConfiguration.days * 86_400_000)`
abbrev pub range_start : ChartRange → ℕ → ℕ
range_start range end = end - (chart_ranges range).days * 86_400_000

unfoldable pub load_candles : Network → Text → ChartRange → ℕ → ℕ → Result LoadedSeries
unfolding request
load_candles net symbol range start end = do
  answer ← request (
      net.candles (record {
        symbol = symbol;
        interval = (chart_ranges range).interval;
        start_at = start;
        end_at = end;
      }))
  ok (record {
    points = normalize_points (map point_from_candle answer);
    source = SeriesSource.candles;
  })

-- Ticks that draw a line are used as they are; any fewer, and the candles are asked for.
unfoldable pub prefer_ticks : List Point → Result LoadedSeries → Result LoadedSeries
prefer_ticks points otherwise =
    if leb 2 (length points)
    then ok (record { points = points; source = SeriesSource.ticks })
    else otherwise

unfoldable pub load_chart_series : Network → Text → ChartRange → ℕ → ℕ → Result LoadedSeries
unfolding load_candles prefer_ticks
load_chart_series net symbol range start end =
    let from_candles = load_candles net symbol range start end in
    if (chart_ranges range).tick_driven
    then (do
      answer ← request (
          net.ticks (record {
            symbol = symbol;
            start_at = start;
            end_at = end;
            max_points = max_display_points;
          }))
      prefer_ticks (normalize_points (map point_from_tick answer)) from_candles)
    else from_candles
