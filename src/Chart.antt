-- ===== src/Chart.antt =====
-- frontend/src/main.jsx: the chart's constants and the values that its functions pass around.
--
-- A timestamp is the text of the wire, seen by what the code reads of it: whether it is empty, and
-- what `Date.parse` makes of it. An instant counts the milliseconds from the earliest date of
-- ECMAScript, -8.64e15 ms, so that every valid date is a natural number; the code takes only
-- differences and comparisons of dates. A finite number is an exact integer of units 1e-8, the
-- decimal places that the server keeps; the rounding of doubles is not modelled.
pub mod Points
pub mod Sampling
pub mod Live
pub mod Nearest
pub mod Viewport
pub mod Pointer
pub mod Loader
pub mod Labels
mod Tests
use algo_trading_system.Prelude.{ℕ, Bool, true, false, Option, none, some}
use algo_trading_system.Prelude.Int.{ℤ}

pub data Timestamp : Type 0 where
  blank unparsable : Timestamp
  instant : ℕ → Timestamp

-- `none` stands for NaN.
abbrev pub date_parse : Timestamp → Option ℕ
date_parse blank = none
date_parse unparsable = none
date_parse (instant t) = some t

-- `not_finite` stands for NaN and for the two infinities.
pub data Number : Type 0 where
  finite : ℤ → Number
  not_finite : Number

abbrev pub is_finite : Number → Bool
is_finite (finite v) = true
is_finite not_finite = false

pub data PointSource : Type 0 where
  tick candle : PointSource

-- What only a point of a candle carries.
pub record Bar : Type 0 where
  pub open_price : Number
  pub high : Number
  pub low : Number

pub record Point : Type 0 where
  pub timestamp : Timestamp
  pub price : Number
  pub source : PointSource
  pub bar : Option Bar

abbrev pub max_display_points : ℕ
max_display_points = 720

abbrev pub max_live_series_points : ℕ
max_live_series_points = 1200

abbrev pub live_point_interval_ms : ℕ
live_point_interval_ms = 150

-- The keys of `CHART_RANGES`.
pub data ChartRange : Type 0 where
  one_day one_week one_month three_months six_months one_year three_years five_years : ChartRange

pub data Interval : Type 0 where
  one_minute five_minutes thirty_minutes daily : Interval

pub record RangeConfiguration : Type 0 where
  pub days : ℕ
  pub interval : Interval
  pub tick_driven : Bool

abbrev pub chart_ranges : ChartRange → RangeConfiguration
chart_ranges one_day = record { days = 1; interval = one_minute; tick_driven = true }
chart_ranges one_week = record { days = 7; interval = five_minutes; tick_driven = false }
chart_ranges one_month = record { days = 30; interval = thirty_minutes; tick_driven = false }
chart_ranges three_months = record { days = 90; interval = daily; tick_driven = false }
chart_ranges six_months = record { days = 182; interval = daily; tick_driven = false }
chart_ranges one_year = record { days = 365; interval = daily; tick_driven = false }
chart_ranges three_years = record { days = 1095; interval = daily; tick_driven = false }
chart_ranges five_years = record { days = 1826; interval = daily; tick_driven = false }
