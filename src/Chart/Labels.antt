-- ===== src/Chart/Labels.antt =====
-- frontend/src/main.jsx: what `PriceChart` writes around and over the points: the path, the grid with its
-- prices, the points of the time axis, the active point and the formats of prices and times.
--
-- The number and date formats of `Intl` and `toFixed` are parameters. A price of the grid is a third of
-- units of 1e-12.
pub mod Grid
pub mod Axis
use mathlib.Core.Option
use algo_trading_system.Prelude.{
  ℕ, zero, suc, ◌+◌, ◌-◌, ◌*◌, ◌/◌, Bool, true, false, List, [], ◌∷◌, ◌++◌, map, Option, none, some,
  if◌then◌else◌, length, get_elem?, get_or,
}
use algo_trading_system.Prelude.Int.{ℤ, pos, pos_part, ◌+ℤ◌, ◌-ℤ◌, scale}
use algo_trading_system.Prelude.Texts.{Text, codes}
use algo_trading_system.Chart.{
  Timestamp, date_parse, Number, finite, not_finite, Point, PointSource, tick, candle, ChartRange,
  one_day, one_week, one_month, three_months, six_months, one_year, three_years, five_years,
}
use algo_trading_system.Chart.Viewport.{
  plot_left, plot_right, plot_top, plot_bottom, PriceDomain, PlotPoint, ChartView,
}

-- The options of `Intl.DateTimeFormat` that the code sets; `none` leaves a field out.
pub data Style : Type 0 where
  numeric two_digit short : Style

pub record DateOptions : Type 0 where
  pub hour : Option Style
  pub minute : Option Style
  pub hour12 : Option Bool
  pub weekday : Option Style
  pub day : Option Style
  pub month : Option Style
  pub year : Option Style

abbrev pub no_options : DateOptions
no_options = record {
  hour = none;
  minute = none;
  hour12 = none;
  weekday = none;
  day = none;
  month = none;
  year = none;
}

-- `Intl` in the time zone of the exchange: a date that is not valid is a `RangeError`, `none` here. A
-- price comes with its number of digits.
pub record Intl : Type 0 where
  pub date_text : DateOptions → Option ℕ → Option Text
  pub currency_text : ℕ → ℤ → Text
  pub fixed_text : ℤ → ℕ → Text
  pub number_text : ℕ → Text

module _ (intl : Intl) where
  unfoldable pub format_price : Number → ℕ → Text
  format_price (finite v) digits = intl.currency_text digits v
  format_price not_finite digits = codes "-"

  abbrev pub format_time : Timestamp → Option Text
  format_time t =
      intl.date_text
        (record no_options { hour = some two_digit; minute = some two_digit; hour12 = some false })
        (date_parse t)

  abbrev pub axis_options : ChartRange → DateOptions
  axis_options one_week = record no_options { weekday = some short; day = some numeric }
  axis_options one_month = record no_options { month = some short; day = some numeric }
  axis_options three_months = record no_options { month = some short; day = some numeric }
  axis_options six_months = record no_options { month = some short; day = some numeric }
  axis_options _ = record no_options { month = some short; year = some two_digit }

  unfoldable pub format_axis_timestamp : Timestamp → ChartRange → Option Text
  format_axis_timestamp t one_day = format_time t
  format_axis_timestamp t range = intl.date_text (axis_options range) (date_parse t)

  abbrev pub hover_time : Timestamp → Option Text
  hover_time t =
      intl.date_text (record no_options { hour = some numeric; minute = some two_digit })
        (date_parse t)

  abbrev pub hover_options : ChartRange → DateOptions
  hover_options one_week = record no_options {
    weekday = some short;
    month = some short;
    day = some numeric;
  }
  hover_options one_year = record no_options {
    month = some short;
    day = some numeric;
    year = some numeric;
  }
  hover_options three_years = record no_options {
    month = some short;
    day = some numeric;
    year = some numeric;
  }
  hover_options five_years = record no_options {
    month = some short;
    day = some numeric;
    year = some numeric;
  }
  hover_options _ = record no_options { month = some short; day = some numeric }

  -- What a range makes of the text of the date and that of the time
  abbrev pub hover_text : ChartRange → Text → Text → Text
  hover_text one_week date time = date ++ codes " · " ++ time ++ codes " ET"
  hover_text _ date time = date

  unfoldable pub format_hover_timestamp : Timestamp → ChartRange → Option Text
  format_hover_timestamp t one_day = Option.map (λ time. time ++ codes " ET") (hover_time t)
  format_hover_timestamp t range = elim (hover_time t) [
    | none ↦ none
    | some time ↦
        Option.map (λ date. hover_text range date time)
          (intl.date_text (hover_options range) (date_parse t))
  ]

  -- `${index ? "L" : "M"} ${point.x.toFixed(2)} ${point.y.toFixed(2)}`
  abbrev pub path_step : Text → PlotPoint → Text
  path_step command p =
      command
      ++ codes " "
      ++ intl.fixed_text p.x p.x_denominator
      ++ codes " "
      ++ intl.fixed_text p.y p.y_denominator

  abbrev pub path_rest : List PlotPoint → Text
  path_rest [] = []
  path_rest (p ∷ ps) = codes " " ++ path_step (codes "L") p ++ path_rest ps

  unfoldable pub build_line_path : List PlotPoint → Text
  build_line_path [] = []
  build_line_path (p ∷ ps) = path_step (codes "M") p ++ path_rest ps

  -- `areaPath`
  unfoldable pub area_path : Text → Text
  area_path [] = []
  area_path (c ∷ cs) =
      (c ∷ cs)
      ++ codes " L "
      ++ intl.number_text plot_right
      ++ codes " "
      ++ intl.number_text plot_bottom
      ++ codes " L "
      ++ intl.number_text plot_left
      ++ codes " "
      ++ intl.number_text plot_bottom
      ++ codes " Z"

-- `hovered`: an index that is out of range gives nothing.
unfoldable pub hovered_point : ChartView → Option ℕ → Option PlotPoint
hovered_point chart none = none
hovered_point chart (some i) = get_elem? chart.points i

-- `activePoint`, with `latest` for `chart.latest`
unfoldable pub active_point : ChartView → Option Point → Option ℕ → Option Point
unfolding hovered_point
active_point chart latest hovered_index = elim (hovered_point chart hovered_index) [
  | none ↦ latest
  | some q ↦ some q.point
]

abbrev pub line_color : ChartView → Text
line_color chart = if chart.upward then codes "#20d6a3" else codes "#fb5a62"

-- `chart.domain.high - chart.domain.low`, a positive number
unfoldable pub domain_width : PriceDomain → ℕ
domain_width d = pos_part (d.high -ℤ d.low)

-- The price of a line of the grid, in thirds
unfoldable pub price_label : PriceDomain → ℕ → ℤ
price_label d index = scale 3 d.high -ℤ scale index (d.high -ℤ d.low)

abbrev pub price_labels : PriceDomain → List ℤ
price_labels d = map (price_label d) (0 ∷ 1 ∷ 2 ∷ 3 ∷ [])

-- The place of a line of the grid, over 3 times the width of the domain
unfoldable pub label_height : PriceDomain → ℤ → ℤ
unfolding domain_width
label_height d label =
    pos (plot_top * (3 * domain_width d))
    +ℤ scale (plot_bottom - plot_top) (scale 3 d.high -ℤ label)

-- `axisPoints`
unfoldable pub axis_points : List PlotPoint → List PlotPoint
axis_points [] = []
axis_points (p ∷ ps) =
    p ∷ get_or (p ∷ ps) (length (p ∷ ps) / 2) p ∷ get_or (p ∷ ps) (length ps) p ∷ []
