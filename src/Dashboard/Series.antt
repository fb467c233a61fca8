-- ===== src/Dashboard/Series.antt =====
-- frontend/src/main.jsx, `App`: the series on the chart, the cache of loaded series, and the feed of
-- live ticks, as the two effects and their callbacks change them.
--
-- A load and a socket belong to the run of the effect that began them. The clean-up of an effect
-- aborts its load and closes its socket; a callback that comes later is the event of a load whose
-- `aborted` is true. The clean-up also cancels the timer, so that the timer of an old socket never
-- fires; what an old socket still delivers is not modelled.
pub mod Invariant
pub mod Reach
pub mod Cache
pub mod Races
pub mod Feed
use algo_trading_system.Prelude.{
  ℕ, suc, ◌+◌, Bool, true, false, ◌&&◌, ◌||◌, not, List, [], ◌∷◌, map, Option, none, some, ◌==◌,
  if◌then◌else◌,
}
use algo_trading_system.Prelude.Texts.{Text, text_eq}
use algo_trading_system.Chart.{
  Point, ChartRange, one_day, one_week, one_month, three_months, six_months, one_year, three_years,
  five_years,
}
use algo_trading_system.Chart.Points.{WireTick, point_from_tick, normalize_points}
use algo_trading_system.Chart.Live.{merge_live_point}
use algo_trading_system.Chart.Loader.{
  Message, Failure, abort_error, error, Result, ok, err, SeriesSource, LoadedSeries,
}

-- The text `symbol:range`; no range has a colon, so the text determines both.
pub record CacheKey : Type 0 where
  pub symbol : Text
  pub range : ChartRange

abbrev pub range_index : ChartRange → ℕ
range_index one_day = 0
range_index one_week = 1
range_index one_month = 2
range_index three_months = 3
range_index six_months = 4
range_index one_year = 5
range_index three_years = 6
range_index five_years = 7

unfoldable pub key_eq : CacheKey → CacheKey → Bool
key_eq a b = text_eq a.symbol b.symbol && range_index a.range == range_index b.range

abbrev pub Cache : Type 0
Cache = List (CacheKey × LoadedSeries)

-- `chartCache.current.get` and `.set`
unfoldable pub cache_get : CacheKey → Cache → Option LoadedSeries
cache_get k [] = none
cache_get k ((j, v) ∷ m) = if key_eq j k then some v else cache_get k m

unfoldable pub cache_set : CacheKey → LoadedSeries → Cache → Cache
cache_set k v [] = (k, v) ∷ []
cache_set k v ((j, w) ∷ m) = if key_eq j k then (k, v) ∷ m else (j, w) ∷ cache_set k v m

-- `activeChartRef.current`: its symbol, range and key are set together, or none is.
pub record ActiveChart : Type 0 where
  pub key : Option CacheKey
  pub source : SeriesSource

pub record ChartState : Type 0 where
  pub selected_symbol : Option Text
  pub chart_range : ChartRange
  pub series : List Point
  pub chart_source : SeriesSource
  pub chart_loading : Bool
  pub chart_live : Bool
  pub chart_transition_key : ℕ
  pub load_error : Option Message
  pub chart_cache : Cache
  pub series_ref : List Point
  pub active_chart : ActiveChart
  pub pending_tick : Option Point
  pub flush_timer : Bool

abbrev pub no_active_chart : ActiveChart
no_active_chart = record { key = none; source = SeriesSource.candles }

-- The state before the first effect runs.
abbrev pub initial_chart : ChartState
initial_chart = record {
  selected_symbol = none;
  chart_range = one_day;
  series = [];
  chart_source = SeriesSource.candles;
  chart_loading = false;
  chart_live = false;
  chart_transition_key = 0;
  load_error = none;
  chart_cache = [];
  series_ref = [];
  active_chart = no_active_chart;
  pending_tick = none;
  flush_timer = false;
}

-- `applySeries`, for the run of the effect with this key
unfoldable pub apply_series : CacheKey → LoadedSeries → ChartState → ChartState
apply_series key result s =
    let next = normalize_points (map some result.points) in
    record s {
      series_ref = next;
      active_chart = record { key = some key; source = result.source };
      chart_cache = cache_set key (record { points = next; source = result.source }) s.chart_cache;
      series = next;
      chart_source = result.source;
      chart_transition_key = s.chart_transition_key + 1;
    }

-- The body of the chart effect up to the load, for a selected symbol.
unfoldable pub open_chart : CacheKey → ChartState → ChartState
unfolding apply_series
open_chart key s = elim (cache_get key s.chart_cache) [
  | none ↦ record s { chart_loading = true }
  | some cached ↦ record (apply_series key cached s) { chart_loading = false }
]

unfoldable pub chart_effect : Option Text → ChartState → ChartState
unfolding open_chart
chart_effect none s = record s {
  series_ref = [];
  active_chart = no_active_chart;
  series = [];
  chart_loading = false;
}
chart_effect (some symbol) s = open_chart (record { symbol = symbol; range = s.chart_range }) s

-- The promise of a load: which run of the effect it belongs to, whether that run found its series in
-- the cache, and whether its clean-up has run.
pub record Load : Type 0 where
  pub key : CacheKey
  pub cached : Bool
  pub aborted : Bool

-- `.then`, `.catch` and `.finally`
unfoldable pub finish_load : Load → ChartState → ChartState
finish_load load s = if load.aborted then s else record s { chart_loading = false }

unfoldable pub load_failed : Load → Failure → ChartState → ChartState
load_failed load abort_error s = s
load_failed load (error message) s =
    if load.cached then s else record s { series_ref = []; series = []; load_error = some message }

unfoldable pub settle_load : Load → Result LoadedSeries → ChartState → ChartState
unfolding apply_series finish_load load_failed
settle_load load (ok result) s =
    finish_load load (if load.aborted then s else apply_series load.key result s)
settle_load load (err failure) s = finish_load load (load_failed load failure s)

-- A message of the socket: no JSON, some other event, or a tick of a symbol.
pub data WireMessage : Type 0 where
  malformed other_event : WireMessage
  tick_event : Text → WireTick → WireMessage

unfoldable pub hold_tick : Point → ChartState → ChartState
hold_tick incoming s = record s { pending_tick = some incoming; flush_timer = true }

abbrev pub is_selected : Option Text → Text → Bool
is_selected none symbol = false
is_selected (some t) symbol = text_eq symbol t

-- `socket.onmessage`
unfoldable pub receive : WireMessage → ChartState → ChartState
unfolding hold_tick
receive malformed s = record s { chart_live = false }
receive other_event s = s
receive (tick_event symbol tick) s =
    if is_selected s.selected_symbol symbol
    then elim (point_from_tick tick) [ none ↦ s | some incoming ↦ hold_tick incoming s ]
    else s

-- What `flushTick` does with a tick that waits, once the timer and the tick are cleared.
unfoldable pub flush_into : Option CacheKey → Point → ChartState → ChartState
flush_into none incoming s = s
flush_into (some key) incoming s =
    let next = merge_live_point s.series_ref incoming in
    if is_selected s.selected_symbol key.symbol
    then record s {
      series_ref = next;
      chart_cache =
          cache_set key (record { points = next; source = s.active_chart.source }) s.chart_cache;
      series = next;
    }
    else s

unfoldable pub flush_tick : ChartState → ChartState
unfolding flush_into
flush_tick s =
    let cleared = record s { flush_timer = false; pending_tick = none } in
    elim s.pending_tick [
      | none ↦ cleared
      | some incoming ↦ flush_into s.active_chart.key incoming cleared
    ]

-- The clean-up of the feed effect, and the feed effect itself where no symbol is selected.
unfoldable pub close_feed : ChartState → ChartState
close_feed s = record s { flush_timer = false; pending_tick = none }

unfoldable pub feed_effect : Option Text → ChartState → ChartState
feed_effect none s = record s { chart_live = false }
feed_effect (some symbol) s = s

abbrev pub same_symbol : Option Text → Option Text → Bool
same_symbol none none = true
same_symbol none (some t) = false
same_symbol (some t) none = false
same_symbol (some t) (some u) = text_eq t u

-- A new value of `selectedSymbol` runs both clean-ups and both effects, a new range those of the
-- chart only; the old value runs none.
unfoldable pub select_symbol : Option Text → ChartState → ChartState
unfolding close_feed chart_effect feed_effect
select_symbol symbol s =
    if same_symbol symbol s.selected_symbol
    then s
    else feed_effect symbol
        (chart_effect symbol (record (close_feed s) { selected_symbol = symbol }))

unfoldable pub select_range : ChartRange → ChartState → ChartState
unfolding chart_effect
select_range range s =
    if range_index range == range_index s.chart_range
    then s
    else chart_effect s.selected_symbol (record s { chart_range = range })

pub data ChartEvent : Type 0 where
  symbol_selected : Option Text → ChartEvent
  range_selected : ChartRange → ChartEvent
  load_settled : Load → Result LoadedSeries → ChartEvent
  socket_opened socket_closed timer_fired : ChartEvent
  message_received : WireMessage → ChartEvent

unfoldable pub chart_step : ChartState → ChartEvent → ChartState
chart_step s (symbol_selected symbol) = select_symbol symbol s
chart_step s (range_selected range) = select_range range s
chart_step s (load_settled load result) = settle_load load result s
chart_step s socket_opened = record s { chart_live = true }
chart_step s socket_closed = record s { chart_live = false }
chart_step s timer_fired = if s.flush_timer then flush_tick s else s
chart_step s (message_received message) = receive message s

unfoldable pub chart_run : ChartState → List ChartEvent → ChartState
chart_run s [] = s
chart_run s (e ∷ es) = chart_run (chart_step s e) es
