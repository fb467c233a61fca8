-- ===== src/MarketData/CandleEngine.antt =====
-- market_data/candle_engine.py: `CandleEngine`, and `Candle` of market_data/types.py.
--
-- The lock runs calls one after another, so a call is one step. The key of an active candle is its
-- symbol and its interval, so that the dict of the code is a list of candles here.
pub mod Validity
pub mod Keys
pub mod Removal
pub mod Series
pub mod Aggregation
pub mod Completed
pub mod Intervals
pub mod Matching
pub mod Refinement
use algo_trading_system.Prelude.{
  ℕ, ◌+◌, Bool, true, false, ◌&&◌, List, [], ◌∷◌, ◌++◌, map, Option, none, some, ltb, leb, ◌==◌,
  if◌then◌else◌, filterb, min, max,
}
use algo_trading_system.Prelude.Texts.{Text, text_eq}
use algo_trading_system.Prelude.TextMaps.{TextMap, find, put}
use algo_trading_system.MarketData.{MarketTick}
use algo_trading_system.MarketData.Calendar.{
  CandleInterval, one_minute, two_minutes, three_minutes, five_minutes, ten_minutes,
  fifteen_minutes, thirty_minutes, forty_five_minutes, one_hour, two_hours, four_hours, daily,
  weekly, monthly, CandleBucket, ExchangeDays, bucket_for,
}
use algo_trading_system.MarketData.TickProcessor.{precedes}

pub record Candle : Type 0 where
  pub symbol : Text
  pub interval : CandleInterval
  pub start_at : ℕ
  pub end_at : ℕ
  pub open_price : ℕ
  pub high : ℕ
  pub low : ℕ
  pub close : ℕ
  pub volume : ℕ
  pub is_complete : Bool

pub record ActiveCandle : Type 0 where
  pub symbol : Text
  pub interval : CandleInterval
  pub bucket : CandleBucket
  pub open_price : ℕ
  pub high : ℕ
  pub low : ℕ
  pub close : ℕ
  pub volume : ℕ

unfoldable pub from_tick : MarketTick → CandleInterval → CandleBucket → ActiveCandle
from_tick tick interval bucket = record {
  symbol = tick.symbol;
  interval = interval;
  bucket = bucket;
  open_price = tick.price;
  high = tick.price;
  low = tick.price;
  close = tick.price;
  volume = tick.trade_size;
}

unfoldable pub apply_tick : MarketTick → ActiveCandle → ActiveCandle
apply_tick tick a = record a {
  high = max a.high tick.price;
  low = min a.low tick.price;
  close = tick.price;
  volume = a.volume + tick.trade_size;
}

unfoldable pub to_candle : Bool → ActiveCandle → Candle
to_candle is_complete a = record {
  symbol = a.symbol;
  interval = a.interval;
  start_at = a.bucket.start_at;
  end_at = a.bucket.end_at;
  open_price = a.open_price;
  high = a.high;
  low = a.low;
  close = a.close;
  volume = a.volume;
  is_complete = is_complete;
}

abbrev pub interval_index : CandleInterval → ℕ
interval_index one_minute = 0
interval_index two_minutes = 1
interval_index three_minutes = 2
interval_index five_minutes = 3
interval_index ten_minutes = 4
interval_index fifteen_minutes = 5
interval_index thirty_minutes = 6
interval_index forty_five_minutes = 7
interval_index one_hour = 8
interval_index two_hours = 9
interval_index four_hours = 10
interval_index daily = 11
interval_index weekly = 12
interval_index monthly = 13

abbrev pub has_key : Text → CandleInterval → ActiveCandle → Bool
has_key symbol interval a =
    text_eq a.symbol symbol && interval_index a.interval == interval_index interval

-- `self._active.get(key)`, `self._active[key] = active` and `del self._active[key]`
unfoldable pub get_active : Text → CandleInterval → List ActiveCandle → Option ActiveCandle
get_active symbol interval [] = none
get_active symbol interval (a ∷ m) =
    if has_key symbol interval a then some a else get_active symbol interval m

unfoldable pub set_active : ActiveCandle → List ActiveCandle → List ActiveCandle
set_active new [] = new ∷ []
set_active new (a ∷ m) =
    let rest = set_active new m in if has_key new.symbol new.interval a then new ∷ m else a ∷ rest

unfoldable pub delete_active : Text → CandleInterval → List ActiveCandle → List ActiveCandle
delete_active symbol interval [] = []
delete_active symbol interval (a ∷ m) =
    let rest = delete_active symbol interval m in if has_key symbol interval a then m else a ∷ rest

-- The active candles and the two lists that the loop over the intervals builds.
pub record Progress : Type 0 where
  pub active : List ActiveCandle
  pub updated : List Candle
  pub completed : List Candle

unfoldable pub keep_active : ActiveCandle → Progress → Progress
keep_active a p = record p {
  active = set_active a p.active;
  updated = p.updated ++ to_candle false a ∷ [];
}

unfoldable pub take_tick : MarketTick → CandleInterval → CandleBucket → Progress → Progress
unfolding keep_active
take_tick tick interval bucket p = elim (get_active tick.symbol interval p.active) [
  | none ↦ keep_active (from_tick tick interval bucket) p
  | some a ↦
      if ltb a.bucket.start_at bucket.start_at
      then keep_active (from_tick tick interval bucket)
          (record p { completed = p.completed ++ to_candle true a ∷ [] })
      else keep_active (apply_tick tick a) p
]

unfoldable pub take_intervals :
    ExchangeDays → MarketTick → List CandleInterval → Progress → Progress
take_intervals days tick [] p = p
take_intervals days tick (interval ∷ rest) p = elim (bucket_for days tick.timestamp interval) [
  | none ↦ take_intervals days tick rest p
  | some bucket ↦ take_intervals days tick rest (take_tick tick interval bucket p)
]

pub data IgnoredReason : Type 0 where
  timestamp_precedes_symbol_watermark outside_regular_trading_session : IgnoredReason

pub record CandleUpdate : Type 0 where
  pub updated : List Candle
  pub completed : List Candle
  pub ignored : Option IgnoredReason

pub record CandleEngine : Type 0 where
  pub intervals : List CandleInterval
  pub active : List ActiveCandle
  pub latest_timestamp_by_symbol : TextMap ℕ

-- `CandleEngine.__init__`
abbrev pub new_engine : List CandleInterval → CandleEngine
new_engine intervals = record {
  intervals = intervals;
  active = [];
  latest_timestamp_by_symbol = [];
}

-- A tick that updates no candle has completed none either.
abbrev pub update_of : List Candle → List Candle → CandleUpdate
update_of [] completed = record {
  updated = [];
  completed = [];
  ignored = some outside_regular_trading_session;
}
update_of (c ∷ cs) completed = record { updated = c ∷ cs; completed = completed; ignored = none }

abbrev pub late_update : CandleUpdate
late_update = record {
  updated = [];
  completed = [];
  ignored = some timestamp_precedes_symbol_watermark;
}

unfoldable pub process_tick : ExchangeDays → MarketTick → CandleEngine → CandleUpdate × CandleEngine
process_tick days tick s =
    let p =
      take_intervals days tick s.intervals
        (record { active = s.active; updated = []; completed = [] }) in
    if precedes tick.timestamp (find tick.symbol s.latest_timestamp_by_symbol)
    then (late_update, s)
    else (
      update_of p.updated p.completed,
      record s {
        active = p.active;
        latest_timestamp_by_symbol = put tick.symbol tick.timestamp s.latest_timestamp_by_symbol;
      },
    )

unfoldable pub delete_completed : List Candle → List ActiveCandle → List ActiveCandle
delete_completed [] m = m
delete_completed (c ∷ cs) m = delete_completed cs (delete_active c.symbol c.interval m)

unfoldable pub finalize_through : ℕ → CandleEngine → CandleUpdate × CandleEngine
finalize_through cutoff s =
    let completed = map (to_candle true) (filterb (λ a. leb a.bucket.end_at cutoff) s.active) in
    (
      record { updated = []; completed = completed; ignored = none },
      record s { active = delete_completed completed s.active },
    )
