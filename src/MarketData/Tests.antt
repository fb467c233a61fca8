-- ===== src/MarketData/Tests.antt =====
-- Streams of ticks of two symbols and days of an exchange, and the theorems about the intake at them.
use mathlib.Core.Option
use algo_trading_system.Prelude.{
  ℕ, ◌+◌, ◌*◌, ◌/◌, ◌%◌, ◌<◌, ◌≤◌, ◌≡◌, ◌⊎◌, ◌&&◌, refl, true, List, [], ◌∷◌, map, length, Option,
  none, some, arith, ltb, leb, All, if◌then◌else◌,
}
use algo_trading_system.Prelude.Texts.{Text, codes, text_eq}
use algo_trading_system.Prelude.TextMaps.{find, put}
use algo_trading_system.Prelude.Samples.{IsSample}
use algo_trading_system.Prelude.Int.{◌-ℤ◌, ◌*ℤ◌}
use algo_trading_system.Prelude.Suffixes.{take_last}
use algo_trading_system.MarketData.{MarketTick}
use algo_trading_system.MarketData.Calendar.{
  CandleBucket, ExchangeDays, one_minute, weekly, intraday_bucket, bucket_for,
}
use algo_trading_system.MarketData.Calendar.Buckets.{
  IsExchange, HoldsInstant, bucket_for-HoldsInstant,
}
use algo_trading_system.MarketData.CandleEngine.{
  Candle, new_engine, finalize_through, process_tick, take_intervals, take_tick, get_active,
  set_active, from_tick, to_candle,
}
use algo_trading_system.MarketData.CandleHistory.{
  HistoricalCandleRequest, insert_tick, sort_ticks, aggregate_fallback_ticks,
}
use algo_trading_system.MarketData.CandleHistory.Fallback.{length-aggregate_fallback_ticks}
use algo_trading_system.MarketData.CandleEngine.Series.{no_ticks, series_run, series_completed}
use algo_trading_system.MarketData.CandleEngine.Completed.{of_key}
use algo_trading_system.MarketData.CandleEngine.Aggregation.{open_candle}
use algo_trading_system.MarketData.CandleEngine.Refinement.{engine_run-series_run}
use algo_trading_system.MarketData.CandleEngine.Validity.{
  IsValid, EngineCall, tick_arrives, time_passes, engine_step, engine_run, engine_step-IsValid,
}
use algo_trading_system.MarketData.CandleStore.{
  InMemoryCandleStore, new_candle_store, upsert, upsert_all, latest_candle, list_candles,
  put_candle, trim, delete_oldest, least_start, delete_candle, sort_candles, insert_candle,
}
use algo_trading_system.MarketData.CandleStore.Answers.{
  IsUpserted, upsert-IsUpserted, IsCandleAnswer, candle_store_answers,
}
use algo_trading_system.MarketData.TickChart.{
  downsample_ticks, downsample, select_ticks, choose_index, choose_largest, consider,
  candidate_start, candidate_end, floor_width, average_bucket, area, area_at,
}
use algo_trading_system.MarketData.TickChart.Downsample.{downsample_ticks-IsSample}
use algo_trading_system.MarketData.TickChart.Triangles.{IsFirstLargest, choose_index-IsFirstLargest}
use algo_trading_system.MarketData.TickStore.{ticks_of, append, TickFilter, list_ticks}
use algo_trading_system.MarketData.TickProcessor.{process, consume}
use algo_trading_system.MarketData.TickProcessor.Feed.{IsFeed, new_processor, consume-IsFeed}
use algo_trading_system.MarketData.TickProcessor.Answers.{IsAnswer, list_ticks-IsAnswer}

abbrev tick_at : Text → ℕ → ℕ → MarketTick
tick_at symbol t price = record {
  timestamp = t;
  received_at = t;
  symbol = symbol;
  exchange = codes "V";
  price = price;
  bid = price;
  ask = price;
  volume = 0;
  trade_size = 1;
  conditions = [];
}

abbrev a : Text
a = codes "A"

abbrev b : Text
b = codes "B"

abbrev stream : List MarketTick
stream = tick_at a 10 5 ∷ tick_at b 30 7 ∷ tick_at a 40 6 ∷ tick_at a 20 9 ∷ tick_at a 50 8 ∷ []

abbrev same : Text → Text
same t = t

-- The late tick is dropped, and of the other three of the symbol the last two are kept.
stream_stored :
    ticks_of a (consume (new_processor 2) stream).store ≡ tick_at a 40 6 ∷ tick_at a 50 8 ∷ []
unfolding consume process append ticks_of find put take_last text_eq
stream_stored = refl

consume-IsFeed_example :
    IsFeed 2 a
      (find a (consume (new_processor 2) stream).latest_timestamp_by_symbol)
      (ticks_of a (consume (new_processor 2) stream).store)
consume-IsFeed_example = consume-IsFeed 2 stream a (omega arith)

abbrev recent : TickFilter
recent = record { start_at = some 15; end_at = none; limit = some 1 }

list_ticks-IsAnswer_example :
    (r : List MarketTick) × (list_ticks same a recent (consume (new_processor 2) stream).store
      ≡ some r)
    × IsAnswer a recent r
list_ticks-IsAnswer_example = list_ticks-IsAnswer same 2 stream a recent (omega arith) (λ e. cc)

-- An exchange that is open from the 100th to the 200th second of every day of 1000 seconds, with months
-- of one day.
abbrev second : ℕ
second = 1_000_000

abbrev session_of : ℕ → Option ℕ
session_of t =
    if leb (100 * second) (t % (1000 * second)) && ltb (t % (1000 * second)) (200 * second)
    then some (t / (1000 * second))
    else none

abbrev days : ExchangeDays
days = record {
  session_at = session_of;
  session_open = λ d. (d * 1000 + 100) * second;
  session_close = λ d. (d * 1000 + 200) * second;
  next_session = λ d. d;
  previous_session = λ d. d;
  weekday = λ d. d % 7;
  month_start = λ d. d;
  month_end = λ d. d;
}

session_of_bounds :
    (t s : ℕ)
    → session_of t ≡ some s
    → ((s * 1000 + 100) * second ≤ t) × (t < (s * 1000 + 200) * second)
session_of_bounds t s e = ground arith

days-IsExchange : IsExchange days
days-IsExchange = record {
  opened = λ t s e. (session_of_bounds t s e).0;
  not_closed = λ t s e. (session_of_bounds t s e).1;
  open_order = λ r s h. omega arith;
  close_order = λ r s h. omega arith;
  next = λ t s d e h. h;
  previous = λ t s d e h. h;
  in_week = λ s. omega arith;
  month_begun = λ s. omega arith;
  month_ends = λ s. omega arith;
}

-- 170 s into day 3, that is 70 s after the opening: the second minute of trading.
abbrev instant : ℕ
instant = 3170 * second

abbrev second_minute : CandleBucket
second_minute = record { start_at = 3160 * second; end_at = 3200 * second }

second_minute_found : bucket_for days instant one_minute ≡ some second_minute
unfolding bucket_for intraday_bucket
second_minute_found = refl

bucket_for-HoldsInstant_example :
    ((days.session_at instant ≡ none) × (bucket_for days instant weekly ≡ none))
    ⊎ ((b : CandleBucket) × (bucket_for days instant weekly ≡ some b) × HoldsInstant instant b)
bucket_for-HoldsInstant_example = bucket_for-HoldsInstant days instant weekly days-IsExchange

abbrev calls : List EngineCall
calls =
    tick_arrives (tick_at a instant 5)
    ∷ tick_arrives (tick_at a (3172 * second) 9)
    ∷ time_passes (3100 * second)
    ∷ []

engine_step-IsValid_example :
    All IsValid
      (engine_step days
        (engine_run days (new_engine (one_minute ∷ [])) calls)
        (time_passes (3300 * second))).0.updated
    × All IsValid
        (engine_step days
          (engine_run days (new_engine (one_minute ∷ [])) calls)
          (time_passes (3300 * second))).0.completed
engine_step-IsValid_example =
    engine_step-IsValid days (one_minute ∷ []) calls (time_passes (3300 * second)) days-IsExchange

-- The hour from 3100 s to 6700 s, in which the first two minutes of day 3 are traded.
abbrev first_hour : HistoricalCandleRequest
first_hour = record {
  symbol = a;
  interval = one_minute;
  start_at = 3100 * second;
  end_at = 6700 * second;
}

length-aggregate_fallback_ticks_example :
    length
      (aggregate_fallback_ticks days first_hour
        (tick_at a (3110 * second) 5 ∷ tick_at a instant 6 ∷ [])).candles
    ≤ 1
length-aggregate_fallback_ticks_example =
    length-aggregate_fallback_ticks days first_hour
      (tick_at a (3110 * second) 5 ∷ tick_at a instant 6 ∷ [])

-- Of the two minutes only the second is given out.
fallback_loses_minute :
    map
      (λ (c : Candle). c.start_at)
      (aggregate_fallback_ticks days first_hour
        (tick_at a (3110 * second) 5 ∷ tick_at a instant 6 ∷ [])).candles
    ≡ 3160 * second ∷ []
unfolding aggregate_fallback_ticks finalize_through sort_ticks insert_tick text_eq process_tick find
    put take_intervals bucket_for take_tick get_active set_active from_tick intraday_bucket
    to_candle
fallback_loses_minute = refl

-- Two intervals, two symbols, a late tick and the end of a minute.
abbrev minutes_calls : List EngineCall
minutes_calls =
    tick_arrives (tick_at a (3110 * second) 5)
    ∷ tick_arrives (tick_at b (3111 * second) 90)
    ∷ tick_arrives (tick_at a (3165 * second) 7)
    ∷ tick_arrives (tick_at a (3120 * second) 1)
    ∷ tick_arrives (tick_at a (3170 * second) 4)
    ∷ []

engine_run-series_run_example :
    (get_active a one_minute
        (engine_run days (new_engine (weekly ∷ one_minute ∷ [])) minutes_calls).active
      ≡ open_candle one_minute (series_run days a one_minute no_ticks minutes_calls).bar)
    × (of_key a one_minute
          (engine_step days
            (engine_run days (new_engine (weekly ∷ one_minute ∷ [])) minutes_calls)
            (time_passes (3200 * second))).0.completed
        ≡ series_completed days a one_minute
            (series_run days a one_minute no_ticks minutes_calls)
            (time_passes (3200 * second)))
engine_run-series_run_example =
    engine_run-series_run days one_minute (weekly ∷ []) [] a minutes_calls
      (time_passes (3200 * second)) (refl, tt) tt

-- The bar of the second minute holds the two ticks of it that came in order.
minute_bar :
    (series_run days a one_minute no_ticks minutes_calls).bar
    ≡ some (record {
      bucket = second_minute;
      first = tick_at a (3165 * second) 7;
      later = tick_at a (3170 * second) 4 ∷ [];
    })
unfolding series_run bucket_for intraday_bucket text_eq
minute_bar = refl

abbrev candle_at : ℕ → ℕ → Candle
candle_at start close = record {
  symbol = a;
  interval = one_minute;
  start_at = start;
  end_at = start + 60;
  open_price = close;
  high = close;
  low = close;
  close = close;
  volume = 1;
  is_complete = true;
}

-- The second candle comes late, and the last one replaces the first.
abbrev candles : List Candle
candles = candle_at 120 5 ∷ candle_at 60 7 ∷ candle_at 180 6 ∷ candle_at 120 9 ∷ []

abbrev two_kept : InMemoryCandleStore
two_kept = record { max_candles_per_series = 2; candles = λ symbol interval. [] }

candles_kept :
    Option.map (λ s. list_candles same a one_minute 0 300 s) (upsert_all candles two_kept)
    ≡ some (candle_at 120 9 ∷ candle_at 180 6 ∷ [])
unfolding upsert_all upsert put_candle trim delete_oldest least_start delete_candle list_candles
    sort_candles insert_candle text_eq
candles_kept = refl

upsert-IsUpserted_example :
    (t : InMemoryCandleStore) × (upsert (candle_at 60 7) two_kept ≡ some t)
    × IsUpserted (candle_at 60 7) two_kept t
upsert-IsUpserted_example = upsert-IsUpserted (candle_at 60 7) two_kept

candle_store_answers_example :
    (s t : InMemoryCandleStore) × (new_candle_store 2 ≡ some s)
    × (upsert_all candles s ≡ some t)
    × IsCandleAnswer 2 a one_minute 100 300
        (latest_candle same a one_minute t)
        (list_candles same a one_minute 100 300 t)
candle_store_answers_example = candle_store_answers same 1 candles a one_minute 100 300

-- Five ticks with a jump at the fourth.
abbrev ticks : List MarketTick
ticks = tick_at a 10 5 ∷ tick_at a 20 5 ∷ tick_at a 30 6 ∷ tick_at a 40 20 ∷ tick_at a 50 6 ∷ []

ticks_drawn :
    downsample_ticks ticks 3 ≡ some (tick_at a 10 5 ∷ tick_at a 40 20 ∷ tick_at a 50 6 ∷ [])
unfolding downsample_ticks downsample select_ticks choose_index choose_largest consider
    candidate_start candidate_end floor_width average_bucket area ◌-ℤ◌ ◌*ℤ◌
ticks_drawn = refl

downsample_ticks-IsSample_example :
    (sample : List MarketTick) × (downsample_ticks ticks 3 ≡ some sample) × IsSample ticks 3 sample
downsample_ticks-IsSample_example = downsample_ticks-IsSample ticks 3 (omega arith)

choose_index-IsFirstLargest_example :
    IsFirstLargest
      (area_at ticks (tick_at a 10 5) 3 0 0)
      (candidate_start 5 3 0)
      (candidate_end 5 3 0)
      (choose_index ticks (tick_at a 10 5) 3 0 0)
choose_index-IsFirstLargest_example =
    choose_index-IsFirstLargest ticks (tick_at a 10 5) 3 0 0 (omega arith) (omega arith)
      (omega arith)
