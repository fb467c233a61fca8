-- ===== src/MarketData/CandleHistory.antt =====
-- market_data/candle_history.py: `HistoricalCandleService`, and `HistoricalCandleRequest` of
-- market_data/types.py.
--
-- What the provider answers to the request is an argument.
pub mod Fallback
use algo_trading_system.Prelude.{
  ℕ, Bool, true, false, ◌&&◌, ◌||◌, not, List, [], ◌∷◌, Option, none, some, ltb, leb, ◌==◌,
  if◌then◌else◌, filterb,
}
use algo_trading_system.Prelude.Texts.{Text, text_eq}
use algo_trading_system.MarketData.{MarketTick}
use algo_trading_system.MarketData.Calendar.{CandleInterval, ExchangeDays}
use algo_trading_system.MarketData.CandleEngine.{
  Candle, CandleEngine, interval_index, process_tick, finalize_through, new_engine,
}

pub record HistoricalCandleRequest : Type 0 where
  pub symbol : Text
  pub interval : CandleInterval
  pub start_at : ℕ
  pub end_at : ℕ

pub data HistoricalCandleSource : Type 0 where
  provider tick_aggregation : HistoricalCandleSource

pub record HistoricalCandleResult : Type 0 where
  pub candles : List Candle
  pub source : HistoricalCandleSource

abbrev pub is_within : HistoricalCandleRequest → Candle → Bool
is_within request c = leb request.start_at c.start_at && leb c.end_at request.end_at

abbrev pub is_requested : HistoricalCandleRequest → Candle → Bool
is_requested request c =
    text_eq c.symbol request.symbol && interval_index c.interval == interval_index request.interval

-- `sorted(fallback_ticks, key=lambda item: item.timestamp)`
unfoldable pub insert_tick : MarketTick → List MarketTick → List MarketTick
insert_tick t [] = t ∷ []
insert_tick t (u ∷ us) = if leb t.timestamp u.timestamp then t ∷ u ∷ us else u ∷ insert_tick t us

unfoldable pub sort_ticks : List MarketTick → List MarketTick
sort_ticks [] = []
sort_ticks (t ∷ ts) = insert_tick t (sort_ticks ts)

abbrev pub serves : HistoricalCandleRequest → MarketTick → Bool
serves request tick =
    text_eq request.symbol tick.symbol
    && leb request.start_at tick.timestamp
    && ltb tick.timestamp request.end_at

-- The loop over the sorted ticks, which keeps nothing of what `process_tick` returns.
unfoldable pub feed_ticks :
    ExchangeDays → HistoricalCandleRequest → List MarketTick → CandleEngine → CandleEngine
feed_ticks days request [] s = s
feed_ticks days request (tick ∷ ticks) s =
    feed_ticks days request ticks (if serves request tick then (process_tick days tick s).1 else s)

unfoldable pub aggregate_fallback_ticks :
    ExchangeDays → HistoricalCandleRequest → List MarketTick → HistoricalCandleResult
unfolding feed_ticks
aggregate_fallback_ticks days request ticks =
    let fed = feed_ticks days request (sort_ticks ticks) (new_engine (request.interval ∷ [])) in
    let completed = (finalize_through request.end_at fed).0.completed in
    record {
      candles = filterb (λ c. is_requested request c && is_within request c) completed;
      source = tick_aggregation;
    }

-- `list(candles) == sorted(candles, key=…)`: a stable sort changes exactly the lists with a candle that
-- starts before the one in front of it.
unfoldable pub is_sorted : List Candle → Bool
is_sorted [] = true
is_sorted (c ∷ []) = true
is_sorted (c ∷ d ∷ ds) = leb c.start_at d.start_at && is_sorted (d ∷ ds)

-- `none` is the error of a candle that was not asked for or is not complete.
unfoldable pub keep_complete : HistoricalCandleRequest → List Candle → Option (List Candle)
keep_complete request [] = some []
keep_complete request (c ∷ cs) =
    let rest = keep_complete request cs in
    if not (is_requested request c) || not c.is_complete then none else elim rest [
      | none ↦ none
      | some kept ↦ some (if is_within request c then c ∷ kept else kept)
    ]

unfoldable pub complete_provider_candles :
    HistoricalCandleRequest → List Candle → Option (List Candle)
unfolding keep_complete
complete_provider_candles request candles =
    if is_sorted candles then keep_complete request candles else none

abbrev pub provider_or : List Candle → HistoricalCandleResult → HistoricalCandleResult
provider_or [] fallback = fallback
provider_or (c ∷ cs) fallback = record { candles = c ∷ cs; source = provider }

-- An empty answer of the provider needs no validation: it is sorted, and nothing of it is kept.
unfoldable pub get_candles :
    ExchangeDays
    → HistoricalCandleRequest
    → List Candle
    → List MarketTick
    → Option HistoricalCandleResult
unfolding complete_provider_candles aggregate_fallback_ticks
get_candles days request answer ticks = elim (complete_provider_candles request answer) [
  | none ↦ none
  | some candles ↦ some (provider_or candles (aggregate_fallback_ticks days request ticks))
]
