-- ===== src/MarketData/CandleEngine/Series.antt =====
-- What a candle engine promises for one symbol and one interval: the ticks of the open bucket, and the
-- candle that they make.
use algo_trading_system.Prelude.{
  ℕ, ◌+◌, List, [], ◌∷◌, ◌++◌, true, Option, none, some, ltb, leb, max, min, if◌then◌else◌,
}
use algo_trading_system.Prelude.Texts.{Text, text_eq}
use algo_trading_system.MarketData.{MarketTick}
use algo_trading_system.MarketData.Calendar.{CandleInterval, CandleBucket, ExchangeDays, bucket_for}
use algo_trading_system.MarketData.TickProcessor.{precedes}
use algo_trading_system.MarketData.CandleEngine.{Candle, ActiveCandle, to_candle}
use algo_trading_system.MarketData.CandleEngine.Validity.{EngineCall, tick_arrives, time_passes}

-- A bucket and its ticks, in the order of their arrival.
pub record OpenBar : Type 0 where
  pub bucket : CandleBucket
  pub first : MarketTick
  pub later : List MarketTick

unfoldable pub highest : MarketTick → List MarketTick → ℕ
highest t [] = t.price
highest t (u ∷ us) = max t.price (highest u us)

unfoldable pub lowest : MarketTick → List MarketTick → ℕ
lowest t [] = t.price
lowest t (u ∷ us) = min t.price (lowest u us)

unfoldable pub closing : MarketTick → List MarketTick → ℕ
closing t [] = t.price
closing t (u ∷ us) = closing u us

unfoldable pub traded : MarketTick → List MarketTick → ℕ
traded t [] = t.trade_size
traded t (u ∷ us) = t.trade_size + traded u us

abbrev pub aggregate : CandleInterval → OpenBar → ActiveCandle
aggregate interval bar = record {
  symbol = bar.first.symbol;
  interval = interval;
  bucket = bar.bucket;
  open_price = bar.first.price;
  high = highest bar.first bar.later;
  low = lowest bar.first bar.later;
  close = closing bar.first bar.later;
  volume = traded bar.first bar.later;
}

pub record SeriesState : Type 0 where
  pub watermark : Option ℕ
  pub bar : Option OpenBar

abbrev pub no_ticks : SeriesState
no_ticks = record { watermark = none; bar = none }

abbrev pub open_bar : CandleBucket → MarketTick → OpenBar
open_bar bucket tick = record { bucket = bucket; first = tick; later = [] }

abbrev pub extend : MarketTick → CandleBucket → Option OpenBar → OpenBar
extend tick bucket none = open_bar bucket tick
extend tick bucket (some bar) =
    if ltb bar.bucket.start_at bucket.start_at
    then open_bar bucket tick
    else record bar { later = bar.later ++ tick ∷ [] }

abbrev pub extend_if : MarketTick → Option CandleBucket → Option OpenBar → Option OpenBar
extend_if tick none bar = bar
extend_if tick (some bucket) bar = some (extend tick bucket bar)

abbrev pub unless_ended : ℕ → Option OpenBar → Option OpenBar
unless_ended cutoff none = none
unless_ended cutoff (some bar) = if leb bar.bucket.end_at cutoff then none else some bar

-- A tick that is late, or of another symbol, changes nothing; one outside trading hours raises the
-- watermark only; any other joins the open bar, or opens one if its bucket starts later.
abbrev pub series_step :
    ExchangeDays → Text → CandleInterval → SeriesState → EngineCall → SeriesState
series_step days symbol interval s (tick_arrives tick) =
    if text_eq tick.symbol symbol
    then (if precedes tick.timestamp s.watermark then s else record {
      watermark = some tick.timestamp;
      bar = extend_if tick (bucket_for days tick.timestamp interval) s.bar;
    })
    else s
series_step days symbol interval s (time_passes cutoff) = record s {
  bar = unless_ended cutoff s.bar;
}

unfoldable pub series_run :
    ExchangeDays → Text → CandleInterval → SeriesState → List EngineCall → SeriesState
series_run days symbol interval s [] = s
series_run days symbol interval s (c ∷ cs) =
    series_run days symbol interval (series_step days symbol interval s c) cs

-- What a tick with a bucket ends.
abbrev pub ended_by : CandleInterval → Option CandleBucket → Option OpenBar → List Candle
ended_by i none bar = []
ended_by i (some b) none = []
ended_by i (some b) (some bar) =
    if ltb bar.bucket.start_at b.start_at then to_candle true (aggregate i bar) ∷ [] else []

abbrev pub ended_at : CandleInterval → ℕ → Option OpenBar → List Candle
ended_at i cutoff none = []
ended_at i cutoff (some bar) =
    if leb bar.bucket.end_at cutoff then to_candle true (aggregate i bar) ∷ [] else []

-- The candles that a call completes: that of the open bar, if it ends.
abbrev pub series_completed :
    ExchangeDays → Text → CandleInterval → SeriesState → EngineCall → List Candle
series_completed days symbol interval s (tick_arrives tick) =
    if text_eq tick.symbol symbol
    then (if precedes tick.timestamp s.watermark
        then []
        else ended_by interval (bucket_for days tick.timestamp interval) s.bar)
    else []
series_completed days symbol interval s (time_passes cutoff) = ended_at interval cutoff s.bar
