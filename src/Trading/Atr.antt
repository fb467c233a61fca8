-- ===== src/Trading/Atr.antt =====
-- services/trading_orchestrator.py: `AtrTracker`. The two dicts of the code are one function from the
-- keys, a symbol and an interval.
use algo_trading_system.Prelude.{
  ℕ, ◌+◌, ◌-◌, ◌≤◌, ◌≡◌, ◌∙◌, ==_iff, arith, refl, ◌&&◌, List, [], ◌∷◌, ◌++◌, Option, none, some,
  ltb, ◌==◌, if◌then◌else◌, max, length,
}
use algo_trading_system.Prelude.Texts.{Text, text_eq, text_eq_refl}
use algo_trading_system.Prelude.Suffixes.{take_last}
use algo_trading_system.MarketData.Calendar.{CandleInterval}
use algo_trading_system.MarketData.CandleEngine.{Candle, interval_index}
use algo_trading_system.Trading.Execution.{AverageTrueRange}

pub record AtrSeries : Type 0 where
  pub previous_close : Option ℕ
  pub ranges : List ℕ

pub record AtrTracker : Type 0 where
  pub period : ℕ
  pub series : Text → CandleInterval → AtrSeries

-- `abs(a - b)`
abbrev pub apart : ℕ → ℕ → ℕ
apart a b = (a - b) + (b - a)

-- The high of a candle is no less than its low.
abbrev pub true_range : Candle → Option ℕ → ℕ
true_range c none = c.high - c.low
true_range c (some close) = max (c.high - c.low) (max (apart c.high close) (apart c.low close))

abbrev pub sum : List ℕ → ℕ
sum [] = 0
sum (n ∷ ns) = n + sum ns

abbrev pub average : ℕ → List ℕ → Option AverageTrueRange
average period ranges =
    if ltb (length ranges) period
    then none
    else some (record { numerator = sum ranges; denominator = length ranges })

unfoldable pub update_atr : Candle → AtrTracker → Option AverageTrueRange × AtrTracker
update_atr c t =
    let before = t.series c.symbol c.interval in
    let ranges = take_last t.period (before.ranges ++ true_range c before.previous_close ∷ []) in
    (
      average t.period ranges,
      record t {
        series = λ symbol interval.
            if text_eq symbol c.symbol && interval_index interval == interval_index c.interval
            then record { previous_close = some c.close; ranges = ranges }
            else t.series symbol interval;
      },
    )

average_full :
    (period : ℕ) (ranges : List ℕ)
    → period ≤ length ranges
    → average period ranges ≡ some (record { numerator = sum ranges; denominator = length ranges })
average_full period ranges h = ground arith

update_atr-ranges :
    (c : Candle) (t : AtrTracker)
    → ((update_atr c t).1.series c.symbol c.interval).ranges
      ≡ take_last t.period (
          (t.series c.symbol c.interval).ranges
          ++ true_range c (t.series c.symbol c.interval).previous_close ∷ [])
unfolding update_atr
update_atr-ranges c t =
    rw
      (
        text_eq_refl c.symbol,
        (==_iff (interval_index c.interval) (interval_index c.interval)).1 refl,
      )
      refl

update_atr-average :
    (c : Candle) (t : AtrTracker)
    → (update_atr c t).0 ≡ average t.period ((update_atr c t).1.series c.symbol c.interval).ranges
update_atr-average c t = rw (update_atr-ranges c t) (unfold update_atr in refl)

-- A full window gives the average of the ranges that it keeps.
pub update_atr_full :
    (c : Candle) (t : AtrTracker)
    → let ranges = ((update_atr c t).1.series c.symbol c.interval).ranges in
      t.period ≤ length ranges
      → (update_atr c t).0 ≡ some (record { numerator = sum ranges; denominator = length ranges })
update_atr_full c t h = update_atr-average c t ∙ average_full t.period _ h
