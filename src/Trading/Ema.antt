-- ===== src/Trading/Ema.antt =====
-- strategies/ema_crossover.py: `EmaCrossoverStrategy`, as a `Strategy` of the engine.
--
-- The Decimal type of Python is a parameter with its operations, which here raise no exception; so is the
-- text of a number. The settings have passed their validation.
pub mod Reference
pub mod Crossings
use algo_trading_system.Prelude.{
  ℕ, suc, ◌+◌, ◌*◌, Bool, true, false, ◌&&◌, ◌||◌, not, List, [], ◌∷◌, ◌++◌, Option, none, some,
  ltb, leb, ◌==◌, if◌then◌else◌,
}
use algo_trading_system.Prelude.Texts.{Text, codes, text_eq}
use algo_trading_system.MarketData.Calendar.{CandleInterval}
use algo_trading_system.MarketData.CandleEngine.{Candle, interval_index}
use algo_trading_system.Trading.{StrategyDirection, buy, sell, exit, hold, StrategySignalIntent}
use algo_trading_system.Trading.Strategies.{Strategy}

-- Python's `Decimal` with the operations that the strategy calls; an amount counts units of 1e-8.
pub record Decimals {ℓ} (D : Type ℓ) : Type ℓ where
  pub of_amount : ℕ → D
  pub of_ℕ : ℕ → D
  pub plus : D → D → D
  pub minus : D → D → D
  pub times : D → D → D
  pub divided_by : D → D → D
  pub absolute : D → D
  pub is_le : D → D → Bool
  pub is_lt : D → D → Bool
  -- `quantize(Decimal("0.001"), rounding=ROUND_HALF_UP)`, in thousandths
  pub thousandths : D → ℕ

-- A confidence counts units of 1e-4; the two limits are also there as decimals.
pub record EmaCrossoverSettings {ℓ} (D : Type ℓ) : Type ℓ where
  pub name : Text
  pub symbol : Text
  pub interval : CandleInterval
  pub fast_period : ℕ
  pub slow_period : ℕ
  pub long_only : Bool
  pub base_confidence : ℕ
  pub base_confidence_decimal : D
  pub confidence_sensitivity : D
  pub max_confidence : D

pub record EmaState {ℓ} (D : Type ℓ) : Type ℓ where
  pub fast_ema : Option D
  pub slow_ema : Option D
  pub previous_spread : Option D
  pub completed_candles : ℕ
  pub last_candle_end : Option ℕ
  pub pending_intent : Option StrategySignalIntent

abbrev pub no_history {ℓ} : {D : Type ℓ} → EmaState D
no_history = record {
  fast_ema = none;
  slow_ema = none;
  previous_spread = none;
  completed_candles = 0;
  last_candle_end = none;
  pending_intent = none;
}

module _ {ℓ} {D : Type ℓ} (d : Decimals D) (str : ℕ → Text)
    (settings : EmaCrossoverSettings D) where
  unfoldable pub next_ema : Option D → ℕ → ℕ → D
  next_ema none close period = d.of_amount close
  next_ema (some previous) close period =
      d.plus
        (d.times (d.minus (d.of_amount close) previous)
          (d.divided_by (d.of_ℕ 2) (d.of_ℕ (period + 1))))
        previous

  -- `previous_spread <= 0 < current` and `previous_spread >= 0 > current`
  abbrev pub crosses_up : D → D → Bool
  crosses_up previous current = d.is_le previous (d.of_ℕ 0) && d.is_lt (d.of_ℕ 0) current

  abbrev pub crosses_down : D → D → Bool
  crosses_down previous current = d.is_le (d.of_ℕ 0) previous && d.is_lt current (d.of_ℕ 0)

  unfoldable pub cross_direction : Option D → D → Option StrategyDirection
  cross_direction none current = none
  cross_direction (some previous) current =
      if crosses_up previous current
      then some buy
      else (if crosses_down previous current
          then some (if settings.long_only then exit else sell)
          else none)

  -- In units of 1e-4
  unfoldable pub confidence_of : ℕ → D → ℕ
  confidence_of close spread =
      let confidence = d.plus settings.base_confidence_decimal (
        d.times (d.divided_by (d.absolute spread) (d.of_amount close))
          settings.confidence_sensitivity) in
      10
      * d.thousandths (
          if d.is_lt settings.max_confidence confidence
          then settings.max_confidence
          else confidence)

  abbrev pub hold_intent : Candle → Text → StrategySignalIntent
  hold_intent c reason = record {
    symbol = c.symbol;
    timestamp = c.end_at;
    strategy = settings.name;
    direction = hold;
    confidence = settings.base_confidence;
    reason = reason;
  }

  abbrev pub crossover_intent : Candle → StrategyDirection → D → StrategySignalIntent
  crossover_intent c direction spread = record {
    symbol = c.symbol;
    timestamp = c.end_at;
    strategy = settings.name;
    direction = direction;
    confidence = confidence_of c.close spread;
    reason =
        codes "EMA "
        ++ str settings.fast_period
        ++ codes "/"
        ++ str settings.slow_period
        ++ codes " crossover";
  }

  -- `_last_candle_end is not None and candle.end_at <= _last_candle_end`
  abbrev pub ends_by_last : Candle → Option ℕ → Bool
  ends_by_last c none = false
  ends_by_last c (some last) = leb c.end_at last

  -- The guard of `on_candle`
  unfoldable pub is_skipped : Candle → Option ℕ → Bool
  is_skipped c last =
      not c.is_complete
      || not (text_eq c.symbol settings.symbol)
      || not (interval_index c.interval == interval_index settings.interval)
      || ends_by_last c last

  -- The intent for a candle once the averages and the count have moved on
  unfoldable pub intent_for : Candle → ℕ → Option D → D → StrategySignalIntent
  unfolding cross_direction
  intent_for c count previous spread =
      if leb count settings.slow_period
      then hold_intent c (codes "warming_up")
      else elim (cross_direction previous spread) [
        | none ↦ hold_intent c (codes "no_ema_crossover")
        | some direction ↦ crossover_intent c direction spread
      ]

  unfoldable pub ema_on_candle : Candle → EmaState D → EmaState D
  unfolding next_ema intent_for
  ema_on_candle c s =
      let fast = next_ema s.fast_ema c.close settings.fast_period in
      let slow = next_ema s.slow_ema c.close settings.slow_period in
      let spread = d.minus fast slow in
      if is_skipped c s.last_candle_end then record s { pending_intent = none } else record {
        fast_ema = some fast;
        slow_ema = some slow;
        previous_spread = some spread;
        completed_candles = suc s.completed_candles;
        last_candle_end = some c.end_at;
        pending_intent = some (intent_for c (suc s.completed_candles) s.previous_spread spread);
      }

  abbrev pub ema_generate_signal : EmaState D → Option (Option StrategySignalIntent) × EmaState D
  ema_generate_signal s = (some s.pending_intent, record s { pending_intent = none })

  -- No method of the strategy raises; a tick is ignored.
  abbrev pub ema_strategy : Strategy (EmaState D)
  ema_strategy = record {
    name = settings.name;
    state = no_history;
    initialize = λ s. (true, no_history);
    on_tick = λ t s. (true, s);
    on_candle = λ c s. (true, ema_on_candle c s);
    generate_signal = ema_generate_signal;
    reset = λ s. (true, no_history);
  }
