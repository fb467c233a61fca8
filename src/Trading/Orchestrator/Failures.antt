-- ===== src/Trading/Orchestrator/Failures.antt =====
-- Where the handling of a completed candle fails.
use algo_trading_system.Prelude.{
  ℕ, ◌%◌, ◌≡◌, ◌≢◌, refl, ◌≤◌, length, true, false, List, ◌∷◌, some, arith,
}
use algo_trading_system.Prelude.Texts.{Text}
use algo_trading_system.ControlPlane.{RiskPolicy}
use algo_trading_system.Trading.{StrategyDirection, buy, sell, exit, hold, StrategySignalIntent}
use algo_trading_system.MarketData.CandleEngine.{Candle}
use algo_trading_system.Trading.Atr.{AtrTracker, sum, update_atr, update_atr_full}
use algo_trading_system.Trading.Risk.{opens_position}
use algo_trading_system.Trading.Execution.{
  Broker, OrderKey, AverageTrueRange, is_valid_atr, portfolio, risk_context,
}
use algo_trading_system.Trading.Orchestrator.{
  TradingState, failed, enter, by_direction, handle_intent, handle_intents,
  evaluate_completed_candle,
}

module _ (broker : Broker) (digest : OrderKey → Text) where
  not_whole : (a : AverageTrueRange) → a.numerator % a.denominator ≢ 0 → is_valid_atr a ≡ false
  not_whole a h = ground arith

  enter_not_whole :
      (policy : RiskPolicy) (intent : StrategySignalIntent) (close : ℕ) (a : AverageTrueRange)
      (s : TradingState)
      → a.numerator % a.denominator ≢ 0
      → let after = enter broker digest policy intent close a s in
        (after.0 ≡ failed)
        × (after.1.execution.calls ≡ s.execution.calls)
        × (after.1.signals ≡ s.signals)
  unfolding enter risk_context portfolio
  enter_not_whole policy intent close a s h = rw (not_whole a h, enter) (refl, refl, refl)

  by_direction_not_whole :
      (d : StrategyDirection) (policy : RiskPolicy) (intent : StrategySignalIntent) (close : ℕ)
      (a : AverageTrueRange) (s : TradingState)
      → opens_position d ≡ true
      → a.numerator % a.denominator ≢ 0
      → let after = by_direction broker digest d policy intent close (some a) s in
        (after.0 ≡ failed)
        × (after.1.execution.calls ≡ s.execution.calls)
        × (after.1.signals ≡ s.signals)
  by_direction_not_whole buy policy intent close a s o h = enter_not_whole policy intent close a s h
  by_direction_not_whole sell policy intent close a s o h =
      enter_not_whole policy intent close a s h
  by_direction_not_whole exit policy intent close a s o h = cc
  by_direction_not_whole hold policy intent close a s o h = cc

  handle_intent_not_whole :
      (policy : RiskPolicy) (intent : StrategySignalIntent) (close : ℕ) (a : AverageTrueRange)
      (s : TradingState)
      → opens_position intent.direction ≡ true
      → a.numerator % a.denominator ≢ 0
      → let after = handle_intent broker digest policy intent close (some a) s in
        (after.0 ≡ failed)
        × (after.1.execution.calls ≡ s.execution.calls)
        × (after.1.signals ≡ s.signals)
  unfolding handle_intent
  handle_intent_not_whole policy intent close a s opens h =
      by_direction_not_whole intent.direction policy intent close a s opens h

  handle_intents_not_whole :
      (policy : RiskPolicy) (intent : StrategySignalIntent) (intents : List StrategySignalIntent)
      (close : ℕ) (a : AverageTrueRange) (s : TradingState)
      → opens_position intent.direction ≡ true
      → a.numerator % a.denominator ≢ 0
      → let after = handle_intents broker digest policy close (some a) (intent ∷ intents) s in
        (after.0 ≡ failed)
        × (after.1.execution.calls ≡ s.execution.calls)
        × (after.1.signals ≡ s.signals)
  unfolding handle_intents
  handle_intents_not_whole policy intent intents close a s opens h =
      let (f, c, g) = handle_intent_not_whole policy intent close a s opens h in
      rw (f, handle_intents) (refl, c, g)

  -- When the window of true ranges is full after a completed candle, and their sum is not a whole
  -- number of units of 1e-8 times their number, then a first intent to buy or to sell ends the
  -- handling of the candle in an error: no signal is kept, nothing is sent to the broker, and the
  -- other intents are not handled.
  pub ranges_not_whole_fail :
      (policy : RiskPolicy) (candle : Candle) (intent : StrategySignalIntent)
      (intents : List StrategySignalIntent) (tracker : AtrTracker) (s : TradingState)
      → let ranges = ((update_atr candle tracker).1.series candle.symbol candle.interval).ranges in
        tracker.period ≤ length ranges
        → sum ranges % length ranges ≢ 0
        → opens_position intent.direction ≡ true
        → let after =
            (evaluate_completed_candle broker digest policy candle
              (intent ∷ intents)
              tracker
              s).0 in
          (after.0 ≡ failed)
          × (after.1.execution.calls ≡ s.execution.calls)
          × (after.1.signals ≡ s.signals)
  unfolding evaluate_completed_candle
  ranges_not_whole_fail policy candle intent intents tracker s full rest opens =
      rw (update_atr_full candle tracker full)
        (handle_intents_not_whole policy intent intents candle.close _ s opens rest)
