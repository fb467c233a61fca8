-- ===== src/Trading/Pipeline/Once.antt =====
-- From ticks to orders: no order id reaches the broker twice.
use algo_trading_system.Prelude.{
  ℕ, ◌≡◌, refl, Bool, Bool-cases, List, [], ◌∷◌, ◌++◌, Option, none, some, Option-cases, inl, inr,
}
use algo_trading_system.Prelude.Texts.{Text}
use algo_trading_system.Prelude.TextMaps.{find}
use algo_trading_system.ControlPlane.{RiskPolicy, all_distinct}
use algo_trading_system.MarketData.{MarketTick}
use algo_trading_system.MarketData.Calendar.{ExchangeDays}
use algo_trading_system.MarketData.TickProcessor.{Status-cases, process}
use algo_trading_system.MarketData.CandleEngine.{Candle, process_tick}
use algo_trading_system.MarketData.CandleStore.{upsert_all}
use algo_trading_system.Trading.{StrategyDirection, buy, sell, exit, hold, StrategySignalIntent}
use algo_trading_system.Trading.Atr.{AtrTracker}
use algo_trading_system.Trading.Risk.{
  RiskDecision, approved, rejected, not_applicable, invalid, evaluate,
}
use algo_trading_system.Trading.Execution.{
  Broker, OrderKey, AverageTrueRange, portfolio, risk_context, configure_runtime, new_execution,
}
use algo_trading_system.Trading.Execution.Once.{IsOnce, execute_entry-IsOnce, execute_exit-IsOnce}
use algo_trading_system.Trading.Orchestrator.{
  TradingState, Outcome-cases, decide, enter, by_direction, handle_intent, handle_intents,
  evaluate_completed_candle,
}
use algo_trading_system.Trading.Strategies.{dispatch_candle}
use algo_trading_system.Trading.Pipeline.{
  TradingOrchestrator, TradingEvent, tick_received, strategies_replaced, automation_switched,
  initialize_engines, reconfigure, evaluate_candle, evaluate_candles, trade_accepted, trade_tick,
  trading_step, trading_run,
}

abbrev IsOnceIn : TradingState → Type 0
IsOnceIn s = IsOnce s.execution.calls s.execution.reserved

module _ (broker : Broker) (digest : OrderKey → Text) where
  decide-IsOnce :
      (d : RiskDecision) (s : TradingState) → IsOnceIn s → IsOnceIn (decide broker digest d s).1
  unfolding decide
  decide-IsOnce (approved signal) s h = execute_entry-IsOnce broker digest signal s.execution h
  decide-IsOnce (rejected reason) s h = h
  decide-IsOnce not_applicable s h = h
  decide-IsOnce invalid s h = h

  enter-IsOnce :
      (policy : RiskPolicy) (intent : StrategySignalIntent) (close : ℕ) (atr : AverageTrueRange)
      (s : TradingState)
      → IsOnceIn s
      → IsOnceIn (enter broker digest policy intent close atr s).1
  unfolding enter risk_context portfolio
  enter-IsOnce policy intent close atr s h =
      elim (Option-cases (risk_context broker close atr intent.symbol s.execution).0) [
        | inl e ↦ rw (e, enter) h
        | inr (c, e) ↦ rw (e, enter) (decide-IsOnce (evaluate policy intent c) _ h)
      ]

  by_direction-IsOnce :
      (d : StrategyDirection) (policy : RiskPolicy) (intent : StrategySignalIntent) (close : ℕ)
      (atr : Option AverageTrueRange) (s : TradingState)
      → IsOnceIn s
      → IsOnceIn (by_direction broker digest d policy intent close atr s).1
  by_direction-IsOnce hold policy intent close atr s h = h
  by_direction-IsOnce exit policy intent close atr s h =
      execute_exit-IsOnce broker digest intent s.execution h
  by_direction-IsOnce buy policy intent close none s h = h
  by_direction-IsOnce sell policy intent close none s h = h
  by_direction-IsOnce buy policy intent close (some a) s h = enter-IsOnce policy intent close a s h
  by_direction-IsOnce sell policy intent close (some a) s h = enter-IsOnce policy intent close a s h

  handle_intents-IsOnce :
      (policy : RiskPolicy) (close : ℕ) (atr : Option AverageTrueRange)
      (intents : List StrategySignalIntent) (s : TradingState)
      → IsOnceIn s
      → IsOnceIn (handle_intents broker digest policy close atr intents s).1
  unfolding handle_intents handle_intent
  handle_intents-IsOnce policy close atr [] s h = h
  handle_intents-IsOnce policy close atr (i ∷ is) s h =
      let next = handle_intent broker digest policy i close atr s in
      let once : IsOnceIn next.1 = by_direction-IsOnce i.direction policy i close atr s h in
      let rest = handle_intents-IsOnce policy close atr is next.1 once in
      elim (Outcome-cases next.0) [
        | inl e ↦ rw (e, handle_intents) once
        | inr (inl e) ↦ rw (e, handle_intents) rest
        | inr (inr e) ↦ rw (e, handle_intents) rest
      ]

  evaluate_completed_candle-IsOnce :
      (policy : RiskPolicy) (c : Candle) (intents : List StrategySignalIntent)
      (tracker : AtrTracker) (s : TradingState)
      → IsOnceIn s
      → IsOnceIn (evaluate_completed_candle broker digest policy c intents tracker s).0.1
  unfolding evaluate_completed_candle
  evaluate_completed_candle-IsOnce policy c intents tracker s h =
      handle_intents-IsOnce policy c.close _ intents s h

module _ {ℓ} {S : Type ℓ} (broker : Broker) (digest : OrderKey → Text) (days : ExchangeDays) where
  evaluate_candle-IsOnce :
      (c : Candle) (s : TradingOrchestrator S)
      → IsOnceIn s.trading
      → IsOnceIn (evaluate_candle broker digest days c s).1.trading
  unfolding evaluate_candle
  evaluate_candle-IsOnce c s h = elim (Option-cases (find c.symbol s.strategy_engines)) [
    | inl e ↦
        rw (e, evaluate_candle)
          (evaluate_completed_candle-IsOnce broker digest s.risk_policy c [] s.atr s.trading h)
    | inr (engine, e) ↦ elim (Option-cases (dispatch_candle c engine).0) [
      | inl k ↦ rw (e, k, evaluate_candle) h
      | inr (result, k) ↦
          rw (e, k, evaluate_candle)
            (evaluate_completed_candle-IsOnce broker digest s.risk_policy c result.intents s.atr
              s.trading h)
    ]
  ]

  evaluate_candles-IsOnce :
      (cs : List Candle) (s : TradingOrchestrator S)
      → IsOnceIn s.trading
      → IsOnceIn (evaluate_candles broker digest days cs s).1.trading
  unfolding evaluate_candles
  evaluate_candles-IsOnce [] s h = h
  evaluate_candles-IsOnce (c ∷ cs) s h =
      let next = evaluate_candle broker digest days c s in
      let once : IsOnceIn next.1.trading = evaluate_candle-IsOnce c s h in
      let rest = evaluate_candles-IsOnce cs next.1 once in
      elim (Outcome-cases next.0) [
        | inl e ↦ rw (e, evaluate_candles) once
        | inr (inl e) ↦ rw (e, evaluate_candles) rest
        | inr (inr e) ↦ rw (e, evaluate_candles) rest
      ]

  trade_accepted-IsOnce :
      (tick : MarketTick) (s : TradingOrchestrator S)
      → IsOnceIn s.trading
      → IsOnceIn (trade_accepted broker digest days tick s).1.trading
  unfolding trade_accepted
  trade_accepted-IsOnce tick s h =
      let update = (process_tick days tick s.candle_engine).0 in
      elim (Option-cases (upsert_all (update.updated ++ update.completed) s.candle_store)) [
        | inl e ↦ rw (e, trade_accepted) h
        | inr (store, e) ↦ rw (e, trade_accepted) (evaluate_candles-IsOnce update.completed _ h)
      ]

  trade_tick-IsOnce :
      (tick : MarketTick) (s : TradingOrchestrator S)
      → IsOnceIn s.trading
      → IsOnceIn (trade_tick broker digest days tick s).1.trading
  unfolding trade_tick
  trade_tick-IsOnce tick s h = elim (Status-cases (process tick s.tick_processor).0) [
    | inl e ↦ rw (e, trade_tick) (trade_accepted-IsOnce tick _ h)
    | inr e ↦ rw (e, trade_tick) h
  ]

  trading_step-IsOnce :
      (s : TradingOrchestrator S) (e : TradingEvent S)
      → IsOnceIn s.trading
      → IsOnceIn (trading_step broker digest days s e).trading
  unfolding trading_step reconfigure configure_runtime
  trading_step-IsOnce s (tick_received tick) h = trade_tick-IsOnce tick s h
  trading_step-IsOnce s (strategies_replaced engines policy atr_period) h =
      elim (Bool-cases (initialize_engines engines).0) [
        | inl e ↦ rw (e, trading_step) h
        | inr e ↦ rw (e, trading_step) h
      ]
  trading_step-IsOnce s (automation_switched place_orders) h = h

  trading_run-IsOnce_from :
      (s : TradingOrchestrator S) (es : List (TradingEvent S))
      → IsOnceIn s.trading
      → IsOnceIn (trading_run broker digest days s es).trading
  unfolding trading_run
  trading_run-IsOnce_from s [] h = h
  trading_run-IsOnce_from s (e ∷ es) h =
      trading_run-IsOnce_from (trading_step broker digest days s e) es (trading_step-IsOnce s e h)

  -- Whatever ticks come, whatever the strategies and their limits are and are replaced by, however the
  -- automation is switched and whatever the broker answers: an orchestrator with a new execution
  -- service never lets one order id reach the broker twice, and every id that has reached it stays
  -- reserved.
  pub trading_run-IsOnce :
      (s : TradingOrchestrator S) (place_orders : Bool) (es : List (TradingEvent S))
      → s.trading.execution ≡ new_execution place_orders
      → let t = (trading_run broker digest days s es).trading.execution in IsOnce t.calls t.reserved
  unfolding all_distinct
  trading_run-IsOnce s place_orders es new =
      trading_run-IsOnce_from s es (rw new (record { distinct = refl; covered = tt }))
