-- ===== src/Trading/Pipeline.antt =====
-- services/trading_orchestrator.py: `TradingOrchestrator`, which composes the tick processor, the candle
-- engine and store, the strategies, the risk engine and the execution.
--
-- A call is one step: calls that overlap, of the worker and of the HTTP route, are not modelled. What
-- goes to the live hub is left out, and so is the persistence behind the stores.
pub mod Once
pub mod Accepted
pub mod Synchronized
pub mod Composition
use algo_trading_system.Prelude.{
  ℕ, Bool, true, false, List, [], ◌∷◌, ◌++◌, Option, none, some, if◌then◌else◌, length,
}
use algo_trading_system.Prelude.Texts.{Text}
use algo_trading_system.Prelude.TextMaps.{TextMap, find, put}
use algo_trading_system.ControlPlane.{RiskPolicy}
use algo_trading_system.MarketData.{MarketTick}
use algo_trading_system.MarketData.Calendar.{ExchangeDays}
use algo_trading_system.MarketData.TickProcessor.{
  TickProcessor, accepted, dropped_out_of_order, process,
}
use algo_trading_system.MarketData.CandleEngine.{Candle, CandleUpdate, CandleEngine, process_tick}
use algo_trading_system.MarketData.CandleStore.{InMemoryCandleStore, upsert_all}
use algo_trading_system.Trading.{StrategySignalIntent}
use algo_trading_system.Trading.Atr.{AtrTracker, update_atr}
use algo_trading_system.Trading.Execution.{Broker, OrderKey, configure_runtime}
use algo_trading_system.Trading.Orchestrator.{
  TradingState, IntentOutcome, handled, atr_not_ready, failed, evaluate_completed_candle,
}
use algo_trading_system.Trading.Strategies.{
  StrategyEngine, started, rolled_back, reset_failed, initialize_engine, dispatch_candle,
}

pub record TradingOrchestrator {ℓ} (S : Type ℓ) : Type ℓ where
  pub tick_processor : TickProcessor
  pub candle_engine : CandleEngine
  pub candle_store : InMemoryCandleStore
  pub strategy_engines : TextMap (StrategyEngine S)
  pub risk_policy : RiskPolicy
  pub atr : AtrTracker
  pub trading : TradingState

-- How `process_tick` ends; `stuck` stands for a loop of the candle store that does not end.
pub data TickOutcome : Type 0 where
  rejected raised stuck : TickOutcome
  processed : ℕ → ℕ → TickOutcome

abbrev pub tick_outcome : CandleUpdate → IntentOutcome → TickOutcome
tick_outcome update failed = raised
tick_outcome update handled = processed (length update.updated) (length update.completed)
tick_outcome update atr_not_ready = processed (length update.updated) (length update.completed)

-- A tick, new strategies and limits, or the switch of the automation.
pub data TradingEvent {ℓ} (S : Type ℓ) : Type ℓ where
  tick_received : MarketTick → TradingEvent S
  strategies_replaced : TextMap (StrategyEngine S) → RiskPolicy → ℕ → TradingEvent S
  automation_switched : Bool → TradingEvent S

abbrev pub new_tracker : ℕ → AtrTracker
new_tracker period = record {
  period = period;
  series = λ symbol interval. record { previous_close = none; ranges = [] };
}

module _ {ℓ} {S : Type ℓ} where
  -- The engines in turn, until one fails.
  unfoldable pub initialize_engines : TextMap (StrategyEngine S) → Bool × TextMap (StrategyEngine S)
  initialize_engines [] = (true, [])
  initialize_engines ((symbol, e) ∷ m) =
      let (outcome, next) = initialize_engine e in
      let (rest_started, rest) = initialize_engines m in
      elim outcome [
        | started ↦ (rest_started, (symbol, next) ∷ rest)
        | rolled_back ↦ (false, (symbol, next) ∷ m)
        | reset_failed ↦ (false, (symbol, next) ∷ m)
      ]

  unfoldable pub initialize_orchestrator : TradingOrchestrator S → Bool × TradingOrchestrator S
  unfolding initialize_engines
  initialize_orchestrator s =
      let (all_started, engines) = initialize_engines s.strategy_engines in
      (all_started, record s { strategy_engines = engines })

  -- `TradingOrchestrator.reconfigure`: an engine that does not start leaves everything as it is.
  unfoldable pub reconfigure :
      TextMap (StrategyEngine S)
      → RiskPolicy
      → ℕ
      → TradingOrchestrator S
      → Bool × TradingOrchestrator S
  unfolding initialize_engines
  reconfigure engines policy atr_period s =
      let (all_started, ready) = initialize_engines engines in
      (
        all_started,
        if all_started
            then record s {
              strategy_engines = ready;
              risk_policy = policy;
              atr = new_tracker atr_period;
            }
            else s,
      )

  module _ (broker : Broker) (digest : OrderKey → Text) (days : ExchangeDays) where
    abbrev pub conclude :
        Candle
        → List StrategySignalIntent
        → TradingOrchestrator S
        → IntentOutcome × TradingOrchestrator S
    conclude c intents s =
        let (result, tracker) =
          evaluate_completed_candle broker digest s.risk_policy c intents s.atr s.trading in
        (result.0, record s { atr = tracker; trading = result.1 })

    -- `_evaluate_completed_candle` with the strategies of the symbol
    unfoldable pub evaluate_candle :
        Candle → TradingOrchestrator S → IntentOutcome × TradingOrchestrator S
    evaluate_candle c s = elim (find c.symbol s.strategy_engines) [
      | none ↦ conclude c [] s
      | some engine ↦
          let (answer, next) = dispatch_candle c engine in
          let after = record s { strategy_engines = put c.symbol next s.strategy_engines } in
          elim answer [
            | none ↦ (failed, record after { atr = (update_atr c s.atr).1 })
            | some result ↦ conclude c result.intents after
          ]
    ]

    -- The loop over the completed candles; an error ends it.
    unfoldable pub evaluate_candles :
        List Candle → TradingOrchestrator S → IntentOutcome × TradingOrchestrator S
    evaluate_candles [] s = (handled, s)
    evaluate_candles (c ∷ cs) s =
        let (outcome, next) = evaluate_candle c s in
        elim outcome [
          | failed ↦ (failed, next)
          | handled ↦ evaluate_candles cs next
          | atr_not_ready ↦ evaluate_candles cs next
        ]

    -- `process_tick` once the tick is accepted
    unfoldable pub trade_accepted :
        MarketTick → TradingOrchestrator S → TickOutcome × TradingOrchestrator S
    unfolding evaluate_candles
    trade_accepted tick s =
        let (update, engine) = process_tick days tick s.candle_engine in
        let seen = record s { candle_engine = engine } in
        elim (upsert_all (update.updated ++ update.completed) s.candle_store) [
          | none ↦ (stuck, seen)
          | some store ↦
              let (outcome, next) =
                evaluate_candles update.completed (record seen { candle_store = store }) in
              (tick_outcome update outcome, next)
        ]

    -- `TradingOrchestrator.process_tick`
    unfoldable pub trade_tick :
        MarketTick → TradingOrchestrator S → TickOutcome × TradingOrchestrator S
    unfolding trade_accepted
    trade_tick tick s =
        let (status, processor) = process tick s.tick_processor in
        let seen = record s { tick_processor = processor } in
        elim status [
          | dropped_out_of_order ↦ (rejected, seen)
          | accepted ↦ trade_accepted tick seen
        ]

    unfoldable pub trading_step : TradingOrchestrator S → TradingEvent S → TradingOrchestrator S
    unfolding trade_tick reconfigure
    trading_step s (tick_received tick) = (trade_tick tick s).1
    trading_step s (strategies_replaced engines policy atr_period) =
        (reconfigure engines policy atr_period s).1
    trading_step s (automation_switched place_orders) = record s {
      trading = record s.trading { execution = configure_runtime place_orders s.trading.execution };
    }

    unfoldable pub trading_run :
        TradingOrchestrator S → List (TradingEvent S) → TradingOrchestrator S
    trading_run s [] = s
    trading_run s (e ∷ es) = trading_run (trading_step s e) es
