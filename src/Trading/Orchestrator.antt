-- ===== src/Trading/Orchestrator.antt =====
-- services/trading_orchestrator.py: `_evaluate_completed_candle`. The intents of the strategies for the
-- candle are an argument.
--
-- The risk decision goes to the signal store and to the live hub as well; the hub is not modelled.
pub mod Safety
pub mod Failures
use algo_trading_system.Prelude.{
  ℕ, ◌≡◌, ◌⊎◌, inl, inr, refl, Bool, List, [], ◌∷◌, Option, none, some,
}
use algo_trading_system.Prelude.Texts.{Text}
use algo_trading_system.ControlPlane.{RiskPolicy}
use algo_trading_system.Trading.{StrategyDirection, buy, sell, exit, hold, StrategySignalIntent}
use algo_trading_system.MarketData.CandleEngine.{Candle}
use algo_trading_system.Trading.Atr.{AtrTracker, update_atr}
use algo_trading_system.Trading.Risk.{
  RiskContext, RiskManagedSignal, RiskDecision, approved, rejected, not_applicable, invalid,
  evaluate,
}
use algo_trading_system.Trading.Execution.{
  Broker, OrderKey, ExecutionState, AverageTrueRange, ExecutionResult, nothing, raised, placed,
  risk_context, execute_entry, execute_exit,
}

-- The execution service and the signals that `SignalStore` holds, newest first.
pub record TradingState : Type 0 where
  pub execution : ExecutionState
  pub signals : List RiskManagedSignal

-- How the loop ends with an intent; after `failed` it goes on with no other one.
pub data IntentOutcome : Type 0 where
  handled atr_not_ready failed : IntentOutcome

abbrev pub outcome_of : ExecutionResult → IntentOutcome
outcome_of nothing = handled
outcome_of raised = failed
outcome_of (placed order) = handled

pub Outcome-cases : (o : IntentOutcome) → (o ≡ failed) ⊎ ((o ≡ handled) ⊎ (o ≡ atr_not_ready))
Outcome-cases handled = inr (inl refl)
Outcome-cases atr_not_ready = inr (inr refl)
Outcome-cases failed = inl refl

module _ (broker : Broker) (digest : OrderKey → Text) where
  unfoldable pub decide : RiskDecision → TradingState → IntentOutcome × TradingState
  decide (approved signal) s =
      let (result, execution) = execute_entry broker digest signal s.execution in
      (outcome_of result, record { execution = execution; signals = signal ∷ s.signals })
  decide (rejected reason) s = (handled, s)
  decide not_applicable s = (handled, s)
  decide invalid s = (failed, s)

  unfoldable pub enter :
      RiskPolicy
      → StrategySignalIntent
      → ℕ
      → AverageTrueRange
      → TradingState
      → IntentOutcome × TradingState
  unfolding decide
  enter policy intent close atr s =
      let (context, execution) = risk_context broker close atr intent.symbol s.execution in
      let next = record s { execution = execution } in
      elim context [ none ↦ (failed, next) | some c ↦ decide (evaluate policy intent c) next ]

  abbrev pub enter_if_ready :
      RiskPolicy
      → StrategySignalIntent
      → ℕ
      → Option AverageTrueRange
      → TradingState
      → IntentOutcome × TradingState
  enter_if_ready policy intent close none s = (atr_not_ready, s)
  enter_if_ready policy intent close (some atr) s = enter policy intent close atr s

  abbrev pub leave : StrategySignalIntent → TradingState → IntentOutcome × TradingState
  leave intent s =
      let (result, execution) = execute_exit broker digest intent s.execution in
      (outcome_of result, record s { execution = execution })

  abbrev pub by_direction :
      StrategyDirection
      → RiskPolicy
      → StrategySignalIntent
      → ℕ
      → Option AverageTrueRange
      → TradingState
      → IntentOutcome × TradingState
  by_direction hold policy intent close atr s = (handled, s)
  by_direction exit policy intent close atr s = leave intent s
  by_direction buy policy intent close atr s = enter_if_ready policy intent close atr s
  by_direction sell policy intent close atr s = enter_if_ready policy intent close atr s

  unfoldable pub handle_intent :
      RiskPolicy
      → StrategySignalIntent
      → ℕ
      → Option AverageTrueRange
      → TradingState
      → IntentOutcome × TradingState
  unfolding enter
  handle_intent policy intent close atr s = by_direction intent.direction policy intent close atr s

  -- The loop over the intents; an error ends it.
  unfoldable pub handle_intents :
      RiskPolicy
      → ℕ
      → Option AverageTrueRange
      → List StrategySignalIntent
      → TradingState
      → IntentOutcome × TradingState
  handle_intents policy close atr [] s = (handled, s)
  handle_intents policy close atr (intent ∷ intents) s =
      let (outcome, next) = handle_intent policy intent close atr s in
      elim outcome [
        | failed ↦ (failed, next)
        | handled ↦ handle_intents policy close atr intents next
        | atr_not_ready ↦ handle_intents policy close atr intents next
      ]

  unfoldable pub evaluate_completed_candle :
      RiskPolicy
      → Candle
      → List StrategySignalIntent
      → AtrTracker
      → TradingState
      → (IntentOutcome × TradingState) × AtrTracker
  unfolding handle_intents update_atr
  evaluate_completed_candle policy candle intents tracker s =
      let (atr, next) = update_atr candle tracker in
      (handle_intents policy candle.close atr intents s, next)
