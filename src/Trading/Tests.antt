-- ===== src/Trading/Tests.antt =====
-- Concrete trades and configurations, and the theorems about them.
use algo_trading_system.Prelude.{
  ◌⊎◌, ◌≡◌, refl, true, false, List, [], ◌∷◌, Option, none, some, arith,
}
use algo_trading_system.Prelude.Int.{ℤ, pos, negsuc, ◌+ℤ◌, ◌-ℤ◌, ◌≤ℤ◌, max_ℤ}
use algo_trading_system.Trading.Analytics.{maximum_drawdown, drawdown_loop, consider_outcome}
use algo_trading_system.Trading.Analytics.Drawdown.{
  equities, IsBound, IsFall, maximum_drawdown-IsBound,
}
use algo_trading_system.Prelude.Suffixes.{take_last}
use algo_trading_system.Prelude.Texts.{Text, codes, text_eq, includes}
use algo_trading_system.ControlPlane.{
  TradingMode, TextRules, RiskPolicy, RuntimeTradingConfiguration,
}
use algo_trading_system.MarketData.Calendar.{one_minute}
use algo_trading_system.MarketData.CandleEngine.{Candle}
use algo_trading_system.Trading.{buy, StrategySignalIntent}
use algo_trading_system.Trading.Atr.{AtrTracker, update_atr}
use algo_trading_system.Trading.Risk.{
  RiskContext, RiskManagedSignal, approved, evaluate, managed_signal, is_valid_signal, thousandths,
}
use algo_trading_system.Trading.Risk.Limits.{IsWithinLimits, evaluate_approved}
use algo_trading_system.Trading.Execution.{
  Broker, OrderKey, AverageTrueRange, ExecutionOrder, submit_market_order, close_position,
  BrokerCall, new_execution, entry_request, execute_entry, risk_context,
}
use algo_trading_system.Trading.Orchestrator.{
  TradingState, failed, handle_intent, evaluate_completed_candle,
}
use algo_trading_system.Trading.Orchestrator.Safety.{IsSafe, handle_intent-IsSafe}
use algo_trading_system.Trading.Orchestrator.Failures.{ranges_not_whole_fail}
use algo_trading_system.Trading.Container.{
  ApplicationContainer, apply_trading_configuration, start_container, pipeline_ready, apply_all,
}
use algo_trading_system.Trading.Container.Monitoring.{monitoring_stays_off}

abbrev pub aapl : Text
aapl = codes "AAPL"

-- 1% of the equity for a trade, 3% for a day, a stop at 1.5 and a target at 3 average true ranges.
abbrev pub policy : RiskPolicy
policy = record {
  risk_per_trade_fraction = 1_000_000;
  max_daily_loss_fraction = 3_000_000;
  max_consecutive_losses = 3;
  stop_atr_multiple = 150_000_000;
  target_atr_multiple = 300_000_000;
  trailing_stop_atr_multiple = 200_000_000;
  minimum_risk_reward = 150_000_000;
  max_gross_exposure_fraction = 80_000_000;
  minimum_cash_reserve_fraction = 10_000_000;
  max_open_positions = 10;
}

-- A price of 100, an average true range of 2 and an account of 100,000.
abbrev context : RiskContext
context = record {
  entry_price = 10_000_000_000;
  atr = 200_000_000;
  account_equity = 10_000_000_000_000;
  daily_realized_pnl = pos 0;
  consecutive_losses = 0;
  available_cash = 10_000_000_000_000;
  gross_exposure = 0;
  open_positions = 0;
  has_open_position = false;
  would_average_down = false;
}

abbrev intent : StrategySignalIntent
intent = record {
  symbol = aapl;
  timestamp = 1000;
  strategy = codes "ema";
  direction = buy;
  confidence = 600;
  reason = [];
}

-- 333 shares lose 999 at the stop.
abbrev signal : RiskManagedSignal
signal = record {
  symbol = aapl;
  timestamp = 1000;
  strategy = codes "ema";
  direction = buy;
  entry_price = 1_000_000_000_000_000_000;
  stop_loss = pos 970_000_000_000_000_000;
  take_profit = pos 1_060_000_000_000_000_000;
  trailing_stop_distance = 40_000_000_000_000_000;
  risk_reward = 2000;
  position_size = 333;
  position_risk = 9_990_000_000_000_000_000;
  expected_move = 60_000_000_000_000_000;
  confidence = 600;
  reason = [];
}

signal_approved : evaluate policy intent context ≡ approved signal
unfolding evaluate managed_signal is_valid_signal thousandths ◌-ℤ◌
signal_approved = refl

evaluate_approved_example : IsWithinLimits policy intent context signal
evaluate_approved_example = evaluate_approved policy intent context signal signal_approved

-- A broker that takes every first order, and an id made of the symbol and the time.
pub answer_first : List BrokerCall → BrokerCall → Option ExecutionOrder
answer_first [] (submit_market_order request) = some (record {
  client_order_id = request.client_order_id;
  symbol = request.symbol;
  quantity = request.quantity;
  side = request.side;
})
answer_first [] (close_position symbol id) = none
answer_first (c ∷ cs) call = none

abbrev pub broker : Broker
broker = record {
  answer = answer_first;
  account = λ calls. record {
    cash = 10_000_000_000_000;
    equity = 10_000_000_000_000;
    buying_power = 20_000_000_000_000;
    previous_close_equity = none;
  };
  positions = λ calls. [];
}

abbrev pub digest : OrderKey → Text
digest key = key.timestamp ∷ key.symbol

abbrev idle : TradingState
idle = record { execution = new_execution true; signals = [] }

abbrev whole : AverageTrueRange
whole = record { numerator = 600_000_000; denominator = 3 }

-- The approved signal is ordered.
order_sent :
    (handle_intent broker digest policy intent 10_000_000_000 (some whole) idle).1.execution.calls
    ≡ submit_market_order (entry_request broker digest signal) ∷ []
unfolding handle_intent evaluate managed_signal is_valid_signal thousandths ◌-ℤ◌ execute_entry
    risk_context answer_first includes
order_sent = refl

handle_intent-IsSafe_example :
    IsSafe broker digest policy intent 10_000_000_000
      (some whole)
      idle.execution
      (handle_intent broker digest policy intent 10_000_000_000 (some whole) idle).1.execution.calls
handle_intent-IsSafe_example =
    handle_intent-IsSafe broker digest policy intent 10_000_000_000 (some whole) idle

abbrev pub candle : Candle
candle = record {
  symbol = aapl;
  interval = one_minute;
  start_at = 0;
  end_at = 60;
  open_price = 10_000_000_000;
  high = 10_200_000_000;
  low = 10_000_000_000;
  close = 10_100_000_000;
  volume = 1;
  is_complete = true;
}

-- Two ranges that are known already; with that of the candle the mean is 1.5666… .
abbrev tracker : AtrTracker
tracker = record {
  period = 3;
  series =
      λ symbol interval. record { previous_close = none; ranges = 100_000_000 ∷ 170_000_000 ∷ [] };
}

ranges_not_whole_fail_example :
    let after =
      (evaluate_completed_candle broker digest policy candle (intent ∷ []) tracker idle).0 in
    (after.0 ≡ failed) × (after.1.execution.calls ≡ []) × (after.1.signals ≡ [])
unfolding update_atr take_last text_eq
ranges_not_whole_fail_example =
    ranges_not_whole_fail broker digest policy candle intent [] tracker idle (omega arith)
      (omega arith) refl

abbrev rules : TextRules
rules = record { strip = λ t. t; upper = λ t. t }

abbrev configuration : RuntimeTradingConfiguration
configuration = record {
  mode = TradingMode.paper;
  place_orders_automatically = false;
  monitoring_enabled = true;
  symbols = aapl ∷ [];
  strategy = record {
    interval = codes "1m";
    fast_period = 12;
    slow_period = 26;
    base_confidence = 60;
    confidence_sensitivity = 1000;
    max_confidence = 95;
  };
  risk_policy = policy;
  version = 1;
}

abbrev container : ApplicationContainer
container = record {
  worker = record {
    symbols = [];
    running = false;
    subscribed = [];
    provider_connected = true;
    initializations = 0;
  };
  engine_symbols = [];
  engine_strategy = configuration.strategy;
  risk_policy = policy;
  place_orders_automatically = false;
  is_paper = true;
}

abbrev switched_off : RuntimeTradingConfiguration
switched_off = record configuration { monitoring_enabled = false; version = 2 }

abbrev on_again : RuntimeTradingConfiguration
on_again = record configuration { version = 3 }

monitoring_stays_off_example :
    ((apply_trading_configuration rules on_again (
        apply_all rules [] (
          apply_trading_configuration rules switched_off
            (start_container rules configuration container)))).worker.running
      ≡ false)
    × (pipeline_ready on_again (
          apply_trading_configuration rules on_again (
            apply_all rules [] (
              apply_trading_configuration rules switched_off
                (start_container rules configuration container))))
        ≡ false)
monitoring_stays_off_example =
    monitoring_stays_off rules (start_container rules configuration container) switched_off on_again
      [] refl refl refl

-- A loss of half of the equity, a large gain, and a loss of 60 of 1000: the drawdown is 60, and the
-- fraction that goes with it is 60 of 1000, although half of the equity was lost before.
abbrev pnl : List ℤ
pnl = negsuc 49 ∷ pos 950 ∷ negsuc 59 ∷ []

fraction_of_largest_fall :
    let d = maximum_drawdown 100 pnl in
    (d.max_drawdown ≡ pos 60)
    × (d.fraction_numerator ≡ pos 60)
    × (d.fraction_denominator ≡ pos 1000)
unfolding maximum_drawdown drawdown_loop consider_outcome ◌+ℤ◌ ◌-ℤ◌ max_ℤ
fraction_of_largest_fall = (refl, refl, refl)

maximum_drawdown-IsBound_example :
    let r = (maximum_drawdown 100 pnl).max_drawdown in
    let curve = pos 100 ∷ equities (pos 100) pnl in
    IsBound r curve × (pos 0 ≤ℤ r) × ((r ≡ pos 0) ⊎ IsFall r curve)
maximum_drawdown-IsBound_example = maximum_drawdown-IsBound 100 pnl
