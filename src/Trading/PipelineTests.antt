-- ===== src/Trading/PipelineTests.antt =====
-- A strategy over whole numbers, an orchestrator with it, and the theorems about them.
use algo_trading_system.Prelude.{
  ℕ, ◌/◌, ◌≡◌, ◌≢◌, ◌⊎◌, refl, Bool, true, false, List, [], ◌∷◌, ◌++◌, none, some, arith,
  if◌then◌else◌,
}
use algo_trading_system.Prelude.Int.{ℤ, pos, pos_part, abs, ◌+ℤ◌, ◌-ℤ◌, ◌*ℤ◌, leb_ℤ, ltb_ℤ}
use algo_trading_system.Prelude.Texts.{Text, codes, text_eq}
use algo_trading_system.MarketData.{MarketTick}
use algo_trading_system.MarketData.Calendar.{ExchangeDays, one_minute}
use algo_trading_system.MarketData.CandleEngine.{
  Candle, new_engine, process_tick, timestamp_precedes_symbol_watermark,
}
use algo_trading_system.MarketData.TickProcessor.{dropped_out_of_order, process}
use algo_trading_system.MarketData.TickProcessor.Feed.{new_processor}
use algo_trading_system.Trading.{buy}
use algo_trading_system.Trading.Tests.{aapl, policy, broker, digest, candle}
use algo_trading_system.Trading.Execution.{new_execution}
use algo_trading_system.Trading.Execution.Once.{IsOnce}
use algo_trading_system.Trading.Strategies.{Strategy, dispatch_strategies, take_turn, dispatch}
use algo_trading_system.Trading.Strategies.Isolation.{IsTurn, dispatch-IsIsolated}
use algo_trading_system.Trading.Ema.{
  Decimals, EmaCrossoverSettings, EmaState, no_history, is_skipped, ema_on_candle, ema_strategy,
}
use algo_trading_system.Trading.Ema.Reference.{
  last_end, taken, ema_run, decision, spread_of, spread_at, ema_run-decision,
}
use algo_trading_system.Trading.Ema.Crossings.{IsCrossing, decision-IsCrossing}
use algo_trading_system.Trading.Pipeline.{
  TradingOrchestrator, TradingEvent, tick_received, strategies_replaced, automation_switched,
  new_tracker, stuck, trade_tick, trading_run,
}
use algo_trading_system.Trading.Pipeline.Once.{trading_run-IsOnce}
use algo_trading_system.Trading.Pipeline.Accepted.{ticks_in}
use algo_trading_system.Trading.Pipeline.Composition.{IsMarketRun}
use algo_trading_system.Trading.Pipeline.Synchronized.{IsSynchronized, trading_run-IsSynchronized}

abbrev whole_numbers : Decimals ℤ
whole_numbers = record {
  of_amount = λ n. pos n;
  of_ℕ = λ n. pos n;
  plus = λ x y. x +ℤ y;
  minus = λ x y. x -ℤ y;
  times = λ x y. x *ℤ y;
  divided_by = λ x y. pos (pos_part x / pos_part y);
  absolute = λ x. pos (abs x);
  is_le = leb_ℤ;
  is_lt = ltb_ℤ;
  thousandths = λ x. pos_part x;
}

abbrev no_digits : ℕ → Text
no_digits n = []

abbrev settings : EmaCrossoverSettings ℤ
settings = record {
  name = codes "ema";
  symbol = aapl;
  interval = one_minute;
  fast_period = 2;
  slow_period = 3;
  long_only = true;
  base_confidence = 6000;
  base_confidence_decimal = pos 0;
  confidence_sensitivity = pos 10;
  max_confidence = pos 1;
}

abbrev candle_until : ℕ → Candle
candle_until end_at = record candle { end_at = end_at }

-- The second candle is not complete, and the third ends no later than the first.
abbrev seen : List Candle
seen = candle_until 60 ∷ record (candle_until 120) { is_complete = false } ∷ candle_until 60 ∷ []

candles_taken : taken whole_numbers no_digits settings seen [] ≡ candle_until 60 ∷ []
unfolding taken is_skipped text_eq
candles_taken = refl

ema_run-decision_example :
    (ema_on_candle whole_numbers no_digits settings
      (candle_until 120)
      (ema_run whole_numbers no_digits settings seen no_history)).pending_intent
    ≡ (if is_skipped whole_numbers no_digits settings
          (candle_until 120)
          (last_end (taken whole_numbers no_digits settings seen []))
        then none
        else some (
            decision whole_numbers no_digits settings
              (candle_until 120)
              (taken whole_numbers no_digits settings seen [])))
ema_run-decision_example = ema_run-decision whole_numbers no_digits settings seen (candle_until 120)

not_both : (x : ℤ) → leb_ℤ x (pos 0) ≡ true → ltb_ℤ (pos 0) x ≡ false
not_both x h = ground arith

abbrev history : List Candle
history = candle_until 180 ∷ candle_until 120 ∷ candle_until 60 ∷ []

decision-IsCrossing_example :
    IsCrossing whole_numbers no_digits settings 4
      (spread_of whole_numbers no_digits settings history)
      (spread_at whole_numbers no_digits settings (candle_until 240) history)
      (decision whole_numbers no_digits settings (candle_until 240) history).direction
    × (¬ (
        ((decision whole_numbers no_digits settings (candle_until 240) history).direction ≡ buy)
        × ((decision whole_numbers no_digits settings
              (candle_until 300)
              (candle_until 240 ∷ history)).direction
            ≡ buy)))
decision-IsCrossing_example =
    decision-IsCrossing whole_numbers no_digits settings (candle_until 240) (candle_until 300)
      history not_both

abbrev ema : Strategy (EmaState ℤ)
ema = ema_strategy whole_numbers no_digits settings

-- A plugin that raises at every candle.
abbrev broken : Strategy (EmaState ℤ)
broken = record ema { name = codes "broken"; on_candle = λ c s. (false, s) }

abbrev at_candle : Strategy (EmaState ℤ) → EmaState ℤ → Bool × EmaState ℤ
at_candle p = p.on_candle candle

dispatch-IsIsolated_example :
    (dispatch aapl at_candle (record { strategies = (broken ∷ []) ++ ema ∷ []; initialized = true })
      ≡ (
        some (record {
          intents =
              (dispatch_strategies aapl at_candle (broken ∷ [])).0.intents
              ++ ((take_turn aapl at_candle ema).0.intents
                  ++ (dispatch_strategies {S = EmaState ℤ} aapl at_candle []).0.intents);
          failures =
              (dispatch_strategies aapl at_candle (broken ∷ [])).0.failures
              ++ ((take_turn aapl at_candle ema).0.failures
                  ++ (dispatch_strategies {S = EmaState ℤ} aapl at_candle []).0.failures);
        }),
        record {
          strategies =
              (dispatch_strategies aapl at_candle (broken ∷ [])).1
              ++ (take_turn aapl at_candle ema).1
                ∷ (dispatch_strategies {S = EmaState ℤ} aapl at_candle []).1;
          initialized = true;
        },
      ))
    × IsTurn aapl (codes "ema") (take_turn aapl at_candle ema).0
dispatch-IsIsolated_example = dispatch-IsIsolated aapl at_candle (broken ∷ []) [] ema

-- One session, of the first 1000 seconds.
abbrev days : ExchangeDays
days = record {
  session_at = λ t. some 0;
  session_open = λ d. 0;
  session_close = λ d. 1_000_000_000;
  next_session = λ d. d;
  previous_session = λ d. d;
  weekday = λ d. 0;
  month_start = λ d. d;
  month_end = λ d. d;
}

abbrev orchestrator : TradingOrchestrator (EmaState ℤ)
orchestrator = record {
  tick_processor = new_processor 10;
  candle_engine = new_engine (one_minute ∷ []);
  candle_store = record { max_candles_per_series = 10; candles = λ symbol interval. [] };
  strategy_engines = (aapl, record { strategies = broken ∷ ema ∷ []; initialized = true }) ∷ [];
  risk_policy = policy;
  atr = new_tracker 14;
  trading = record { execution = new_execution true; signals = [] };
}

abbrev tick_at : ℕ → ℕ → MarketTick
tick_at t price = record {
  timestamp = t;
  received_at = t;
  symbol = aapl;
  exchange = codes "V";
  price = price;
  bid = price;
  ask = price;
  volume = 0;
  trade_size = 1;
  conditions = [];
}

-- The second tick completes a candle, and the third comes too late.
abbrev events : List (TradingEvent (EmaState ℤ))
events =
    tick_received (tick_at 1_000_000 100)
    ∷ tick_received (tick_at 70_000_000 101)
    ∷ automation_switched false
    ∷ tick_received (tick_at 60_000_000 102)
    ∷ strategies_replaced [] policy 7
    ∷ []

trading_run-IsOnce_example :
    IsOnce
      (trading_run broker digest days orchestrator events).trading.execution.calls
      (trading_run broker digest days orchestrator events).trading.execution.reserved
trading_run-IsOnce_example = trading_run-IsOnce broker digest days orchestrator true events refl

abbrev after : TradingOrchestrator (EmaState ℤ)
after = trading_run broker digest days orchestrator events

trading_run-IsSynchronized_example :
    IsMarketRun broker digest days (ticks_in events) orchestrator after
    × IsSynchronized after.tick_processor after.candle_engine
    × (((process (tick_at 90_000_000 103) after.tick_processor).0 ≡ dropped_out_of_order)
        ⊎ (((process_tick days (tick_at 90_000_000 103) after.candle_engine).0.ignored
              ≢ some timestamp_precedes_symbol_watermark)
            × ((trade_tick broker digest days (tick_at 90_000_000 103) after).0 ≢ stuck)))
trading_run-IsSynchronized_example =
    trading_run-IsSynchronized broker digest days orchestrator 10 (one_minute ∷ []) events
      (tick_at 90_000_000 103) refl refl
