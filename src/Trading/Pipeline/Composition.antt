-- ===== src/Trading/Pipeline/Composition.antt =====
-- What the orchestrator does to the market data, whatever the trading does.
use algo_trading_system.Prelude.{
  ℕ, ◌≡◌, ◌≢◌, refl, sym, ap, ◌∙◌, Bool-cases, List, [], ◌∷◌, some, Option-cases, inl, inr,
}
use algo_trading_system.Prelude.Texts.{Text}
use algo_trading_system.Prelude.TextMaps.{TextMap, find}
use algo_trading_system.ControlPlane.{RiskPolicy}
use algo_trading_system.MarketData.{MarketTick}
use algo_trading_system.MarketData.Calendar.{ExchangeDays}
use algo_trading_system.MarketData.TickProcessor.{
  accepted, dropped_out_of_order, Status-cases, process, consume,
}
use algo_trading_system.MarketData.CandleEngine.{Candle, process_tick}
use algo_trading_system.MarketData.CandleStore.{upsert_all}
use algo_trading_system.Trading.Execution.{Broker, OrderKey}
use algo_trading_system.Trading.Orchestrator.{Outcome-cases}
use algo_trading_system.Trading.Strategies.{StrategyEngine, dispatch_candle}
use algo_trading_system.Trading.Pipeline.{
  TradingOrchestrator, TickOutcome, rejected, stuck, TradingEvent, tick_received,
  strategies_replaced, automation_switched, initialize_engines, reconfigure, evaluate_candle,
  evaluate_candles, trade_accepted, trade_tick, trading_step, trading_run,
}
use algo_trading_system.Trading.Pipeline.Accepted.{
  upsert_all-append, upsert_all_ends, unstuck, candles_given, accepted_ticks, engine_after,
  candles_of, ticks_in, accepted_first, dropped_first,
}

module _ {ℓ} {S : Type ℓ} where
  -- The parts that hold the market data.
  record SameMarket (s t : TradingOrchestrator S) : Type 0 where
    processor : t.tick_processor ≡ s.tick_processor
    engine : t.candle_engine ≡ s.candle_engine
    store : t.candle_store ≡ s.candle_store

  module _ (broker : Broker) (digest : OrderKey → Text) (days : ExchangeDays) where
    evaluate_candle-SameMarket :
        (c : Candle) (s : TradingOrchestrator S)
        → SameMarket s (evaluate_candle broker digest days c s).1
    unfolding evaluate_candle
    evaluate_candle-SameMarket c s = elim (Option-cases (find c.symbol s.strategy_engines)) [
      | inl e ↦ rw (e, evaluate_candle) (record { processor = refl; engine = refl; store = refl })
      | inr (engine, e) ↦ elim (Option-cases (dispatch_candle c engine).0) [
        | inl k ↦
            rw (e, k, evaluate_candle) (record { processor = refl; engine = refl; store = refl })
        | inr (result, k) ↦
            rw (e, k, evaluate_candle) (record { processor = refl; engine = refl; store = refl })
      ]
    ]

    evaluate_candles-SameMarket :
        (cs : List Candle) (s : TradingOrchestrator S)
        → SameMarket s (evaluate_candles broker digest days cs s).1
    unfolding evaluate_candles
    evaluate_candles-SameMarket [] s = record { processor = refl; engine = refl; store = refl }
    evaluate_candles-SameMarket (c ∷ cs) s =
        let next = evaluate_candle broker digest days c s in
        let same = evaluate_candle-SameMarket c s in
        let rest = evaluate_candles-SameMarket cs next.1 in
        let both : SameMarket s (evaluate_candles broker digest days cs next.1).1 = record {
          processor = rest.processor ∙ same.processor;
          engine = rest.engine ∙ same.engine;
          store = rest.store ∙ same.store;
        } in
        elim (Outcome-cases next.0) [
          | inl e ↦ rw (e, evaluate_candles) same
          | inr (inl e) ↦ rw (e, evaluate_candles) both
          | inr (inr e) ↦ rw (e, evaluate_candles) both
        ]

    -- A tick that is accepted goes through the candle engine, and its candles into the store.
    pub record IsTraded (tick : MarketTick) (s t : TradingOrchestrator S) (outcome : TickOutcome)
        : Type 0 where
      pub ends : outcome ≢ stuck
      pub processor : t.tick_processor ≡ (process tick s.tick_processor).1
      pub engine : t.candle_engine ≡ (process_tick days tick s.candle_engine).1
      pub store :
          upsert_all (candles_given days tick s.candle_engine) s.candle_store ≡ some t.candle_store

    pub trade_tick_accepted :
        (tick : MarketTick) (s : TradingOrchestrator S)
        → (process tick s.tick_processor).0 ≡ accepted
        → let (outcome, t) = trade_tick broker digest days tick s in IsTraded tick s t outcome
    unfolding trade_tick trade_accepted
    trade_tick_accepted tick s e =
        let (store, k) = upsert_all_ends (candles_given days tick s.candle_engine) s.candle_store in
        let same =
          evaluate_candles-SameMarket (process_tick days tick s.candle_engine).0.completed
            (record s {
              tick_processor = (process tick s.tick_processor).1;
              candle_engine = (process_tick days tick s.candle_engine).1;
              candle_store = store;
            }) in
        rw (e, trade_tick)
          (rw (k, trade_accepted)
            (record {
              ends = unstuck (process_tick days tick s.candle_engine).0 _;
              processor = same.processor;
              engine = same.engine;
              store = k ∙ ap some (sym same.store);
            }))

    trade_tick_dropped :
        (tick : MarketTick) (s : TradingOrchestrator S)
        → (process tick s.tick_processor).0 ≡ dropped_out_of_order
        → trade_tick broker digest days tick s
          ≡ (rejected, record s { tick_processor = (process tick s.tick_processor).1 })
    unfolding trade_tick
    trade_tick_dropped tick s e = rw (e, trade_tick) refl

    -- What a run makes of the market data: as if there were no trading.
    pub record IsMarketRun (ticks : List MarketTick) (s t : TradingOrchestrator S) : Type 0 where
      pub processor : t.tick_processor ≡ consume s.tick_processor ticks
      pub engine :
          t.candle_engine
          ≡ engine_after days s.candle_engine (accepted_ticks s.tick_processor ticks)
      pub store :
          upsert_all
            (candles_of days s.candle_engine (accepted_ticks s.tick_processor ticks))
            s.candle_store
          ≡ some t.candle_store

    market_unmoved :
        (ticks : List MarketTick) (s next t : TradingOrchestrator S)
        → SameMarket s next
        → IsMarketRun ticks next t
        → IsMarketRun ticks s t
    market_unmoved ticks s next t h rest =
        let same : accepted_ticks next.tick_processor ticks
            ≡ accepted_ticks s.tick_processor ticks =
          ap (λ p. accepted_ticks p ticks) h.processor in
        record {
          processor = rest.processor ∙ ap (λ p. consume p ticks) h.processor;
          engine =
              rest.engine
              ∙ ap (engine_after days next.candle_engine) same
              ∙ ap (λ x. engine_after days x (accepted_ticks s.tick_processor ticks)) h.engine;
          store =
              ap
                (upsert_all
                  (candles_of days s.candle_engine (accepted_ticks s.tick_processor ticks)))
                (sym h.store)
              ∙ ap
                  (λ x.
                    upsert_all (candles_of days x (accepted_ticks s.tick_processor ticks))
                      next.candle_store)
                  (sym h.engine)
              ∙ ap (λ x. upsert_all (candles_of days next.candle_engine x) next.candle_store)
                  (sym same)
              ∙ rest.store;
        }

    reconfigure-SameMarket :
        (engines : TextMap (StrategyEngine S)) (policy : RiskPolicy) (atr_period : ℕ)
        (s : TradingOrchestrator S)
        → SameMarket s (reconfigure engines policy atr_period s).1
    unfolding reconfigure
    reconfigure-SameMarket engines policy atr_period s =
        elim (Bool-cases (initialize_engines engines).0) [
          | inl e ↦ rw (e, reconfigure) (record { processor = refl; engine = refl; store = refl })
          | inr e ↦ rw (e, reconfigure) (record { processor = refl; engine = refl; store = refl })
        ]

    -- The state that a tick starts the rest of a run from, with the market data of one that dropped it.
    dropped-SameMarket :
        (tick : MarketTick) (s : TradingOrchestrator S)
        → (process tick s.tick_processor).0 ≡ dropped_out_of_order
        → SameMarket
            (record s { tick_processor = (process tick s.tick_processor).1 })
            (trade_tick broker digest days tick s).1
    dropped-SameMarket tick s e =
        let same = trade_tick_dropped tick s e in
        record {
          processor = ap (λ r. r.1.tick_processor) same;
          engine = ap (λ r. r.1.candle_engine) same;
          store = ap (λ r. r.1.candle_store) same;
        }

    tick_taken :
        (tick : MarketTick) (ticks : List MarketTick) (s next t : TradingOrchestrator S)
        (outcome : TickOutcome)
        → (process tick s.tick_processor).0 ≡ accepted
        → IsTraded tick s next outcome
        → IsMarketRun ticks next t
        → IsMarketRun (tick ∷ ticks) s t
    unfolding consume engine_after candles_of
    tick_taken tick ticks s next t outcome e h rest =
        let later = accepted_ticks (process tick s.tick_processor).1 ticks in
        let same : accepted_ticks next.tick_processor ticks ≡ later =
          ap (λ p. accepted_ticks p ticks) h.processor in
        let first = accepted_first tick ticks s.tick_processor e in
        record {
          processor = rest.processor ∙ ap (λ p. consume p ticks) h.processor;
          engine =
              rest.engine
              ∙ ap (engine_after days next.candle_engine) same
              ∙ ap (λ x. engine_after days x later) h.engine
              ∙ ap (engine_after days s.candle_engine) (sym first);
          store =
              ap (λ x. upsert_all (candles_of days s.candle_engine x) s.candle_store) first
              ∙ upsert_all-append (candles_given days tick s.candle_engine) _ s.candle_store
                  next.candle_store h.store
              ∙ ap (λ x. upsert_all (candles_of days x later) next.candle_store) (sym h.engine)
              ∙ ap (λ x. upsert_all (candles_of days next.candle_engine x) next.candle_store)
                  (sym same)
              ∙ rest.store;
        }

    tick_refused :
        (tick : MarketTick) (ticks : List MarketTick) (s t : TradingOrchestrator S)
        → (process tick s.tick_processor).0 ≡ dropped_out_of_order
        → IsMarketRun ticks (record s { tick_processor = (process tick s.tick_processor).1 }) t
        → IsMarketRun (tick ∷ ticks) s t
    unfolding consume
    tick_refused tick ticks s t e rest =
        let first = dropped_first tick ticks s.tick_processor e in
        record {
          processor = rest.processor;
          engine = rest.engine ∙ ap (engine_after days s.candle_engine) (sym first);
          store =
              ap (λ x. upsert_all (candles_of days s.candle_engine x) s.candle_store) first
              ∙ rest.store;
        }

    -- Whatever the strategies, the limits, the broker and the switches of the automation do, errors
    -- included: a run leaves the tick processor as if it had consumed the ticks alone, the candle engine
    -- as after exactly the ticks that the processor accepts, and the candle store as after an upsert, in
    -- their order, of every candle that the engine gave out, and none of the upserts runs on for ever.
    pub trading_run-IsMarketRun :
        (s : TradingOrchestrator S) (es : List (TradingEvent S))
        → IsMarketRun (ticks_in es) s (trading_run broker digest days s es)
    unfolding trading_run trading_step consume engine_after candles_of accepted_ticks upsert_all
    trading_run-IsMarketRun s [] = record { processor = refl; engine = refl; store = refl }
    trading_run-IsMarketRun s (automation_switched place_orders ∷ es) =
        let rest =
          trading_run-IsMarketRun
            (trading_step broker digest days s (automation_switched place_orders)) es in
        record { processor = rest.processor; engine = rest.engine; store = rest.store }
    trading_run-IsMarketRun s (strategies_replaced engines policy atr_period ∷ es) =
        let rest = trading_run-IsMarketRun (reconfigure engines policy atr_period s).1 es in
        market_unmoved (ticks_in es) s _ _ (reconfigure-SameMarket engines policy atr_period s) rest
    trading_run-IsMarketRun s (tick_received tick ∷ es) =
        let (outcome, next) = trade_tick broker digest days tick s in
        let rest = trading_run-IsMarketRun next es in
        elim (Status-cases (process tick s.tick_processor).0) [
          | inl e ↦
              tick_taken tick (ticks_in es) s next _ outcome e (trade_tick_accepted tick s e) rest
          | inr e ↦
              tick_refused tick (ticks_in es) s _ e
                (market_unmoved (ticks_in es) _ _ _ (dropped-SameMarket tick s e) rest)
        ]
