-- ===== src/Trading/Pipeline/Synchronized.antt =====
-- The tick processor and the candle engine agree on how far each symbol is.
use algo_trading_system.Prelude.{
  ℕ, ◌≡◌, ◌≢◌, ◌⊎◌, refl, sym, ap, ◌∙◌, subst, true, false, Bool-cases, List, [], ◌∷◌, Option, some,
  inl, inr, arith, if◌then◌else◌,
}
use algo_trading_system.Prelude.Texts.{Text, text_eq}
use algo_trading_system.Prelude.TextMaps.{find, put, find-put}
use algo_trading_system.MarketData.{MarketTick}
use algo_trading_system.MarketData.Calendar.{ExchangeDays, CandleInterval}
use algo_trading_system.MarketData.TickProcessor.{
  TickProcessor, accepted, dropped_out_of_order, Status-cases, precedes, accept_tick, process,
  consume,
}
use algo_trading_system.MarketData.TickProcessor.Feed.{is_late, find-accept_tick, new_processor}
use algo_trading_system.MarketData.CandleEngine.{
  Candle, CandleEngine, timestamp_precedes_symbol_watermark, new_engine, update_of, process_tick,
}
use algo_trading_system.Trading.Execution.{Broker, OrderKey}
use algo_trading_system.Trading.Pipeline.{
  TradingOrchestrator, TradingEvent, stuck, trade_tick, trading_run,
}
use algo_trading_system.Trading.Pipeline.Accepted.{
  accepted_ticks, accepted_first, dropped_first, engine_after, ticks_in,
}
use algo_trading_system.Trading.Pipeline.Composition.{
  IsMarketRun, trade_tick_accepted, trading_run-IsMarketRun,
}

-- Both have the same watermarks, and the processor drops what comes before its own.
pub record IsSynchronized (p : TickProcessor) (e : CandleEngine) : Type 0 where
  pub rejects : p.reject_out_of_order_ticks ≡ true
  pub agrees :
      (j : Text) → find j p.latest_timestamp_by_symbol ≡ find j e.latest_timestamp_by_symbol

never_late :
    (updated completed : List Candle)
    → (update_of updated completed).ignored ≢ some timestamp_precedes_symbol_watermark
never_late [] completed e = cc
never_late (c ∷ cs) completed e = cc

timely :
    (tick : MarketTick) (p : TickProcessor)
    → p.reject_out_of_order_ticks ≡ true
    → (process tick p).0 ≡ accepted
    → precedes tick.timestamp (find tick.symbol p.latest_timestamp_by_symbol) ≡ false
unfolding process
timely tick p r a = elim (Bool-cases (is_late tick p)) [
  | inl late ↦
      (let dropped : dropped_out_of_order ≡ accepted = rw⁻¹ a (rw (late, process) refl) in cc)
  | inr fits ↦ ground (arith, r, fits)
]

accept_tick-rejects :
    (tick : MarketTick) (latest : Option ℕ) (p : TickProcessor)
    → (accept_tick tick latest p).reject_out_of_order_ticks ≡ p.reject_out_of_order_ticks
unfolding accept_tick
accept_tick-rejects tick latest p = refl

accepted_state :
    (tick : MarketTick) (p : TickProcessor)
    → p.reject_out_of_order_ticks ≡ true
    → (process tick p).0 ≡ accepted
    → (process tick p).1 ≡ accept_tick tick (find tick.symbol p.latest_timestamp_by_symbol) p
unfolding process
accepted_state tick p r a =
    let fits : is_late tick p ≡ false = ground (arith, r, timely tick p r a) in
    rw (fits, process) refl

process_tick-timely :
    (days : ExchangeDays) (tick : MarketTick) (e : CandleEngine)
    → precedes tick.timestamp (find tick.symbol e.latest_timestamp_by_symbol) ≡ false
    → ((process_tick days tick e).0.ignored ≢ some timestamp_precedes_symbol_watermark)
      × ((process_tick days tick e).1.latest_timestamp_by_symbol
          ≡ put tick.symbol tick.timestamp e.latest_timestamp_by_symbol)
unfolding process_tick
process_tick-timely days tick e h = rw (h, process_tick) (never_late _ _, refl)

process-IsSynchronized :
    (days : ExchangeDays) (tick : MarketTick) (p : TickProcessor) (e : CandleEngine)
    → IsSynchronized p e
    → (process tick p).0 ≡ accepted
    → ((process_tick days tick e).0.ignored ≢ some timestamp_precedes_symbol_watermark)
      × IsSynchronized (process tick p).1 (process_tick days tick e).1
process-IsSynchronized days tick p e h a =
    let on_time = timely tick p h.rejects a in
    let (answered, marked) =
      process_tick-timely days tick e
        (subst (λ o. precedes tick.timestamp o ≡ false) (h.agrees tick.symbol) on_time) in
    (
      answered,
      rw (accepted_state tick p h.rejects a) (record {
        rejects = accept_tick-rejects tick _ p ∙ h.rejects;
        agrees = λ j.
            find-accept_tick tick p j on_time
            ∙ ap (λ o. if text_eq tick.symbol j then some tick.timestamp else o) (h.agrees j)
            ∙ sym (find-put j tick.symbol tick.timestamp e.latest_timestamp_by_symbol)
            ∙ ap (find j) (sym marked);
      }),
    )

dropped_state :
    (tick : MarketTick) (p : TickProcessor)
    → (process tick p).0 ≡ dropped_out_of_order
    → (process tick p).1 ≡ p
unfolding process
dropped_state tick p a = elim (Bool-cases (is_late tick p)) [
  | inl late ↦ rw (late, process) refl
  | inr fits ↦ (let kept : accepted ≡ dropped_out_of_order = rw⁻¹ a (rw (fits, process) refl) in cc)
]

consume-IsSynchronized :
    (days : ExchangeDays) (ticks : List MarketTick) (p : TickProcessor) (e : CandleEngine)
    → IsSynchronized p e
    → IsSynchronized (consume p ticks) (engine_after days e (accepted_ticks p ticks))
unfolding consume accepted_ticks engine_after
consume-IsSynchronized days [] p e h = h
consume-IsSynchronized days (tick ∷ ticks) p e h = elim (Status-cases (process tick p).0) [
  | inl a ↦
      subst (λ ts. IsSynchronized (consume (process tick p).1 ticks) (engine_after days e ts))
        (sym (accepted_first tick ticks p a))
        (consume-IsSynchronized days ticks (process tick p).1 (process_tick days tick e).1
          (process-IsSynchronized days tick p e h a).1)
  | inr a ↦
      subst (λ ts. IsSynchronized (consume (process tick p).1 ticks) (engine_after days e ts))
        (sym (dropped_first tick ticks p a))
        (consume-IsSynchronized days ticks (process tick p).1 e
          (subst (λ q. IsSynchronized q e) (sym (dropped_state tick p a)) h))
]

new-IsSynchronized :
    (maximum : ℕ) (intervals : List CandleInterval)
    → IsSynchronized (new_processor maximum) (new_engine intervals)
unfolding find
new-IsSynchronized maximum intervals = record { rejects = refl; agrees = λ j. refl }

module _ {ℓ} {S : Type ℓ} (broker : Broker) (digest : OrderKey → Text) (days : ExchangeDays) where
  -- Through any run of an orchestrator whose tick processor and candle engine are new, whatever the
  -- strategies, the limits, the broker and the switches of the automation do, errors included: the tick
  -- processor is as if it had consumed the ticks alone, the candle engine as after exactly the ticks
  -- that the processor accepts, and the candle store as after an upsert, in their order, of every
  -- candle that the engine gave out. The processor and the engine have the same watermark for every
  -- symbol; so a further tick is dropped by the processor, or the engine does not ignore it as late,
  -- and its handling ends.
  pub trading_run-IsSynchronized :
      (s : TradingOrchestrator S) (maximum : ℕ) (intervals : List CandleInterval)
      (es : List (TradingEvent S)) (tick : MarketTick)
      → s.tick_processor ≡ new_processor maximum
      → s.candle_engine ≡ new_engine intervals
      → let t = trading_run broker digest days s es in
        IsMarketRun broker digest days (ticks_in es) s t
        × IsSynchronized t.tick_processor t.candle_engine
        × (((process tick t.tick_processor).0 ≡ dropped_out_of_order)
            ⊎ (((process_tick days tick t.candle_engine).0.ignored
                  ≢ some timestamp_precedes_symbol_watermark)
                × ((trade_tick broker digest days tick t).0 ≢ stuck)))
  trading_run-IsSynchronized s maximum intervals es tick p e =
      let t = trading_run broker digest days s es in
      let run = trading_run-IsMarketRun broker digest days s es in
      let begun : IsSynchronized s.tick_processor s.candle_engine =
        rw (p, e) (new-IsSynchronized maximum intervals) in
      let sync : IsSynchronized t.tick_processor t.candle_engine =
        rw (run.processor, run.engine)
          (consume-IsSynchronized days (ticks_in es) s.tick_processor s.candle_engine begun) in
      (
        run,
        sync,
        elim (Status-cases (process tick t.tick_processor).0) [
          | inl a ↦ inr (
            (process-IsSynchronized days tick t.tick_processor t.candle_engine sync a).0,
            (trade_tick_accepted broker digest days tick t a).ends,
          )
          | inr a ↦ inl a
        ],
      )
