-- ===== src/Trading/Pipeline/Accepted.antt =====
-- The ticks that a tick processor accepts, and what they make of a candle engine and a candle store.
use algo_trading_system.Prelude.{◌≡◌, ◌≢◌, refl, ap, List, [], ◌∷◌, ◌++◌, some}
use algo_trading_system.MarketData.{MarketTick}
use algo_trading_system.MarketData.Calendar.{ExchangeDays}
use algo_trading_system.MarketData.TickProcessor.{
  TickProcessor, accepted, dropped_out_of_order, process,
}
use algo_trading_system.MarketData.CandleEngine.{Candle, CandleEngine, CandleUpdate, process_tick}
use algo_trading_system.MarketData.CandleStore.{InMemoryCandleStore, upsert_all}
use algo_trading_system.MarketData.CandleStore.Answers.{upsert-IsUpserted}
use algo_trading_system.Trading.Orchestrator.{IntentOutcome, handled, failed, atr_not_ready}
use algo_trading_system.Trading.Pipeline.{
  stuck, tick_outcome, TradingEvent, tick_received, strategies_replaced, automation_switched,
}

pub upsert_all-append :
    (cs ds : List Candle) (s t : InMemoryCandleStore)
    → upsert_all cs s ≡ some t
    → upsert_all (cs ++ ds) s ≡ upsert_all ds t
unfolding upsert_all
upsert_all-append [] ds s t h = (let same : s ≡ t = cc in ap (upsert_all ds) same)
upsert_all-append (c ∷ cs) ds s t h =
    let (next, e, u) = upsert-IsUpserted c s in
    rw (e, upsert_all) (upsert_all-append cs ds next t (rw⁻¹ h (rw (e, upsert_all) refl)))

-- Upserts always end.
pub upsert_all_ends :
    (cs : List Candle) (s : InMemoryCandleStore)
    → (t : InMemoryCandleStore) × (upsert_all cs s ≡ some t)
unfolding upsert_all
upsert_all_ends [] s = (s, refl)
upsert_all_ends (c ∷ cs) s =
    let (next, e, u) = upsert-IsUpserted c s in
    let (t, k) = upsert_all_ends cs next in (t, rw (e, upsert_all) k)

pub unstuck : (update : CandleUpdate) (o : IntentOutcome) → tick_outcome update o ≢ stuck
unstuck update handled e = cc
unstuck update failed e = cc
unstuck update atr_not_ready e = cc

-- The candles that a tick changes or completes, in the order of their upserts.
abbrev pub candles_given : ExchangeDays → MarketTick → CandleEngine → List Candle
candles_given days tick engine =
    let update = (process_tick days tick engine).0 in update.updated ++ update.completed

-- The ticks that a processor accepts, and what they do to a candle engine.
unfoldable pub accepted_ticks : TickProcessor → List MarketTick → List MarketTick
accepted_ticks s [] = []
accepted_ticks s (tick ∷ ticks) =
    let (status, next) = process tick s in
    let rest = accepted_ticks next ticks in
    elim status [ accepted ↦ tick ∷ rest | dropped_out_of_order ↦ rest ]

unfoldable pub engine_after : ExchangeDays → CandleEngine → List MarketTick → CandleEngine
engine_after days engine [] = engine
engine_after days engine (tick ∷ ticks) = engine_after days (process_tick days tick engine).1 ticks

unfoldable pub candles_of : ExchangeDays → CandleEngine → List MarketTick → List Candle
candles_of days engine [] = []
candles_of days engine (tick ∷ ticks) =
    candles_given days tick engine ++ candles_of days (process_tick days tick engine).1 ticks

abbrev pub ticks_in {ℓ} : {S : Type ℓ} → List (TradingEvent S) → List MarketTick
ticks_in [] = []
ticks_in (tick_received tick ∷ es) = tick ∷ ticks_in es
ticks_in (strategies_replaced engines policy atr_period ∷ es) = ticks_in es
ticks_in (automation_switched place_orders ∷ es) = ticks_in es

pub accepted_first :
    (tick : MarketTick) (ticks : List MarketTick) (p : TickProcessor)
    → (process tick p).0 ≡ accepted
    → accepted_ticks p (tick ∷ ticks) ≡ tick ∷ accepted_ticks (process tick p).1 ticks
unfolding accepted_ticks
accepted_first tick ticks p e = rw (e, accepted_ticks) refl

pub dropped_first :
    (tick : MarketTick) (ticks : List MarketTick) (p : TickProcessor)
    → (process tick p).0 ≡ dropped_out_of_order
    → accepted_ticks p (tick ∷ ticks) ≡ accepted_ticks (process tick p).1 ticks
unfolding accepted_ticks
dropped_first tick ticks p e = rw (e, accepted_ticks) refl
