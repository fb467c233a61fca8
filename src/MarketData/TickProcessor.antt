-- ===== src/MarketData/TickProcessor.antt =====
-- market_data/tick_processor.py: `TickProcessor` over the in-memory store.
--
-- The payload is a tick that passed its validation. The lock runs calls one after another, so a call is
-- one step.
pub mod Feed
pub mod Answers
use algo_trading_system.Prelude.{
  ℕ, ◌≡◌, ◌⊎◌, inl, inr, refl, Bool, true, false, ◌&&◌, ◌||◌, List, [], ◌∷◌, Option, none, some,
  ltb, if◌then◌else◌,
}
use algo_trading_system.Prelude.TextMaps.{TextMap, find, put}
use algo_trading_system.MarketData.{MarketTick}
use algo_trading_system.MarketData.TickStore.{InMemoryTickStore, append}

pub data TickProcessingStatus : Type 0 where
  accepted dropped_out_of_order : TickProcessingStatus

pub Status-cases : (s : TickProcessingStatus) → (s ≡ accepted) ⊎ (s ≡ dropped_out_of_order)
Status-cases accepted = inl refl
Status-cases dropped_out_of_order = inr refl

pub record TickProcessor : Type 0 where
  pub store : InMemoryTickStore
  pub reject_out_of_order_ticks : Bool
  pub latest_timestamp_by_symbol : TextMap ℕ

-- `latest_timestamp is not None and tick.timestamp < latest_timestamp`
abbrev pub precedes : ℕ → Option ℕ → Bool
precedes t none = false
precedes t (some latest) = ltb t latest

-- `latest_timestamp is None or tick.timestamp > latest_timestamp`
abbrev pub advances : ℕ → Option ℕ → Bool
advances t none = true
advances t (some latest) = ltb latest t

unfoldable pub accept_tick : MarketTick → Option ℕ → TickProcessor → TickProcessor
accept_tick tick latest s = record s {
  store = append tick s.store;
  latest_timestamp_by_symbol =
      if advances tick.timestamp latest
      then put tick.symbol tick.timestamp s.latest_timestamp_by_symbol
      else s.latest_timestamp_by_symbol;
}

unfoldable pub process : MarketTick → TickProcessor → TickProcessingStatus × TickProcessor
unfolding accept_tick
process tick s =
    let latest = find tick.symbol s.latest_timestamp_by_symbol in
    if s.reject_out_of_order_ticks && precedes tick.timestamp latest
    then (dropped_out_of_order, s)
    else (accepted, accept_tick tick latest s)

-- `consume`: every tick of the provider's stream, in its order.
unfoldable pub consume : TickProcessor → List MarketTick → TickProcessor
consume s [] = s
consume s (tick ∷ ticks) = consume (process tick s).1 ticks
