-- ===== src/MarketData/TickStore.antt =====
-- market_data/tick_store.py: `InMemoryTickStore`. What `str.upper` does is a parameter.
use algo_trading_system.Prelude.{
  ℕ, zero, suc, Bool, true, ◌&&◌, List, [], ◌∷◌, ◌++◌, Option, none, some, leb, filterb, get_last?,
}
use algo_trading_system.Prelude.Texts.{Text}
use algo_trading_system.Prelude.TextMaps.{TextMap, find, put}
use algo_trading_system.Prelude.Suffixes.{take_last}
use algo_trading_system.MarketData.{MarketTick}

pub record InMemoryTickStore : Type 0 where
  pub max_ticks_per_symbol : ℕ
  pub ticks_by_symbol : TextMap (List MarketTick)

abbrev pub or_empty : Option (List MarketTick) → List MarketTick
or_empty none = []
or_empty (some ticks) = ticks

-- `self._ticks_by_symbol.get(symbol, ())`
unfoldable pub ticks_of : Text → InMemoryTickStore → List MarketTick
ticks_of symbol store = or_empty (find symbol store.ticks_by_symbol)

-- A full deque drops its oldest tick.
unfoldable pub append : MarketTick → InMemoryTickStore → InMemoryTickStore
append tick store = record store {
  ticks_by_symbol =
      put tick.symbol
        (take_last store.max_ticks_per_symbol (ticks_of tick.symbol store ++ tick ∷ []))
        store.ticks_by_symbol;
}

unfoldable pub latest : (Text → Text) → Text → InMemoryTickStore → Option MarketTick
latest upper symbol store = get_last? (ticks_of (upper symbol) store)

pub record TickFilter : Type 0 where
  pub start_at : Option ℕ
  pub end_at : Option ℕ
  pub limit : Option ℕ

abbrev pub starts_by : Option ℕ → ℕ → Bool
starts_by none t = true
starts_by (some start) t = leb start t

abbrev pub ends_by : Option ℕ → ℕ → Bool
ends_by none t = true
ends_by (some end) t = leb t end

abbrev pub within : TickFilter → MarketTick → Bool
within f tick = starts_by f.start_at tick.timestamp && ends_by f.end_at tick.timestamp

-- `none` is the error of a limit that is not positive.
abbrev pub limited : Option ℕ → List MarketTick → Option (List MarketTick)
limited none ticks = some ticks
limited (some zero) ticks = none
limited (some (suc n)) ticks = some (take_last (suc n) ticks)

unfoldable pub list_ticks :
    (Text → Text) → Text → TickFilter → InMemoryTickStore → Option (List MarketTick)
list_ticks upper symbol f store =
    limited f.limit (filterb (within f) (ticks_of (upper symbol) store))
