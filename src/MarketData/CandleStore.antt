-- ===== src/MarketData/CandleStore.antt =====
-- market_data/candle_store.py: `InMemoryCandleStore`.
--
-- The dict of dicts is a function from a symbol and an interval to the candles of the inner dict, in the
-- order of their insertion: the key of a candle there is its own start. The loop that removes the
-- oldest candles runs on fuel, one unit for each candle of the series.
pub mod Ordered
pub mod Strict
pub mod Answers
use algo_trading_system.Prelude.{
  ℕ, zero, suc, Bool, true, false, ◌&&◌, List, [], ◌∷◌, Option, none, some, ltb, leb, ◌==◌,
  if◌then◌else◌, filterb, length, get_last?, min,
}
use algo_trading_system.Prelude.Texts.{Text, text_eq}
use algo_trading_system.MarketData.Calendar.{CandleInterval}
use algo_trading_system.MarketData.CandleEngine.{Candle, interval_index}

pub record InMemoryCandleStore : Type 0 where
  pub max_candles_per_series : ℕ
  pub candles : Text → CandleInterval → List Candle

-- `InMemoryCandleStore.__init__`, which refuses a maximum of 0.
abbrev pub new_candle_store : ℕ → Option InMemoryCandleStore
new_candle_store zero = none
new_candle_store (suc n) =
    some (record { max_candles_per_series = suc n; candles = λ symbol interval. [] })

abbrev pub start_of : Candle → ℕ
start_of c = c.start_at

-- `series[candle.start_at] = candle`
unfoldable pub put_candle : Candle → List Candle → List Candle
put_candle new [] = new ∷ []
put_candle new (c ∷ cs) =
    let rest = put_candle new cs in if c.start_at == new.start_at then new ∷ cs else c ∷ rest

-- `min(series)` of a series that holds a candle and others
unfoldable pub least_start : ℕ → List Candle → ℕ
least_start m [] = m
least_start m (c ∷ cs) = least_start (min m c.start_at) cs

-- `del series[start]`
unfoldable pub delete_candle : ℕ → List Candle → List Candle
delete_candle start [] = []
delete_candle start (c ∷ cs) =
    let rest = delete_candle start cs in if c.start_at == start then cs else c ∷ rest

unfoldable pub delete_oldest : List Candle → List Candle
delete_oldest [] = []
delete_oldest (c ∷ cs) = delete_candle (least_start c.start_at cs) (c ∷ cs)

-- `while len(series) > self._max_candles_per_series`; `none` when the fuel does not suffice.
unfoldable pub trim : ℕ → ℕ → List Candle → Option (List Candle)
trim zero maximum cs = if ltb maximum (length cs) then none else some cs
trim (suc fuel) maximum cs =
    let rest = trim fuel maximum (delete_oldest cs) in
    if ltb maximum (length cs) then rest else some cs

abbrev pub is_series : Candle → Text → CandleInterval → Bool
is_series c symbol interval =
    text_eq c.symbol symbol && interval_index c.interval == interval_index interval

abbrev pub with_series : Candle → List Candle → InMemoryCandleStore → InMemoryCandleStore
with_series c series s = record s {
  candles =
      λ symbol interval. if is_series c symbol interval then series else s.candles symbol interval;
}

unfoldable pub upsert : Candle → InMemoryCandleStore → Option InMemoryCandleStore
upsert c s =
    let series = put_candle c (s.candles c.symbol c.interval) in
    elim (trim (length series) s.max_candles_per_series series) [
      | none ↦ none
      | some kept ↦ some (with_series c kept s)
    ]

-- One upsert after another; `none` if one does not end.
unfoldable pub upsert_all : List Candle → InMemoryCandleStore → Option InMemoryCandleStore
upsert_all [] s = some s
upsert_all (c ∷ cs) s = elim (upsert c s) [ none ↦ none | some t ↦ upsert_all cs t ]

-- `sorted(series)`: no two candles of a series have the same start.
unfoldable pub insert_candle : Candle → List Candle → List Candle
insert_candle c [] = c ∷ []
insert_candle c (d ∷ ds) =
    let rest = insert_candle c ds in if ltb d.start_at c.start_at then d ∷ rest else c ∷ d ∷ ds

unfoldable pub sort_candles : List Candle → List Candle
sort_candles [] = []
sort_candles (c ∷ cs) = insert_candle c (sort_candles cs)

abbrev pub lies_in : ℕ → ℕ → Candle → Bool
lies_in start_at end_at c = leb start_at c.start_at && leb c.end_at end_at

module _ (upper : Text → Text) where
  -- `series[max(series)]`
  unfoldable pub latest_candle : Text → CandleInterval → InMemoryCandleStore → Option Candle
  latest_candle symbol interval s = get_last? (sort_candles (s.candles (upper symbol) interval))

  unfoldable pub list_candles : Text → CandleInterval → ℕ → ℕ → InMemoryCandleStore → List Candle
  list_candles symbol interval start_at end_at s =
      filterb (lies_in start_at end_at) (sort_candles (s.candles (upper symbol) interval))
