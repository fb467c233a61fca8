-- ===== src/MarketData/CandleEngine/Intervals.antt =====
-- What the loop over the intervals does to the candle of one key.
use algo_trading_system.Prelude.{
  ◌≡◌, inl, inr, refl, ◌∙◌, false, List, [], ◌∷◌, ◌++◌, Option, All, Option-cases, ◌==◌,
}
use algo_trading_system.Prelude.Texts.{Text, text_eq, text_eq_refl}
use algo_trading_system.MarketData.{MarketTick}
use algo_trading_system.MarketData.Calendar.{CandleInterval, ExchangeDays, bucket_for}
use algo_trading_system.MarketData.CandleEngine.{
  interval_index, get_active, Progress, take_tick, take_intervals,
}
use algo_trading_system.MarketData.CandleEngine.Validity.{}
use algo_trading_system.MarketData.CandleEngine.Keys.{key_test, IsUnique}
use algo_trading_system.MarketData.CandleEngine.Removal.{}
use algo_trading_system.MarketData.CandleEngine.Series.{OpenBar, extend_if}
use algo_trading_system.MarketData.CandleEngine.Aggregation.{
  take_tick-IsUnique, take_tick_other, open_candle, take_tick_own,
}

pub take_intervals-append :
    (days : ExchangeDays) (tick : MarketTick) (js ks : List CandleInterval) (p : Progress)
    → take_intervals days tick (js ++ ks) p
      ≡ take_intervals days tick ks (take_intervals days tick js p)
unfolding take_intervals
take_intervals-append days tick [] ks p = refl
take_intervals-append days tick (j ∷ js) ks p =
    elim (Option-cases (bucket_for days tick.timestamp j)) [
      | inl e ↦ rw (e, take_intervals) (take_intervals-append days tick js ks p)
      | inr (b, e) ↦
          rw (e, take_intervals) (take_intervals-append days tick js ks (take_tick tick j b p))
    ]

pub take_intervals-IsUnique :
    (days : ExchangeDays) (tick : MarketTick) (js : List CandleInterval) (p : Progress)
    → IsUnique p.active
    → IsUnique (take_intervals days tick js p).active
unfolding take_intervals
take_intervals-IsUnique days tick [] p h = h
take_intervals-IsUnique days tick (j ∷ js) p h =
    elim (Option-cases (bucket_for days tick.timestamp j)) [
      | inl e ↦ rw (e, take_intervals) (take_intervals-IsUnique days tick js p h)
      | inr (b, e) ↦
          rw (e, take_intervals)
            (take_intervals-IsUnique days tick js (take_tick tick j b p)
              (take_tick-IsUnique tick j b p h))
    ]

-- Ticks whose keys are others leave the candle alone.
pub take_intervals_other :
    (days : ExchangeDays) (symbol : Text) (i : CandleInterval) (tick : MarketTick)
    (js : List CandleInterval) (p : Progress)
    → All (λ j. key_test tick.symbol j symbol i ≡ false) js
    → get_active symbol i (take_intervals days tick js p).active ≡ get_active symbol i p.active
unfolding take_intervals
take_intervals_other days symbol i tick [] p h = refl
take_intervals_other days symbol i tick (j ∷ js) p h =
    elim (Option-cases (bucket_for days tick.timestamp j)) [
      | inl e ↦ rw (e, take_intervals) (take_intervals_other days symbol i tick js p h.1)
      | inr (b, e) ↦
          rw (e, take_intervals)
            (take_intervals_other days symbol i tick js (take_tick tick j b p) h.1
              ∙ take_tick_other symbol i tick j b p h.0)
    ]

-- An interval that is not among others.
abbrev pub IsAbsent : CandleInterval → List CandleInterval → Type 0
IsAbsent i js = All (λ j. (interval_index j == interval_index i) ≡ false) js

pub absent_keys :
    (i : CandleInterval) (t : Text) (js : List CandleInterval)
    → IsAbsent i js
    → All (λ j. key_test t j t i ≡ false) js
absent_keys i t [] h = tt
absent_keys i t (j ∷ js) h = (rw (text_eq_refl t, h.0) refl, absent_keys i t js h.1)

pub other_symbol_keys :
    (i : CandleInterval) (t symbol : Text) (js : List CandleInterval)
    → text_eq t symbol ≡ false
    → All (λ j. key_test t j symbol i ≡ false) js
other_symbol_keys i t symbol [] h = tt
other_symbol_keys i t symbol (j ∷ js) h = (rw h refl, other_symbol_keys i t symbol js h)

pub take_interval_own :
    (days : ExchangeDays) (tick : MarketTick) (i : CandleInterval) (p : Progress)
    (bar : Option OpenBar)
    → get_active tick.symbol i p.active ≡ open_candle i bar
    → get_active tick.symbol i (take_intervals days tick (i ∷ []) p).active
      ≡ open_candle i (extend_if tick (bucket_for days tick.timestamp i) bar)
unfolding take_intervals
take_interval_own days tick i p bar e = elim (Option-cases (bucket_for days tick.timestamp i)) [
  | inl n ↦ rw (n, take_intervals) e
  | inr (b, n) ↦ rw (n, take_intervals) (take_tick_own tick i b p bar e)
]
