-- ===== src/MarketData/CandleHistory/Fallback.antt =====
-- The fallback gives out the candle of the last bucket only.
use algo_trading_system.Prelude.{
  ◌≤◌, ◌≡◌, inl, inr, refl, sym, subst, Bool, true, List, [], ◌∷◌, arith, Bool-cases, Option-cases,
  length, length-map, filterb, ltb, ==_iff,
}
use algo_trading_system.Prelude.Texts.{Text, text_eq_iff, text_eq_refl}
use algo_trading_system.Prelude.TextMaps.{find}
use algo_trading_system.MarketData.{MarketTick}
use algo_trading_system.MarketData.Calendar.{CandleInterval, CandleBucket, ExchangeDays, bucket_for}
use algo_trading_system.MarketData.TickProcessor.{precedes}
use algo_trading_system.MarketData.CandleEngine.{
  ActiveCandle, from_tick, apply_tick, has_key, interval_index, get_active, set_active, Progress,
  keep_active, take_tick, take_intervals, CandleEngine, process_tick, finalize_through, new_engine,
}
use algo_trading_system.MarketData.CandleEngine.Keys.{same_key, get_active-key}
use algo_trading_system.MarketData.CandleHistory.{
  HistoricalCandleRequest, serves, feed_ticks, sort_ticks, aggregate_fallback_ticks,
}

-- At most one active candle, of this symbol and interval.
abbrev IsSingle : Text → CandleInterval → List ActiveCandle → Type 0
IsSingle t i [] = Unit
IsSingle t i (a ∷ []) = has_key t i a ≡ true
IsSingle t i (a ∷ b ∷ m) = ⊥

set_active-IsSingle :
    (t : Text) (i : CandleInterval) (new : ActiveCandle) (m : List ActiveCandle)
    → has_key t i new ≡ true
    → IsSingle t i m
    → IsSingle t i (set_active new m)
unfolding set_active
set_active-IsSingle t i new [] n h = n
set_active-IsSingle t i new (a ∷ []) n h = rw (same_key t i new a n h) n
set_active-IsSingle t i new (a ∷ b ∷ m) n h = absurd h

from_tick-key :
    (tick : MarketTick) (i : CandleInterval) (b : CandleBucket)
    → has_key tick.symbol i (from_tick tick i b) ≡ true
unfolding from_tick
from_tick-key tick i b =
    ground (arith, text_eq_refl tick.symbol, ==_iff (interval_index i) (interval_index i))

apply_tick-key :
    (tick : MarketTick) (i : CandleInterval) (a : ActiveCandle)
    → has_key tick.symbol i a ≡ true
    → has_key tick.symbol i (apply_tick tick a) ≡ true
unfolding apply_tick
apply_tick-key tick i a h = h

take_tick-IsSingle :
    (tick : MarketTick) (i : CandleInterval) (b : CandleBucket) (p : Progress)
    → IsSingle tick.symbol i p.active
    → IsSingle tick.symbol i (take_tick tick i b p).active
unfolding take_tick keep_active
take_tick-IsSingle tick i b p h = elim (Option-cases (get_active tick.symbol i p.active)) [
  | inl e ↦
      rw (e, take_tick)
        (set_active-IsSingle tick.symbol i (from_tick tick i b) p.active (from_tick-key tick i b) h)
  | inr (a, e) ↦ elim (Bool-cases (ltb a.bucket.start_at b.start_at)) [
    | inl later ↦
        rw (e, take_tick, later)
          (set_active-IsSingle tick.symbol i (from_tick tick i b) p.active (from_tick-key tick i b)
            h)
    | inr same ↦
        rw (e, take_tick, same)
          (set_active-IsSingle tick.symbol i (apply_tick tick a) p.active
            (apply_tick-key tick i a (get_active-key tick.symbol i p.active a e)) h)
  ]
]

take_intervals-IsSingle :
    (days : ExchangeDays) (tick : MarketTick) (i : CandleInterval) (p : Progress)
    → IsSingle tick.symbol i p.active
    → IsSingle tick.symbol i (take_intervals days tick (i ∷ []) p).active
unfolding take_intervals
take_intervals-IsSingle days tick i p h = elim (Option-cases (bucket_for days tick.timestamp i)) [
  | inl e ↦ rw (e, take_intervals) h
  | inr (b, e) ↦ rw (e, take_intervals) (take_tick-IsSingle tick i b p h)
]

record IsSingleEngine (t : Text) (i : CandleInterval) (s : CandleEngine) : Type 0 where
  intervals : s.intervals ≡ i ∷ []
  active : IsSingle t i s.active

process_tick-IsSingleEngine :
    (days : ExchangeDays) (tick : MarketTick) (i : CandleInterval) (s : CandleEngine)
    → IsSingleEngine tick.symbol i s
    → IsSingleEngine tick.symbol i (process_tick days tick s).1
unfolding process_tick
process_tick-IsSingleEngine days tick i s h =
    elim (Bool-cases (precedes tick.timestamp (find tick.symbol s.latest_timestamp_by_symbol))) [
      | inl late ↦ rw (late, process_tick) h
      | inr timely ↦
          rw (timely, process_tick)
            (record {
              intervals = h.intervals;
              active =
                  subst
                    (λ is.
                      IsSingle tick.symbol i
                        (take_intervals days tick is
                          (record { active = s.active; updated = []; completed = [] })).active)
                    (sym h.intervals)
                    (take_intervals-IsSingle days tick i
                      (record { active = s.active; updated = []; completed = [] }) h.active);
            })
    ]

feed_ticks-IsSingleEngine :
    (days : ExchangeDays) (request : HistoricalCandleRequest) (ticks : List MarketTick)
    (s : CandleEngine)
    → IsSingleEngine request.symbol request.interval s
    → IsSingleEngine request.symbol request.interval (feed_ticks days request ticks s)
unfolding feed_ticks
feed_ticks-IsSingleEngine days request [] s h = h
feed_ticks-IsSingleEngine days request (tick ∷ ticks) s h =
    elim (Bool-cases (serves request tick)) [
      | inl e ↦
          let own : tick.symbol ≡ request.symbol =
            ground (arith, text_eq_iff request.symbol tick.symbol) in
          rw (e, feed_ticks)
            (feed_ticks-IsSingleEngine days request ticks (process_tick days tick s).1 (
              subst (λ t. IsSingleEngine t request.interval (process_tick days tick s).1) own
                (process_tick-IsSingleEngine days tick request.interval s
                  (subst (λ t. IsSingleEngine t request.interval s) (sym own) h))))
      | inr e ↦ rw (e, feed_ticks) (feed_ticks-IsSingleEngine days request ticks s h)
    ]

length-filterb {ℓ} : {A : Type ℓ} (p : A → Bool) (xs : List A) → length (filterb p xs) ≤ length xs
length-filterb p [] = omega arith
length-filterb p (x ∷ xs) = ground (arith, length-filterb p xs)

IsSingle-length :
    (t : Text) (i : CandleInterval) (m : List ActiveCandle) → IsSingle t i m → length m ≤ 1
IsSingle-length t i [] h = omega arith
IsSingle-length t i (a ∷ []) h = omega arith
IsSingle-length t i (a ∷ b ∷ m) h = absurd h

-- However many ticks the fallback is given, and over however many buckets they range, it gives out at
-- most one candle.
pub length-aggregate_fallback_ticks :
    (days : ExchangeDays) (request : HistoricalCandleRequest) (ticks : List MarketTick)
    → length (aggregate_fallback_ticks days request ticks).candles ≤ 1
unfolding aggregate_fallback_ticks finalize_through
length-aggregate_fallback_ticks days request ticks =
    let fed =
      feed_ticks-IsSingleEngine days request (sort_ticks ticks) (new_engine (request.interval ∷ []))
        (record { intervals = refl; active = tt }) in
    let single = IsSingle-length _ _ _ fed.active in
    omega (arith, single, length-filterb {0}, length-map {0, 0})
