-- ===== src/MarketData/CandleEngine/Validity.antt =====
-- Every candle that the engine gives out passes the validation of a candle.
use algo_trading_system.Prelude.{
  ℕ, ◌≤◌, ◌<◌, ◌≡◌, Bool, true, false, List, [], ◌∷◌, map, some, arith, ltb, subst, inl, inr,
  Bool-cases, Option-cases, if◌then◌else◌, All, All-append, min, max,
}
use algo_trading_system.Prelude.Texts.{Text}
use algo_trading_system.Prelude.TextMaps.{find}
use algo_trading_system.Prelude.Suffixes.{All-filterb}
use algo_trading_system.MarketData.{MarketTick}
use algo_trading_system.MarketData.Calendar.{CandleInterval, CandleBucket, ExchangeDays}
use algo_trading_system.MarketData.Calendar.Buckets.{
  IsExchange, HoldsInstant, bucket_for-HoldsInstant,
}
use algo_trading_system.MarketData.TickProcessor.{precedes}
use algo_trading_system.MarketData.CandleEngine.{
  new_engine, Candle, ActiveCandle, from_tick, apply_tick, to_candle, has_key, get_active,
  set_active, delete_active, Progress, keep_active, take_tick, take_intervals, CandleUpdate,
  CandleEngine, update_of, process_tick, delete_completed, finalize_through,
}

-- `validate_ohlcv`
pub record IsValid (c : Candle) : Type 0 where
  pub period : c.start_at < c.end_at
  pub high : max c.open_price c.close ≤ c.high
  pub low : c.low ≤ min c.open_price c.close

-- The candle of an active one, complete or not, is valid.
abbrev IsSound : ActiveCandle → Type 0
IsSound a = IsValid (to_candle true a)

to_candle-IsValid : (b : Bool) (a : ActiveCandle) → IsSound a → IsValid (to_candle b a)
unfolding to_candle
to_candle-IsValid b a h = record { period = h.period; high = h.high; low = h.low }

from_tick-IsSound :
    (tick : MarketTick) (i : CandleInterval) (b : CandleBucket)
    → HoldsInstant tick.timestamp b
    → IsSound (from_tick tick i b)
unfolding from_tick to_candle
from_tick-IsSound tick i b h = record {
  period = omega (arith, h.begun, h.not_over);
  high = omega arith;
  low = omega arith;
}

apply_tick-IsSound :
    (tick : MarketTick) (a : ActiveCandle) → IsSound a → IsSound (apply_tick tick a)
unfolding apply_tick to_candle
apply_tick-IsSound tick a h = record {
  period = h.period;
  high = omega (arith, h.high);
  low = omega (arith, h.low);
}

some_injective : {a b : ActiveCandle} → some a ≡ some b → a ≡ b
some_injective e = cc

get_active-All :
    (P : ActiveCandle → Type 0) (t : Text) (i : CandleInterval) (m : List ActiveCandle)
    (a : ActiveCandle)
    → All P m
    → get_active t i m ≡ some a
    → P a
unfolding get_active
get_active-All P t i [] a h e = cc
get_active-All P t i (b ∷ m) a h e =
    elim (has_key t i b) as (λ x. (if x then some b else get_active t i m) ≡ some a → P a) [
      | true ↦ λ found. subst P (some_injective found) h.0
      | false ↦ λ found. get_active-All P t i m a h.1 found
    ]
      e

set_active-All :
    (P : ActiveCandle → Type 0) (new : ActiveCandle) (m : List ActiveCandle)
    → P new
    → All P m
    → All P (set_active new m)
unfolding set_active
set_active-All P new [] n h = (n, tt)
set_active-All P new (a ∷ m) n h = elim (Bool-cases (has_key new.symbol new.interval a)) [
  | inl e ↦ rw e (n, h.1)
  | inr e ↦ rw e (h.0, set_active-All P new m n h.1)
]

delete_active-All :
    (P : ActiveCandle → Type 0) (t : Text) (i : CandleInterval) (m : List ActiveCandle)
    → All P m
    → All P (delete_active t i m)
unfolding delete_active
delete_active-All P t i [] h = h
delete_active-All P t i (a ∷ m) h = elim (Bool-cases (has_key t i a)) [
  | inl e ↦ rw e h.1
  | inr e ↦ rw e (h.0, delete_active-All P t i m h.1)
]

delete_completed-All :
    (P : ActiveCandle → Type 0) (cs : List Candle) (m : List ActiveCandle)
    → All P m
    → All P (delete_completed cs m)
unfolding delete_completed
delete_completed-All P [] m h = h
delete_completed-All P (c ∷ cs) m h =
    delete_completed-All P cs _ (delete_active-All P c.symbol c.interval m h)

record IsSoundProgress (p : Progress) : Type 0 where
  active : All IsSound p.active
  updated : All IsValid p.updated
  completed : All IsValid p.completed

keep_active-IsSoundProgress :
    (a : ActiveCandle) (p : Progress)
    → IsSound a
    → IsSoundProgress p
    → IsSoundProgress (keep_active a p)
unfolding keep_active
keep_active-IsSoundProgress a p s h = record {
  active = set_active-All IsSound a p.active s h.active;
  updated = All-append IsValid p.updated _ h.updated (to_candle-IsValid false a s, tt);
  completed = h.completed;
}

take_tick-IsSoundProgress :
    (tick : MarketTick) (i : CandleInterval) (b : CandleBucket) (p : Progress)
    → HoldsInstant tick.timestamp b
    → IsSoundProgress p
    → IsSoundProgress (take_tick tick i b p)
unfolding take_tick
take_tick-IsSoundProgress tick i b p at h =
    elim (Option-cases (get_active tick.symbol i p.active)) [
      | inl e ↦
          rw (e, take_tick)
            (keep_active-IsSoundProgress (from_tick tick i b) p (from_tick-IsSound tick i b at) h)
      | inr (a, e) ↦
          let sound = get_active-All IsSound tick.symbol i p.active a h.active e in
          elim (Bool-cases (ltb a.bucket.start_at b.start_at)) [
            | inl later ↦
                rw (e, take_tick, later)
                  (keep_active-IsSoundProgress (from_tick tick i b) _
                    (from_tick-IsSound tick i b at)
                    (record {
                      active = h.active;
                      updated = h.updated;
                      completed = All-append IsValid p.completed _ h.completed (sound, tt);
                    }))
            | inr same ↦
                rw (e, take_tick, same)
                  (keep_active-IsSoundProgress (apply_tick tick a) p
                    (apply_tick-IsSound tick a sound) h)
          ]
    ]

module _ (days : ExchangeDays) (exchange : IsExchange days) where
  take_intervals-IsSoundProgress :
      (tick : MarketTick) (is : List CandleInterval) (p : Progress)
      → IsSoundProgress p
      → IsSoundProgress (take_intervals days tick is p)
  unfolding take_intervals
  take_intervals-IsSoundProgress tick [] p h = h
  take_intervals-IsSoundProgress tick (i ∷ is) p h =
      elim (bucket_for-HoldsInstant days tick.timestamp i exchange) [
        | inl (closed, e) ↦ rw (e, take_intervals) (take_intervals-IsSoundProgress tick is p h)
        | inr (b, e, at) ↦
            rw (e, take_intervals)
              (take_intervals-IsSoundProgress tick is (take_tick tick i b p)
                (take_tick-IsSoundProgress tick i b p at h))
      ]

-- A call of the engine.
pub data EngineCall : Type 0 where
  tick_arrives : MarketTick → EngineCall
  time_passes : ℕ → EngineCall

abbrev pub engine_step : ExchangeDays → CandleEngine → EngineCall → CandleUpdate × CandleEngine
engine_step days s (tick_arrives tick) = process_tick days tick s
engine_step days s (time_passes cutoff) = finalize_through cutoff s

unfoldable pub engine_run : ExchangeDays → CandleEngine → List EngineCall → CandleEngine
engine_run days s [] = s
engine_run days s (c ∷ cs) = engine_run days (engine_step days s c).1 cs

record IsSoundStep (r : CandleUpdate × CandleEngine) : Type 0 where
  updated : All IsValid r.0.updated
  completed : All IsValid r.0.completed
  active : All IsSound r.1.active

update_of-IsValid :
    (updated completed : List Candle)
    → All IsValid updated
    → All IsValid completed
    → All IsValid (update_of updated completed).updated
      × All IsValid (update_of updated completed).completed
update_of-IsValid [] completed u c = (tt, tt)
update_of-IsValid (d ∷ ds) completed u c = (u, c)

process_tick-IsSoundStep :
    (days : ExchangeDays) (tick : MarketTick) (s : CandleEngine)
    → IsExchange days
    → All IsSound s.active
    → IsSoundStep (process_tick days tick s)
unfolding process_tick
process_tick-IsSoundStep days tick s exchange h =
    let p =
      take_intervals-IsSoundProgress days exchange tick s.intervals
        (record { active = s.active; updated = []; completed = [] })
        (record { active = h; updated = tt; completed = tt }) in
    let both = update_of-IsValid _ _ p.updated p.completed in
    elim (Bool-cases (precedes tick.timestamp (find tick.symbol s.latest_timestamp_by_symbol))) [
      | inl late ↦ rw (late, process_tick) (record { updated = tt; completed = tt; active = h })
      | inr timely ↦
          rw (timely, process_tick)
            (record { updated = both.0; completed = both.1; active = p.active })
    ]

All-completed : (m : List ActiveCandle) → All IsSound m → All IsValid (map (to_candle true) m)
All-completed [] h = tt
All-completed (a ∷ m) h = (h.0, All-completed m h.1)

finalize_through-IsSoundStep :
    (cutoff : ℕ) (s : CandleEngine) → All IsSound s.active → IsSoundStep (finalize_through cutoff s)
unfolding finalize_through
finalize_through-IsSoundStep cutoff s h = record {
  updated = tt;
  completed = All-completed _ (All-filterb IsSound _ s.active h);
  active = delete_completed-All IsSound _ s.active h;
}

module _ (days : ExchangeDays) (exchange : IsExchange days) where
  engine_step-IsSoundStep :
      (s : CandleEngine) (c : EngineCall)
      → All IsSound s.active
      → IsSoundStep (engine_step days s c)
  engine_step-IsSoundStep s (tick_arrives tick) h = process_tick-IsSoundStep days tick s exchange h
  engine_step-IsSoundStep s (time_passes cutoff) h = finalize_through-IsSoundStep cutoff s h

  engine_run-IsSound :
      (cs : List EngineCall) (s : CandleEngine)
      → All IsSound s.active
      → All IsSound (engine_run days s cs).active
  unfolding engine_run
  engine_run-IsSound [] s h = h
  engine_run-IsSound (c ∷ cs) s h =
      engine_run-IsSound cs (engine_step days s c).1 (engine_step-IsSoundStep s c h).active

-- Whatever ticks and times a new engine is given, in whatever order, every candle that a further call
-- updates or completes ends after it starts, and has a high that is at least and a low that is at most
-- its open and its close; so `validate_ohlcv` never refuses it.
pub engine_step-IsValid :
    (days : ExchangeDays) (intervals : List CandleInterval) (calls : List EngineCall)
    (call : EngineCall)
    → IsExchange days
    → All IsValid (engine_step days (engine_run days (new_engine intervals) calls) call).0.updated
      × All IsValid
          (engine_step days (engine_run days (new_engine intervals) calls) call).0.completed
engine_step-IsValid days intervals calls call exchange =
    let s = engine_run days (new_engine intervals) calls in
    let r =
      engine_step-IsSoundStep days exchange s call
        (engine_run-IsSound days exchange calls (new_engine intervals) tt) in
    (r.updated, r.completed)
