-- ===== src/MarketData/CandleEngine/Refinement.antt =====
-- The engine keeps for every symbol and interval the candle of exactly the ticks of its open bucket.
use algo_trading_system.Prelude.{
  ℕ, ◌≡◌, inl, inr, refl, sym, ap, subst, ◌∙◌, true, false, List, [], ◌∷◌, ◌++◌, Option, none, some,
  Bool-cases, leb,
}
use algo_trading_system.Prelude.Texts.{Text, text_eq, text_eq_iff, text_eq_refl}
use algo_trading_system.Prelude.TextMaps.{find}
use algo_trading_system.MarketData.{MarketTick}
use algo_trading_system.MarketData.Calendar.{CandleInterval, ExchangeDays, bucket_for}
use algo_trading_system.MarketData.TickProcessor.{precedes}
use algo_trading_system.MarketData.CandleEngine.{
  get_active, Progress, take_intervals, CandleEngine, new_engine, process_tick, finalize_through,
}
use algo_trading_system.MarketData.CandleEngine.Validity.{
  EngineCall, tick_arrives, time_passes, engine_step, engine_run,
}
use algo_trading_system.MarketData.CandleEngine.Removal.{}
use algo_trading_system.MarketData.CandleEngine.Series.{
  OpenBar, SeriesState, no_ticks, series_run, ended_by, ended_at, series_completed,
}
use algo_trading_system.MarketData.CandleEngine.Aggregation.{open_candle}
use algo_trading_system.MarketData.CandleEngine.Completed.{
  of_key, take_intervals-completed_other, take_interval-completed_own, completed_reported, taken_by,
  of_key-finalized,
}
use algo_trading_system.MarketData.CandleEngine.Intervals.{
  take_intervals-append, take_intervals_other, IsAbsent, absent_keys, other_symbol_keys,
}
use algo_trading_system.MarketData.CandleEngine.Matching.{Matches, progress, engine_run-Matches}

module _ (days : ExchangeDays) (i : CandleInterval) (before after : List CandleInterval)
    (first : IsAbsent i before) (last : IsAbsent i after) where
  all-completed_own :
      (tick : MarketTick) (p : Progress) (bar : Option OpenBar)
      → get_active tick.symbol i p.active ≡ open_candle i bar
      → of_key tick.symbol i (take_intervals days tick (before ++ i ∷ after) p).completed
        ≡ of_key tick.symbol i p.completed ++ ended_by i (bucket_for days tick.timestamp i) bar
  all-completed_own tick p bar e =
      let q = take_intervals days tick before p in
      let r = take_intervals days tick (i ∷ []) q in
      let apart = absent_keys i tick.symbol before first in
      ap (λ (x : Progress). of_key tick.symbol i x.completed)
        (take_intervals-append days tick before (i ∷ after) p
          ∙ take_intervals-append days tick (i ∷ []) after q)
      ∙ take_intervals-completed_other days tick.symbol i tick after r
          (absent_keys i tick.symbol after last)
      ∙ take_interval-completed_own days tick i q bar
          (take_intervals_other days tick.symbol i tick before p apart ∙ e)
      ∙ ap (λ cs. cs ++ ended_by i (bucket_for days tick.timestamp i) bar)
          (take_intervals-completed_other days tick.symbol i tick before p apart)

  tick_own-completed :
      (tick : MarketTick) (s : CandleEngine) (t : SeriesState)
      → Matches days i before after first last tick.symbol s t
      → of_key tick.symbol i (process_tick days tick s).0.completed
        ≡ series_completed days tick.symbol i t (tick_arrives tick)
  unfolding process_tick
  tick_own-completed tick s t h =
      rw (text_eq_refl tick.symbol)
        (elim (Bool-cases
          (precedes tick.timestamp (find tick.symbol s.latest_timestamp_by_symbol))) [
            | inl late ↦
                let late' : precedes tick.timestamp t.watermark ≡ true =
                  ap (precedes tick.timestamp) (sym h.mark) ∙ late in
                rw (late, late', process_tick) refl
            | inr timely ↦
                let timely' : precedes tick.timestamp t.watermark ≡ false =
                  ap (precedes tick.timestamp) (sym h.mark) ∙ timely in
                rw (timely, timely', process_tick)
                  (ap (of_key tick.symbol i) (completed_reported days tick s.intervals s.active)
                    ∙ ap
                        (λ (js : List CandleInterval).
                          of_key tick.symbol i (take_intervals days tick js (progress s)).completed)
                        h.intervals
                    ∙ all-completed_own tick (progress s) t.bar h.candle)
          ])

  tick_other-completed :
      (symbol : Text) (tick : MarketTick) (s : CandleEngine)
      → text_eq tick.symbol symbol ≡ false
      → of_key symbol i (process_tick days tick s).0.completed ≡ []
  unfolding process_tick
  tick_other-completed symbol tick s off =
      elim (Bool-cases (precedes tick.timestamp (find tick.symbol s.latest_timestamp_by_symbol))) [
        | inl late ↦ rw (late, process_tick) refl
        | inr timely ↦
            rw (timely, process_tick)
              (ap (of_key symbol i) (completed_reported days tick s.intervals s.active)
                ∙ take_intervals-completed_other days symbol i tick s.intervals (progress s)
                    (other_symbol_keys i tick.symbol symbol s.intervals off))
      ]

  time_passes-completed :
      (symbol : Text) (cutoff : ℕ) (s : CandleEngine) (t : SeriesState)
      → Matches days i before after first last symbol s t
      → of_key symbol i (finalize_through cutoff s).0.completed ≡ ended_at i cutoff t.bar
  unfolding finalize_through
  time_passes-completed symbol cutoff s t h =
      of_key-finalized symbol i (λ a. leb a.bucket.end_at cutoff) s.active h.unique
      ∙ ap (taken_by (λ a. leb a.bucket.end_at cutoff)) h.candle
      ∙ ended t.bar
    where
      ended :
          (bar : Option OpenBar)
          → taken_by (λ a. leb a.bucket.end_at cutoff) (open_candle i bar) ≡ ended_at i cutoff bar
      ended none = refl
      ended (some bar) = refl

  engine_step-completed :
      (symbol : Text) (s : CandleEngine) (t : SeriesState) (c : EngineCall)
      → Matches days i before after first last symbol s t
      → of_key symbol i (engine_step days s c).0.completed ≡ series_completed days symbol i t c
  engine_step-completed symbol s t (time_passes cutoff) h =
      time_passes-completed symbol cutoff s t h
  engine_step-completed symbol s t (tick_arrives tick) h =
      elim (Bool-cases (text_eq tick.symbol symbol)) [
        | inl e ↦
            subst
              (λ u.
                Matches days i before after first last u s t
                → of_key u i (process_tick days tick s).0.completed
                  ≡ series_completed days u i t (tick_arrives tick))
              ((text_eq_iff tick.symbol symbol).0 e) (tick_own-completed tick s t) h
        | inr e ↦ rw e (tick_other-completed symbol tick s e)
      ]

-- Through any sequence of ticks and ends of buckets, the engine has for a symbol and an interval that it
-- is set up for once a candle exactly where ticks wait in an open bucket, and it is the candle of
-- exactly these: its open is the price of the first, its close that of the last, its high and low are
-- the largest and the least price, and its volume is the sum of the sizes. Late ticks, ticks outside
-- trading hours and those of other symbols do not count, other intervals do not matter, and a bucket
-- that starts later or the end of the bucket begins anew. Of this symbol and interval a further call
-- completes the candle of the open bucket where it ends that bucket, and no other.
pub engine_run-series_run :
    (days : ExchangeDays) (i : CandleInterval) (before after : List CandleInterval) (symbol : Text)
    (calls : List EngineCall) (call : EngineCall)
    → IsAbsent i before
    → IsAbsent i after
    → let s = engine_run days (new_engine (before ++ i ∷ after)) calls in
      let t = series_run days symbol i no_ticks calls in
      (get_active symbol i s.active ≡ open_candle i t.bar)
      × (of_key symbol i (engine_step days s call).0.completed
          ≡ series_completed days symbol i t call)
unfolding get_active find
engine_run-series_run days i before after symbol calls call first last =
    let s = engine_run days (new_engine (before ++ i ∷ after)) calls in
    let t = series_run days symbol i no_ticks calls in
    let m =
      engine_run-Matches days i before after first last symbol (new_engine (before ++ i ∷ after))
        no_ticks calls (record { intervals = refl; unique = tt; mark = refl; candle = refl }) in
    (m.candle, engine_step-completed days i before after first last symbol s t call m)
