-- ===== src/MarketData/CandleEngine/Matching.antt =====
-- How the state of the engine stands to the series of a symbol and an interval, through all calls.
use algo_trading_system.Prelude.{
  ℕ, ◌≡◌, inl, inr, refl, sym, ap, subst, ◌∙◌, true, false, List, [], ◌∷◌, ◌++◌, Option, none, some,
  Bool-cases, leb,
}
use algo_trading_system.Prelude.Texts.{Text, text_eq, text_eq_iff, text_eq_refl}
use algo_trading_system.Prelude.TextMaps.{find, find-put}
use algo_trading_system.MarketData.{MarketTick}
use algo_trading_system.MarketData.Calendar.{CandleInterval, ExchangeDays, bucket_for}
use algo_trading_system.MarketData.TickProcessor.{precedes}
use algo_trading_system.MarketData.CandleEngine.{
  get_active, Progress, take_intervals, CandleEngine, process_tick, finalize_through,
}
use algo_trading_system.MarketData.CandleEngine.Validity.{
  EngineCall, tick_arrives, time_passes, engine_step, engine_run,
}
use algo_trading_system.MarketData.CandleEngine.Keys.{IsUnique}
use algo_trading_system.MarketData.CandleEngine.Removal.{
  delete_completed-IsUnique, left_by, get_active-finalized,
}
use algo_trading_system.MarketData.CandleEngine.Series.{
  OpenBar, SeriesState, extend_if, unless_ended, series_step, series_run,
}
use algo_trading_system.MarketData.CandleEngine.Aggregation.{open_candle}
use algo_trading_system.MarketData.CandleEngine.Completed.{}
use algo_trading_system.MarketData.CandleEngine.Intervals.{
  take_intervals-append, take_intervals-IsUnique, take_intervals_other, IsAbsent, absent_keys,
  other_symbol_keys, take_interval_own,
}

-- What the loop over the intervals starts from.
abbrev pub progress : CandleEngine → Progress
progress s = record { active = s.active; updated = []; completed = [] }

module _ (days : ExchangeDays) (i : CandleInterval) (before after : List CandleInterval)
    (first : IsAbsent i before) (last : IsAbsent i after) where
  take_all_own :
      (tick : MarketTick) (p : Progress) (bar : Option OpenBar)
      → get_active tick.symbol i p.active ≡ open_candle i bar
      → get_active tick.symbol i (take_intervals days tick (before ++ i ∷ after) p).active
        ≡ open_candle i (extend_if tick (bucket_for days tick.timestamp i) bar)
  take_all_own tick p bar e =
      let q = take_intervals days tick before p in
      let r = take_intervals days tick (i ∷ []) q in
      ap (λ (x : Progress). get_active tick.symbol i x.active)
        (take_intervals-append days tick before (i ∷ after) p
          ∙ take_intervals-append days tick (i ∷ []) after q)
      ∙ take_intervals_other days tick.symbol i tick after r (absent_keys i tick.symbol after last)
      ∙ take_interval_own days tick i q bar (
          take_intervals_other days tick.symbol i tick before p
            (absent_keys i tick.symbol before first)
          ∙ e)

  pub record Matches (symbol : Text) (s : CandleEngine) (t : SeriesState) : Type 0 where
    pub intervals : s.intervals ≡ before ++ i ∷ after
    pub unique : IsUnique s.active
    pub mark : find symbol s.latest_timestamp_by_symbol ≡ t.watermark
    pub candle : get_active symbol i s.active ≡ open_candle i t.bar

  tick_own-Matches :
      (tick : MarketTick) (s : CandleEngine) (t : SeriesState)
      → Matches tick.symbol s t
      → Matches tick.symbol
          (process_tick days tick s).1
          (series_step days tick.symbol i t (tick_arrives tick))
  unfolding process_tick
  tick_own-Matches tick s t h =
      rw (text_eq_refl tick.symbol)
        (elim (Bool-cases
          (precedes tick.timestamp (find tick.symbol s.latest_timestamp_by_symbol))) [
            | inl late ↦
                let late' : precedes tick.timestamp t.watermark ≡ true =
                  ap (precedes tick.timestamp) (sym h.mark) ∙ late in
                rw (late, late', process_tick) h
            | inr timely ↦
                let timely' : precedes tick.timestamp t.watermark ≡ false =
                  ap (precedes tick.timestamp) (sym h.mark) ∙ timely in
                rw (timely, timely', process_tick)
                  (record {
                    intervals = h.intervals;
                    unique = take_intervals-IsUnique days tick s.intervals (progress s) h.unique;
                    mark =
                        find-put tick.symbol tick.symbol tick.timestamp s.latest_timestamp_by_symbol
                        ∙ rw (text_eq_refl tick.symbol) refl;
                    candle =
                        ap
                          (λ (js : List CandleInterval).
                            get_active tick.symbol i
                              (take_intervals days tick js (progress s)).active)
                          h.intervals
                        ∙ take_all_own tick (progress s) t.bar h.candle;
                  })
          ])

  tick_other-Matches :
      (symbol : Text) (tick : MarketTick) (s : CandleEngine) (t : SeriesState)
      → text_eq tick.symbol symbol ≡ false
      → Matches symbol s t
      → Matches symbol (process_tick days tick s).1 t
  unfolding process_tick
  tick_other-Matches symbol tick s t off h =
      elim (Bool-cases (precedes tick.timestamp (find tick.symbol s.latest_timestamp_by_symbol))) [
        | inl late ↦ rw (late, process_tick) h
        | inr timely ↦
            rw (timely, process_tick)
              (record {
                intervals = h.intervals;
                unique = take_intervals-IsUnique days tick s.intervals (progress s) h.unique;
                mark =
                    find-put symbol tick.symbol tick.timestamp s.latest_timestamp_by_symbol
                    ∙ rw off h.mark;
                candle =
                    take_intervals_other days symbol i tick s.intervals (progress s)
                      (other_symbol_keys i tick.symbol symbol s.intervals off)
                    ∙ h.candle;
              })
      ]

  time_passes-Matches :
      (symbol : Text) (cutoff : ℕ) (s : CandleEngine) (t : SeriesState)
      → Matches symbol s t
      → Matches symbol
          (finalize_through cutoff s).1
          (series_step days symbol i t (time_passes cutoff))
  unfolding finalize_through
  time_passes-Matches symbol cutoff s t h = record {
    intervals = h.intervals;
    unique = delete_completed-IsUnique _ s.active h.unique;
    mark = h.mark;
    candle =
        get_active-finalized symbol i (λ a. leb a.bucket.end_at cutoff) s.active h.unique
        ∙ ap (left_by (λ a. leb a.bucket.end_at cutoff)) h.candle
        ∙ ended t.bar;
  }
    where
      ended :
          (bar : Option OpenBar)
          → left_by (λ a. leb a.bucket.end_at cutoff) (open_candle i bar)
            ≡ open_candle i (unless_ended cutoff bar)
      ended none = refl
      ended (some bar) = elim (Bool-cases (leb bar.bucket.end_at cutoff)) [
        | inl e ↦ rw e refl
        | inr e ↦ rw e refl
      ]

  engine_step-Matches :
      (symbol : Text) (s : CandleEngine) (t : SeriesState) (c : EngineCall)
      → Matches symbol s t
      → Matches symbol (engine_step days s c).1 (series_step days symbol i t c)
  engine_step-Matches symbol s t (time_passes cutoff) h = time_passes-Matches symbol cutoff s t h
  engine_step-Matches symbol s t (tick_arrives tick) h =
      elim (Bool-cases (text_eq tick.symbol symbol)) [
        | inl e ↦
            subst
              (λ u.
                Matches u s t
                → Matches u (process_tick days tick s).1
                    (series_step days u i t (tick_arrives tick)))
              ((text_eq_iff tick.symbol symbol).0 e) (tick_own-Matches tick s t) h
        | inr e ↦ rw e (tick_other-Matches symbol tick s t e h)
      ]

  pub engine_run-Matches :
      (symbol : Text) (s : CandleEngine) (t : SeriesState) (cs : List EngineCall)
      → Matches symbol s t
      → Matches symbol (engine_run days s cs) (series_run days symbol i t cs)
  unfolding engine_run series_run
  engine_run-Matches symbol s t [] h = h
  engine_run-Matches symbol s t (c ∷ cs) h =
      engine_run-Matches symbol (engine_step days s c).1 (series_step days symbol i t c) cs
        (engine_step-Matches symbol s t c h)
