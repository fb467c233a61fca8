-- ===== src/Dashboard/Series/Races.antt =====
-- What loads and ticks that come late do to the series and the cache.
use algo_trading_system.Prelude.{
  ◌≡◌, ◌≢◌, inl, inr, Option-cases, refl, Bool, true, false, [], ◌∷◌, some, arith,
}
use algo_trading_system.Chart.{Point}
use algo_trading_system.Chart.Live.{merge_live_point}
use algo_trading_system.Chart.Loader.{Message, abort_error, error, Result, ok, err, LoadedSeries}
use algo_trading_system.Dashboard.Series.{
  CacheKey, cache_get, ChartState, Load, settle_load, flush_tick, is_selected,
}
use algo_trading_system.Dashboard.Series.Cache.{key_eq_iff, cache_get-cache_set}

abbrev has_message : Result LoadedSeries → Bool
has_message (ok r) = false
has_message (err abort_error) = false
has_message (err (error m)) = true

-- A load whose effect was cleaned up changes nothing, unless it fails with an error other than the
-- abort.
pub settle_load_aborted :
    (load : Load) (result : Result LoadedSeries) (s : ChartState)
    → load.aborted ≡ true
    → has_message result ≡ false
    → settle_load load result s ≡ s
unfolding settle_load
settle_load_aborted load (ok r) s a n = simp a
settle_load_aborted load (err abort_error) s a n = simp a
settle_load_aborted load (err (error m)) s a n = cc

-- A tick that waits, flushed while the series of the selected symbol is active, is merged into the
-- series: the series on the screen, the one the callbacks hold and the cached one all become the
-- merged series, and the cached one keeps its source.
pub flush_tick_merges :
    (s : ChartState) (key : CacheKey) (p : Point)
    → s.pending_tick ≡ some p
    → s.active_chart.key ≡ some key
    → is_selected s.selected_symbol key.symbol ≡ true
    → ((flush_tick s).series ≡ merge_live_point s.series_ref p)
      × ((flush_tick s).series_ref ≡ merge_live_point s.series_ref p)
      × (cache_get key (flush_tick s).chart_cache
          ≡ some
              (record { points = merge_live_point s.series_ref p; source = s.active_chart.source }))
unfolding flush_tick
flush_tick_merges s key p pending active selected = ground (
  arith,
  key_eq_iff key key,
  cache_get-cache_set key key
      (record { points = merge_live_point s.series_ref p; source = s.active_chart.source })
      s.chart_cache,
)

-- While a chart is active, a flush leaves every cached series but the one of that chart as it was.
pub flush_tick_other :
    (s : ChartState) (key other : CacheKey)
    → s.active_chart.key ≡ some key
    → key ≢ other
    → cache_get other (flush_tick s).chart_cache ≡ cache_get other s.chart_cache
unfolding flush_tick
flush_tick_other s key other active differs = elim (Option-cases s.pending_tick) [
  | inl e ↦ rw (e, flush_tick) refl
  | inr (p, e) ↦ ground (
    arith,
    key_eq_iff key other,
    cache_get-cache_set other key
        (record { points = merge_live_point s.series_ref p; source = s.active_chart.source })
        s.chart_cache,
  )
]

stale_failure :
    (s : ChartState) (load : Load) (m : Message)
    → load.aborted ≡ true
    → load.cached ≡ false
    → settle_load load (err (error m)) s
      ≡ record s { series_ref = []; series = []; load_error = some m }
unfolding settle_load
stale_failure s load m aborted uncached = simp (aborted, uncached)

-- A load that was aborted, and whose chart was not cached, but that fails with an error other than the
-- abort, empties the series of the active chart; a tick of its symbol that waits then replaces the
-- cached series of that chart by the tick alone.
pub stale_failure_loses_series :
    (s : ChartState) (load : Load) (m : Message) (key : CacheKey) (p : Point)
    → load.aborted ≡ true
    → load.cached ≡ false
    → s.pending_tick ≡ some p
    → s.active_chart.key ≡ some key
    → is_selected s.selected_symbol key.symbol ≡ true
    → ((settle_load load (err (error m)) s).series ≡ [])
      × (cache_get key (flush_tick (settle_load load (err (error m)) s)).chart_cache
          ≡ some (record { points = p ∷ []; source = s.active_chart.source }))
unfolding merge_live_point
stale_failure_loses_series s load m key p aborted uncached pending active selected =
    rw (stale_failure s load m aborted uncached) (
      refl,
      (flush_tick_merges (record s { series_ref = []; series = []; load_error = some m }) key p
          pending active selected).2,
    )
