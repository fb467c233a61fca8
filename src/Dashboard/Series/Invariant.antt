-- ===== src/Dashboard/Series/Invariant.antt =====
-- The invariant of the dashboard's series, and that selections and loads keep it.
use algo_trading_system.Prelude.{
  ◌≡◌, refl, ◌⊎◌, inl, inr, Bool, true, false, [], ◌∷◌, map, Option, none, some, All, Option-cases,
  Bool-cases,
}
use algo_trading_system.Prelude.Texts.{Text}
use algo_trading_system.Chart.{Point}
use algo_trading_system.Chart.Points.{IsSeries, IsUsable}
use algo_trading_system.Chart.Points.Order.{normalize_points-IsSeries}
use algo_trading_system.Chart.Loader.{Failure, abort_error, error, Result, ok, err, LoadedSeries}
use algo_trading_system.Dashboard.Series.{
  CacheKey, Cache, cache_set, key_eq, cache_get, ChartState, apply_series, open_chart, chart_effect,
  Load, finish_load, load_failed, settle_load,
}

-- Every cached series is in order and drawable.
abbrev pub AllCached : Cache → Type 0
AllCached = All (λ entry. IsSeries entry.1.points)

abbrev pub IsUsablePending : Option Point → Type 0
IsUsablePending none = Unit
IsUsablePending (some p) = IsUsable p

pub record IsConsistent (s : ChartState) : Type 0 where
  -- The series on the screen is the one that the callbacks read and write.
  pub shown : s.series ≡ s.series_ref
  pub ordered : IsSeries s.series
  pub cache : AllCached s.chart_cache
  pub pending : IsUsablePending s.pending_tick
  -- A tick that waits has a timer that will flush it.
  pub timer : (s.pending_tick ≡ none) ⊎ (s.flush_timer ≡ true)

pub empty_series : IsSeries []
empty_series = record { usable = tt; chronological = tt }

pub cache_set-AllCached :
    (k : CacheKey) (v : LoadedSeries) (m : Cache)
    → IsSeries v.points
    → AllCached m
    → AllCached (cache_set k v m)
unfolding cache_set
cache_set-AllCached k v [] h c = (h, tt)
cache_set-AllCached k v ((j, w) ∷ m) h c = elim (Bool-cases (key_eq j k)) [
  | inl e ↦ rw e (h, c.1)
  | inr e ↦ rw e (c.0, cache_set-AllCached k v m h c.1)
]

pub apply_series-IsConsistent :
    (key : CacheKey) (r : LoadedSeries) (s : ChartState)
    → IsConsistent s
    → IsConsistent (apply_series key r s)
unfolding apply_series
apply_series-IsConsistent key r s v =
    let next = normalize_points-IsSeries (map some r.points) in
    record {
      shown = refl;
      ordered = next;
      cache = cache_set-AllCached key _ s.chart_cache next v.cache;
      pending = v.pending;
      timer = v.timer;
    }

pub set_loading-IsConsistent :
    (loading : Bool) (s : ChartState)
    → IsConsistent s
    → IsConsistent (record s { chart_loading = loading })
set_loading-IsConsistent loading s v = record {
  shown = v.shown;
  ordered = v.ordered;
  cache = v.cache;
  pending = v.pending;
  timer = v.timer;
}

pub open_chart-IsConsistent :
    (key : CacheKey) (s : ChartState) → IsConsistent s → IsConsistent (open_chart key s)
unfolding open_chart
open_chart-IsConsistent key s v = elim (Option-cases (cache_get key s.chart_cache)) [
  | inl e ↦ rw (e, open_chart) (set_loading-IsConsistent true s v)
  | inr (cached, e) ↦
      rw (e, open_chart)
        (set_loading-IsConsistent false _ (apply_series-IsConsistent key cached s v))
]

pub chart_effect-IsConsistent :
    (symbol : Option Text) (s : ChartState) → IsConsistent s → IsConsistent (chart_effect symbol s)
unfolding chart_effect
chart_effect-IsConsistent none s v = record {
  shown = refl;
  ordered = empty_series;
  cache = v.cache;
  pending = v.pending;
  timer = v.timer;
}
chart_effect-IsConsistent (some symbol) s v = open_chart-IsConsistent _ s v

pub finish_load-IsConsistent :
    (load : Load) (s : ChartState) → IsConsistent s → IsConsistent (finish_load load s)
unfolding finish_load
finish_load-IsConsistent load s v = elim (Bool-cases load.aborted) [
  | inl e ↦ rw e v
  | inr e ↦ rw e (set_loading-IsConsistent false s v)
]

pub load_failed-IsConsistent :
    (load : Load) (failure : Failure) (s : ChartState)
    → IsConsistent s
    → IsConsistent (load_failed load failure s)
unfolding load_failed
load_failed-IsConsistent load abort_error s v = v
load_failed-IsConsistent load (error message) s v = elim (Bool-cases load.cached) [
  | inl e ↦ rw e v
  | inr e ↦ rw e (record {
    shown = refl;
    ordered = empty_series;
    cache = v.cache;
    pending = v.pending;
    timer = v.timer;
  })
]

pub settle_load-IsConsistent :
    (load : Load) (result : Result LoadedSeries) (s : ChartState)
    → IsConsistent s
    → IsConsistent (settle_load load result s)
unfolding settle_load
settle_load-IsConsistent load (ok r) s v =
    finish_load-IsConsistent load _ (elim (Bool-cases load.aborted) [
      | inl e ↦ rw e v
      | inr e ↦ rw e (apply_series-IsConsistent load.key r s v)
    ])
settle_load-IsConsistent load (err failure) s v =
    finish_load-IsConsistent load _ (load_failed-IsConsistent load failure s v)

pub set_live-IsConsistent :
    (live : Bool) (s : ChartState) → IsConsistent s → IsConsistent (record s { chart_live = live })
set_live-IsConsistent live s v = record {
  shown = v.shown;
  ordered = v.ordered;
  cache = v.cache;
  pending = v.pending;
  timer = v.timer;
}
