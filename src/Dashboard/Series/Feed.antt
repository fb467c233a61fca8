-- ===== src/Dashboard/Series/Feed.antt =====
-- How a tick of the feed gets on the chart.
use algo_trading_system.Prelude.{
  ◌≡◌, ◌≢◌, ◌∙◌, refl, ap, Bool, true, false, not, List, [], ◌∷◌, ◌++◌, none, some, arith, All,
}
use algo_trading_system.Prelude.Texts.{Text, text_eq, text_eq_iff, text_eq_refl}
use algo_trading_system.Chart.{Point}
use algo_trading_system.Chart.Points.{WireTick, point_from_tick}
use algo_trading_system.Chart.Live.{merge_live_point}
use algo_trading_system.Dashboard.Series.{
  CacheKey, cache_get, ChartState, hold_tick, receive, flush_tick, is_selected, malformed,
  other_event, tick_event, ChartEvent, symbol_selected, range_selected, load_settled, socket_opened,
  socket_closed, timer_fired, message_received, chart_step, chart_run,
}
use algo_trading_system.Dashboard.Series.Races.{flush_tick_merges, flush_tick_other}

-- What may come between a tick and the timer: the socket opens or closes, a message that is no tick,
-- or a tick of some other symbol.
abbrev pub is_quiet : Text → ChartEvent → Bool
is_quiet symbol (symbol_selected t) = false
is_quiet symbol (range_selected r) = false
is_quiet symbol (load_settled load result) = false
is_quiet symbol socket_opened = true
is_quiet symbol socket_closed = true
is_quiet symbol timer_fired = false
is_quiet symbol (message_received malformed) = true
is_quiet symbol (message_received other_event) = true
is_quiet symbol (message_received (tick_event t tick)) = not (text_eq symbol t)

-- A state from which the tick gets on the chart, however often the feed turns live or not.
record Holds (s : ChartState) (p : Point) (t : ChartState) : Type 0 where
  selected : t.selected_symbol ≡ s.selected_symbol
  series_ref : t.series_ref ≡ s.series_ref
  chart_cache : t.chart_cache ≡ s.chart_cache
  active_chart : t.active_chart ≡ s.active_chart
  pending : t.pending_tick ≡ some p
  timer : t.flush_timer ≡ true

unselected_tick :
    (symbol u : Text) → not (text_eq symbol u) ≡ true → is_selected (some symbol) u ≡ false
unselected_tick symbol u h = ground (arith, text_eq_iff symbol u, text_eq_iff u symbol)

flush_tick_settled :
    (s : ChartState) → ((flush_tick s).pending_tick ≡ none) × ((flush_tick s).flush_timer ≡ false)
unfolding flush_tick
flush_tick_settled s = ground arith

live-Holds :
    (s : ChartState) (p : Point) (t : ChartState) (live : Bool)
    → Holds s p t
    → Holds s p (record t { chart_live = live })
live-Holds s p t live h = record {
  selected = h.selected;
  series_ref = h.series_ref;
  chart_cache = h.chart_cache;
  active_chart = h.active_chart;
  pending = h.pending;
  timer = h.timer;
}

quiet_step-Holds :
    (s : ChartState) (p : Point) (symbol : Text) (t : ChartState) (e : ChartEvent)
    → s.selected_symbol ≡ some symbol
    → is_quiet symbol e ≡ true
    → Holds s p t
    → Holds s p (chart_step t e)
unfolding chart_step receive
quiet_step-Holds s p symbol t (symbol_selected u) e q h = cc
quiet_step-Holds s p symbol t (range_selected r) e q h = cc
quiet_step-Holds s p symbol t (load_settled load result) e q h = cc
quiet_step-Holds s p symbol t socket_opened e q h = live-Holds s p t true h
quiet_step-Holds s p symbol t socket_closed e q h = live-Holds s p t false h
quiet_step-Holds s p symbol t timer_fired e q h = cc
quiet_step-Holds s p symbol t (message_received malformed) e q h = live-Holds s p t false h
quiet_step-Holds s p symbol t (message_received other_event) e q h = h
quiet_step-Holds s p symbol t (message_received (tick_event u tick)) e q h =
    let unselected : is_selected t.selected_symbol u ≡ false =
      rw (h.selected ∙ e) (unselected_tick symbol u q) in
    rw (unselected, receive) h

quiet_run-Holds :
    (s : ChartState) (p : Point) (symbol : Text) (t : ChartState) (es : List ChartEvent)
    → s.selected_symbol ≡ some symbol
    → All (λ e. is_quiet symbol e ≡ true) es
    → Holds s p t
    → Holds s p (chart_run t es)
unfolding chart_run
quiet_run-Holds s p symbol t [] e q h = h
quiet_run-Holds s p symbol t (x ∷ xs) e q h =
    quiet_run-Holds s p symbol (chart_step t x) xs e q.1 (quiet_step-Holds s p symbol t x e q.0 h)

chart_run-append :
    (s : ChartState) (es fs : List ChartEvent)
    → chart_run s (es ++ fs) ≡ chart_run (chart_run s es) fs
unfolding chart_run
chart_run-append s [] fs = refl
chart_run-append s (e ∷ es) fs = chart_run-append (chart_step s e) es fs

receive-Holds :
    (s : ChartState) (p : Point) (symbol : Text) (tick : WireTick)
    → s.selected_symbol ≡ some symbol
    → point_from_tick tick ≡ some p
    → Holds s p (receive (tick_event symbol tick) s)
unfolding receive hold_tick
receive-Holds s p symbol tick e made =
    let here : is_selected s.selected_symbol symbol ≡ true = rw e (text_eq_refl symbol) in
    rw (here, made, receive)
      (record {
        selected = refl;
        series_ref = refl;
        chart_cache = refl;
        active_chart = refl;
        pending = refl;
        timer = refl;
      })

-- How the tick `p` stands on the chart with this key afterwards.
pub record IsShown (s : ChartState) (key : CacheKey) (p : Point) (t : ChartState) : Type 0 where
  pub shown : t.series ≡ merge_live_point s.series_ref p
  pub held : t.series_ref ≡ merge_live_point s.series_ref p
  pub cached :
      cache_get key t.chart_cache
      ≡ some (record { points = merge_live_point s.series_ref p; source = s.active_chart.source })
  pub others :
      (other : CacheKey)
      → key ≢ other
      → cache_get other t.chart_cache ≡ cache_get other s.chart_cache
  pub settled : (t.pending_tick ≡ none) × (t.flush_timer ≡ false)

timer_flushes : (t : ChartState) → t.flush_timer ≡ true → chart_step t timer_fired ≡ flush_tick t
unfolding chart_step
timer_flushes t h = simp h

timer-IsShown :
    (s : ChartState) (key : CacheKey) (p : Point) (t : ChartState)
    → s.selected_symbol ≡ some key.symbol
    → s.active_chart.key ≡ some key
    → Holds s p t
    → IsShown s key p (chart_step t timer_fired)
timer-IsShown s key p t e a h =
    let active = ap (λ c. c.key) h.active_chart ∙ a in
    let merges =
      flush_tick_merges t key p h.pending active (rw (h.selected ∙ e) (text_eq_refl key.symbol)) in
    rw (timer_flushes t h.timer) (record {
      shown = cc;
      held = cc;
      cached = cc;
      others = λ other differs.
          flush_tick_other t key other active differs ∙ ap (cache_get other) h.chart_cache;
      settled = flush_tick_settled t;
    })

-- A drawable tick of the selected symbol gets on its active chart when the timer fires: whatever opens
-- or closes the socket, whatever messages are no ticks and whatever ticks of other symbols come in
-- between, the series on the screen, the one the callbacks hold and the cached one become the one that
-- they were with the tick merged in; the other cached series stay as they were; and neither a tick nor
-- a timer is left waiting.
pub chart_run-IsShown :
    (s : ChartState) (key : CacheKey) (tick : WireTick) (p : Point) (es : List ChartEvent)
    → s.selected_symbol ≡ some key.symbol
    → s.active_chart.key ≡ some key
    → point_from_tick tick ≡ some p
    → All (λ e. is_quiet key.symbol e ≡ true) es
    → IsShown s key p
        (chart_run s (message_received (tick_event key.symbol tick) ∷ es ++ timer_fired ∷ []))
unfolding chart_run chart_step
chart_run-IsShown s key tick p es e a made quiet =
    let start = receive (tick_event key.symbol tick) s in
    let holds =
      quiet_run-Holds s p key.symbol start es e quiet (receive-Holds s p key.symbol tick e made) in
    rw (chart_run-append start es (timer_fired ∷ []))
      (timer-IsShown s key p (chart_run start es) e a holds)
