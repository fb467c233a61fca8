-- ===== src/Dashboard/Series/Reach.antt =====
-- What holds of the dashboard's series after any selections, loads, messages and timers.
use algo_trading_system.Prelude.{
  ◌==◌, ◌≡◌, refl, inl, inr, true, false, List, [], ◌∷◌, Option, none, some, arith, All, subst,
  Option-cases, Bool-cases,
}
use algo_trading_system.Prelude.Texts.{Text}
use algo_trading_system.Chart.{Point, ChartRange, instant, blank, unparsable, Timestamp}
use algo_trading_system.Chart.Points.{IsSeries, IsUsable, WireTick, point_from_tick, truthy, parses}
use algo_trading_system.Chart.Live.Invariant.{merge_live_point-IsSeries}
use algo_trading_system.Dashboard.Series.{
  CacheKey, ChartState, initial_chart, WireMessage, malformed, other_event, tick_event, hold_tick,
  receive, flush_into, flush_tick, close_feed, feed_effect, select_symbol, is_selected, same_symbol,
  range_index, select_range, ChartEvent, symbol_selected, range_selected, load_settled,
  socket_opened, socket_closed, timer_fired, message_received, chart_step, chart_run,
}
use algo_trading_system.Dashboard.Series.Invariant.{
  IsUsablePending, IsConsistent, cache_set-AllCached, chart_effect-IsConsistent,
  settle_load-IsConsistent, set_live-IsConsistent, empty_series,
}

-- A tick whose timestamp, if it has one, is a date.
abbrev pub IsDated : Timestamp → Type 0
IsDated blank = Unit
IsDated unparsable = ⊥
IsDated (instant t) = Unit

abbrev pub IsDatedMessage : WireMessage → Type 0
IsDatedMessage malformed = Unit
IsDatedMessage other_event = Unit
IsDatedMessage (tick_event symbol tick) = IsDated tick.timestamp

dated_parses : (t : Timestamp) → IsDated t → truthy t ≡ true → parses t ≡ true
dated_parses blank d e = cc
dated_parses unparsable d e = absurd d
dated_parses (instant t) d e = refl

point_from_tick-IsUsable :
    (tick : WireTick) (p : Point)
    → IsDated tick.timestamp
    → point_from_tick tick ≡ some p
    → IsUsable p
unfolding point_from_tick
point_from_tick-IsUsable tick p d e = ground (arith, dated_parses tick.timestamp d)

hold_tick-IsConsistent :
    (p : Point) (s : ChartState) → IsUsable p → IsConsistent s → IsConsistent (hold_tick p s)
unfolding hold_tick
hold_tick-IsConsistent p s u v = record {
  shown = v.shown;
  ordered = v.ordered;
  cache = v.cache;
  pending = u;
  timer = inr refl;
}

receive-IsConsistent :
    (message : WireMessage) (s : ChartState)
    → IsDatedMessage message
    → IsConsistent s
    → IsConsistent (receive message s)
unfolding receive
receive-IsConsistent malformed s d v = set_live-IsConsistent false s v
receive-IsConsistent other_event s d v = v
receive-IsConsistent (tick_event symbol tick) s d v =
    elim (Bool-cases (is_selected s.selected_symbol symbol)) [
      | inr e ↦ rw e v
      | inl e ↦ elim (Option-cases (point_from_tick tick)) [
        | inl n ↦ rw (e, n, receive) v
        | inr (p, j) ↦
            rw (e, j, receive) (hold_tick-IsConsistent p s (point_from_tick-IsUsable tick p d j) v)
      ]
    ]

close_feed-IsConsistent : (s : ChartState) → IsConsistent s → IsConsistent (close_feed s)
unfolding close_feed
close_feed-IsConsistent s v = record {
  shown = v.shown;
  ordered = v.ordered;
  cache = v.cache;
  pending = tt;
  timer = inl refl;
}

flush_into-IsConsistent :
    (key : Option CacheKey) (p : Point) (s : ChartState)
    → IsUsable p
    → IsConsistent s
    → IsConsistent (flush_into key p s)
unfolding flush_into
flush_into-IsConsistent none p s u v = v
flush_into-IsConsistent (some key) p s u v =
    let next = merge_live_point-IsSeries s.series_ref p (subst IsSeries v.shown v.ordered) u in
    elim (Bool-cases (is_selected s.selected_symbol key.symbol)) [
      | inr e ↦ rw e v
      | inl e ↦ rw e (record {
        shown = refl;
        ordered = next;
        cache = cache_set-AllCached key _ s.chart_cache next v.cache;
        pending = v.pending;
        timer = v.timer;
      })
    ]

flush_tick-IsConsistent : (s : ChartState) → IsConsistent s → IsConsistent (flush_tick s)
unfolding flush_tick close_feed
flush_tick-IsConsistent s v = elim (Option-cases s.pending_tick) [
  | inl e ↦ rw (e, flush_tick) (close_feed-IsConsistent s v)
  | inr (p, e) ↦
      rw (e, flush_tick)
        (flush_into-IsConsistent s.active_chart.key p _ (subst IsUsablePending e v.pending)
          (close_feed-IsConsistent s v))
]

feed_effect-IsConsistent :
    (symbol : Option Text) (s : ChartState) → IsConsistent s → IsConsistent (feed_effect symbol s)
unfolding feed_effect
feed_effect-IsConsistent none s v = set_live-IsConsistent false s v
feed_effect-IsConsistent (some symbol) s v = v

set_selected :
    (symbol : Option Text) (s : ChartState)
    → IsConsistent s
    → IsConsistent (record s { selected_symbol = symbol })
set_selected symbol s v = record {
  shown = v.shown;
  ordered = v.ordered;
  cache = v.cache;
  pending = v.pending;
  timer = v.timer;
}

set_range :
    (range : ChartRange) (s : ChartState)
    → IsConsistent s
    → IsConsistent (record s { chart_range = range })
set_range range s v = record {
  shown = v.shown;
  ordered = v.ordered;
  cache = v.cache;
  pending = v.pending;
  timer = v.timer;
}

select_symbol-IsConsistent :
    (symbol : Option Text) (s : ChartState) → IsConsistent s → IsConsistent (select_symbol symbol s)
unfolding select_symbol
select_symbol-IsConsistent symbol s v = elim (Bool-cases (same_symbol symbol s.selected_symbol)) [
  | inl e ↦ rw e v
  | inr e ↦ rw e (
      feed_effect-IsConsistent symbol _ (
        chart_effect-IsConsistent symbol _
          (set_selected symbol (close_feed s) (close_feed-IsConsistent s v))))
]

select_range-IsConsistent :
    (range : ChartRange) (s : ChartState) → IsConsistent s → IsConsistent (select_range range s)
unfolding select_range
select_range-IsConsistent range s v =
    elim (Bool-cases (range_index range == range_index s.chart_range)) [
      | inl e ↦ rw e v
      | inr e ↦ rw e (chart_effect-IsConsistent s.selected_symbol _ (set_range range s v))
    ]

abbrev pub IsDatedEvent : ChartEvent → Type 0
IsDatedEvent (symbol_selected symbol) = Unit
IsDatedEvent (range_selected range) = Unit
IsDatedEvent (load_settled load result) = Unit
IsDatedEvent socket_opened = Unit
IsDatedEvent socket_closed = Unit
IsDatedEvent timer_fired = Unit
IsDatedEvent (message_received message) = IsDatedMessage message

chart_step-IsConsistent :
    (s : ChartState) (e : ChartEvent)
    → IsDatedEvent e
    → IsConsistent s
    → IsConsistent (chart_step s e)
unfolding chart_step
chart_step-IsConsistent s (symbol_selected symbol) d v = select_symbol-IsConsistent symbol s v
chart_step-IsConsistent s (range_selected range) d v = select_range-IsConsistent range s v
chart_step-IsConsistent s (load_settled load result) d v = settle_load-IsConsistent load result s v
chart_step-IsConsistent s socket_opened d v = set_live-IsConsistent true s v
chart_step-IsConsistent s socket_closed d v = set_live-IsConsistent false s v
chart_step-IsConsistent s timer_fired d v = elim (Bool-cases s.flush_timer) [
  | inl e ↦ simp e (flush_tick-IsConsistent s v)
  | inr e ↦ simp e v
]
chart_step-IsConsistent s (message_received message) d v = receive-IsConsistent message s d v

chart_run-IsConsistent_from :
    (s : ChartState) (es : List ChartEvent)
    → All IsDatedEvent es
    → IsConsistent s
    → IsConsistent (chart_run s es)
unfolding chart_run
chart_run-IsConsistent_from s [] d v = v
chart_run-IsConsistent_from s (e ∷ es) d v =
    chart_run-IsConsistent_from (chart_step s e) es d.1 (chart_step-IsConsistent s e d.0 v)

initial_chart-IsConsistent : IsConsistent initial_chart
initial_chart-IsConsistent = record {
  shown = refl;
  ordered = empty_series;
  cache = tt;
  pending = tt;
  timer = inl refl;
}

-- From the start, and after any selections, loads in any order and outcome, messages, openings and
-- closings of the socket and timers, as long as each tick that has a timestamp has a date: the series
-- shown is the one that the callbacks hold, it and every cached series are in order and drawable, and
-- a live tick that waits is drawable and has a timer that will flush it.
pub chart_run-IsConsistent :
    (es : List ChartEvent) → All IsDatedEvent es → IsConsistent (chart_run initial_chart es)
chart_run-IsConsistent es d =
    chart_run-IsConsistent_from initial_chart es d initial_chart-IsConsistent
