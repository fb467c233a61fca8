-- ===== src/Dashboard/Tests.antt =====
-- A short session of the dashboard, and the theorems about it.
use algo_trading_system.Prelude.{
  ℕ, ◌-◌, ◌&&◌, ◌≡◌, ◌↔◌, ◌||◌, refl, true, false, List, [], ◌∷◌, map, none, some, arith, leb, ◌==◌,
  if◌then◌else◌,
}
use algo_trading_system.Prelude.Int.{pos}
use algo_trading_system.Prelude.Texts.{Text, codes, text_eq, includes}
use algo_trading_system.Chart.{Point, PointSource, instant, finite, one_day, one_week}
use algo_trading_system.Chart.Points.{point_from_tick}
use algo_trading_system.Chart.Loader.{
  request_failed, abort_error, error, ok, err, LoadedSeries, SeriesSource,
}
use algo_trading_system.ControlPlane
use algo_trading_system.ControlPlane.{
  TradingMode, TextRules, RuntimeTradingConfiguration, TradingConfigurationUpdate, valid_symbol,
  all_valid, all_symbol_chars, is_symbol_char, is_upper, to_configuration, clean_symbols,
  all_distinct,
}
use algo_trading_system.ControlPlane.Service.{validate_transition}
use algo_trading_system.Dashboard.Series.{
  CacheKey, ChartState, initial_chart, Load, settle_load, cache_get, flush_tick, ChartEvent,
  symbol_selected, range_selected, load_settled, socket_opened, socket_closed, timer_fired,
  message_received, malformed, tick_event, chart_run,
}
use algo_trading_system.Dashboard.Series.Invariant.{IsConsistent}
use algo_trading_system.Dashboard.Series.Reach.{chart_run-IsConsistent}
use algo_trading_system.Dashboard.Series.Races.{stale_failure_loses_series}
use algo_trading_system.Dashboard.Series.Feed.{IsShown, chart_run-IsShown}
use algo_trading_system.Dashboard.Drawer.{
  join_symbols, draft_of, set_place_orders_automatically, set_fast_period, field_edited,
  app_rendered, drawer_run,
}
use algo_trading_system.Dashboard.Drawer.Edits.{
  TrimsBlanks, draft_symbols-join_symbols, unchanged, app_rendered_discards,
}
use algo_trading_system.Dashboard.Settings.{
  Draft, Answers, asks_live, asks_automation, live_phrase, submit, draft_symbols, split_commas,
}
use algo_trading_system.Dashboard.Settings.Prompts.{prompts_suffice, prompts_required}
use algo_trading_system.Dashboard.Watchlist.Selection.{
  ControlEvent, refreshed, settings_saved, symbol_added, symbol_clicked, control_run,
}
use algo_trading_system.Dashboard.Watchlist.Reach.{
  IsFitting, initial_control, control_run-IsFitting,
}
use algo_trading_system.Dashboard.Watchlist.Adding.{KeepsSymbols, with_symbol}

abbrev aapl : Text
aapl = codes "AAPL"

abbrev msft : Text
msft = codes "MSFT"

abbrev point_at : ℕ → ℕ → Point
point_at t v = record {
  timestamp = instant t;
  price = finite (pos v);
  source = PointSource.tick;
  bar = none;
}

abbrev day_key : CacheKey
day_key = record { symbol = aapl; range = one_day }

abbrev week_key : CacheKey
week_key = record { symbol = aapl; range = one_week }

abbrev loaded : LoadedSeries
loaded = record { points = point_at 10 5 ∷ point_at 300 7 ∷ []; source = SeriesSource.ticks }

abbrev fresh_load : Load
fresh_load = record { key = day_key; cached = false; aborted = false }

abbrev stale_load : Load
stale_load = record { key = week_key; cached = false; aborted = true }

abbrev session : List ChartEvent
session =
    symbol_selected (some aapl)
    ∷ socket_opened
    ∷ load_settled fresh_load (ok loaded)
    ∷ message_received
        (tick_event aapl (record { price = finite (pos 8); timestamp = instant 900 }))
    ∷ timer_fired
    ∷ range_selected one_week
    ∷ load_settled stale_load (err abort_error)
    ∷ message_received malformed
    ∷ symbol_selected none
    ∷ []

chart_run-IsConsistent_example : IsConsistent (chart_run initial_chart session)
chart_run-IsConsistent_example =
    chart_run-IsConsistent session (tt, (tt, (tt, (tt, (tt, (tt, (tt, (tt, (tt, tt)))))))))

-- The chart of a symbol, with a tick that waits.
abbrev waiting : ChartState
waiting = record initial_chart {
  selected_symbol = some aapl;
  series = loaded.points;
  series_ref = loaded.points;
  chart_cache = (day_key, loaded) ∷ [];
  active_chart = record { key = some day_key; source = SeriesSource.ticks };
  pending_tick = some (point_at 900 8);
  flush_timer = true;
}

-- A tick of the symbol, then one of another symbol and the end of the socket, then the timer.
chart_run-IsShown_example : IsShown waiting day_key (point_at 1300 9) (
    chart_run waiting (
      message_received
        (tick_event aapl (record { price = finite (pos 9); timestamp = instant 1300 }))
      ∷ message_received
          (tick_event msft (record { price = finite (pos 4); timestamp = instant 1301 }))
      ∷ socket_closed
      ∷ timer_fired
      ∷ []))
unfolding text_eq point_from_tick
chart_run-IsShown_example =
    chart_run-IsShown waiting day_key (record { price = finite (pos 9); timestamp = instant 1300 })
      (point_at 1300 9)
      (message_received
          (tick_event msft (record { price = finite (pos 4); timestamp = instant 1301 }))
        ∷ socket_closed
        ∷ [])
      refl refl refl (refl, (refl, tt))

stale_failure_loses_series_example :
    ((settle_load stale_load (err (error (request_failed 500))) waiting).series ≡ [])
    × (cache_get day_key
          (flush_tick
            (settle_load stale_load (err (error (request_failed 500))) waiting)).chart_cache
        ≡ some (record { points = point_at 900 8 ∷ []; source = SeriesSource.ticks }))
unfolding text_eq
stale_failure_loses_series_example =
    stale_failure_loses_series waiting stale_load (request_failed 500) day_key (point_at 900 8) refl
      refl refl refl refl

-- A runtime whose blanks are the spaces in front, and whose upper case is that of ASCII.
strip_left : Text → Text
strip_left [] = []
strip_left (c ∷ cs) = if c == 32 then strip_left cs else c ∷ cs

raise : ℕ → ℕ
raise c = if leb b'a' c && leb c b'z' then c - 32 else c

abbrev rules : TextRules
rules = record { strip = strip_left; upper = map raise }

raise_symbol_char : (c : ℕ) → is_symbol_char c ≡ true → raise c ≡ c
unfolding raise
raise_symbol_char c h = ground arith

raise_symbol_chars : (cs : Text) → all_symbol_chars cs ≡ true → map raise cs ≡ cs
raise_symbol_chars [] h = refl
raise_symbol_chars (c ∷ cs) h = ground (arith, raise_symbol_char c, raise_symbol_chars cs)

strip_symbol : (t : Text) → valid_symbol t ≡ true → strip_left t ≡ t
unfolding strip_left valid_symbol
strip_symbol [] h = refl
strip_symbol (c ∷ cs) h = ground arith

upper_symbol : (t : Text) → valid_symbol t ≡ true → map raise t ≡ t
unfolding valid_symbol
upper_symbol [] h = refl
upper_symbol (c ∷ cs) h = ground (arith, raise_symbol_char c, raise_symbol_chars cs)

rules-KeepsSymbols : KeepsSymbols rules
rules-KeepsSymbols = record { strip_symbol = strip_symbol; upper_symbol = upper_symbol }

abbrev configuration : RuntimeTradingConfiguration
configuration = record {
  mode = TradingMode.paper;
  place_orders_automatically = false;
  monitoring_enabled = true;
  symbols = aapl ∷ [];
  strategy = record {
    interval = codes "1m";
    fast_period = 12;
    slow_period = 26;
    base_confidence = 60;
    confidence_sensitivity = 1000;
    max_confidence = 95;
  };
  risk_policy = record {
    risk_per_trade_fraction = 1;
    max_daily_loss_fraction = 3;
    max_consecutive_losses = 3;
    stop_atr_multiple = 150;
    target_atr_multiple = 300;
    trailing_stop_atr_multiple = 200;
    minimum_risk_reward = 150;
    max_gross_exposure_fraction = 80;
    minimum_cash_reserve_fraction = 10;
    max_open_positions = 10;
  };
  version = 1;
}

-- The operator goes live and has orders placed automatically.
abbrev draft : Draft
draft = record {
  mode = TradingMode.live;
  place_orders_automatically = true;
  monitoring_enabled = true;
  symbols = codes "AAPL, MSFT";
  strategy = configuration.strategy;
  risk_policy = configuration.risk_policy;
}

abbrev confirmed : Answers
confirmed = record {
  live_prompt = some live_phrase;
  automation_prompt = some (codes "ENABLE_LIVE_AUTOMATION");
}

abbrev cancelled : Answers
cancelled = record { live_prompt = none; automation_prompt = none }

abbrev candidate : RuntimeTradingConfiguration
candidate = record configuration {
  mode = TradingMode.live;
  place_orders_automatically = true;
  symbols = aapl ∷ msft ∷ [];
  version = 2;
}

prompts_suffice_example :
    validate_transition configuration candidate (submit strip_left configuration draft confirmed)
    ≡ ControlPlane.ok tt
unfolding to_configuration submit draft_symbols split_commas strip_left raise clean_symbols
    all_distinct all_valid valid_symbol includes text_eq
prompts_suffice_example =
    prompts_suffice rules strip_left configuration draft 2 candidate confirmed refl refl refl

prompts_required_example :
    (validate_transition configuration candidate (submit strip_left configuration draft cancelled)
      ≡ ControlPlane.ok tt)
    ↔ ((asks_live configuration draft || asks_automation configuration draft) ≡ false)
unfolding to_configuration submit draft_symbols split_commas strip_left raise clean_symbols
    all_distinct all_valid valid_symbol includes text_eq
prompts_required_example =
    prompts_required rules strip_left configuration draft 2 candidate cancelled refl refl refl

abbrev control_events : List (ControlEvent ℕ)
control_events =
    refreshed (ok (configuration, 7))
    ∷ symbol_added msft (ok (with_symbol configuration msft)) (err abort_error)
    ∷ symbol_clicked aapl
    ∷ settings_saved (ok (record configuration { symbols = [] })) (err abort_error)
    ∷ []

control_run-IsFitting_example : IsFitting (control_run initial_control control_events)
unfolding all_valid valid_symbol
control_run-IsFitting_example =
    control_run-IsFitting control_events (refl, ((refl, tt), (tt, ((refl, tt), tt))))

strip_left-TrimsBlanks : TrimsBlanks strip_left
unfolding strip_left
strip_left-TrimsBlanks = record {
  trim_empty = refl;
  trim_space = λ t. refl;
  trim_symbol = strip_symbol;
}

draft_symbols-join_symbols_example :
    draft_symbols strip_left (join_symbols (aapl ∷ msft ∷ [])) ≡ aapl ∷ msft ∷ []
unfolding all_valid valid_symbol
draft_symbols-join_symbols_example =
    draft_symbols-join_symbols strip_left strip_left-TrimsBlanks (aapl ∷ msft ∷ []) refl

-- Automation switched on and another period; then a tick is flushed.
app_rendered_discards_example :
    submit strip_left configuration
      (drawer_run (draft_of configuration) (
        field_edited (set_place_orders_automatically true)
        ∷ field_edited (set_fast_period 9)
        ∷ app_rendered configuration
        ∷ []))
      confirmed
    ≡ unchanged configuration
unfolding all_valid valid_symbol
app_rendered_discards_example =
    app_rendered_discards strip_left configuration (draft_of configuration)
      (field_edited (set_place_orders_automatically true) ∷ field_edited (set_fast_period 9) ∷ [])
      confirmed strip_left-TrimsBlanks refl
