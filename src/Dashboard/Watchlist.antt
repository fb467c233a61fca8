-- ===== src/Dashboard/Watchlist.antt =====
-- frontend/src/main.jsx, `App` and `Watchlist`: the configuration that the dashboard shows, the
-- selected symbol, and `refresh`, `save`, `addToWatchlist` and the watchlist's `submit`.
--
-- A response is a value: what the server answers to a request is an argument. The account, positions,
-- orders, signals and status are one value of a type `S`, which the code stores and only displays.
pub mod Selection
pub mod Reach
pub mod Adding
use algo_trading_system.Prelude.{
  Bool, true, false, ◌&&◌, not, List, [], ◌∷◌, ◌++◌, Option, none, some, if◌then◌else◌,
}
use algo_trading_system.Prelude.Texts.{Text, includes}
use algo_trading_system.Chart.Loader.{Failure, Result, ok, err}
use algo_trading_system.ControlPlane.{
  RuntimeTradingConfiguration, TradingConfigurationUpdate, valid_symbol, is_filled,
}

-- The text of the error line.
pub data Notice : Type 0 where
  no_notice still_loading invalid_ticker : Notice
  failed : Failure → Notice

pub record ControlState (S : Type 0) : Type 0 where
  pub configuration : Option RuntimeTradingConfiguration
  pub snapshot : Option S
  pub selected_symbol : Option Text
  pub settings_open : Bool
  pub notice : Notice

-- `symbols[0] || null`
abbrev pub first_symbol : List Text → Option Text
first_symbol [] = none
first_symbol (s ∷ ss) = if is_filled s then some s else none

abbrev pub is_listed : List Text → Option Text → Bool
is_listed symbols none = false
is_listed symbols (some t) = includes symbols t

-- `symbols.includes(current) ? current : symbols[0] || null`
unfoldable pub keep_or_first : List Text → Option Text → Option Text
keep_or_first symbols current = if is_listed symbols current then current else first_symbol symbols

abbrev pub is_wanted : List Text → Option Text → Bool
is_wanted symbols none = false
is_wanted symbols (some t) = is_filled t && includes symbols t

-- The selection of `save`: the preferred symbol if it is listed, else as in `refresh`.
unfoldable pub prefer_symbol : List Text → Option Text → Option Text → Option Text
unfolding keep_or_first
prefer_symbol symbols preferred current =
    if is_wanted symbols preferred then preferred else keep_or_first symbols current

-- The payload of `addToWatchlist`
abbrev pub add_payload : RuntimeTradingConfiguration → Text → TradingConfigurationUpdate
add_payload c symbol = record {
  mode = c.mode;
  place_orders_automatically = c.place_orders_automatically;
  monitoring_enabled = c.monitoring_enabled;
  symbols = c.symbols ++ symbol ∷ [];
  strategy = c.strategy;
  risk_policy = c.risk_policy;
  expected_version = c.version;
  live_confirmation = none;
  automation_confirmation = none;
}

module _ {S : Type 0} where
  -- `refresh`, for what the six requests come to together
  unfoldable pub refresh :
      Result (RuntimeTradingConfiguration × S) → ControlState S → ControlState S
  refresh (ok (control, snapshot)) s = record s {
    configuration = some control;
    snapshot = some snapshot;
    selected_symbol = keep_or_first control.symbols s.selected_symbol;
    notice = no_notice;
  }
  refresh (err reason) s = record s { notice = failed reason }

  -- `save`, for the answer to the request and then for that of `refresh`
  unfoldable pub save :
      Result RuntimeTradingConfiguration
      → Result (RuntimeTradingConfiguration × S)
      → Option Text
      → Bool
      → ControlState S
      → Bool × ControlState S
  save (ok next) refreshed preferred close_settings s = (
    true,
    refresh refreshed (record s {
      configuration = some next;
      selected_symbol = prefer_symbol next.symbols preferred s.selected_symbol;
      settings_open = if close_settings then false else s.settings_open;
      notice = no_notice;
    }),
  )
  save (err reason) refreshed preferred close_settings s =
      (false, record s { notice = failed reason })

  -- `addToWatchlist` where the configuration has been loaded
  unfoldable pub add_symbol :
      RuntimeTradingConfiguration
      → (TradingConfigurationUpdate → Result RuntimeTradingConfiguration)
      → Result (RuntimeTradingConfiguration × S)
      → Text
      → ControlState S
      → Bool × ControlState S
  add_symbol c put refreshed symbol s =
      let saved = save (put (add_payload c symbol)) refreshed (some symbol) false s in
      if not (valid_symbol symbol)
      then (false, record s { notice = invalid_ticker })
      else if includes c.symbols symbol
      then (true, record s { selected_symbol = some symbol; notice = no_notice })
      else saved

  unfoldable pub add_with :
      Option RuntimeTradingConfiguration
      → (TradingConfigurationUpdate → Result RuntimeTradingConfiguration)
      → Result (RuntimeTradingConfiguration × S)
      → Text
      → ControlState S
      → Bool × ControlState S
  unfolding add_symbol
  add_with none put refreshed symbol s = (false, record s { notice = still_loading })
  add_with (some c) put refreshed symbol s = add_symbol c put refreshed symbol s

  unfoldable pub add_to_watchlist :
      (TradingConfigurationUpdate → Result RuntimeTradingConfiguration)
      → Result (RuntimeTradingConfiguration × S)
      → Text
      → ControlState S
      → Bool × ControlState S
  unfolding add_with
  add_to_watchlist put refreshed symbol s = add_with s.configuration put refreshed symbol s

-- The watchlist's `submit`: the text of its input, trimmed and in upper case, is added, and the input
-- is cleared once that has succeeded. `none` stands for an input that holds nothing to add.
abbrev pub candidate_of : (Text → Text) → (Text → Text) → Text → Option Text
candidate_of trim to_upper_case input =
    if is_filled (to_upper_case (trim input)) then some (to_upper_case (trim input)) else none

unfoldable pub submit_ticker :
    {S : Type 0}
    → (Text → Text)
    → (Text → Text)
    → (TradingConfigurationUpdate → Result RuntimeTradingConfiguration)
    → Result (RuntimeTradingConfiguration × S)
    → Text
    → ControlState S
    → Text × ControlState S
submit_ticker trim to_upper_case put refreshed input s =
    elim (candidate_of trim to_upper_case input) [
      | none ↦ (input, s)
      | some candidate ↦
          let (added, s') = add_to_watchlist put refreshed candidate s in
          (if added then [] else input, s')
    ]
