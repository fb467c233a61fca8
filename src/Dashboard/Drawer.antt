-- ===== src/Dashboard/Drawer.antt =====
-- frontend/src/main.jsx, `SettingsDrawer`: the draft that the operator edits, and what a render of `App`
-- does to it.
--
-- `App` passes the drawer a new object each time it renders, `{ ...configuration, symbols: … }`, and the
-- effect of the drawer sets the draft to that object whenever it is another one than before. `App`
-- renders after every flushed tick, every refresh and every other change of its state.
pub mod Edits
use algo_trading_system.Prelude.{ℕ, Bool, List, [], ◌∷◌, ◌++◌}
use algo_trading_system.Prelude.Texts.{Text, codes}
use algo_trading_system.ControlPlane.{
  TradingMode, EmaStrategyConfiguration, RiskPolicy, RuntimeTradingConfiguration,
}
use algo_trading_system.Dashboard.Settings.{Draft}

-- `configuration.symbols.join(", ")`
unfoldable pub join_symbols : List Text → Text
join_symbols [] = []
join_symbols (s ∷ []) = s
join_symbols (s ∷ t ∷ ss) = s ++ b',' ∷ 32 ∷ join_symbols (t ∷ ss)

-- The configuration as the drawer gets it
unfoldable pub draft_of : RuntimeTradingConfiguration → Draft
draft_of c = record {
  mode = c.mode;
  place_orders_automatically = c.place_orders_automatically;
  monitoring_enabled = c.monitoring_enabled;
  symbols = join_symbols c.symbols;
  strategy = c.strategy;
  risk_policy = c.risk_policy;
}

-- What the fields of the form pass to `update`, `updateStrategy` and `updateRisk`.
pub data FieldEdit : Type 0 where
  set_mode : TradingMode → FieldEdit
  set_place_orders_automatically set_monitoring_enabled : Bool → FieldEdit
  set_symbols : Text → FieldEdit
  set_interval : Text → FieldEdit
  set_fast_period set_slow_period : ℕ → FieldEdit
  set_risk_per_trade set_max_daily_loss set_max_open_positions : ℕ → FieldEdit

unfoldable pub update_strategy :
    (EmaStrategyConfiguration → EmaStrategyConfiguration) → Draft → Draft
update_strategy f d = record d { strategy = f d.strategy }

unfoldable pub update_risk : (RiskPolicy → RiskPolicy) → Draft → Draft
update_risk f d = record d { risk_policy = f d.risk_policy }

unfoldable pub edit_draft : FieldEdit → Draft → Draft
edit_draft (set_mode m) d = record d { mode = m }
edit_draft (set_place_orders_automatically b) d = record d { place_orders_automatically = b }
edit_draft (set_monitoring_enabled b) d = record d { monitoring_enabled = b }
edit_draft (set_symbols t) d = record d { symbols = t }
edit_draft (set_interval t) d = update_strategy (λ s. record s { interval = t }) d
edit_draft (set_fast_period n) d = update_strategy (λ s. record s { fast_period = n }) d
edit_draft (set_slow_period n) d = update_strategy (λ s. record s { slow_period = n }) d
edit_draft (set_risk_per_trade n) d = update_risk (λ p. record p { risk_per_trade_fraction = n }) d
edit_draft (set_max_daily_loss n) d = update_risk (λ p. record p { max_daily_loss_fraction = n }) d
edit_draft (set_max_open_positions n) d = update_risk (λ p. record p { max_open_positions = n }) d

pub data DrawerEvent : Type 0 where
  field_edited : FieldEdit → DrawerEvent
  app_rendered : RuntimeTradingConfiguration → DrawerEvent

unfoldable pub drawer_step : Draft → DrawerEvent → Draft
drawer_step d (field_edited e) = edit_draft e d
drawer_step d (app_rendered c) = draft_of c

unfoldable pub drawer_run : Draft → List DrawerEvent → Draft
drawer_run d [] = d
drawer_run d (e ∷ es) = drawer_run (drawer_step d e) es
