-- ===== src/Dashboard/Settings.antt =====
-- frontend/src/main.jsx, `SettingsDrawer`: what `submit` asks of the operator and sends to the server.
--
-- The configuration that the drawer was opened with is the one that the server sent; the draft is what
-- the operator made of it.
pub mod Prompts
use algo_trading_system.Prelude.{
  ℕ, Bool, true, false, ◌&&◌, ◌||◌, not, List, [], ◌∷◌, ◌++◌, map, Option, none, some, ◌==◌,
  if◌then◌else◌, filterb,
}
use algo_trading_system.Prelude.Texts.{Text, codes}
use algo_trading_system.ControlPlane.{
  TradingMode, is_live, same_mode, EmaStrategyConfiguration, RiskPolicy,
  RuntimeTradingConfiguration, TradingConfigurationUpdate, is_filled,
}

pub record Draft : Type 0 where
  pub mode : TradingMode
  pub place_orders_automatically : Bool
  pub monitoring_enabled : Bool
  pub symbols : Text
  pub strategy : EmaStrategyConfiguration
  pub risk_policy : RiskPolicy

-- `draft.symbols.split(",")`: one piece more than there are commas.
unfoldable pub split_commas : Text → Text → List Text
split_commas piece [] = piece ∷ []
split_commas piece (c ∷ cs) = elim (c == b',') [
  | true ↦ piece ∷ split_commas [] cs
  | false ↦ split_commas (piece ++ c ∷ []) cs
]

-- `.map((symbol) => symbol.trim()).filter(Boolean)`, for `String.prototype.trim`
unfoldable pub draft_symbols : (Text → Text) → Text → List Text
unfolding split_commas
draft_symbols trim symbols = filterb is_filled (map trim (split_commas [] symbols))

-- What the operator types at each prompt; `none` where the prompt is cancelled.
pub record Answers : Type 0 where
  pub live_prompt : Option Text
  pub automation_prompt : Option Text

-- `answer || null`
abbrev pub or_null : Option Text → Option Text
or_null none = none
or_null (some []) = none
or_null (some (c ∷ cs)) = some (c ∷ cs)

unfoldable pub asks_live : RuntimeTradingConfiguration → Draft → Bool
asks_live configuration draft = is_live draft.mode && not (is_live configuration.mode)

unfoldable pub asks_automation : RuntimeTradingConfiguration → Draft → Bool
asks_automation configuration draft =
    draft.place_orders_automatically
    && (not configuration.place_orders_automatically
        || not (same_mode draft.mode configuration.mode))

-- `expected`, the phrase that the prompt shows
abbrev pub expected_phrase : Draft → Text
expected_phrase draft =
    if is_live draft.mode then codes "ENABLE_LIVE_AUTOMATION" else codes "ENABLE_PAPER_AUTOMATION"

abbrev pub live_phrase : Text
live_phrase = codes "ENABLE_LIVE_TRADING"

-- The payload of `submit`
unfoldable pub submit :
    (Text → Text) → RuntimeTradingConfiguration → Draft → Answers → TradingConfigurationUpdate
submit trim configuration draft answers = record {
  mode = draft.mode;
  place_orders_automatically = draft.place_orders_automatically;
  monitoring_enabled = draft.monitoring_enabled;
  symbols = draft_symbols trim draft.symbols;
  strategy = draft.strategy;
  risk_policy = draft.risk_policy;
  expected_version = configuration.version;
  live_confirmation = if asks_live configuration draft then or_null answers.live_prompt else none;
  automation_confirmation =
      if asks_automation configuration draft then or_null answers.automation_prompt else none;
}
