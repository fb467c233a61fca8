-- ===== src/ControlPlane.antt =====
-- control_plane/types.py and config/settings.py (`TradingMode`): the configuration that the dashboard
-- edits and the server keeps.
--
-- Decimal numbers are naturals of one common unit; the control plane only compares them. What Python
-- does to the case and the blanks of a text is a parameter, `TextRules`.
pub mod Symbols
pub mod Store
pub mod Service
mod Tests
use algo_trading_system.Prelude.{
  ℕ, ◌+◌, ◌*◌, ◌≡◌, Bool, true, false, ◌&&◌, ◌||◌, not, List, [], ◌∷◌, map, Option, none, some, ltb,
  leb, ◌==◌, if◌then◌else◌, filterb, length,
}
use algo_trading_system.Prelude.Texts.{Text, text_eq, includes}

pub data TradingMode : Type 0 where
  paper live : TradingMode

abbrev pub is_live : TradingMode → Bool
is_live paper = false
is_live live = true

abbrev pub same_mode : TradingMode → TradingMode → Bool
same_mode paper paper = true
same_mode paper live = false
same_mode live paper = false
same_mode live live = true

-- `str.strip` and `str.upper`. A symbol that is written as the exchange writes it has no blanks to
-- strip and no lower case.
pub record TextRules : Type 0 where
  pub strip : Text → Text
  pub upper : Text → Text

pub record EmaStrategyConfiguration : Type 0 where
  pub interval : Text
  pub fast_period : ℕ
  pub slow_period : ℕ
  pub base_confidence : ℕ
  pub confidence_sensitivity : ℕ
  pub max_confidence : ℕ

pub record RiskPolicy : Type 0 where
  pub risk_per_trade_fraction : ℕ
  pub max_daily_loss_fraction : ℕ
  pub max_consecutive_losses : ℕ
  pub stop_atr_multiple : ℕ
  pub target_atr_multiple : ℕ
  pub trailing_stop_atr_multiple : ℕ
  pub minimum_risk_reward : ℕ
  pub max_gross_exposure_fraction : ℕ
  pub minimum_cash_reserve_fraction : ℕ
  pub max_open_positions : ℕ

pub record RuntimeTradingConfiguration : Type 0 where
  pub mode : TradingMode
  pub place_orders_automatically : Bool
  pub monitoring_enabled : Bool
  pub symbols : List Text
  pub strategy : EmaStrategyConfiguration
  pub risk_policy : RiskPolicy
  pub version : ℕ

pub record TradingConfigurationUpdate : Type 0 where
  pub mode : TradingMode
  pub place_orders_automatically : Bool
  pub monitoring_enabled : Bool
  pub symbols : List Text
  pub strategy : EmaStrategyConfiguration
  pub risk_policy : RiskPolicy
  pub expected_version : ℕ
  pub live_confirmation : Option Text
  pub automation_confirmation : Option Text

-- The errors that an update can end with.
pub data ControlError : Type 0 where
  symbols_not_unique symbol_not_valid version_conflict : ControlError
  live_confirmation_required automation_confirmation_required : ControlError
  not_initialized store_version_conflict not_applied : ControlError

pub data Outcome {ℓ} (A : Type ℓ) : Type ℓ where
  ok : A → Outcome A
  err : ControlError → Outcome A

infixl 5 ◌>>=◌
abbrev pub ◌>>=◌ {ℓ κ} : {A : Type ℓ} {B : Type κ} → Outcome A → (A → Outcome B) → Outcome B
ok a >>= f = f a
err e >>= f = err e

infixl 5 ◌>>◌
abbrev pub ◌>>◌ {ℓ} : {B : Type ℓ} → Outcome (Unit {0}) → Outcome B → Outcome B
m >> k = m >>= λ _. k

abbrev pub ensure : Bool → ControlError → Outcome (Unit {0})
ensure true e = ok tt
ensure false e = err e

-- `^[A-Z][A-Z0-9.\-]{0,9}$`, the pattern of the server and of `addToWatchlist`
abbrev pub is_upper : ℕ → Bool
is_upper c = leb b'A' c && leb c b'Z'

abbrev pub is_symbol_char : ℕ → Bool
is_symbol_char c = is_upper c || (leb b'0' c && leb c b'9') || c == b'.' || c == b'-'

abbrev pub all_symbol_chars : Text → Bool
all_symbol_chars [] = true
all_symbol_chars (c ∷ cs) = is_symbol_char c && all_symbol_chars cs

unfoldable pub valid_symbol : Text → Bool
valid_symbol [] = false
valid_symbol (c ∷ cs) = is_upper c && leb (length cs) 9 && all_symbol_chars cs

unfoldable pub all_valid : List Text → Bool
all_valid [] = true
all_valid (s ∷ ss) = valid_symbol s && all_valid ss

-- `len(symbols) == len(set(symbols))`
unfoldable pub all_distinct : List Text → Bool
all_distinct [] = true
all_distinct (s ∷ ss) = not (includes ss s) && all_distinct ss

abbrev pub is_filled : Text → Bool
is_filled [] = false
is_filled (c ∷ cs) = true

-- `tuple(str(symbol).strip().upper() for symbol in values if str(symbol).strip())`
unfoldable pub clean_symbols : TextRules → List Text → List Text
clean_symbols rules [] = []
clean_symbols rules (s ∷ ss) =
    let rest = clean_symbols rules ss in
    if is_filled (rules.strip s) then rules.upper (rules.strip s) ∷ rest else rest

-- `normalize_symbols`, and the pattern of each symbol
unfoldable pub normalize_symbols : TextRules → List Text → Outcome (List Text)
normalize_symbols rules values = do
  let symbols = clean_symbols rules values
  ensure (all_distinct symbols) symbols_not_unique
  ensure (all_valid symbols) symbol_not_valid
  ok symbols

unfoldable pub to_configuration :
    TextRules → TradingConfigurationUpdate → ℕ → Outcome RuntimeTradingConfiguration
unfolding normalize_symbols
to_configuration rules update version = do
  symbols ← normalize_symbols rules update.symbols
  ok (record {
    mode = update.mode;
    place_orders_automatically = update.place_orders_automatically;
    monitoring_enabled = update.monitoring_enabled;
    symbols = symbols;
    strategy = update.strategy;
    risk_policy = update.risk_policy;
    version = version;
  })
