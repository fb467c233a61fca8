-- ===== src/Dashboard/Watchlist/Selection.antt =====
-- The selected symbol is always one of the configuration's.
use algo_trading_system.Prelude.{
  ◌≡◌, ◌⊎◌, inl, inr, refl, Bool, true, false, List, [], ◌∷◌, Option, none, some, arith, Bool-cases,
  if◌then◌else◌,
}
use algo_trading_system.Prelude.Texts.{Text, text_eq_refl, includes}
use algo_trading_system.Chart.Loader.{Result, ok, err}
use algo_trading_system.ControlPlane.{RuntimeTradingConfiguration, valid_symbol, all_valid}
use algo_trading_system.Dashboard.Watchlist.{
  ControlState, first_symbol, is_listed, keep_or_first, is_wanted, prefer_symbol, refresh, save,
  add_to_watchlist,
}

-- What the user and the server do: a refresh, a save from the settings, an addition with the answers
-- that it meets, and a click on a symbol of the watchlist.
pub data ControlEvent (S : Type 0) : Type 0 where
  refreshed : Result (RuntimeTradingConfiguration × S) → ControlEvent S
  settings_saved :
      Result RuntimeTradingConfiguration → Result (RuntimeTradingConfiguration × S) → ControlEvent S
  symbol_added :
      Text
      → Result RuntimeTradingConfiguration
      → Result (RuntimeTradingConfiguration × S)
      → ControlEvent S
  symbol_clicked : Text → ControlEvent S

abbrev pub offered : Option RuntimeTradingConfiguration → Text → Bool
offered none t = false
offered (some c) t = includes c.symbols t

-- The watchlist has a button for each symbol of the configuration, and no other.
unfoldable pub control_step : {S : Type 0} → ControlState S → ControlEvent S → ControlState S
control_step s (refreshed answer) = refresh answer s
control_step s (settings_saved answer after) = (save answer after none true s).1
control_step s (symbol_added symbol answer after) =
    (add_to_watchlist (λ _. answer) after symbol s).1
control_step s (symbol_clicked t) =
    if offered s.configuration t then record s { selected_symbol = some t } else s

unfoldable pub control_run : {S : Type 0} → ControlState S → List (ControlEvent S) → ControlState S
control_run s [] = s
control_run s (e ∷ es) = control_run (control_step s e) es

-- With no configuration nothing is selected; with one, a symbol of it, or nothing if it has none.
abbrev pub Fits : Option RuntimeTradingConfiguration → Option Text → Type 0
Fits none selected = selected ≡ none
Fits (some c) selected =
    (is_listed c.symbols selected ≡ true) ⊎ ((selected ≡ none) × (c.symbols ≡ []))

-- The server sends valid symbols only.
abbrev pub IsServed : RuntimeTradingConfiguration → Type 0
IsServed c = all_valid c.symbols ≡ true

abbrev pub IsServedAnswer : Result RuntimeTradingConfiguration → Type 0
IsServedAnswer (ok c) = IsServed c
IsServedAnswer (err e) = Unit

first_symbol-Fits :
    (c : RuntimeTradingConfiguration) → IsServed c → Fits (some c) (first_symbol c.symbols)
unfolding all_valid valid_symbol includes
first_symbol-Fits c h = go c.symbols h
  where
    go :
        (ss : List Text)
        → all_valid ss ≡ true
        → (is_listed ss (first_symbol ss) ≡ true) ⊎ ((first_symbol ss ≡ none) × (ss ≡ []))
    go [] h = inr (refl, refl)
    go ([] ∷ ss) h = cc
    go ((d ∷ ds) ∷ ss) h = inl (rw (text_eq_refl (d ∷ ds)) refl)

pub keep_or_first-Fits :
    (c : RuntimeTradingConfiguration) (current : Option Text)
    → IsServed c
    → Fits (some c) (keep_or_first c.symbols current)
unfolding keep_or_first
keep_or_first-Fits c current h = elim (Bool-cases (is_listed c.symbols current)) [
  | inl e ↦ rw e (inl e)
  | inr e ↦ rw e (first_symbol-Fits c h)
]

wanted_listed :
    (symbols : List Text) (preferred : Option Text)
    → is_wanted symbols preferred ≡ true
    → is_listed symbols preferred ≡ true
wanted_listed symbols none h = cc
wanted_listed symbols (some t) h = ground arith

pub prefer_symbol-Fits :
    (c : RuntimeTradingConfiguration) (preferred current : Option Text)
    → IsServed c
    → Fits (some c) (prefer_symbol c.symbols preferred current)
unfolding prefer_symbol
prefer_symbol-Fits c preferred current h = elim (Bool-cases (is_wanted c.symbols preferred)) [
  | inl e ↦ rw e (inl (wanted_listed c.symbols preferred e))
  | inr e ↦ rw e (keep_or_first-Fits c current h)
]
