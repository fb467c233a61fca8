-- ===== src/Dashboard/Watchlist/Reach.antt =====
-- The selection through any sequence of refreshes, saves, additions and clicks.
use algo_trading_system.Prelude.{
  ◌≡◌, inl, inr, refl, Bool, true, false, List, [], ◌∷◌, Option, none, some, All, Bool-cases, subst,
  sym,
}
use algo_trading_system.Prelude.Texts.{Text, includes}
use algo_trading_system.Chart.Loader.{Result, ok, err}
use algo_trading_system.ControlPlane.{RuntimeTradingConfiguration, valid_symbol}
use algo_trading_system.Dashboard.Watchlist.{
  ControlState, no_notice, refresh, save, add_symbol, add_with, add_to_watchlist,
}
use algo_trading_system.Dashboard.Watchlist.Selection.{
  ControlEvent, refreshed, settings_saved, symbol_added, symbol_clicked, offered, control_step,
  control_run, Fits, IsServed, IsServedAnswer, keep_or_first-Fits, prefer_symbol-Fits,
}

offered-Fits :
    (o : Option RuntimeTradingConfiguration) (t : Text) → offered o t ≡ true → Fits o (some t)
offered-Fits none t h = cc
offered-Fits (some c) t h = inl h

module _ {S : Type 0} where
  abbrev pub IsFitting : ControlState S → Type 0
  IsFitting s = Fits s.configuration s.selected_symbol

  abbrev pub IsServedPair : Result (RuntimeTradingConfiguration × S) → Type 0
  IsServedPair (ok (c, snapshot)) = IsServed c
  IsServedPair (err e) = Unit

  -- Every configuration that the server sends in an event has valid symbols.
  abbrev pub IsServedEvent : ControlEvent S → Type 0
  IsServedEvent (refreshed answer) = IsServedPair answer
  IsServedEvent (settings_saved answer after) = IsServedAnswer answer × IsServedPair after
  IsServedEvent (symbol_added symbol answer after) = IsServedAnswer answer × IsServedPair after
  IsServedEvent (symbol_clicked t) = Unit

  refresh-IsFitting :
      (answer : Result (RuntimeTradingConfiguration × S)) (s : ControlState S)
      → IsServedPair answer
      → IsFitting s
      → IsFitting (refresh answer s)
  unfolding refresh
  refresh-IsFitting (ok (c, snapshot)) s h f = keep_or_first-Fits c s.selected_symbol h
  refresh-IsFitting (err e) s h f = f

  save-IsFitting :
      (answer : Result RuntimeTradingConfiguration)
      (after : Result (RuntimeTradingConfiguration × S)) (preferred : Option Text) (close : Bool)
      (s : ControlState S)
      → IsServedAnswer answer
      → IsServedPair after
      → IsFitting s
      → IsFitting (save answer after preferred close s).1
  unfolding save
  save-IsFitting (ok c) after preferred close s h k f =
      refresh-IsFitting after _ k (prefer_symbol-Fits c preferred s.selected_symbol h)
  save-IsFitting (err e) after preferred close s h k f = f

  add_symbol-IsFitting :
      (c : RuntimeTradingConfiguration) (answer : Result RuntimeTradingConfiguration)
      (after : Result (RuntimeTradingConfiguration × S)) (symbol : Text) (s : ControlState S)
      → s.configuration ≡ some c
      → IsServedAnswer answer
      → IsServedPair after
      → IsFitting s
      → IsFitting (add_symbol c (λ _. answer) after symbol s).1
  unfolding add_symbol
  add_symbol-IsFitting c answer after symbol s e h k f = elim (Bool-cases (valid_symbol symbol)) [
    | inr bad ↦ rw bad f
    | inl good ↦ elim (Bool-cases (includes c.symbols symbol)) [
      | inl listed ↦ rw (good, listed) (subst (λ o. Fits o (some symbol)) (sym e) (inl listed))
      | inr new ↦ rw (good, new) (save-IsFitting answer after (some symbol) false s h k f)
    ]
  ]

  add_with-IsFitting :
      (o : Option RuntimeTradingConfiguration) (answer : Result RuntimeTradingConfiguration)
      (after : Result (RuntimeTradingConfiguration × S)) (symbol : Text) (s : ControlState S)
      → s.configuration ≡ o
      → IsServedAnswer answer
      → IsServedPair after
      → IsFitting s
      → IsFitting (add_with o (λ _. answer) after symbol s).1
  unfolding add_with
  add_with-IsFitting none answer after symbol s e h k f = f
  add_with-IsFitting (some c) answer after symbol s e h k f =
      add_symbol-IsFitting c answer after symbol s e h k f

  control_step-IsFitting :
      (s : ControlState S) (e : ControlEvent S)
      → IsServedEvent e
      → IsFitting s
      → IsFitting (control_step s e)
  unfolding control_step add_to_watchlist
  control_step-IsFitting s (refreshed answer) h f = refresh-IsFitting answer s h f
  control_step-IsFitting s (settings_saved answer after) h f =
      save-IsFitting answer after none true s h.0 h.1 f
  control_step-IsFitting s (symbol_added symbol answer after) h f =
      add_with-IsFitting s.configuration answer after symbol s refl h.0 h.1 f
  control_step-IsFitting s (symbol_clicked t) h f = elim (Bool-cases (offered s.configuration t)) [
    | inl e ↦ rw e (offered-Fits s.configuration t e)
    | inr e ↦ rw e f
  ]

  control_run-IsFitting_from :
      (s : ControlState S) (es : List (ControlEvent S))
      → All IsServedEvent es
      → IsFitting s
      → IsFitting (control_run s es)
  unfolding control_run
  control_run-IsFitting_from s [] h f = f
  control_run-IsFitting_from s (e ∷ es) h f =
      control_run-IsFitting_from (control_step s e) es h.1 (control_step-IsFitting s e h.0 f)

  -- What `useState` sets at first.
  abbrev pub initial_control : ControlState S
  initial_control = record {
    configuration = none;
    snapshot = none;
    selected_symbol = none;
    settings_open = false;
    notice = no_notice;
  }

  -- From the start and through any refreshes, saves, additions and clicks, whichever requests fail, as
  -- long as the server sends configurations with valid symbols only: nothing is selected before there
  -- is a configuration, and then the selected symbol is one of its symbols, or none if it has none.
  pub control_run-IsFitting :
      (es : List (ControlEvent S))
      → All IsServedEvent es
      → IsFitting (control_run initial_control es)
  control_run-IsFitting es h = control_run-IsFitting_from initial_control es h refl
