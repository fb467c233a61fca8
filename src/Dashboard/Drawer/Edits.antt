-- ===== src/Dashboard/Drawer/Edits.antt =====
-- What the drawer saves: the configuration it was opened with where nothing is edited, and where the
-- edits are lost.
use algo_trading_system.Prelude.{
  ℕ, ◌≡◌, refl, ap, ◌∙◌, sym, true, false, List, [], ◌∷◌, ◌++◌, map, none, arith, filterb,
}
use algo_trading_system.Prelude.Texts.{Text}
use algo_trading_system.ControlPlane.Symbols.{valid_symbol_filled, valid_symbol_chars}
use algo_trading_system.ControlPlane.{
  RuntimeTradingConfiguration, TradingConfigurationUpdate, valid_symbol, all_valid,
  all_symbol_chars, is_filled, same_mode,
}
use algo_trading_system.Dashboard.Settings.{
  Draft, Answers, split_commas, draft_symbols, asks_live, asks_automation, submit,
}
use algo_trading_system.Dashboard.Drawer.{
  join_symbols, draft_of, DrawerEvent, app_rendered, drawer_step, drawer_run,
}

-- `String.prototype.trim` drops a space in front, and leaves an empty text and a symbol as they are.
pub record TrimsBlanks (trim : Text → Text) : Type 0 where
  pub trim_empty : trim [] ≡ []
  pub trim_space : (t : Text) → trim (32 ∷ t) ≡ trim t
  pub trim_symbol : (t : Text) → valid_symbol t ≡ true → trim t ≡ t

append_nil : (t : Text) → t ++ [] ≡ t
append_nil [] = refl
append_nil (c ∷ cs) = ap (c ∷◌) (append_nil cs)

append_one : (t u : Text) (c : ℕ) → (t ++ c ∷ []) ++ u ≡ t ++ c ∷ u
append_one [] u c = refl
append_one (d ∷ t) u c = ap (d ∷◌) (append_one t u c)

-- A symbol has no comma, so it stays in one piece.
split_commas-chars :
    (piece s rest : Text)
    → all_symbol_chars s ≡ true
    → split_commas piece (s ++ rest) ≡ split_commas (piece ++ s) rest
unfolding split_commas
split_commas-chars piece [] rest h = rw (append_nil piece)
split_commas-chars piece (c ∷ s) rest h =
    ground (arith, split_commas-chars (piece ++ c ∷ []) s rest, append_one piece s c)

split_commas-join_symbols :
    (piece s : Text) (ss : List Text)
    → all_valid (s ∷ ss) ≡ true
    → split_commas piece (join_symbols (s ∷ ss)) ≡ (piece ++ s) ∷ map (32 ∷◌) ss
unfolding join_symbols split_commas all_valid
split_commas-join_symbols piece s [] h =
    ap (split_commas piece) (sym (append_nil s))
    ∙ split_commas-chars piece s [] (valid_symbol_chars s (ground arith))
split_commas-join_symbols piece s (t ∷ ss) h =
    let others : all_valid (t ∷ ss) ≡ true = ground arith in
    split_commas-chars piece s _ (valid_symbol_chars s (ground arith))
    ∙ ap ((piece ++ s) ∷◌) (split_commas-join_symbols (32 ∷ []) t ss others)

module _ (trim : Text → Text) (trims : TrimsBlanks trim) where
  pieces_trimmed :
      (ss : List Text) → all_valid ss ≡ true → filterb is_filled (map trim (map (32 ∷◌) ss)) ≡ ss
  unfolding all_valid
  pieces_trimmed [] h = refl
  pieces_trimmed (s ∷ ss) h =
      let valid : valid_symbol s ≡ true = ground arith in
      rw
        (
          trims.trim_space s,
          trims.trim_symbol s valid,
          valid_symbol_filled s valid,
          pieces_trimmed ss (ground arith),
        )
        refl

  -- Where trimming drops blanks only, the symbols that the drawer sends for the text that it is
  -- opened with are those of the configuration, if they are valid: joining them into the text and
  -- splitting it again loses none and adds none.
  pub draft_symbols-join_symbols :
      (ss : List Text) → all_valid ss ≡ true → draft_symbols trim (join_symbols ss) ≡ ss
  unfolding draft_symbols join_symbols split_commas all_valid
  draft_symbols-join_symbols [] h = rw trims.trim_empty refl
  draft_symbols-join_symbols (s ∷ ss) h =
      let valid : valid_symbol s ≡ true = ground arith in
      ap (λ pieces. filterb is_filled (map trim pieces)) (split_commas-join_symbols [] s ss h)
      ∙ rw (trims.trim_symbol s valid, valid_symbol_filled s valid)
          (ap (s ∷◌) (pieces_trimmed ss (ground arith)))

same_mode_refl : (c : RuntimeTradingConfiguration) → same_mode c.mode c.mode ≡ true
same_mode_refl c = ground arith

asks_nothing :
    (c : RuntimeTradingConfiguration)
    → (asks_live c (draft_of c) ≡ false) × (asks_automation c (draft_of c) ≡ false)
unfolding asks_live asks_automation draft_of
asks_nothing c = ground arith

-- The payload that asks for the configuration as it is.
abbrev pub unchanged : RuntimeTradingConfiguration → TradingConfigurationUpdate
unchanged c = record {
  mode = c.mode;
  place_orders_automatically = c.place_orders_automatically;
  monitoring_enabled = c.monitoring_enabled;
  symbols = c.symbols;
  strategy = c.strategy;
  risk_policy = c.risk_policy;
  expected_version = c.version;
  live_confirmation = none;
  automation_confirmation = none;
}

submit-draft_of :
    (trim : Text → Text) (c : RuntimeTradingConfiguration) (answers : Answers)
    → TrimsBlanks trim
    → all_valid c.symbols ≡ true
    → submit trim c (draft_of c) answers ≡ unchanged c
unfolding submit draft_of
submit-draft_of trim c answers trims valid =
    simp (
      (asks_nothing c).0,
      (asks_nothing c).1,
      draft_symbols-join_symbols trim trims c.symbols valid,
    )

drawer_run-append :
    (d : Draft) (es fs : List DrawerEvent)
    → drawer_run d (es ++ fs) ≡ drawer_run (drawer_run d es) fs
unfolding drawer_run
drawer_run-append d [] fs = refl
drawer_run-append d (e ∷ es) fs = drawer_run-append (drawer_step d e) es fs

-- Whatever the operator has edited in the drawer, a render of the application with the same
-- configuration discards it: what is saved then is the configuration as it is, with no confirmation,
-- where trimming drops blanks only and the symbols of the configuration are valid.
pub app_rendered_discards :
    (trim : Text → Text) (c : RuntimeTradingConfiguration) (d : Draft) (es : List DrawerEvent)
    (answers : Answers)
    → TrimsBlanks trim
    → all_valid c.symbols ≡ true
    → submit trim c (drawer_run d (es ++ app_rendered c ∷ [])) answers ≡ unchanged c
unfolding drawer_run drawer_step
app_rendered_discards trim c d es answers trims valid =
    ap (λ x. submit trim c x answers) (drawer_run-append d es (app_rendered c ∷ []))
    ∙ submit-draft_of trim c answers trims valid
