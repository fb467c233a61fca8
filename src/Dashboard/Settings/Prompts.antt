-- ===== src/Dashboard/Settings/Prompts.antt =====
-- The drawer asks for exactly the confirmations that the server requires.
use algo_trading_system.Prelude.{ℕ, ◌≡◌, ◌↔◌, ap, false, ◌||◌, none, some, arith}
use algo_trading_system.Prelude.Texts.{Text, text_eq_refl}
use algo_trading_system.ControlPlane.{
  TextRules, RuntimeTradingConfiguration, TradingConfigurationUpdate, ok, to_configuration,
}
use algo_trading_system.ControlPlane.Service.{
  validate_transition, entering_live, enabling_automation, automation_phrase,
}
use algo_trading_system.Dashboard.Settings.{
  Draft, Answers, asks_live, asks_automation, expected_phrase, live_phrase, submit,
}

-- The candidate has the mode and the order switch of the request.
record HasSwitches (update : TradingConfigurationUpdate) (candidate : RuntimeTradingConfiguration)
    : Type 0 where
  mode : candidate.mode ≡ update.mode
  place_orders : candidate.place_orders_automatically ≡ update.place_orders_automatically

to_configuration-HasSwitches :
    (rules : TextRules) (update : TradingConfigurationUpdate) (version : ℕ)
    (candidate : RuntimeTradingConfiguration)
    → to_configuration rules update version ≡ ok candidate
    → HasSwitches update candidate
unfolding to_configuration
to_configuration-HasSwitches rules update version candidate h = ground arith

-- What the drawer asks for is what the server requires.
asks_live-entering_live :
    (c candidate : RuntimeTradingConfiguration) (d : Draft)
    → candidate.mode ≡ d.mode
    → entering_live c candidate ≡ asks_live c d
unfolding entering_live asks_live
asks_live-entering_live c candidate d m = rw m

asks_automation-enabling_automation :
    (c candidate : RuntimeTradingConfiguration) (d : Draft)
    → candidate.mode ≡ d.mode
    → candidate.place_orders_automatically ≡ d.place_orders_automatically
    → enabling_automation c candidate ≡ asks_automation c d
unfolding enabling_automation asks_automation
asks_automation-enabling_automation c candidate d m o = rw (m, o)

phrases_agree : (d : Draft) → expected_phrase d ≡ automation_phrase d.mode
phrases_agree d = ground arith

module _ (rules : TextRules) (trim : Text → Text) (c : RuntimeTradingConfiguration) (d : Draft)
    (version : ℕ) (candidate : RuntimeTradingConfiguration) where
  -- A draft that passes the checks of its symbols, saved from the current version, is accepted by the
  -- server's rules for a transition once the operator types the phrase of each prompt that is shown.
  pub prompts_suffice :
      (answers : Answers)
      → to_configuration rules (submit trim c d answers) version ≡ ok candidate
      → answers.live_prompt ≡ some live_phrase
      → answers.automation_prompt ≡ some (expected_phrase d)
      → validate_transition c candidate (submit trim c d answers) ≡ ok tt
  unfolding validate_transition submit
  prompts_suffice answers h live automation =
      let switches = to_configuration-HasSwitches rules _ version candidate h in
      ground (
        arith,
        asks_live-entering_live c candidate d switches.mode,
        asks_automation-enabling_automation c candidate d switches.mode switches.place_orders,
        phrases_agree d,
        text_eq_refl live_phrase,
        text_eq_refl (expected_phrase d),
        ap automation_phrase switches.mode,
      )

  -- A draft that passes the checks of its symbols, saved from the current version with every prompt
  -- cancelled, is accepted by the server's rules for a transition exactly when no prompt is shown.
  pub prompts_required :
      (answers : Answers)
      → to_configuration rules (submit trim c d answers) version ≡ ok candidate
      → answers.live_prompt ≡ none
      → answers.automation_prompt ≡ none
      → (validate_transition c candidate (submit trim c d answers) ≡ ok tt)
        ↔ ((asks_live c d || asks_automation c d) ≡ false)
  unfolding validate_transition submit
  prompts_required answers h live automation =
      let switches = to_configuration-HasSwitches rules _ version candidate h in
      ground (
        arith,
        asks_live-entering_live c candidate d switches.mode,
        asks_automation-enabling_automation c candidate d switches.mode switches.place_orders,
      )
