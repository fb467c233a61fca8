-- ===== src/ControlPlane/Service.antt =====
-- control_plane/service.py: `TradingControlService`.
--
-- Applying a configuration to the running application is a callback, which the service is given. It
-- works on a state `A` of the application and says whether it returned or raised; a call that raised
-- may have changed the application in part, and what it left stays. The lock runs updates one after
-- another, so an update is one step.
pub mod Updates
pub mod History
use algo_trading_system.Prelude.{
  ℕ, ◌+◌, Bool, true, false, ◌&&◌, ◌||◌, not, List, [], ◌∷◌, Option, none, some, ◌==◌,
  if◌then◌else◌,
}
use algo_trading_system.Prelude.Texts.{Text, text_eq, codes}
use algo_trading_system.ControlPlane.{
  TradingMode, is_live, same_mode, TextRules, RuntimeTradingConfiguration,
  TradingConfigurationUpdate, ControlError, version_conflict, live_confirmation_required,
  automation_confirmation_required, not_applied, Outcome, ok, err, ◌>>=◌, ◌>>◌, ensure,
  to_configuration,
}
use algo_trading_system.ControlPlane.Store
use algo_trading_system.ControlPlane.Store.{ControlStore, AuditEntry, get_or_create}

abbrev pub confirms : Option Text → Text → Bool
confirms none phrase = false
confirms (some t) phrase = text_eq t phrase

abbrev pub enable_live : Text
enable_live = codes "ENABLE_LIVE_TRADING"

abbrev pub automation_phrase : TradingMode → Text
automation_phrase TradingMode.live = codes "ENABLE_LIVE_AUTOMATION"
automation_phrase TradingMode.paper = codes "ENABLE_PAPER_AUTOMATION"

unfoldable pub entering_live : RuntimeTradingConfiguration → RuntimeTradingConfiguration → Bool
entering_live current candidate = is_live candidate.mode && not (is_live current.mode)

unfoldable pub enabling_automation :
    RuntimeTradingConfiguration → RuntimeTradingConfiguration → Bool
enabling_automation current candidate =
    candidate.place_orders_automatically
    && (not current.place_orders_automatically || not (same_mode candidate.mode current.mode))

unfoldable pub validate_transition :
    RuntimeTradingConfiguration
    → RuntimeTradingConfiguration
    → TradingConfigurationUpdate
    → Outcome (Unit {0})
validate_transition current candidate update = do
  ensure (update.expected_version == current.version) version_conflict
  ensure (not (entering_live current candidate) || confirms update.live_confirmation enable_live)
      live_confirmation_required
  ensure
      (not (enabling_automation current candidate)
        || confirms update.automation_confirmation (automation_phrase candidate.mode))
      automation_confirmation_required

-- What a call of the callback does to the application: `true` where it returned and `false` where it
-- raised, and the application as the call left it.
abbrev pub ApplyConfiguration {ℓ} : Type ℓ → Type ℓ
ApplyConfiguration A = RuntimeTradingConfiguration → A → Bool × A

pub record ControlService {ℓ} (A : Type ℓ) : Type ℓ where
  pub default_configuration : RuntimeTradingConfiguration
  pub store : ControlStore
  pub apply_configuration : ApplyConfiguration A
  pub application : A

module _ {ℓ} {A : Type ℓ} where
  -- `await self._apply_configuration(configuration)`
  abbrev pub apply : RuntimeTradingConfiguration → ControlService A → Bool × ControlService A
  apply c s =
      let (returned, application) = s.apply_configuration c s.application in
      (returned, record s { application = application })

  -- `get`
  unfoldable pub get : ControlService A → RuntimeTradingConfiguration × ControlService A
  get s =
      let (current, store) = get_or_create s.default_configuration s.store in
      (current, record s { store = store })

  -- `start`
  unfoldable pub start : ControlService A → Outcome (Unit {0}) × ControlService A
  unfolding get
  start s =
      let (current, s') = get s in
      let (returned, applied) = apply current s' in
      (if returned then ok tt else err not_applied, applied)

  -- Applying the old configuration again can fail as well, and that error is the one that is raised.
  unfoldable pub roll_back :
      RuntimeTradingConfiguration
      → ControlError
      → ControlService A
      → Outcome RuntimeTradingConfiguration × ControlService A
  roll_back current e s =
      let (returned, applied) = apply current s in
      (if returned then err e else err not_applied, applied)

  -- `update` once the candidate is validated: apply it, store it, and apply the old configuration
  -- again where the store refuses. Where applying the candidate fails nothing is applied again.
  unfoldable pub commit :
      RuntimeTradingConfiguration
      → RuntimeTradingConfiguration
      → ℕ
      → ControlService A
      → Outcome RuntimeTradingConfiguration × ControlService A
  unfolding roll_back
  commit current candidate expected_version s =
      let (returned, applied) = apply candidate s in
      if returned
      then elim (Store.update candidate expected_version applied.store) [
        | ok store ↦ (ok candidate, record applied { store = store })
        | err e ↦ roll_back current e applied
      ]
      else (err not_applied, applied)

abbrev pub checked :
    TextRules
    → RuntimeTradingConfiguration
    → TradingConfigurationUpdate
    → Outcome RuntimeTradingConfiguration
checked rules current update = do
  candidate ← to_configuration rules update (current.version + 1)
  validate_transition current candidate update
  ok candidate

module _ {ℓ} {A : Type ℓ} where
  unfoldable pub update :
      TextRules
      → TradingConfigurationUpdate
      → ControlService A
      → Outcome RuntimeTradingConfiguration × ControlService A
  unfolding get
  update rules request s =
      let (current, s') = get s in
      elim (checked rules current request) [
        | ok candidate ↦ commit current candidate request.expected_version s'
        | err e ↦ (err e, s')
      ]

  unfoldable pub list_audit : ℕ → ControlService A → List AuditEntry
  list_audit limit s = Store.list_audit limit s.store
