-- ===== src/ControlPlane/Service/History.antt =====
-- Histories of updates: what is stored, audited and applied, and updates from an old version.
use algo_trading_system.Prelude.{
  ◌+◌, ◌≡◌, ◌≢◌, refl, ◌∙◌, ap, sym, subst, List, [], ◌∷◌, some, arith, true, false,
}
use algo_trading_system.ControlPlane.{
  TextRules, RuntimeTradingConfiguration, TradingConfigurationUpdate, Outcome, ok,
}
use algo_trading_system.ControlPlane.Store.{
  ControlStore, AuditEntry, entry_of, get_or_create, empty_store,
}
use algo_trading_system.ControlPlane.Service.{
  ApplyConfiguration, ControlService, get, start, update,
}
use algo_trading_system.ControlPlane.Service.Updates.{
  Updated, accepted, unapplied, refused, IsAccepted, update-Updated,
}

-- Each version is one above the version before it.
abbrev pub IsGapless : List AuditEntry → Type 0
IsGapless [] = Unit
IsGapless (a ∷ []) = Unit
IsGapless (a ∷ b ∷ rest) = (a.version ≡ b.version + 1) × IsGapless (b ∷ rest)

-- The application after calls of the callback that all raised.
pub data FailedCalls {ℓ} {A : Type ℓ} (apply_configuration : ApplyConfiguration A) (start : A)
    : A → Type ℓ where
  no_calls : FailedCalls apply_configuration start start
  raised :
      (c : RuntimeTradingConfiguration) (before after : A)
      → FailedCalls apply_configuration start before
      → apply_configuration c before ≡ (false, after)
      → FailedCalls apply_configuration start after

-- The current configuration is stored and is the newest audited one, and the audit is gapless. The
-- call that applied it to some earlier application returned, and since then the application was
-- changed by calls that raised only.
pub record IsInSync {ℓ} {A : Type ℓ} (s : ControlService A) : Type ℓ where
  pub current : RuntimeTradingConfiguration
  pub audit_before : List AuditEntry
  pub stored : s.store.configuration ≡ some current
  pub audited : s.store.audit ≡ entry_of current ∷ audit_before
  pub gapless : IsGapless (entry_of current ∷ audit_before)
  pub unconfigured : A
  pub configured : A
  pub applied : s.apply_configuration current unconfigured ≡ (true, configured)
  pub failures : FailedCalls s.apply_configuration configured s.application

module _ {ℓ} {A : Type ℓ} where
  pub get_of_stored :
      (s : ControlService A) (c : RuntimeTradingConfiguration)
      → s.store.configuration ≡ some c
      → ((get s).0 ≡ c) × ((get s).1.store ≡ s.store)
  unfolding get get_or_create
  get_of_stored s c e = ground arith

  module _ (rules : TextRules) where
    Updated-IsInSync :
        (s : ControlService A) (request : TradingConfigurationUpdate)
        (r : Outcome RuntimeTradingConfiguration × ControlService A)
        → Updated rules s request r
        → IsInSync s
        → IsInSync r.1
    unfolding get
    Updated-IsInSync s request r (refused e checks) h =
        let same = get_of_stored s h.current h.stored in
        record {
          current = h.current;
          audit_before = h.audit_before;
          stored = ap (λ (t : ControlStore). t.configuration) same.1 ∙ h.stored;
          audited = ap (λ (t : ControlStore). t.audit) same.1 ∙ h.audited;
          gapless = h.gapless;
          unconfigured = h.unconfigured;
          configured = h.configured;
          applied = h.applied;
          failures = h.failures;
        }
    Updated-IsInSync s request r (unapplied c s' checks u) h =
        let same = u.stored ∙ (get_of_stored s h.current h.stored).1 in
        record {
          current = h.current;
          audit_before = h.audit_before;
          stored = ap (λ (t : ControlStore). t.configuration) same ∙ h.stored;
          audited = ap (λ (t : ControlStore). t.audit) same ∙ h.audited;
          gapless = h.gapless;
          unconfigured = h.unconfigured;
          configured = h.configured;
          applied = ap (λ f. f h.current h.unconfigured) u.callback ∙ h.applied;
          failures =
              subst (λ f. FailedCalls f h.configured s'.application) (sym u.callback)
                (raised c s.application s'.application h.failures u.raised);
        }
    Updated-IsInSync s request r (accepted c s' checks a) h =
        let same = get_of_stored s h.current h.stored in
        record {
          current = c;
          audit_before = entry_of h.current ∷ h.audit_before;
          stored = a.stored;
          audited =
              a.audited
              ∙ ap (entry_of c ∷◌) (ap (λ (t : ControlStore). t.audit) same.1 ∙ h.audited);
          gapless =
              (a.next ∙ ap (λ (t : RuntimeTradingConfiguration). t.version + 1) same.0, h.gapless);
          unconfigured = s.application;
          configured = s'.application;
          applied = ap (λ f. f c s.application) a.callback ∙ a.applied;
          failures = no_calls;
        }

    pub update_run : ControlService A → List TradingConfigurationUpdate → ControlService A
    update_run s [] = s
    update_run s (r ∷ rs) = update_run (update rules r s).1 rs

    pub update_run-IsInSync_from :
        (requests : List TradingConfigurationUpdate) (s : ControlService A)
        → IsInSync s
        → IsInSync (update_run s requests)
    unfolding update_run
    update_run-IsInSync_from [] s h = h
    update_run-IsInSync_from (r ∷ rs) s h =
        update_run-IsInSync_from rs (update rules r s).1
          (Updated-IsInSync s r (update rules r s) (update-Updated rules r s) h)

  -- A service over an empty store, before `start`.
  abbrev pub new_service : RuntimeTradingConfiguration → ApplyConfiguration A → A → ControlService A
  new_service default apply_configuration application = record {
    default_configuration = default;
    store = empty_store;
    apply_configuration = apply_configuration;
    application = application;
  }

  start-IsInSync :
      (default : RuntimeTradingConfiguration) (apply_configuration : ApplyConfiguration A)
      (application : A)
      → (apply_configuration default application).0 ≡ true
      → IsInSync (start (new_service default apply_configuration application)).1
  unfolding start get get_or_create
  start-IsInSync default apply_configuration application returned = record {
    current = default;
    audit_before = [];
    stored = refl;
    audited = refl;
    gapless = tt;
    unconfigured = application;
    configured = (apply_configuration default application).1;
    applied = ap (λ b. (b, (apply_configuration default application).1)) returned;
    failures = no_calls;
  }

  -- After the service has started on an empty store, with a default configuration whose application
  -- returned, and through any sequence of updates, accepted, refused and not applied, over a callback
  -- that may raise and leave anything behind: the stored configuration is the newest audited one, the
  -- audited versions are gapless, and the last call of the callback that returned applied the stored
  -- configuration. The application is what that call left, changed by nothing but the calls after it
  -- that raised; while none raises it is thus the application of the stored configuration.
  pub update_run-IsInSync :
      (rules : TextRules) (requests : List TradingConfigurationUpdate)
      (default : RuntimeTradingConfiguration) (apply_configuration : ApplyConfiguration A)
      (application : A)
      → (apply_configuration default application).0 ≡ true
      → IsInSync (
          update_run rules (start (new_service default apply_configuration application)).1 requests)
  update_run-IsInSync rules requests default apply_configuration application returned =
      update_run-IsInSync_from rules requests _
        (start-IsInSync default apply_configuration application returned)

  IsAccepted-facts :
      (rules : TextRules) (s : ControlService A) (request : TradingConfigurationUpdate)
      (r : Outcome RuntimeTradingConfiguration × ControlService A) (c : RuntimeTradingConfiguration)
      → Updated rules s request r
      → r.0 ≡ ok c
      → IsAccepted s request c r.1
  IsAccepted-facts rules s request r c (refused e checks) h = cc
  IsAccepted-facts rules s request r c (unapplied d s' checks u) h = cc
  IsAccepted-facts rules s request r c (accepted d s' checks a) h =
      let same : d ≡ c = cc in subst (λ x. IsAccepted s request x s') same a

  -- Of two updates that were made from the same version at most one is accepted: once the first is, the
  -- second is refused, whatever it asks for.
  pub stale_update_refused :
      (rules : TextRules) (s : ControlService A) (first second : TradingConfigurationUpdate)
      (c d : RuntimeTradingConfiguration)
      → (update rules first s).0 ≡ ok c
      → second.expected_version ≡ first.expected_version
      → (update rules second (update rules first s).1).0 ≢ ok d
  stale_update_refused rules s first second c d h same k =
      let one = IsAccepted-facts rules s first _ c (update-Updated rules first s) h in
      let two =
        IsAccepted-facts rules (update rules first s).1 second _ d
          (update-Updated rules second (update rules first s).1) k in
      let current = get_of_stored (update rules first s).1 c one.stored in
      absurd (
        omega (
          arith,
          one.expected,
          one.next,
          two.expected,
          ap (λ (t : RuntimeTradingConfiguration). t.version) current.0,
        ))
