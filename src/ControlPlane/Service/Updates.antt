-- ===== src/ControlPlane/Service/Updates.antt =====
-- What an update does: it is accepted, refused by the checks, or its configuration is not applied.
use algo_trading_system.Prelude.{
  ℕ, ◌+◌, ◌≡◌, ◌⊎◌, inl, inr, refl, ap, ◌∷◌, some, arith, true, false, ==_iff, Bool-cases,
  if◌then◌else◌, Bool,
}
use algo_trading_system.ControlPlane.{
  TextRules, RuntimeTradingConfiguration, TradingConfigurationUpdate, ControlError, Outcome, ok,
  err, to_configuration, not_applied,
}
use algo_trading_system.ControlPlane.Store
use algo_trading_system.ControlPlane.Store.{
  ControlStore, get_or_create, entry_of, AuditEntry, recorded,
}
use algo_trading_system.ControlPlane.Service.{
  validate_transition, ControlService, get, commit, checked, update, apply,
}

Outcome-cases {ℓ} :
    {A : Type ℓ} (o : Outcome A) → ((a : A) × (o ≡ ok a)) ⊎ ((e : ControlError) × (o ≡ err e))
Outcome-cases (ok a) = inl (a, refl)
Outcome-cases (err e) = inr (e, refl)

-- What a candidate that passes the checks has.
record IsCandidate (current candidate : RuntimeTradingConfiguration)
    (request : TradingConfigurationUpdate) : Type 0 where
  expected : request.expected_version ≡ current.version
  next : candidate.version ≡ current.version + 1

checked_ok :
    (rules : TextRules) (current candidate : RuntimeTradingConfiguration)
    (request : TradingConfigurationUpdate)
    → checked rules current request ≡ ok candidate
    → IsCandidate current candidate request
unfolding to_configuration validate_transition
checked_ok rules current candidate request h =
    ground (arith, ==_iff request.expected_version current.version)

module _ {ℓ} {A : Type ℓ} where
  -- After `get` the store holds the current configuration.
  pub get_stored : (s : ControlService A) → (get s).1.store.configuration ≡ some (get s).0
  unfolding get get_or_create
  get_stored s = ground arith

  -- With the expected version the store takes the candidate, so that nothing has to be rolled back.
  pub commit_expected :
      (s : ControlService A) (current candidate : RuntimeTradingConfiguration) (version : ℕ)
      → s.store.configuration ≡ some current
      → version ≡ current.version
      → commit current candidate version s ≡ (
          if (apply candidate s).0
          then (ok candidate, record (apply candidate s).1 { store = recorded candidate s.store })
          else (err not_applied, (apply candidate s).1))
  unfolding commit Store.update
  commit_expected s current candidate version stored e =
      ground (arith, ==_iff current.version version)

-- What an accepted update does: the service has the next version of the configuration stored and
-- audited, and the call that applied it returned and left the application that the service has now.
pub record IsAccepted {ℓ} {A : Type ℓ} (s : ControlService A) (request : TradingConfigurationUpdate)
    (c : RuntimeTradingConfiguration) (s' : ControlService A) : Type ℓ where
  pub expected : request.expected_version ≡ (get s).0.version
  pub next : c.version ≡ (get s).0.version + 1
  pub stored : s'.store.configuration ≡ some c
  pub audited : s'.store.audit ≡ entry_of c ∷ (get s).1.store.audit
  pub callback : s'.apply_configuration ≡ s.apply_configuration
  pub applied : s.apply_configuration c s.application ≡ (true, s'.application)

-- What an update does whose configuration passes the checks and is not applied: the call raised, the
-- application is as that call left it, and what is stored and audited is as before.
pub record IsUnapplied {ℓ} {A : Type ℓ} (s : ControlService A) (c : RuntimeTradingConfiguration)
    (s' : ControlService A) : Type ℓ where
  pub stored : s'.store ≡ (get s).1.store
  pub callback : s'.apply_configuration ≡ s.apply_configuration
  pub raised : s.apply_configuration c s.application ≡ (false, s'.application)

pub data Updated {ℓ} {A : Type ℓ} (rules : TextRules) (s : ControlService A)
    (request : TradingConfigurationUpdate)
    : Outcome RuntimeTradingConfiguration × ControlService A → Type ℓ where
  accepted :
      (c : RuntimeTradingConfiguration) (s' : ControlService A)
      → checked rules (get s).0 request ≡ ok c
      → IsAccepted s request c s'
      → Updated rules s request (ok c, s')
  unapplied :
      (c : RuntimeTradingConfiguration) (s' : ControlService A)
      → checked rules (get s).0 request ≡ ok c
      → IsUnapplied s c s'
      → Updated rules s request (err not_applied, s')
  refused :
      (e : ControlError)
      → checked rules (get s).0 request ≡ err e
      → Updated rules s request (err e, (get s).1)

module _ {ℓ} {A : Type ℓ} (rules : TextRules) (request : TradingConfigurationUpdate) where
  -- Reading the configuration leaves the application alone.
  apply-get :
      (s : ControlService A) (c : RuntimeTradingConfiguration) (b : Bool)
      → (apply c (get s).1).0 ≡ b
      → s.apply_configuration c s.application ≡ (b, (apply c (get s).1).1.application)
  unfolding get
  apply-get s c b e = ap (λ x. (x, (apply c (get s).1).1.application)) e

  commit-Updated :
      (s : ControlService A) (candidate : RuntimeTradingConfiguration)
      → checked rules (get s).0 request ≡ ok candidate
      → Updated rules s request (commit (get s).0 candidate request.expected_version (get s).1)
  unfolding get
  commit-Updated s candidate checks =
      let c = checked_ok rules (get s).0 candidate request checks in
      rw
        (commit_expected (get s).1 (get s).0 candidate request.expected_version (get_stored s)
          c.expected)
        (elim (Bool-cases (apply candidate (get s).1).0) [
          | inl e ↦ rw e (
              accepted candidate
                (record (apply candidate (get s).1).1 {
                  store = recorded candidate (get s).1.store;
                })
                checks
                (record {
                  expected = c.expected;
                  next = c.next;
                  stored = refl;
                  audited = refl;
                  callback = refl;
                  applied = apply-get s candidate true e;
                }))
          | inr e ↦ rw e (
              unapplied candidate (apply candidate (get s).1).1 checks
                (record { stored = refl; callback = refl; raised = apply-get s candidate false e }))
        ])

  -- An update that is accepted was made from the current version and passed the checks; the next
  -- version is then stored and audited on top of the entries before it, and the application is what
  -- the call left that applied it, which returned. Where that call raises, the update answers that it
  -- was not applied: what is stored and audited stays as reading the configuration leaves it, and the
  -- application is what the failed call left of it, to which nothing is applied again. An update that
  -- the checks refuse leaves the whole service as reading the configuration does: what is stored and
  -- audited stays, but for the default that the first read stores, and the application is not called.
  pub update-Updated : (s : ControlService A) → Updated rules s request (update rules request s)
  unfolding update
  update-Updated s = elim (Outcome-cases (checked rules (get s).0 request)) [
    | inl (candidate, e) ↦ rw (e, update) (commit-Updated s candidate e)
    | inr (e, h) ↦ rw (h, update) (refused e h)
  ]
