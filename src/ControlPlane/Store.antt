-- ===== src/ControlPlane/Store.antt =====
-- control_plane/repository.py: `InMemoryTradingControlStore`.
use algo_trading_system.Prelude.{
  ℕ, zero, suc, List, [], ◌∷◌, Option, none, some, ◌==◌, if◌then◌else◌,
}
use algo_trading_system.ControlPlane.{
  RuntimeTradingConfiguration, Outcome, ok, err, not_initialized, store_version_conflict,
}

-- `TradingConfigurationAudit`, without the time of its creation
pub record AuditEntry : Type 0 where
  pub version : ℕ
  pub configuration : RuntimeTradingConfiguration

-- The audit is kept newest first here, the reverse of the list that the code appends to.
pub record ControlStore : Type 0 where
  pub configuration : Option RuntimeTradingConfiguration
  pub audit : List AuditEntry

abbrev pub empty_store : ControlStore
empty_store = record { configuration = none; audit = [] }

abbrev pub entry_of : RuntimeTradingConfiguration → AuditEntry
entry_of c = record { version = c.version; configuration = c }

abbrev pub recorded : RuntimeTradingConfiguration → ControlStore → ControlStore
recorded c store = record { configuration = some c; audit = entry_of c ∷ store.audit }

unfoldable pub get_or_create :
    RuntimeTradingConfiguration → ControlStore → RuntimeTradingConfiguration × ControlStore
get_or_create default store = elim store.configuration [
  | none ↦ (default, recorded default store)
  | some c ↦ (c, store)
]

unfoldable pub update : RuntimeTradingConfiguration → ℕ → ControlStore → Outcome ControlStore
update configuration expected_version store = elim store.configuration [
  | none ↦ err not_initialized
  | some c ↦
      if c.version == expected_version
      then ok (recorded configuration store)
      else err store_version_conflict
]

unfoldable pub newest : ℕ → List AuditEntry → List AuditEntry
newest zero entries = []
newest (suc n) [] = []
newest (suc n) (e ∷ entries) = e ∷ newest n entries

-- `reversed(self._audit[-limit:])`; the slice from -0 is the whole list.
unfoldable pub list_audit : ℕ → ControlStore → List AuditEntry
unfolding newest
list_audit limit store = if limit == 0 then store.audit else newest limit store.audit
