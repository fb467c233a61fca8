-- ===== src/ControlPlane/Tests.antt =====
-- A small server, whose broker has no live credentials, and its clients, and the theorems about the
-- control plane at them.
use algo_trading_system.Prelude.{◌≡◌, ◌≢◌, refl, true, false, [], ◌∷◌, map, some, none}
use algo_trading_system.Prelude.Texts.{codes, text_eq, includes}
use algo_trading_system.ControlPlane.{
  TradingMode, TextRules, RuntimeTradingConfiguration, TradingConfigurationUpdate, ok, err,
  live_confirmation_required, not_applied, clean_symbols, to_configuration, valid_symbol, all_valid,
  all_distinct,
}
use algo_trading_system.ControlPlane.Store
use algo_trading_system.ControlPlane.Store.{get_or_create, empty_store}
use algo_trading_system.Trading.Worker.{stop_worker}
use algo_trading_system.Trading.Container.{ApplicationContainer, apply_or_raise}
use algo_trading_system.ControlPlane.Service.{
  ApplyConfiguration, ControlService, start, update, validate_transition, entering_live,
  enabling_automation, commit, list_audit,
}
use algo_trading_system.ControlPlane.Store.{AuditEntry}
use algo_trading_system.ControlPlane.Service.Updates.{Updated, update-Updated}
use algo_trading_system.ControlPlane.Service.History.{
  IsInSync, update_run, new_service, update_run-IsInSync, stale_update_refused,
}

abbrev rules : TextRules
rules = record { strip = λ t. t; upper = λ t. t }

abbrev default : RuntimeTradingConfiguration
default = record {
  mode = TradingMode.paper;
  place_orders_automatically = false;
  monitoring_enabled = true;
  symbols = codes "AAPL" ∷ [];
  strategy = record {
    interval = codes "1m";
    fast_period = 12;
    slow_period = 26;
    base_confidence = 60;
    confidence_sensitivity = 1000;
    max_confidence = 95;
  };
  risk_policy = record {
    risk_per_trade_fraction = 1;
    max_daily_loss_fraction = 3;
    max_consecutive_losses = 3;
    stop_atr_multiple = 150;
    target_atr_multiple = 300;
    trailing_stop_atr_multiple = 200;
    minimum_risk_reward = 150;
    max_gross_exposure_fraction = 80;
    minimum_cash_reserve_fraction = 10;
    max_open_positions = 10;
  };
  version = 1;
}

-- The worker runs for the default configuration.
abbrev container : ApplicationContainer
container = record {
  worker = record {
    symbols = codes "AAPL" ∷ [];
    running = true;
    subscribed = codes "AAPL" ∷ [];
    provider_connected = true;
    initializations = 1;
  };
  engine_symbols = default.symbols;
  engine_strategy = default.strategy;
  risk_policy = default.risk_policy;
  place_orders_automatically = false;
  is_paper = true;
}

-- The broker takes the paper mode only.
abbrev apply_paper : ApplyConfiguration ApplicationContainer
apply_paper = apply_or_raise (λ is_paper. is_paper) rules

abbrev service : ControlService ApplicationContainer
service = new_service default apply_paper container

-- Two operators edit version 1: one adds a symbol, one stops the monitoring.
abbrev add_msft : TradingConfigurationUpdate
add_msft = record {
  mode = TradingMode.paper;
  place_orders_automatically = false;
  monitoring_enabled = true;
  symbols = codes "AAPL" ∷ codes "MSFT" ∷ [];
  strategy = default.strategy;
  risk_policy = default.risk_policy;
  expected_version = 1;
  live_confirmation = none;
  automation_confirmation = none;
}

abbrev stop_monitoring : TradingConfigurationUpdate
stop_monitoring = record add_msft { monitoring_enabled = false; symbols = codes "AAPL" ∷ [] }

abbrev go_live : TradingConfigurationUpdate
go_live = record add_msft { mode = TradingMode.live }

-- The same, with the phrases that it needs, and with automatic orders.
abbrev go_live_confirmed : TradingConfigurationUpdate
go_live_confirmed = record go_live {
  place_orders_automatically = true;
  live_confirmation = some (codes "ENABLE_LIVE_TRADING");
  automation_confirmation = some (codes "ENABLE_LIVE_AUTOMATION");
}

abbrev with_msft : RuntimeTradingConfiguration
with_msft = record default { symbols = codes "AAPL" ∷ codes "MSFT" ∷ []; version = 2 }

go_live_refused : (update rules go_live service).0 ≡ err live_confirmation_required
unfolding update commit to_configuration all_distinct clean_symbols includes text_eq all_valid
    valid_symbol validate_transition get_or_create entering_live
go_live_refused = refl

-- The broker refuses the live mode: the update is not applied and the old configuration stays stored,
-- but the worker is stopped, and the switch of the automatic orders is on.
live_not_applied : (update rules go_live_confirmed service).0 ≡ err not_applied
unfolding update commit to_configuration all_distinct clean_symbols includes text_eq all_valid
    valid_symbol validate_transition get_or_create entering_live enabling_automation apply_or_raise
live_not_applied = refl

half_applied :
    ((update rules go_live_confirmed service).1.store.configuration ≡ some default)
    × ((update rules go_live_confirmed service).1.application.worker ≡ stop_worker container.worker)
    × ((update rules go_live_confirmed service).1.application.place_orders_automatically ≡ true)
unfolding update commit to_configuration all_distinct clean_symbols includes text_eq all_valid
    valid_symbol validate_transition get_or_create entering_live enabling_automation apply_or_raise
half_applied = (refl, refl, refl)

update-Updated_example :
    Updated rules service go_live_confirmed (update rules go_live_confirmed service)
update-Updated_example = update-Updated rules go_live_confirmed service

update_run-IsInSync_example : IsInSync (
    update_run rules (start service).1 (
      add_msft
      ∷ stop_monitoring
      ∷ record go_live_confirmed { expected_version = 2 }
      ∷ go_live
      ∷ []))
unfolding apply_or_raise
update_run-IsInSync_example =
    update_run-IsInSync rules
      (add_msft
        ∷ stop_monitoring
        ∷ record go_live_confirmed { expected_version = 2 }
        ∷ go_live
        ∷ [])
      default apply_paper container refl

add_msft_accepted : (update rules add_msft service).0 ≡ ok with_msft
unfolding update commit to_configuration all_distinct clean_symbols includes text_eq all_valid
    valid_symbol validate_transition get_or_create entering_live enabling_automation Store.update
    apply_or_raise
add_msft_accepted = refl

stale_update_refused_example :
    (update rules stop_monitoring (update rules add_msft service).1).0
    ≢ ok (record default { monitoring_enabled = false; version = 3 })
stale_update_refused_example =
    stale_update_refused rules service add_msft stop_monitoring with_msft
      (record default { monitoring_enabled = false; version = 3 }) add_msft_accepted refl

-- A limit of 0 lists everything.
audit_unlimited :
    list_audit 0 (update rules add_msft service).1 ≡ (update rules add_msft service).1.store.audit
unfolding list_audit update Store.list_audit
audit_unlimited = refl

audit_limited :
    map (λ (e : AuditEntry). e.version) (list_audit 1 (start service).1) ≡ default.version ∷ []
unfolding list_audit start get_or_create Store.list_audit
audit_limited = refl
