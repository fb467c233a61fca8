-- ===== src/Trading/Container.antt =====
-- services/container.py: what `ApplicationContainer` keeps of a configuration, with `start`,
-- `apply_trading_configuration` and the part of `readiness` that is about the pipeline.
--
-- Of the orchestrator only the symbols that have a strategy engine are kept here, and the policy of its
-- risk engine; of the execution service its switch and the mode of its broker. Reconfiguring the
-- orchestrator and the worker is taken to succeed; the broker may refuse a mode, which
-- `apply_or_raise` has as a parameter.
pub mod Monitoring
use algo_trading_system.Prelude.{Bool, true, false, ◌&&◌, ◌||◌, not, List, [], ◌∷◌, if◌then◌else◌}
use algo_trading_system.Prelude.Texts.{Text}
use algo_trading_system.ControlPlane.{
  TradingMode, is_live, TextRules, RiskPolicy, EmaStrategyConfiguration,
  RuntimeTradingConfiguration,
}
use algo_trading_system.ControlPlane.Service.{ApplyConfiguration}
use algo_trading_system.Trading.Worker.{
  TradingPipelineWorker, is_empty, start_worker, stop_worker, reconfigure_worker,
}

pub record ApplicationContainer : Type 0 where
  pub worker : TradingPipelineWorker
  pub engine_symbols : List Text
  pub engine_strategy : EmaStrategyConfiguration
  pub risk_policy : RiskPolicy
  pub place_orders_automatically : Bool
  pub is_paper : Bool

-- `configuration.symbols if configuration.monitoring_enabled else ()`
abbrev pub active_symbols : RuntimeTradingConfiguration → List Text
active_symbols c = if c.monitoring_enabled then c.symbols else []

abbrev pub stop_if : Bool → TradingPipelineWorker → TradingPipelineWorker
stop_if b w = if b then stop_worker w else w

abbrev pub start_if : Bool → TradingPipelineWorker → TradingPipelineWorker
start_if b w = if b then start_worker w else w

unfoldable pub apply_trading_configuration :
    TextRules → RuntimeTradingConfiguration → ApplicationContainer → ApplicationContainer
apply_trading_configuration rules c s =
    let was_running = s.worker.running in
    let active = active_symbols c in
    record {
      worker =
          start_if (was_running && not (is_empty active))
            (reconfigure_worker rules active (stop_if was_running s.worker));
      engine_symbols = c.symbols;
      engine_strategy = c.strategy;
      risk_policy = c.risk_policy;
      place_orders_automatically = c.place_orders_automatically;
      is_paper = not (is_live c.mode);
    }

-- `apply_trading_configuration` over a broker whose `configure_runtime` raises for some modes, as the
-- one of providers/alpaca.py does for live orders without live credentials: the worker is stopped by
-- then, and the orchestrator, the risk engine and the switch are those of the new configuration, but
-- the broker keeps its mode, and the worker is neither reconfigured nor started again.
unfoldable pub apply_or_raise :
    (takes_paper : Bool → Bool) → TextRules → ApplyConfiguration ApplicationContainer
unfolding apply_trading_configuration
apply_or_raise takes_paper rules c s =
    if takes_paper (not (is_live c.mode)) then (true, apply_trading_configuration rules c s) else (
      false,
      record {
        worker = stop_if s.worker.running s.worker;
        engine_symbols = c.symbols;
        engine_strategy = c.strategy;
        risk_policy = c.risk_policy;
        place_orders_automatically = c.place_orders_automatically;
        is_paper = s.is_paper;
      },
    )

-- `start`: the stored configuration is applied, and then the worker starts.
unfoldable pub start_container :
    TextRules → RuntimeTradingConfiguration → ApplicationContainer → ApplicationContainer
unfolding apply_trading_configuration
start_container rules c s =
    let applied = apply_trading_configuration rules c s in
    record applied { worker = start_worker applied.worker }

-- The entry `pipeline` of `readiness`
abbrev pub pipeline_ready : RuntimeTradingConfiguration → ApplicationContainer → Bool
pipeline_ready c s = not c.monitoring_enabled || is_empty c.symbols || s.worker.running

unfoldable pub apply_all :
    TextRules → List RuntimeTradingConfiguration → ApplicationContainer → ApplicationContainer
apply_all rules [] s = s
apply_all rules (c ∷ cs) s = apply_all rules cs (apply_trading_configuration rules c s)
