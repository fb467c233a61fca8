-- ===== src/Trading.antt =====
-- strategies/types.py: what a strategy decides; the parts of the server that turn it into orders.
--
-- A confidence is a natural number of units of 1e-4, the decimal places that its field keeps.
pub mod Risk
pub mod Execution
pub mod Atr
pub mod Orchestrator
pub mod Strategies
pub mod Ema
pub mod Pipeline
pub mod Analytics
pub mod Worker
pub mod Container
mod Tests
mod PipelineTests
use algo_trading_system.Prelude.{ℕ}
use algo_trading_system.Prelude.Texts.{Text}

pub data StrategyDirection : Type 0 where
  buy sell exit hold : StrategyDirection

-- The metadata, which only the audit shows, is left out.
pub record StrategySignalIntent : Type 0 where
  pub symbol : Text
  pub timestamp : ℕ
  pub strategy : Text
  pub direction : StrategyDirection
  pub confidence : ℕ
  pub reason : Text
