-- ===== src/MarketData.antt =====
-- market_data/types.py: a tick as the server keeps it once it is validated.
--
-- An instant is a natural number of microseconds, and an amount one of units 1e-8, the decimal places
-- of the field.
pub mod Calendar
pub mod CandleEngine
pub mod CandleHistory
pub mod TickStore
pub mod TickProcessor
pub mod CandleStore
pub mod TickChart
mod Tests
use algo_trading_system.Prelude.{ℕ, List}
use algo_trading_system.Prelude.Texts.{Text}

pub record MarketTick : Type 0 where
  pub timestamp : ℕ
  pub received_at : ℕ
  pub symbol : Text
  pub exchange : Text
  pub price : ℕ
  pub bid : ℕ
  pub ask : ℕ
  pub volume : ℕ
  pub trade_size : ℕ
  pub conditions : List Text

abbrev pub timestamp_of : MarketTick → ℕ
timestamp_of t = t.timestamp
