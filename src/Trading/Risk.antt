-- ===== src/Trading/Risk.antt =====
-- risk/engine.py and risk/types.py: `RiskEngine.evaluate`, `RiskContext` and the decisions.
--
-- Amounts of money and the numbers of the policy are naturals of units 1e-8, so that a product of two
-- of them is one of units 1e-16; `wide` takes an amount to that unit. Decimals are computed exactly:
-- the 28 digits of Python's context hold every product of an amount and a number of the policy.
pub mod Limits
use algo_trading_system.Prelude.{
  ℕ, suc, ◌+◌, ◌-◌, ◌*◌, ◌/◌, ◌%◌, Bool, true, false, ◌&&◌, ◌||◌, not, ltb, leb, ◌==◌,
  if◌then◌else◌,
}
use algo_trading_system.Prelude.Texts.{Text}
use algo_trading_system.Prelude.Int.{ℤ, pos, neg_part, pos_part, ◌+ℤ◌, ◌-ℤ◌, leb_ℤ}
use algo_trading_system.ControlPlane.{RiskPolicy}
use algo_trading_system.Trading.{StrategyDirection, buy, sell, exit, hold, StrategySignalIntent}

abbrev pub unit : ℕ
unit = 100_000_000

abbrev pub wide : ℕ → ℕ
wide amount = amount * unit

pub record RiskContext : Type 0 where
  pub entry_price : ℕ
  pub atr : ℕ
  pub account_equity : ℕ
  pub daily_realized_pnl : ℤ
  pub consecutive_losses : ℕ
  pub available_cash : ℕ
  pub gross_exposure : ℕ
  pub open_positions : ℕ
  pub has_open_position : Bool
  pub would_average_down : Bool

-- Prices, distances and the risk in units of 1e-16, `risk_reward` in thousandths.
pub record RiskManagedSignal : Type 0 where
  pub symbol : Text
  pub timestamp : ℕ
  pub strategy : Text
  pub direction : StrategyDirection
  pub entry_price : ℕ
  pub stop_loss : ℤ
  pub take_profit : ℤ
  pub trailing_stop_distance : ℕ
  pub risk_reward : ℕ
  pub position_size : ℕ
  pub position_risk : ℕ
  pub expected_move : ℕ
  pub confidence : ℕ
  pub reason : Text

pub data RejectReason : Type 0 where
  averaging_down_is_prohibited maximum_consecutive_losses_reached : RejectReason
  computed_price_is_not_positive account_risk_limit_cannot_fund_one_share : RejectReason
  maximum_daily_loss_would_be_exceeded minimum_cash_reserve_would_be_breached : RejectReason
  maximum_gross_exposure_would_be_exceeded maximum_open_positions_reached : RejectReason

-- `invalid` is the error of a signal that fails the validation of its fields.
pub data RiskDecision : Type 0 where
  approved : RiskManagedSignal → RiskDecision
  rejected : RejectReason → RiskDecision
  not_applicable invalid : RiskDecision

-- `PositiveAmount`: above 0, with at most 8 decimal places and at most 10 digits before them.
abbrev pub is_amount : ℕ → Bool
is_amount n = ltb 0 n && n % unit == 0 && ltb n (10_000_000_000 * unit * unit)

abbrev pub is_amount_ℤ : ℤ → Bool
is_amount_ℤ n = is_amount (pos_part n)

-- `quantize(Decimal("0.001"))` of `a / b`: the nearest thousandth, ties to the even one.
unfoldable pub thousandths : ℕ → ℕ → ℕ
thousandths a b =
    let down = 1000 * a / b in
    let twice = 2 * (1000 * a % b) in
    if ltb twice b
    then down
    else if ltb b twice
    then suc down
    else if down % 2 == 0
    then down
    else suc down

abbrev pub is_buy : StrategyDirection → Bool
is_buy buy = true
is_buy sell = false
is_buy exit = false
is_buy hold = false

abbrev pub opens_position : StrategyDirection → Bool
opens_position buy = true
opens_position sell = true
opens_position exit = false
opens_position hold = false

abbrev pub stop_distance : RiskPolicy → RiskContext → ℕ
stop_distance policy c = c.atr * policy.stop_atr_multiple

abbrev pub expected_move : RiskPolicy → RiskContext → ℕ
expected_move policy c = c.atr * policy.target_atr_multiple

abbrev pub stop_loss : RiskPolicy → StrategyDirection → RiskContext → ℤ
stop_loss policy d c =
    if is_buy d
    then pos (wide c.entry_price) -ℤ pos (stop_distance policy c)
    else pos (wide c.entry_price + stop_distance policy c)

abbrev pub take_profit : RiskPolicy → StrategyDirection → RiskContext → ℤ
take_profit policy d c =
    if is_buy d
    then pos (wide c.entry_price + expected_move policy c)
    else pos (wide c.entry_price) -ℤ pos (expected_move policy c)

unfoldable pub position_size : RiskPolicy → RiskContext → ℕ
position_size policy c = c.account_equity * policy.risk_per_trade_fraction / stop_distance policy c

-- `max(Decimal(0), -daily_realized_pnl)`
abbrev pub current_daily_loss : RiskContext → ℕ
current_daily_loss c = neg_part c.daily_realized_pnl

abbrev pub reject_if : Bool → RejectReason → RiskDecision → RiskDecision
reject_if test reason next = if test then rejected reason else next

unfoldable pub managed_signal :
    RiskPolicy → StrategySignalIntent → RiskContext → ℕ → RiskManagedSignal
managed_signal policy intent c size = record {
  symbol = intent.symbol;
  timestamp = intent.timestamp;
  strategy = intent.strategy;
  direction = intent.direction;
  entry_price = wide c.entry_price;
  stop_loss = stop_loss policy intent.direction c;
  take_profit = take_profit policy intent.direction c;
  trailing_stop_distance = c.atr * policy.trailing_stop_atr_multiple;
  risk_reward = thousandths (expected_move policy c) (stop_distance policy c);
  position_size = size;
  position_risk = size * stop_distance policy c;
  expected_move = expected_move policy c;
  confidence = intent.confidence;
  reason = intent.reason;
}

-- The fields of a signal that its validation can refuse.
unfoldable pub is_valid_signal : RiskManagedSignal → Bool
is_valid_signal s =
    is_amount s.entry_price
    && is_amount_ℤ s.stop_loss
    && is_amount_ℤ s.take_profit
    && is_amount s.trailing_stop_distance
    && leb 1000 s.risk_reward
    && ltb s.risk_reward 100_000_000
    && leb 1 s.position_size
    && is_amount s.position_risk
    && is_amount s.expected_move

unfoldable pub approve : RiskManagedSignal → RiskDecision
approve s = if is_valid_signal s then approved s else invalid

-- The checks on the portfolio, for a size of the position. The code subtracts the order from the cash;
-- here it stands on the other side.
unfoldable pub check_portfolio : RiskPolicy → StrategySignalIntent → RiskContext → ℕ → RiskDecision
unfolding approve managed_signal
check_portfolio policy intent c size =
    reject_if (ltb size 1) account_risk_limit_cannot_fund_one_share (
      reject_if
        (ltb (c.account_equity * policy.max_daily_loss_fraction)
          (wide (current_daily_loss c) + size * stop_distance policy c))
        maximum_daily_loss_would_be_exceeded
        (reject_if
          (not (c.available_cash == 0)
            && ltb (wide c.available_cash) (
                wide (size * c.entry_price)
                + c.account_equity * policy.minimum_cash_reserve_fraction))
          minimum_cash_reserve_would_be_breached
          (reject_if
            (ltb (c.account_equity * policy.max_gross_exposure_fraction)
              (wide (c.gross_exposure + size * c.entry_price)))
            maximum_gross_exposure_would_be_exceeded
            (reject_if (not c.has_open_position && leb policy.max_open_positions c.open_positions)
              maximum_open_positions_reached (approve (managed_signal policy intent c size))))))

unfoldable pub evaluate : RiskPolicy → StrategySignalIntent → RiskContext → RiskDecision
unfolding check_portfolio position_size
evaluate policy intent c =
    if not (opens_position intent.direction)
    then not_applicable
    else reject_if c.would_average_down averaging_down_is_prohibited (
        reject_if (leb policy.max_consecutive_losses c.consecutive_losses)
          maximum_consecutive_losses_reached
          (reject_if
            (leb_ℤ (stop_loss policy intent.direction c) (pos 0)
              || leb_ℤ (take_profit policy intent.direction c) (pos 0))
            computed_price_is_not_positive
            (check_portfolio policy intent c (position_size policy c))))
