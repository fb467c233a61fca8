-- ===== src/Trading/Execution.antt =====
-- execution/service.py and execution/in_memory.py: `AutomatedExecutionService` over the in-memory
-- audit store, with the snapshots and orders of providers/execution.py.
--
-- The broker is a parameter: what it answers to a call may depend on all the calls before it, which the
-- state keeps newest first. The digest that makes an order id of a signal is a parameter too. Amounts
-- are in the units of Risk. The times of orders and the fields of an answer that nothing reads are left
-- out.
pub mod Once
use algo_trading_system.Prelude.{
  ℕ, suc, ◌+◌, ◌%◌, ◌/◌, Bool, true, false, ◌&&◌, ◌||◌, not, List, [], ◌∷◌, Option, none, some, ltb,
  ◌==◌, if◌then◌else◌, min, length,
}
use algo_trading_system.Prelude.Texts.{Text, text_eq, includes}
use algo_trading_system.Prelude.Int.{ℤ, pos, abs, ◌-ℤ◌}
use algo_trading_system.Trading.{StrategyDirection, buy, sell, exit, hold, StrategySignalIntent}
use algo_trading_system.Trading.Risk.{RiskContext, RiskManagedSignal, is_buy}

pub record AccountSnapshot : Type 0 where
  pub cash : ℕ
  pub equity : ℕ
  pub buying_power : ℕ
  pub previous_close_equity : Option ℕ

pub record PositionSnapshot : Type 0 where
  pub symbol : Text
  pub market_value : ℤ

pub data OrderSide : Type 0 where
  buy_side sell_side : OrderSide

pub record OrderRequest : Type 0 where
  pub client_order_id : Text
  pub symbol : Text
  pub quantity : ℕ
  pub side : OrderSide

pub record ExecutionOrder : Type 0 where
  pub client_order_id : Text
  pub symbol : Text
  pub quantity : ℕ
  pub side : OrderSide

-- What changes something at the broker.
pub data BrokerCall : Type 0 where
  submit_market_order : OrderRequest → BrokerCall
  close_position : Text → Text → BrokerCall

abbrev pub call_id : BrokerCall → Text
call_id (submit_market_order request) = request.client_order_id
call_id (close_position symbol client_order_id) = client_order_id

-- `none` is an exception.
pub record Broker : Type 0 where
  pub answer : List BrokerCall → BrokerCall → Option ExecutionOrder
  pub account : List BrokerCall → AccountSnapshot
  pub positions : List BrokerCall → List PositionSnapshot

-- What the text under the digest is made of.
pub record OrderKey : Type 0 where
  pub symbol : Text
  pub timestamp : ℕ
  pub strategy : Text
  pub direction : StrategyDirection

-- The service, its broker's history and `InMemoryExecutionAuditStore`, newest first.
pub record ExecutionState : Type 0 where
  pub place_orders_automatically : Bool
  pub calls : List BrokerCall
  pub reserved : List Text
  pub orders : List ExecutionOrder
  pub portfolios : List (AccountSnapshot × List PositionSnapshot)

pub data ExecutionResult : Type 0 where
  nothing raised : ExecutionResult
  placed : ExecutionOrder → ExecutionResult

abbrev pub daily_pnl : AccountSnapshot → ℤ
daily_pnl a = elim a.previous_close_equity [
  | none ↦ pos 0
  | some before ↦ pos a.equity -ℤ pos before
]

abbrev pub holds : Text → List PositionSnapshot → Bool
holds symbol [] = false
holds symbol (p ∷ ps) = text_eq p.symbol symbol || holds symbol ps

abbrev pub gross_value : List PositionSnapshot → ℕ
gross_value [] = 0
gross_value (p ∷ ps) = abs p.market_value + gross_value ps

-- An average of true ranges, in units of the amounts over the denominator.
pub record AverageTrueRange : Type 0 where
  pub numerator : ℕ
  pub denominator : ℕ

-- An amount has at most 8 decimal places and 10 digits before them.
abbrev pub fits_amount : ℕ → Bool
fits_amount n = ltb n 1_000_000_000_000_000_000

abbrev pub is_valid_atr : AverageTrueRange → Bool
is_valid_atr a =
    ltb 0 a.numerator
    && a.numerator % a.denominator == 0
    && fits_amount (a.numerator / a.denominator)

unfoldable pub order_side : StrategyDirection → OrderSide
order_side d = if is_buy d then buy_side else sell_side

abbrev pub is_exit : StrategyDirection → Bool
is_exit exit = true
is_exit buy = false
is_exit sell = false
is_exit hold = false

module _ (broker : Broker) where
  -- `portfolio`
  unfoldable pub portfolio :
      ExecutionState → (AccountSnapshot × List PositionSnapshot) × ExecutionState
  portfolio s =
      let snapshot : AccountSnapshot × List PositionSnapshot =
        (broker.account s.calls, broker.positions s.calls) in
      (snapshot, record s { portfolios = snapshot ∷ s.portfolios })

  -- `risk_context`; `none` is the error of a context that fails its validation.
  unfoldable pub risk_context :
      ℕ → AverageTrueRange → Text → ExecutionState → Option RiskContext × ExecutionState
  unfolding portfolio
  risk_context entry_price atr symbol s =
      let ((account, positions), s') = portfolio s in
      let held = holds symbol positions in
      let cash = min account.cash account.buying_power in
      (
        if is_valid_atr atr
              && ltb 0 entry_price
              && fits_amount entry_price
              && ltb 0 account.equity
              && fits_amount account.equity
              && fits_amount cash
              && fits_amount (gross_value positions)
            then some (record {
              entry_price = entry_price;
              atr = atr.numerator / atr.denominator;
              account_equity = account.equity;
              daily_realized_pnl = daily_pnl account;
              consecutive_losses = 0;
              available_cash = cash;
              gross_exposure = gross_value positions;
              open_positions = length positions;
              has_open_position = held;
              would_average_down = held;
            })
            else none,
        s',
      )

  -- From the reservation on: one call at the broker, and the record of its answer.
  unfoldable pub send_once : BrokerCall → ExecutionState → ExecutionResult × ExecutionState
  unfolding portfolio
  send_once call s =
      let sent = record s { reserved = call_id call ∷ s.reserved; calls = call ∷ s.calls } in
      if includes s.reserved (call_id call)
      then (nothing, s)
      else elim (broker.answer s.calls call) [
        | none ↦ (raised, sent)
        | some order ↦ (placed order, (portfolio (record sent { orders = order ∷ s.orders })).1)
      ]

module _ (broker : Broker) (digest : OrderKey → Text) where
  abbrev pub entry_request : RiskManagedSignal → OrderRequest
  entry_request signal = record {
    client_order_id = digest (record {
      symbol = signal.symbol;
      timestamp = signal.timestamp;
      strategy = signal.strategy;
      direction = signal.direction;
    });
    symbol = signal.symbol;
    quantity = signal.position_size;
    side = order_side signal.direction;
  }

  unfoldable pub execute_entry :
      RiskManagedSignal → ExecutionState → ExecutionResult × ExecutionState
  unfolding send_once order_side
  execute_entry signal s =
      if s.place_orders_automatically
      then send_once broker (submit_market_order (entry_request signal)) s
      else (nothing, s)

  abbrev pub exit_call : StrategySignalIntent → BrokerCall
  exit_call intent = close_position intent.symbol (
      digest (record {
        symbol = intent.symbol;
        timestamp = intent.timestamp;
        strategy = intent.strategy;
        direction = intent.direction;
      }))

  unfoldable pub execute_exit :
      StrategySignalIntent → ExecutionState → ExecutionResult × ExecutionState
  unfolding send_once portfolio
  execute_exit intent s =
      let ((account, positions), s') = portfolio broker s in
      if not (s.place_orders_automatically && is_exit intent.direction)
      then (nothing, s)
      else if holds intent.symbol positions
      then send_once broker (exit_call intent) s'
      else (nothing, s')

-- The switch of `configure_runtime`; the mode of the broker is kept by the container.
unfoldable pub configure_runtime : Bool → ExecutionState → ExecutionState
configure_runtime place_orders s = record s { place_orders_automatically = place_orders }

pub data ExecutionEvent : Type 0 where
  entry_approved : RiskManagedSignal → ExecutionEvent
  exit_signalled : StrategySignalIntent → ExecutionEvent
  runtime_configured : Bool → ExecutionEvent

unfoldable pub execution_step :
    Broker → (OrderKey → Text) → ExecutionState → ExecutionEvent → ExecutionState
execution_step broker digest s (entry_approved signal) = (execute_entry broker digest signal s).1
execution_step broker digest s (exit_signalled intent) = (execute_exit broker digest intent s).1
execution_step broker digest s (runtime_configured b) = configure_runtime b s

unfoldable pub execution_run :
    Broker → (OrderKey → Text) → ExecutionState → List ExecutionEvent → ExecutionState
execution_run broker digest s [] = s
execution_run broker digest s (e ∷ es) =
    execution_run broker digest (execution_step broker digest s e) es

-- A service whose store is empty.
abbrev pub new_execution : Bool → ExecutionState
new_execution place_orders = record {
  place_orders_automatically = place_orders;
  calls = [];
  reserved = [];
  orders = [];
  portfolios = [];
}
