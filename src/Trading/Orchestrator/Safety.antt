-- ===== src/Trading/Orchestrator/Safety.antt =====
-- What the orchestrator may send to the broker for one intent.
use algo_trading_system.Prelude.{
  ℕ, ◌≡◌, ◌⊎◌, inl, inr, refl, ap, ◌∙◌, sym, true, ◌&&◌, not, List, ◌∷◌, Option, none, some, arith,
  Bool-cases, Option-cases, subst,
}
use algo_trading_system.Prelude.Texts.{Text, includes}
use algo_trading_system.ControlPlane.{RiskPolicy}
use algo_trading_system.Trading.{StrategyDirection, buy, sell, exit, hold, StrategySignalIntent}
use algo_trading_system.Trading.Risk.{
  RiskContext, RiskManagedSignal, RiskDecision, approved, rejected, not_applicable, invalid,
  evaluate,
}
use algo_trading_system.Trading.Risk.Limits.{Brackets, IsWithinLimits, evaluate_approved}
use algo_trading_system.Trading.Execution.{
  BrokerCall, call_id, submit_market_order, close_position, OrderSide, buy_side, sell_side,
  OrderRequest, order_side, Broker, OrderKey, ExecutionState, AverageTrueRange, portfolio,
  risk_context, send_once, entry_request, execute_entry, exit_call, is_exit, holds, execute_exit,
}
use algo_trading_system.Trading.Orchestrator.{
  TradingState, decide, enter, enter_if_ready, by_direction, handle_intent,
}

-- One call at most.
abbrev IsSent : List BrokerCall → BrokerCall → List BrokerCall → Type 0
IsSent before call after = (after ≡ before) ⊎ (after ≡ call ∷ before)

send_once-calls :
    (broker : Broker) (call : BrokerCall) (s : ExecutionState)
    → IsSent s.calls call (send_once broker call s).1.calls
unfolding send_once portfolio
send_once-calls broker call s = elim (Bool-cases (includes s.reserved (call_id call))) [
  | inl e ↦ rw (e, send_once) (inl refl)
  | inr e ↦ elim (Option-cases (broker.answer s.calls call)) [
    | inl a ↦ rw (e, a, send_once) (inr refl)
    | inr (order, a) ↦ rw (e, a, send_once) (inr refl)
  ]
]

-- The side of the order that opens a position in a direction.
pub data IsSideOf : StrategyDirection → OrderSide → Type 0 where
  buys : IsSideOf buy buy_side
  sells : IsSideOf sell sell_side

-- The order for a signal: as many shares as the signal has, of the symbol of the intent, on the side of
-- its direction, under the digest of the intent.
pub record IsOrderFor (digest : OrderKey → Text) (intent : StrategySignalIntent)
    (signal : RiskManagedSignal) (request : OrderRequest) : Type 0 where
  pub symbol : request.symbol ≡ intent.symbol
  pub quantity : request.quantity ≡ signal.position_size
  pub side : IsSideOf intent.direction request.side
  pub client_order_id :
      request.client_order_id
      ≡ digest (record {
        symbol = intent.symbol;
        timestamp = intent.timestamp;
        strategy = intent.strategy;
        direction = intent.direction;
      })

module _ (broker : Broker) (digest : OrderKey → Text) where
  -- What an intent may change at the broker: nothing; with the automation on, the closing of a position
  -- that is held, for an exit; or, with the automation on, the order for a signal of the intent that is
  -- within the limits.
  pub data IsSafe (policy : RiskPolicy) (intent : StrategySignalIntent) (close : ℕ)
      (atr : Option AverageTrueRange) (s : ExecutionState) : List BrokerCall → Type 0 where
    nothing_sent :
        (after : List BrokerCall) → after ≡ s.calls → IsSafe policy intent close atr s after
    position_closed :
        (after : List BrokerCall)
        → s.place_orders_automatically ≡ true
        → intent.direction ≡ exit
        → holds intent.symbol (broker.positions s.calls) ≡ true
        → after
          ≡ close_position intent.symbol (
              digest (record {
                symbol = intent.symbol;
                timestamp = intent.timestamp;
                strategy = intent.strategy;
                direction = intent.direction;
              }))
            ∷ s.calls
        → IsSafe policy intent close atr s after
    entry_ordered :
        (after : List BrokerCall) (a : AverageTrueRange) (c : RiskContext)
        (signal : RiskManagedSignal) (request : OrderRequest)
        → s.place_orders_automatically ≡ true
        → atr ≡ some a
        → (risk_context broker close a intent.symbol s).0 ≡ some c
        → IsWithinLimits policy intent c signal
        → IsOrderFor digest intent signal request
        → after ≡ submit_market_order request ∷ s.calls
        → IsSafe policy intent close atr s after

  side-order_side :
      (d : StrategyDirection) (s : RiskManagedSignal) → Brackets d s → IsSideOf d (order_side d)
  unfolding order_side
  side-order_side buy s b = buys
  side-order_side sell s b = sells
  side-order_side exit s b = absurd b
  side-order_side hold s b = absurd b

  -- The order that the service makes of a signal within the limits is the one for it.
  entry_request-IsOrderFor :
      (policy : RiskPolicy) (intent : StrategySignalIntent) (c : RiskContext)
      (signal : RiskManagedSignal)
      → IsWithinLimits policy intent c signal
      → IsOrderFor digest intent signal (entry_request broker digest signal)
  entry_request-IsOrderFor policy intent c signal w = record {
    symbol = w.symbol;
    quantity = refl;
    side =
        subst (λ d. IsSideOf d (order_side signal.direction)) w.direction
          (side-order_side signal.direction signal w.prices);
    client_order_id = rw (w.symbol, w.timestamp, w.strategy, w.direction) refl;
  }

  execute_entry-IsSent :
      (signal : RiskManagedSignal) (s : ExecutionState)
      → let after = (execute_entry broker digest signal s).1.calls in
        (after ≡ s.calls)
        ⊎ ((s.place_orders_automatically ≡ true)
            × (after ≡ submit_market_order (entry_request broker digest signal) ∷ s.calls))
  unfolding execute_entry
  execute_entry-IsSent signal s = elim (Bool-cases s.place_orders_automatically) [
    | inl e ↦
        simp e
          (elim (send_once-calls broker (submit_market_order (entry_request broker digest signal))
            s) [ inl h ↦ inl h | inr h ↦ inr (refl, h) ])
    | inr e ↦ simp e (inl refl)
  ]

  exits : (d : StrategyDirection) → is_exit d ≡ true → d ≡ exit
  exits exit h = refl
  exits d h = cc

  execute_exit-IsSafe :
      (policy : RiskPolicy) (intent : StrategySignalIntent) (close : ℕ)
      (atr : Option AverageTrueRange) (s : ExecutionState)
      → IsSafe policy intent close atr s (execute_exit broker digest intent s).1.calls
  unfolding execute_exit portfolio
  execute_exit-IsSafe policy intent close atr s =
      elim (Bool-cases (not (s.place_orders_automatically && is_exit intent.direction))) [
        | inl e ↦ rw (e, execute_exit) (nothing_sent _ refl)
        | inr e ↦ elim (Bool-cases (holds intent.symbol (broker.positions s.calls))) [
          | inl k ↦
              rw (e, k, execute_exit)
                (elim (send_once-calls broker (exit_call broker digest intent)
                  (portfolio broker s).1) [
                    | inl h ↦ nothing_sent _ h
                    | inr h ↦
                        position_closed _ (ground arith) (exits intent.direction (ground arith)) k h
                  ])
          | inr k ↦ rw (e, k, execute_exit) (nothing_sent _ refl)
        ]
      ]

  decide-IsSafe :
      (policy : RiskPolicy) (intent : StrategySignalIntent) (close : ℕ) (a : AverageTrueRange)
      (c : RiskContext) (s : TradingState) (before : ExecutionState) (d : RiskDecision)
      → s.execution.calls ≡ before.calls
      → s.execution.place_orders_automatically ≡ before.place_orders_automatically
      → (risk_context broker close a intent.symbol before).0 ≡ some c
      → evaluate policy intent c ≡ d
      → IsSafe policy intent close (some a) before (decide broker digest d s).1.execution.calls
  unfolding decide
  decide-IsSafe policy intent close a c s before (approved signal) e p r h =
      elim (execute_entry-IsSent signal s.execution) [
        | inl k ↦ nothing_sent _ (k ∙ e)
        | inr (on, k) ↦
            let within = evaluate_approved policy intent c signal h in
            entry_ordered _ a c signal (entry_request broker digest signal) (sym p ∙ on) refl r
              within (entry_request-IsOrderFor policy intent c signal within)
              (k ∙ ap (λ t. submit_market_order (entry_request broker digest signal) ∷ t) e)
      ]
  decide-IsSafe policy intent close a c s before (rejected reason) e p r h = nothing_sent _ e
  decide-IsSafe policy intent close a c s before not_applicable e p r h = nothing_sent _ e
  decide-IsSafe policy intent close a c s before invalid e p r h = nothing_sent _ e

  enter-IsSafe :
      (policy : RiskPolicy) (intent : StrategySignalIntent) (close : ℕ) (a : AverageTrueRange)
      (s : TradingState)
      → IsSafe policy intent close
          (some a)
          s.execution
          (enter broker digest policy intent close a s).1.execution.calls
  unfolding enter risk_context portfolio
  enter-IsSafe policy intent close a s =
      elim (Option-cases (risk_context broker close a intent.symbol s.execution).0) [
        | inl e ↦ rw (e, enter) (nothing_sent _ refl)
        | inr (c, e) ↦
            rw (e, enter) (decide-IsSafe policy intent close a c _ s.execution _ refl refl e refl)
      ]

  enter_if_ready-IsSafe :
      (policy : RiskPolicy) (intent : StrategySignalIntent) (close : ℕ)
      (atr : Option AverageTrueRange) (s : TradingState)
      → IsSafe policy intent close atr s.execution
          (enter_if_ready broker digest policy intent close atr s).1.execution.calls
  enter_if_ready-IsSafe policy intent close none s = nothing_sent _ refl
  enter_if_ready-IsSafe policy intent close (some a) s = enter-IsSafe policy intent close a s

  by_direction-IsSafe :
      (d : StrategyDirection) (policy : RiskPolicy) (intent : StrategySignalIntent) (close : ℕ)
      (atr : Option AverageTrueRange) (s : TradingState)
      → IsSafe policy intent close atr s.execution
          (by_direction broker digest d policy intent close atr s).1.execution.calls
  by_direction-IsSafe hold policy intent close atr s = nothing_sent _ refl
  by_direction-IsSafe exit policy intent close atr s =
      execute_exit-IsSafe policy intent close atr s.execution
  by_direction-IsSafe buy policy intent close atr s =
      enter_if_ready-IsSafe policy intent close atr s
  by_direction-IsSafe sell policy intent close atr s =
      enter_if_ready-IsSafe policy intent close atr s

  -- Handling an intent makes at most one call at the broker, and none while the automation is off. An
  -- exit closes the position in its symbol, and only if one is held, under the digest of the intent. A
  -- buy or sell, with an average true range at hand, orders on its side as many shares of its symbol as
  -- a signal of that intent has, under the digest of the intent; that signal is within the limits of the
  -- policy for the risk context of that moment.
  pub handle_intent-IsSafe :
      (policy : RiskPolicy) (intent : StrategySignalIntent) (close : ℕ)
      (atr : Option AverageTrueRange) (s : TradingState)
      → IsSafe policy intent close atr s.execution
          (handle_intent broker digest policy intent close atr s).1.execution.calls
  unfolding handle_intent
  handle_intent-IsSafe policy intent close atr s =
      by_direction-IsSafe intent.direction policy intent close atr s
