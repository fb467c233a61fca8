-- ===== src/Trading/Execution/Once.antt =====
-- No order id reaches the broker twice.
use algo_trading_system.Prelude.{
  ◌≡◌, inl, inr, refl, Bool, true, false, ◌&&◌, not, List, [], ◌∷◌, map, arith, Bool-cases,
  Option-cases, All, All-mono,
}
use algo_trading_system.Prelude.Texts.{Text, text_eq_iff, text_eq_refl, includes}
use algo_trading_system.ControlPlane.{all_distinct}
use algo_trading_system.Trading.{StrategySignalIntent}
use algo_trading_system.Trading.Risk.{RiskManagedSignal}
use algo_trading_system.Trading.Execution.{
  BrokerCall, call_id, submit_market_order, Broker, OrderKey, ExecutionState, portfolio, send_once,
  entry_request, execute_entry, exit_call, is_exit, holds, execute_exit, configure_runtime,
  ExecutionEvent, entry_approved, exit_signalled, runtime_configured, execution_step, execution_run,
  new_execution,
}

abbrev IsReserved : List Text → BrokerCall → Type 0
IsReserved reserved call = includes reserved (call_id call) ≡ true

-- Every call has an id of its own, which is reserved.
pub record IsOnce (calls : List BrokerCall) (reserved : List Text) : Type 0 where
  pub distinct : all_distinct (map call_id calls) ≡ true
  pub covered : All (λ call. includes reserved (call_id call) ≡ true) calls

fresh_id :
    (calls : List BrokerCall) (reserved : List Text) (id : Text)
    → All (IsReserved reserved) calls
    → includes reserved id ≡ false
    → includes (map call_id calls) id ≡ false
unfolding includes
fresh_id [] reserved id h e = refl
fresh_id (call ∷ calls) reserved id h e =
    ground (arith, fresh_id calls reserved id h.1, text_eq_iff (call_id call) id)

IsOnce-cons :
    (calls : List BrokerCall) (reserved : List Text) (call : BrokerCall)
    → includes reserved (call_id call) ≡ false
    → IsOnce calls reserved
    → IsOnce (call ∷ calls) (call_id call ∷ reserved)
unfolding all_distinct includes
IsOnce-cons calls reserved call e h = record {
  distinct = rw (fresh_id calls reserved (call_id call) h.covered e, h.distinct) refl;
  covered =
      (rw (text_eq_refl (call_id call)) refl, All-mono _ _ calls (λ c k. ground arith) h.covered);
}

module _ (broker : Broker) (digest : OrderKey → Text) where
  send_once-IsOnce :
      (call : BrokerCall) (s : ExecutionState)
      → IsOnce s.calls s.reserved
      → let t = (send_once broker call s).1 in IsOnce t.calls t.reserved
  unfolding send_once portfolio
  send_once-IsOnce call s h = elim (Bool-cases (includes s.reserved (call_id call))) [
    | inl e ↦ rw (e, send_once) h
    | inr e ↦ elim (Option-cases (broker.answer s.calls call)) [
      | inl a ↦ rw (e, a, send_once) (IsOnce-cons s.calls s.reserved call e h)
      | inr (order, a) ↦ rw (e, a, send_once) (IsOnce-cons s.calls s.reserved call e h)
    ]
  ]

  pub execute_entry-IsOnce :
      (signal : RiskManagedSignal) (s : ExecutionState)
      → IsOnce s.calls s.reserved
      → let t = (execute_entry broker digest signal s).1 in IsOnce t.calls t.reserved
  unfolding execute_entry
  execute_entry-IsOnce signal s h = elim (Bool-cases s.place_orders_automatically) [
    | inl e ↦
        simp e (send_once-IsOnce (submit_market_order (entry_request broker digest signal)) s h)
    | inr e ↦ simp e h
  ]

  pub execute_exit-IsOnce :
      (intent : StrategySignalIntent) (s : ExecutionState)
      → IsOnce s.calls s.reserved
      → let t = (execute_exit broker digest intent s).1 in IsOnce t.calls t.reserved
  unfolding execute_exit portfolio
  execute_exit-IsOnce intent s h =
      elim (Bool-cases (not (s.place_orders_automatically && is_exit intent.direction))) [
        | inl e ↦ rw (e, execute_exit) h
        | inr e ↦ elim (Bool-cases (holds intent.symbol (broker.positions s.calls))) [
          | inl k ↦ rw (e, k, execute_exit) (send_once-IsOnce (exit_call broker digest intent) _ h)
          | inr k ↦ rw (e, k, execute_exit) h
        ]
      ]

  execution_step-IsOnce :
      (s : ExecutionState) (e : ExecutionEvent)
      → IsOnce s.calls s.reserved
      → let t = execution_step broker digest s e in IsOnce t.calls t.reserved
  unfolding execution_step configure_runtime
  execution_step-IsOnce s (entry_approved signal) h = execute_entry-IsOnce signal s h
  execution_step-IsOnce s (exit_signalled intent) h = execute_exit-IsOnce intent s h
  execution_step-IsOnce s (runtime_configured b) h = h

  execution_run-IsOnce_from :
      (s : ExecutionState) (es : List ExecutionEvent)
      → IsOnce s.calls s.reserved
      → let t = execution_run broker digest s es in IsOnce t.calls t.reserved
  unfolding execution_run
  execution_run-IsOnce_from s [] h = h
  execution_run-IsOnce_from s (e ∷ es) h =
      execution_run-IsOnce_from (execution_step broker digest s e) es (execution_step-IsOnce s e h)

-- Through any sequence of approved entries, exits and switches of the automation, whatever the broker
-- answers and whichever calls fail, no order id reaches the broker twice, and every id that has reached
-- it stays reserved.
pub execution_run-IsOnce :
    (broker : Broker) (digest : OrderKey → Text) (place_orders : Bool) (es : List ExecutionEvent)
    → let t = execution_run broker digest (new_execution place_orders) es in
      IsOnce t.calls t.reserved
unfolding all_distinct
execution_run-IsOnce broker digest place_orders es =
    execution_run-IsOnce_from broker digest (new_execution place_orders) es
      (record { distinct = refl; covered = tt })
