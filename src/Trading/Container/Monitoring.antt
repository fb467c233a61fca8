-- ===== src/Trading/Container/Monitoring.antt =====
-- What the container runs after any sequence of configurations.
use algo_trading_system.Prelude.{
  ◌≡◌, refl, sym, ◌∙◌, Bool, true, false, ◌&&◌, not, List, [], ◌∷◌, arith, All,
}
use algo_trading_system.Prelude.Texts.{Text, text_eq_iff}
use algo_trading_system.ControlPlane.{
  is_live, TextRules, RuntimeTradingConfiguration, clean_symbols,
}
use algo_trading_system.Trading.Worker.{
  TradingPipelineWorker, is_empty, start_worker, stop_worker, unique, normalized, same_symbols,
  replace_symbols, reconfigure_worker,
}
use algo_trading_system.Trading.Container.{
  ApplicationContainer, active_symbols, stop_if, apply_trading_configuration, start_container,
  pipeline_ready, apply_all,
}

reconfigure_worker_stopped :
    (rules : TextRules) (symbols : List Text) (w : TradingPipelineWorker)
    → w.running ≡ false
    → (reconfigure_worker rules symbols w).running ≡ false
unfolding reconfigure_worker replace_symbols
reconfigure_worker_stopped rules symbols w e = ground arith

apply_stopped :
    (rules : TextRules) (c : RuntimeTradingConfiguration) (s : ApplicationContainer)
    → s.worker.running ≡ false
    → (apply_trading_configuration rules c s).worker.running ≡ false
unfolding apply_trading_configuration
apply_stopped rules c s e = simp e (reconfigure_worker_stopped rules (active_symbols c) s.worker e)

stop_if_stopped : (w : TradingPipelineWorker) → (stop_if w.running w).running ≡ false
unfolding stop_worker
stop_if_stopped w = ground arith

and_false : (b : Bool) → (b && false) ≡ false
and_false b = ground arith

apply_inactive :
    (rules : TextRules) (c : RuntimeTradingConfiguration) (s : ApplicationContainer)
    → active_symbols c ≡ []
    → (apply_trading_configuration rules c s).worker.running ≡ false
unfolding apply_trading_configuration
apply_inactive rules c s e =
    let stopped = stop_if_stopped s.worker in
    rw (e, and_false s.worker.running) (reconfigure_worker_stopped rules [] _ stopped)

apply_all_stopped :
    (rules : TextRules) (cs : List RuntimeTradingConfiguration) (s : ApplicationContainer)
    → s.worker.running ≡ false
    → (apply_all rules cs s).worker.running ≡ false
unfolding apply_all
apply_all_stopped rules [] s e = e
apply_all_stopped rules (c ∷ cs) s e =
    apply_all_stopped rules cs (apply_trading_configuration rules c s) (apply_stopped rules c s e)

-- Once a configuration that monitors nothing has been applied, because its monitoring is off or its
-- watchlist is empty, the pipeline stays stopped: whatever configurations are applied after it, and
-- although the last one monitors a symbol, the worker does not run and the pipeline is never ready.
pub monitoring_stays_off :
    (rules : TextRules) (s : ApplicationContainer) (off last : RuntimeTradingConfiguration)
    (cs : List RuntimeTradingConfiguration)
    → active_symbols off ≡ []
    → last.monitoring_enabled ≡ true
    → is_empty last.symbols ≡ false
    → ((apply_trading_configuration rules last
          (apply_all rules cs (apply_trading_configuration rules off s))).worker.running
        ≡ false)
      × (pipeline_ready last (
            apply_trading_configuration rules last
              (apply_all rules cs (apply_trading_configuration rules off s)))
          ≡ false)
monitoring_stays_off rules s off last cs e m n =
    let stopped =
      apply_stopped rules last (apply_all rules cs (apply_trading_configuration rules off s)) (
        apply_all_stopped rules cs (apply_trading_configuration rules off s)
          (apply_inactive rules off s e)) in
    (stopped, simp (m, n, stopped))

same_symbols_sound : (ss ts : List Text) → same_symbols ss ts ≡ true → ss ≡ ts
same_symbols_sound [] [] h = refl
same_symbols_sound [] (t ∷ ts) h = cc
same_symbols_sound (s ∷ ss) [] h = cc
same_symbols_sound (s ∷ ss) (t ∷ ts) h = ground (arith, text_eq_iff s t, same_symbols_sound ss ts)

-- The runtime is that of a configuration which it monitors.
pub record IsRunning (rules : TextRules) (c : RuntimeTradingConfiguration)
    (s : ApplicationContainer) : Type 0 where
  pub running : s.worker.running ≡ true
  pub symbols : s.worker.symbols ≡ normalized rules (active_symbols c)
  pub subscribed : s.worker.subscribed ≡ s.worker.symbols
  pub engines : s.engine_symbols ≡ c.symbols
  pub strategy : s.engine_strategy ≡ c.strategy
  pub risk_policy : s.risk_policy ≡ c.risk_policy
  pub orders : s.place_orders_automatically ≡ c.place_orders_automatically
  pub paper : s.is_paper ≡ not (is_live c.mode)

reconfigured_symbols :
    (rules : TextRules) (symbols : List Text) (w : TradingPipelineWorker)
    → w.running ≡ false
    → (reconfigure_worker rules symbols w).symbols ≡ normalized rules symbols
unfolding reconfigure_worker replace_symbols
reconfigured_symbols rules symbols w e =
    ground (arith, same_symbols_sound (normalized rules symbols) w.symbols)

started :
    (w : TradingPipelineWorker)
    → w.running ≡ false
    → is_empty w.symbols ≡ false
    → ((start_worker w).running ≡ true)
      × ((start_worker w).symbols ≡ w.symbols)
      × ((start_worker w).subscribed ≡ w.symbols)
unfolding start_worker
started w e n = ground arith

monitored :
    (rules : TextRules) (symbols : List Text)
    → is_empty (normalized rules symbols) ≡ false
    → is_empty symbols ≡ false
unfolding normalized unique clean_symbols
monitored rules [] n = cc
monitored rules (s ∷ ss) n = refl

-- Reconfiguring a stopped worker and starting it.
restarted :
    (rules : TextRules) (symbols : List Text) (w : TradingPipelineWorker)
    → w.running ≡ false
    → is_empty (normalized rules symbols) ≡ false
    → let v = start_worker (reconfigure_worker rules symbols w) in
      (v.running ≡ true) × (v.symbols ≡ normalized rules symbols) × (v.subscribed ≡ v.symbols)
restarted rules symbols w e n =
    let same = reconfigured_symbols rules symbols w e in
    let r =
      started (reconfigure_worker rules symbols w) (reconfigure_worker_stopped rules symbols w e)
        (rw same n) in
    (r.0, r.1 ∙ same, r.2 ∙ sym r.1)

-- A configuration that monitors at least one symbol, applied while the worker runs.
apply-IsRunning :
    (rules : TextRules) (c : RuntimeTradingConfiguration) (s : ApplicationContainer)
    → s.worker.running ≡ true
    → is_empty (normalized rules (active_symbols c)) ≡ false
    → IsRunning rules c (apply_trading_configuration rules c s)
unfolding apply_trading_configuration
apply-IsRunning rules c s e n =
    let again =
      restarted rules (active_symbols c) (stop_if s.worker.running s.worker)
        (stop_if_stopped s.worker) n in
    let test : (s.worker.running && not (is_empty (active_symbols c))) ≡ true =
      ground (arith, monitored rules (active_symbols c) n) in
    rw test (record {
      running = again.0;
      symbols = again.1;
      subscribed = again.2;
      engines = refl;
      strategy = refl;
      risk_policy = refl;
      orders = refl;
      paper = refl;
    })

start-IsRunning :
    (rules : TextRules) (c : RuntimeTradingConfiguration) (s : ApplicationContainer)
    → s.worker.running ≡ false
    → is_empty (normalized rules (active_symbols c)) ≡ false
    → IsRunning rules c (start_container rules c s)
unfolding start_container apply_trading_configuration
start-IsRunning rules c s e n =
    let again = restarted rules (active_symbols c) s.worker e n in
    simp e (record {
      running = again.0;
      symbols = again.1;
      subscribed = again.2;
      engines = refl;
      strategy = refl;
      risk_policy = refl;
      orders = refl;
      paper = refl;
    })

apply_all_running :
    (rules : TextRules) (cs : List RuntimeTradingConfiguration) (s : ApplicationContainer)
    → s.worker.running ≡ true
    → All (λ c. is_empty (normalized rules (active_symbols c)) ≡ false) cs
    → (apply_all rules cs s).worker.running ≡ true
unfolding apply_all
apply_all_running rules [] s e h = e
apply_all_running rules (c ∷ cs) s e h =
    apply_all_running rules cs (apply_trading_configuration rules c s)
      (apply-IsRunning rules c s e h.0).running h.1

-- A container that is started with a configuration which monitors a symbol, and to which any
-- configurations are applied then that each monitor a symbol, runs the last of them: its worker runs
-- and is subscribed to the monitored symbols, there is a strategy engine for every symbol, and the
-- strategy, the risk policy, the order switch and the mode are those of that configuration.
pub apply_all-IsRunning :
    (rules : TextRules) (first last : RuntimeTradingConfiguration)
    (cs : List RuntimeTradingConfiguration) (s : ApplicationContainer)
    → s.worker.running ≡ false
    → All (λ c. is_empty (normalized rules (active_symbols c)) ≡ false) (first ∷ last ∷ cs)
    → IsRunning rules last (
        apply_trading_configuration rules last (apply_all rules cs (start_container rules first s)))
apply_all-IsRunning rules first last cs s e h =
    apply-IsRunning rules last (apply_all rules cs (start_container rules first s))
      (apply_all_running rules cs (start_container rules first s)
        (start-IsRunning rules first s e h.0).running h.1.1)
      h.1.0
