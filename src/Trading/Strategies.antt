-- ===== src/Trading/Strategies.antt =====
-- strategies/contracts.py, strategies/registry.py and strategies/engine.py.
--
-- A strategy is a record of its methods with the state of its instance, of a type that holds the state
-- of every plugin. A method that raises may have changed the state before. The lock runs dispatches
-- one after another, so a dispatch is one step. The type and the text of an exception, which only
-- go to a log, are left out of a failure.
pub mod Registered
pub mod Isolation
use algo_trading_system.Prelude.{
  ℕ, Bool, true, false, List, [], ◌∷◌, ◌++◌, Option, none, some, not, if◌then◌else◌,
}
use algo_trading_system.Prelude.Texts.{Text, text_eq}
use algo_trading_system.Prelude.TextMaps.{TextMap, find}
use algo_trading_system.MarketData.{MarketTick}
use algo_trading_system.MarketData.CandleEngine.{Candle}
use algo_trading_system.Trading.{StrategySignalIntent}

-- A method answers `true` when it returns, and `generate_signal` answers `none` when it raises.
pub record Strategy {ℓ} (S : Type ℓ) : Type ℓ where
  pub name : Text
  pub state : S
  pub initialize : S → Bool × S
  pub on_tick : MarketTick → S → Bool × S
  pub on_candle : Candle → S → Bool × S
  pub generate_signal : S → Option (Option StrategySignalIntent) × S
  pub reset : S → Bool × S

pub data FailureCause : Type 0 where
  plugin_error attribution_mismatch symbol_mismatch : FailureCause

pub record StrategyFailure : Type 0 where
  pub strategy : Text
  pub cause : FailureCause

pub record StrategyDispatchResult : Type 0 where
  pub intents : List StrategySignalIntent
  pub failures : List StrategyFailure

pub data RegistryError : Type 0 where
  blank_name duplicate_strategy : RegistryError

pub data LifecycleOutcome : Type 0 where
  started rolled_back reset_failed : LifecycleOutcome

module _ {ℓ} {S : Type ℓ} where
  abbrev pub run_method : (S → Bool × S) → Strategy S → Bool × Strategy S
  run_method method p =
      let (returned, state) = method p.state in (returned, record p { state = state })

  -- `StrategyRegistry.register` with the stripped name
  unfoldable pub register_as :
      Text → Strategy S → TextMap (Strategy S) → Option RegistryError × TextMap (Strategy S)
  register_as [] p registry = (some blank_name, registry)
  register_as (c ∷ cs) p registry = elim (find (c ∷ cs) registry) [
    | none ↦ (none, registry ++ (c ∷ cs, p) ∷ [])
    | some q ↦ (some duplicate_strategy, registry)
  ]

  unfoldable pub register :
      (Text → Text)
      → Strategy S
      → TextMap (Strategy S)
      → Option RegistryError × TextMap (Strategy S)
  unfolding register_as
  register strip p registry = register_as (strip p.name) p registry

  abbrev pub all_strategies : TextMap (Strategy S) → List (Strategy S)
  all_strategies [] = []
  all_strategies ((name, p) ∷ m) = p ∷ all_strategies m

  -- What the rest of a start means for a strategy that had started before it: the strategies are reset
  -- from the last back, and a reset that raises ends that.
  abbrev pub settle_start :
      Strategy S → LifecycleOutcome × List (Strategy S) → LifecycleOutcome × List (Strategy S)
  settle_start p (started, ps) = (started, p ∷ ps)
  settle_start p (rolled_back, ps) =
      let (returned, q) = run_method p.reset p in
      (if returned then rolled_back else reset_failed, q ∷ ps)
  settle_start p (reset_failed, ps) = (reset_failed, p ∷ ps)

  unfoldable pub start_strategies : List (Strategy S) → LifecycleOutcome × List (Strategy S)
  start_strategies [] = (started, [])
  start_strategies (p ∷ ps) =
      let rest = start_strategies ps in
      let (returned, q) = run_method p.initialize p in
      if returned then settle_start q rest else (rolled_back, q ∷ ps)

  -- `StrategyEngine.reset`: the strategies in turn, until one raises.
  unfoldable pub reset_strategies : List (Strategy S) → Bool × List (Strategy S)
  reset_strategies [] = (true, [])
  reset_strategies (p ∷ ps) =
      let (rest_returned, qs) = reset_strategies ps in
      let (returned, q) = run_method p.reset p in
      if returned then (rest_returned, q ∷ qs) else (false, q ∷ ps)

  abbrev pub fails : Strategy S → FailureCause → StrategyDispatchResult
  fails p cause = record {
    intents = [];
    failures = record { strategy = p.name; cause = cause } ∷ [];
  }

  -- What the dispatch makes of the answer of `generate_signal`.
  unfoldable pub judge :
      Text → Strategy S → Option (Option StrategySignalIntent) → StrategyDispatchResult
  judge symbol p none = fails p plugin_error
  judge symbol p (some none) = record { intents = []; failures = [] }
  judge symbol p (some (some intent)) =
      if not (text_eq intent.strategy p.name)
      then fails p attribution_mismatch
      else (if not (text_eq intent.symbol symbol)
          then fails p symbol_mismatch
          else record { intents = intent ∷ []; failures = [] })

  -- The turn of one strategy in a dispatch
  unfoldable pub take_turn :
      Text → (Strategy S → S → Bool × S) → Strategy S → StrategyDispatchResult × Strategy S
  unfolding judge
  take_turn symbol handler p =
      let (returned, handled) = run_method (handler p) p in
      let (answer, state) = p.generate_signal handled.state in
      if returned
      then (judge symbol p answer, record handled { state = state })
      else (fails p plugin_error, handled)

  unfoldable pub dispatch_strategies :
      Text
      → (Strategy S → S → Bool × S)
      → List (Strategy S)
      → StrategyDispatchResult × List (Strategy S)
  dispatch_strategies symbol handler [] = (record { intents = []; failures = [] }, [])
  dispatch_strategies symbol handler (p ∷ ps) =
      let (own, q) = take_turn symbol handler p in
      let (rest, qs) = dispatch_strategies symbol handler ps in
      (
        record { intents = own.intents ++ rest.intents; failures = own.failures ++ rest.failures },
        q ∷ qs,
      )

pub record StrategyEngine {ℓ} (S : Type ℓ) : Type ℓ where
  pub strategies : List (Strategy S)
  pub initialized : Bool

module _ {ℓ} {S : Type ℓ} where
  unfoldable pub initialize_engine : StrategyEngine S → LifecycleOutcome × StrategyEngine S
  unfolding start_strategies
  initialize_engine e =
      let (outcome, ps) = start_strategies e.strategies in
      if e.initialized then (started, e) else (
        outcome,
        record { strategies = ps; initialized = elim outcome [ started ↦ true | _ ↦ false ] },
      )

  unfoldable pub reset_engine : StrategyEngine S → Bool × StrategyEngine S
  unfolding reset_strategies
  reset_engine e =
      let (returned, ps) = reset_strategies e.strategies in
      (
        returned,
        record { strategies = ps; initialized = if returned then false else e.initialized },
      )

  -- `StrategyEngine._dispatch`; `none` is the `StrategyLifecycleError`.
  unfoldable pub dispatch :
      Text
      → (Strategy S → S → Bool × S)
      → StrategyEngine S
      → Option StrategyDispatchResult × StrategyEngine S
  unfolding dispatch_strategies
  dispatch symbol handler e =
      let (result, ps) = dispatch_strategies symbol handler e.strategies in
      if e.initialized then (some result, record e { strategies = ps }) else (none, e)

  abbrev pub dispatch_candle :
      Candle → StrategyEngine S → Option StrategyDispatchResult × StrategyEngine S
  dispatch_candle c e = dispatch c.symbol (λ p. p.on_candle c) e

  abbrev pub dispatch_tick :
      MarketTick → StrategyEngine S → Option StrategyDispatchResult × StrategyEngine S
  dispatch_tick t e = dispatch t.symbol (λ p. p.on_tick t) e
