-- ===== src/Trading/Strategies/Isolation.antt =====
-- A dispatch gives every strategy a turn of its own, whatever the others do.
use mathlib.Core.List.{append_assoc}
use algo_trading_system.Prelude.{
  ◌≡◌, refl, ap, Bool, true, List, [], ◌∷◌, ◌++◌, Option, none, some, Bool-cases, inl, inr,
}
use algo_trading_system.Prelude.Texts.{Text, text_eq, text_eq_iff}
use algo_trading_system.Trading.{StrategySignalIntent}
use algo_trading_system.Trading.Strategies.{
  Strategy, StrategyFailure, StrategyDispatchResult, judge, take_turn, dispatch_strategies,
  dispatch,
}

-- What one strategy may give in a dispatch: nothing, one intent that names it and the symbol of the
-- event, or one failure that names it.
pub data IsTurn (symbol name : Text) : StrategyDispatchResult → Type 0 where
  silent : IsTurn symbol name (record { intents = []; failures = [] })
  intends :
      (i : StrategySignalIntent)
      → i.strategy ≡ name
      → i.symbol ≡ symbol
      → IsTurn symbol name (record { intents = i ∷ []; failures = [] })
  failing :
      (f : StrategyFailure)
      → f.strategy ≡ name
      → IsTurn symbol name (record { intents = []; failures = f ∷ [] })

module _ {ℓ} {S : Type ℓ} where
  judge-IsTurn :
      (symbol : Text) (p : Strategy S) (o : Option (Option StrategySignalIntent))
      → IsTurn symbol p.name (judge symbol p o)
  unfolding judge
  judge-IsTurn symbol p none = failing _ refl
  judge-IsTurn symbol p (some none) = silent
  judge-IsTurn symbol p (some (some i)) = elim (Bool-cases (text_eq i.strategy p.name)) [
    | inl own ↦ elim (Bool-cases (text_eq i.symbol symbol)) [
      | inl same ↦ rw (own, same) (intends i ((text_eq_iff _ _).0 own) ((text_eq_iff _ _).0 same))
      | inr other ↦ rw (own, other) (failing _ refl)
    ]
    | inr foreign ↦ rw foreign (failing _ refl)
  ]

  take_turn-IsTurn :
      (symbol : Text) (handler : Strategy S → S → Bool × S) (p : Strategy S)
      → IsTurn symbol p.name (take_turn symbol handler p).0
  unfolding take_turn
  take_turn-IsTurn symbol handler p = elim (Bool-cases (handler p p.state).0) [
    | inl returned ↦ rw (returned, take_turn) (judge-IsTurn symbol p _)
    | inr raised ↦ rw (raised, take_turn) (failing _ refl)
  ]

  dispatch_strategies-append :
      (symbol : Text) (handler : Strategy S → S → Bool × S) (ps qs : List (Strategy S))
      → let a = dispatch_strategies symbol handler ps in
        let b = dispatch_strategies symbol handler qs in
        dispatch_strategies symbol handler (ps ++ qs) ≡ (
          record { intents = a.0.intents ++ b.0.intents; failures = a.0.failures ++ b.0.failures },
          a.1 ++ b.1,
        )
  unfolding dispatch_strategies
  dispatch_strategies-append symbol handler [] qs = refl
  dispatch_strategies-append symbol handler (p ∷ ps) qs =
      rw (dispatch_strategies-append symbol handler ps qs, append_assoc, append_assoc) refl

  -- In a dispatch of a started engine each strategy has a turn of its own, which gives nothing, one
  -- intent in its name and for the symbol of the event, or one failure: whatever the strategies before
  -- and behind it do, the intents and the failures of the others and their new states are those of a
  -- dispatch without it, with its own turn in between.
  pub dispatch-IsIsolated :
      (symbol : Text) (handler : Strategy S → S → Bool × S) (ps qs : List (Strategy S))
      (p : Strategy S)
      → let a = dispatch_strategies symbol handler ps in
        let b = dispatch_strategies symbol handler qs in
        let own = take_turn symbol handler p in
        (dispatch symbol handler (record { strategies = ps ++ p ∷ qs; initialized = true }) ≡ (
          some (record {
            intents = a.0.intents ++ (own.0.intents ++ b.0.intents);
            failures = a.0.failures ++ (own.0.failures ++ b.0.failures);
          }),
          record { strategies = a.1 ++ own.1 ∷ b.1; initialized = true },
        ))
        × IsTurn symbol p.name own.0
  unfolding dispatch dispatch_strategies
  dispatch-IsIsolated symbol handler ps qs p = (
    ap (λ d. (some d.0, record { strategies = d.1; initialized = true }))
        (dispatch_strategies-append symbol handler ps (p ∷ qs)),
    take_turn-IsTurn symbol handler p,
  )
