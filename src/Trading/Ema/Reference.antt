-- ===== src/Trading/Ema/Reference.antt =====
-- The strategy computes the averages of the closes of the candles it took, and nothing else.
use algo_trading_system.Prelude.{
  ℕ, suc, ◌≡◌, refl, ap, ◌∙◌, true, false, List, [], ◌∷◌, Option, none, some, Bool-cases, inl, inr,
  if◌then◌else◌, length,
}
use algo_trading_system.Prelude.Texts.{Text}
use algo_trading_system.MarketData.CandleEngine.{Candle}
use algo_trading_system.Trading.{StrategySignalIntent}
use algo_trading_system.Trading.Ema.{
  Decimals, EmaCrossoverSettings, EmaState, no_history, next_ema, is_skipped, intent_for,
  ema_on_candle, ema_generate_signal,
}

-- The end of the newest of the candles taken, newest first.
abbrev pub last_end : List Candle → Option ℕ
last_end [] = none
last_end (c ∷ h) = some c.end_at

module _ {ℓ} {D : Type ℓ} (d : Decimals D) (str : ℕ → Text)
    (settings : EmaCrossoverSettings D) where
  -- The exponential average of the closes, by recursion from the oldest.
  unfoldable pub average_of : ℕ → List Candle → Option D
  average_of period [] = none
  average_of period (c ∷ h) = some (next_ema d str settings (average_of period h) c.close period)

  abbrev pub spread_at : Candle → List Candle → D
  spread_at c h =
      d.minus
        (next_ema d str settings (average_of settings.fast_period h) c.close settings.fast_period)
        (next_ema d str settings (average_of settings.slow_period h) c.close settings.slow_period)

  unfoldable pub spread_of : List Candle → Option D
  unfolding average_of
  spread_of [] = none
  spread_of (c ∷ h) = some (spread_at c h)

  -- The decision that the candles taken up to `c` call for.
  unfoldable pub decision : Candle → List Candle → StrategySignalIntent
  unfolding spread_of
  decision c h = intent_for d str settings c (suc (length h)) (spread_of h) (spread_at c h)

  -- The candles that the strategy takes: newest first.
  unfoldable pub taken : List Candle → List Candle → List Candle
  taken [] h = h
  taken (c ∷ cs) h =
      if is_skipped d str settings c (last_end h) then taken cs h else taken cs (c ∷ h)

  -- A candle and the question for the signal, as the engine asks it.
  unfoldable pub ema_run : List Candle → EmaState D → EmaState D
  ema_run [] s = s
  ema_run (c ∷ cs) s =
      ema_run cs (ema_generate_signal d str settings (ema_on_candle d str settings c s)).1

  abbrev state_of : List Candle → Option StrategySignalIntent → EmaState D
  state_of h pending = record {
    fast_ema = average_of settings.fast_period h;
    slow_ema = average_of settings.slow_period h;
    previous_spread = spread_of h;
    completed_candles = length h;
    last_candle_end = last_end h;
    pending_intent = pending;
  }

  on_candle_taken :
      (c : Candle) (h : List Candle) (pending : Option StrategySignalIntent)
      → is_skipped d str settings c (last_end h) ≡ false
      → ema_on_candle d str settings c (state_of h pending) ≡ state_of (c ∷ h) (some (decision c h))
  unfolding ema_on_candle decision average_of spread_of
  on_candle_taken c h pending e = rw (e, ema_on_candle) refl

  on_candle_skipped :
      (c : Candle) (h : List Candle) (pending : Option StrategySignalIntent)
      → is_skipped d str settings c (last_end h) ≡ true
      → ema_on_candle d str settings c (state_of h pending) ≡ state_of h none
  unfolding ema_on_candle
  on_candle_skipped c h pending e = rw (e, ema_on_candle) refl

  ema_run-state_of :
      (cs h : List Candle) → ema_run cs (state_of h none) ≡ state_of (taken cs h) none
  unfolding ema_run taken
  ema_run-state_of [] h = refl
  ema_run-state_of (c ∷ cs) h = elim (Bool-cases (is_skipped d str settings c (last_end h))) [
    | inl e ↦ rw (e, on_candle_skipped c h none e) (ema_run-state_of cs h)
    | inr e ↦ rw (e, on_candle_taken c h none e) (ema_run-state_of cs (c ∷ h))
  ]

  ema_run-no_history : (cs : List Candle) → ema_run cs no_history ≡ state_of (taken cs []) none
  unfolding average_of spread_of
  ema_run-no_history cs = ema_run-state_of cs []

  -- Whatever candles a strategy that starts without a history was given, complete or not, of any symbol
  -- and interval and in any order, the next candle gives it no intent if it is one to skip, and else
  -- exactly the decision that the averages of the closes of the candles taken so far call for:
  -- an earlier decision is never drawn again, and a skipped candle leaves no trace.
  pub ema_run-decision :
      (cs : List Candle) (c : Candle)
      → (ema_on_candle d str settings c (ema_run cs no_history)).pending_intent ≡ (
          if is_skipped d str settings c (last_end (taken cs []))
          then none
          else some (decision c (taken cs [])))
  ema_run-decision cs c = elim (Bool-cases (is_skipped d str settings c (last_end (taken cs [])))) [
    | inl e ↦ rw e (
        ap (λ s. (ema_on_candle d str settings c s).pending_intent) (ema_run-no_history cs)
        ∙ ap (λ s. s.pending_intent) (on_candle_skipped c (taken cs []) none e))
    | inr e ↦ rw e (
        ap (λ s. (ema_on_candle d str settings c s).pending_intent) (ema_run-no_history cs)
        ∙ ap (λ s. s.pending_intent) (on_candle_taken c (taken cs []) none e))
  ]
