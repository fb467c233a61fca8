-- ===== src/Trading/Ema/Crossings.antt =====
-- When the strategy decides to enter or to leave.
use algo_trading_system.Prelude.{
  ℕ, suc, ◌<◌, ◌≡◌, ◌≢◌, refl, Bool, true, false, List, ◌∷◌, Option, none, some, Bool-cases, inl,
  inr, arith, leb, subst, leb-false→lt, if◌then◌else◌, length,
}
use algo_trading_system.Prelude.Texts.{Text}
use algo_trading_system.MarketData.CandleEngine.{Candle}
use algo_trading_system.Trading.{StrategyDirection, buy, sell, exit, hold}
use algo_trading_system.Trading.Ema.{
  Decimals, EmaCrossoverSettings, crosses_up, crosses_down, cross_direction, intent_for,
}
use algo_trading_system.Trading.Ema.Reference.{spread_at, spread_of, decision}

module _ {ℓ} {D : Type ℓ} (d : Decimals D) (str : ℕ → Text)
    (settings : EmaCrossoverSettings D) where
  -- Why a decision may have its direction, after `count` candles with the spread `current`.
  pub data IsCrossing (count : ℕ) (before : Option D) (current : D)
      : StrategyDirection → Type ℓ where
    holding : IsCrossing count before current hold
    upward :
        (previous : D)
        → settings.slow_period < count
        → before ≡ some previous
        → d.is_le previous (d.of_ℕ 0) ≡ true
        → d.is_lt (d.of_ℕ 0) current ≡ true
        → IsCrossing count before current buy
    downward :
        (previous : D)
        → settings.slow_period < count
        → before ≡ some previous
        → d.is_le (d.of_ℕ 0) previous ≡ true
        → d.is_lt current (d.of_ℕ 0) ≡ true
        → IsCrossing count before current (if settings.long_only then exit else sell)

  intent_for-IsCrossing :
      (c : Candle) (count : ℕ) (before : Option D) (current : D)
      → IsCrossing count before current (intent_for d str settings c count before current).direction
  unfolding intent_for cross_direction
  intent_for-IsCrossing c count none current = elim (Bool-cases (leb count settings.slow_period)) [
    | inl e ↦ rw (e, intent_for) holding
    | inr e ↦ rw (e, intent_for) holding
  ]
  intent_for-IsCrossing c count (some previous) current =
      elim (Bool-cases (leb count settings.slow_period)) [
        | inl e ↦ rw (e, intent_for) holding
        | inr e ↦
            let warm = leb-false→lt _ _ e in
            elim (Bool-cases (crosses_up d str settings previous current)) [
              | inl u ↦
                  rw (e, u, intent_for) (upward previous warm refl (ground arith) (ground arith))
              | inr u ↦ elim (Bool-cases (crosses_down d str settings previous current)) [
                | inl v ↦
                    rw (e, u, v, intent_for)
                      (downward previous warm refl (ground arith) (ground arith))
                | inr v ↦ rw (e, u, v, intent_for) holding
              ]
            ]
      ]

  leaving_is_no_buy : (b : Bool) → (if b then exit else sell) ≢ buy
  leaving_is_no_buy true e = cc
  leaving_is_no_buy false e = cc

  buy_above :
      (count : ℕ) (before : Option D) (current : D) (direction : StrategyDirection)
      → IsCrossing count before current direction
      → direction ≡ buy
      → d.is_lt (d.of_ℕ 0) current ≡ true
  buy_above count before current hold holding e = cc
  buy_above count before current buy (upward previous warm b le lt) e = lt
  buy_above count before current _ (downward previous warm b le lt) e =
      absurd (leaving_is_no_buy settings.long_only e)

  buy_from :
      (count : ℕ) (previous current : D) (direction : StrategyDirection)
      → IsCrossing count (some previous) current direction
      → direction ≡ buy
      → d.is_le previous (d.of_ℕ 0) ≡ true
  buy_from count previous current hold holding e = cc
  buy_from count previous current buy (upward p warm b le lt) e =
      let same : p ≡ previous = cc in subst (λ x. d.is_le x (d.of_ℕ 0) ≡ true) same le
  buy_from count previous current _ (downward p warm b le lt) e =
      absurd (leaving_is_no_buy settings.long_only e)

  decision-IsCrossing_one :
      (c : Candle) (h : List Candle)
      → IsCrossing
          (suc (length h))
          (spread_of d str settings h)
          (spread_at d str settings c h)
          (decision d str settings c h).direction
  unfolding decision
  decision-IsCrossing_one c h = intent_for-IsCrossing c (suc (length h)) _ _

  -- A decision to enter or to leave comes only after more candles than the slow period, only where the
  -- spread of the averages crosses zero with this very candle, from at most zero upward for a buy and
  -- from at least zero downward else, which is an exit or a sale as the settings say. Where the decimals
  -- are ordered, a buy is never followed by another one at the next candle taken.
  pub decision-IsCrossing :
      (c next : Candle) (h : List Candle)
      → ((x : D) → d.is_le x (d.of_ℕ 0) ≡ true → d.is_lt (d.of_ℕ 0) x ≡ false)
      → IsCrossing
          (suc (length h))
          (spread_of d str settings h)
          (spread_at d str settings c h)
          (decision d str settings c h).direction
        × (¬ (
            ((decision d str settings c h).direction ≡ buy)
            × ((decision d str settings next (c ∷ h)).direction ≡ buy)))
  unfolding spread_of
  decision-IsCrossing c next h ordered = (
    decision-IsCrossing_one c h,
    λ both.
        let above = buy_above _ _ _ _ (decision-IsCrossing_one c h) both.0 in
        let from =
          buy_from _ (spread_at d str settings c h) _ _ (decision-IsCrossing_one next (c ∷ h))
            both.1 in
        let clash = ordered (spread_at d str settings c h) from in (cc),
  )
