-- ===== src/Trading/Analytics.antt =====
-- analytics/engine.py: `_maximum_drawdown` and the counts of `_statistics`, over the realized profits
-- and losses of the closed outcomes, in units of 1e-8.
pub mod Drawdown
use algo_trading_system.Prelude.{ℕ, List, [], ◌∷◌, if◌then◌else◌, filterb, length}
use algo_trading_system.Prelude.Int.{ℤ, pos, ◌+ℤ◌, ◌-ℤ◌, ltb_ℤ, max_ℤ}

-- The variables of the loop; the fraction is kept as its numerator and its denominator.
pub record DrawdownState : Type 0 where
  pub equity : ℤ
  pub peak : ℤ
  pub max_drawdown : ℤ
  pub fraction_numerator : ℤ
  pub fraction_denominator : ℤ

unfoldable pub consider_outcome : ℤ → DrawdownState → DrawdownState
consider_outcome realized_pnl s =
    let equity = s.equity +ℤ realized_pnl in
    let peak = max_ℤ s.peak equity in
    let drawdown = peak -ℤ equity in
    if ltb_ℤ s.max_drawdown drawdown
    then record {
      equity = equity;
      peak = peak;
      max_drawdown = drawdown;
      fraction_numerator = drawdown;
      fraction_denominator = peak;
    }
    else record s { equity = equity; peak = peak }

unfoldable pub drawdown_loop : List ℤ → DrawdownState → DrawdownState
drawdown_loop [] s = s
drawdown_loop (realized_pnl ∷ outcomes) s = drawdown_loop outcomes (consider_outcome realized_pnl s)

unfoldable pub maximum_drawdown : ℕ → List ℤ → DrawdownState
maximum_drawdown starting_equity outcomes = drawdown_loop outcomes (record {
  equity = pos starting_equity;
  peak = pos starting_equity;
  max_drawdown = pos 0;
  fraction_numerator = pos 0;
  fraction_denominator = pos 1;
})

abbrev pub winning_signals : List ℤ → ℕ
winning_signals outcomes = length (filterb (λ pnl. ltb_ℤ (pos 0) pnl) outcomes)

abbrev pub losing_signals : List ℤ → ℕ
losing_signals outcomes = length (filterb (λ pnl. ltb_ℤ pnl (pos 0)) outcomes)
