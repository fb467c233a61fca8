-- ===== src/Dashboard/Account.antt =====
-- frontend/src/main.jsx, `App`: the figures of the account above the chart, against those of the server.
use algo_trading_system.Prelude.{
  ℕ, ◌≡◌, refl, inl, inr, Option-cases, Bool, true, not, Option, none, some,
}
use algo_trading_system.Prelude.Int.{ℤ, pos, ◌-ℤ◌, eq_of_parts, int_laws}
use algo_trading_system.ControlPlane.{is_live, RuntimeTradingConfiguration}
use algo_trading_system.Trading.Execution.{AccountSnapshot, daily_pnl}

-- `account.previous_close_equity || account.equity`: the server sends a decimal as a text that is not
-- empty, or null.
abbrev pub close_or_equity : AccountSnapshot → ℕ
close_or_equity a = elim a.previous_close_equity [ none ↦ a.equity | some close ↦ close ]

-- `dailyPnl`
unfoldable pub account_pnl : Option AccountSnapshot → ℤ
account_pnl none = pos 0
account_pnl (some a) = pos a.equity -ℤ pos (close_or_equity a)

-- `isPaper`
abbrev pub is_paper : Option RuntimeTradingConfiguration → Bool
is_paper none = true
is_paper (some c) = not (is_live c.mode)

minus_self : (n : ℕ) → pos n -ℤ pos n ≡ pos 0
minus_self n = eq_of_parts _ _ (omega int_laws)

-- What the dashboard shows for today is what the server takes as the profit or loss of the day.
pub account_pnl-daily_pnl : (a : AccountSnapshot) → account_pnl (some a) ≡ daily_pnl a
unfolding account_pnl
account_pnl-daily_pnl a = elim (Option-cases a.previous_close_equity) [
  | inl e ↦ rw e (minus_self a.equity)
  | inr (close, e) ↦ rw e refl
]
