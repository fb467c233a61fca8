-- ===== src/Dashboard/Summary.antt =====
-- frontend/src/main.jsx, `App`: the summary of the series on the chart.
--
-- Prices are integers of units 1e-8, computed exactly; `changePercent` is a fraction.
pub mod Figures
use algo_trading_system.Prelude.{zero, suc, List, [], ◌∷◌, Option, none, some, length, get_or}
use algo_trading_system.Prelude.Int.{ℤ, pos, negsuc, ◌-ℤ◌, scale}
use algo_trading_system.Chart.{Point}
use algo_trading_system.Chart.Viewport.{price_of, min_price, max_price}

pub record Fraction : Type 0 where
  pub numerator : ℤ
  pub denominator : ℤ

-- `open` is a word of the language.
pub record MarketSummary : Type 0 where
  pub opening : ℤ
  pub close : ℤ
  pub high : ℤ
  pub low : ℤ
  pub change : ℤ
  pub change_percent : Fraction

-- `first.price ? (change / first.price) * 100 : 0`
unfoldable pub change_percent : ℤ → ℤ → Fraction
change_percent (pos zero) change = record { numerator = pos 0; denominator = pos 1 }
change_percent (pos (suc n)) change = record {
  numerator = scale 100 change;
  denominator = pos (suc n);
}
change_percent (negsuc n) change = record { numerator = scale 100 change; denominator = negsuc n }

unfoldable pub market_summary : List Point → Option MarketSummary
market_summary [] = none
market_summary (first ∷ points) =
    let latest = get_or (first ∷ points) (length points) first in
    let change = price_of latest -ℤ price_of first in
    some (record {
      opening = price_of first;
      close = price_of latest;
      high = max_price first points;
      low = min_price first points;
      change = change;
      change_percent = change_percent (price_of first) change;
    })
