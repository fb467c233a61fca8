-- ===== src/Dashboard/Summary/Figures.antt =====
-- What the summary says of the series.
use algo_trading_system.Prelude.{
  ◌≡◌, ◌⊎◌, inl, inr, refl, Bool-cases, List, [], ◌∷◌, some, All, get_elem?, get_last?,
  get_last?-get_or,
}
use algo_trading_system.Prelude.Int.{ℤ, ◌+ℤ◌, ◌-ℤ◌, ◌≤ℤ◌, leb_ℤ, max_ℤ, min_ℤ, int_laws}
use algo_trading_system.Chart.{Point}
use algo_trading_system.Chart.Viewport.{price_of, min_price, max_price}
use algo_trading_system.Chart.Viewport.Domain.{min_price-le, max_price-ge}
use algo_trading_system.Dashboard.Summary.{MarketSummary, market_summary}

-- The price of some point of the series.
abbrev pub IsPriceIn : List Point → ℤ → Type 0
IsPriceIn [] v = ⊥
IsPriceIn (p ∷ ps) v = (price_of p ≡ v) ⊎ IsPriceIn ps v

pub record IsSummary (points : List Point) (m : MarketSummary) : Type 0 where
  pub opening : (p : Point) × (get_elem? points 0 ≡ some p) × (price_of p ≡ m.opening)
  pub close : (p : Point) × (get_last? points ≡ some p) × (price_of p ≡ m.close)
  pub above : All (λ p. price_of p ≤ℤ m.high) points
  pub below : All (λ p. m.low ≤ℤ price_of p) points
  pub high_reached : IsPriceIn points m.high
  pub low_reached : IsPriceIn points m.low
  pub change : m.opening +ℤ m.change ≡ m.close

max_price-IsPriceIn : (p : Point) (ps : List Point) → IsPriceIn (p ∷ ps) (max_price p ps)
unfolding max_price max_ℤ
max_price-IsPriceIn p [] = inl refl
max_price-IsPriceIn p (q ∷ qs) = elim (Bool-cases (leb_ℤ (price_of p) (max_price q qs))) [
  | inl e ↦ rw (e, max_price) (inr (max_price-IsPriceIn q qs))
  | inr e ↦ rw (e, max_price) (inl refl)
]

min_price-IsPriceIn : (p : Point) (ps : List Point) → IsPriceIn (p ∷ ps) (min_price p ps)
unfolding min_price min_ℤ
min_price-IsPriceIn p [] = inl refl
min_price-IsPriceIn p (q ∷ qs) = elim (Bool-cases (leb_ℤ (price_of p) (min_price q qs))) [
  | inl e ↦ rw (e, min_price) (inl refl)
  | inr e ↦ rw (e, min_price) (inr (min_price-IsPriceIn q qs))
]

change_back : (a b : ℤ) → a +ℤ (b -ℤ a) ≡ b
change_back a b = omega int_laws

-- A series that is not empty has a summary: it gives the price of the first point, that of the last,
-- the highest and the lowest of all prices, which are prices of points of the series, and the change
-- that takes the first of these to the second.
pub market_summary-IsSummary :
    (p : Point) (ps : List Point)
    → (m : MarketSummary) × (market_summary (p ∷ ps) ≡ some m) × IsSummary (p ∷ ps) m
unfolding market_summary
market_summary-IsSummary p ps = (
  _,
  refl,
  record {
    opening = (p, refl, refl);
    close = (_, get_last?-get_or p ps p, refl);
    above = max_price-ge p ps;
    below = min_price-le p ps;
    high_reached = max_price-IsPriceIn p ps;
    low_reached = min_price-IsPriceIn p ps;
    change = change_back (price_of p) _;
  },
)
