-- ===== src/Chart/Labels/Grid.antt =====
-- The grid of prices against the points that are drawn over it.
use algo_trading_system.Prelude.{
  leb, leb→le, leb-false→lt, Bool-cases, inl, inr, refl, ℕ, zero, suc, ◌+◌, ◌*◌, ◌≤◌, ◌<◌, ◌≡◌, ap,
  arith,
}
use algo_trading_system.Prelude.Int.{pos, pos_part, ◌<ℤ◌, neg_part, scale, -ℤ_above, int_laws}
use algo_trading_system.Chart.{Point}
use algo_trading_system.Chart.Viewport.{
  price_of, PriceDomain, vertical_range, PlotPoint, plot_point,
}
use algo_trading_system.Chart.Labels.{domain_width, price_label, label_height}

-- The line with a number from 0 to 3 lies so many thirds of the plot below its top.
height_even :
    (d : PriceDomain) (i : ℕ)
    → d.low <ℤ d.high
    → i ≤ 3
    → label_height d (price_label d i) ≡ pos ((42 + 178 * i) * domain_width d)
unfolding label_height price_label domain_width
height_even d zero h k = omega (int_laws, -ℤ_above d.high d.low)
height_even d (suc zero) h k = omega (int_laws, -ℤ_above d.high d.low)
height_even d (suc (suc zero)) h k = omega (int_laws, -ℤ_above d.high d.low)
height_even d (suc (suc (suc zero))) h k = omega (int_laws, -ℤ_above d.high d.low)
height_even d (suc (suc (suc (suc i)))) h k = absurd (omega arith)

-- Where a point `q` with the price of line `i` is drawn.
pub data IsDrawnFor (d : PriceDomain) (i : ℕ) (q : PlotPoint) : Type 0 where
  on_line :
      10_000_000_000 ≤ domain_width d
      → scale 3 q.y ≡ pos ((42 + 178 * i) * q.y_denominator)
      → IsDrawnFor d i q
  below_line :
      domain_width d < 10_000_000_000
      → i < 3
      → pos ((42 + 178 * i) * q.y_denominator) <ℤ scale 3 q.y
      → IsDrawnFor d i q
  on_lowest_line : i ≡ 3 → scale 3 q.y ≡ pos ((42 + 178 * i) * q.y_denominator) → IsDrawnFor d i q

by_width :
    (d : PriceDomain) (i : ℕ) (q : PlotPoint)
    → i < 3
    → (10_000_000_000 ≤ domain_width d → scale 3 q.y ≡ pos ((42 + 178 * i) * q.y_denominator))
    → (domain_width d < 10_000_000_000 → pos ((42 + 178 * i) * q.y_denominator) <ℤ scale 3 q.y)
    → IsDrawnFor d i q
by_width d i q h on below = elim (Bool-cases (leb 10_000_000_000 (domain_width d))) [
  | inl wide ↦ on_line (leb→le _ _ wide) (on (leb→le _ _ wide))
  | inr narrow ↦ below_line (leb-false→lt _ _ narrow) h (below (leb-false→lt _ _ narrow))
]

plot_point-IsDrawnFor :
    (d : PriceDomain) (i first last : ℕ) (p : Point)
    → d.low <ℤ d.high
    → i ≤ 3
    → scale 3 (scale 10_000 (price_of p)) ≡ price_label d i
    → IsDrawnFor d i (plot_point d first last p)
unfolding plot_point vertical_range domain_width price_label
plot_point-IsDrawnFor d zero first last p h k e =
    by_width d _ _ (omega arith)
      (λ wide. omega (int_laws, -ℤ_above d.high d.low, ap pos_part e, ap neg_part e))
      (λ narrow. omega (int_laws, -ℤ_above d.high d.low, ap pos_part e, ap neg_part e))
plot_point-IsDrawnFor d (suc zero) first last p h k e =
    by_width d _ _ (omega arith)
      (λ wide. omega (int_laws, -ℤ_above d.high d.low, ap pos_part e, ap neg_part e))
      (λ narrow. omega (int_laws, -ℤ_above d.high d.low, ap pos_part e, ap neg_part e))
plot_point-IsDrawnFor d (suc (suc zero)) first last p h k e =
    by_width d _ _ (omega arith)
      (λ wide. omega (int_laws, -ℤ_above d.high d.low, ap pos_part e, ap neg_part e))
      (λ narrow. omega (int_laws, -ℤ_above d.high d.low, ap pos_part e, ap neg_part e))
plot_point-IsDrawnFor d (suc (suc (suc zero))) first last p h k e =
    on_lowest_line refl (omega (int_laws, -ℤ_above d.high d.low, ap pos_part e, ap neg_part e))
plot_point-IsDrawnFor d (suc (suc (suc (suc i)))) first last p h k e = absurd (omega arith)

-- The four lines of the grid lie evenly from the top to the bottom of the plot, in whatever domain; a
-- point whose price is that of a line is drawn on the line where the domain is at least one cent wide,
-- and below it, but for the lowest line, where the domain is narrower.
pub label_height_even :
    (d : PriceDomain) (i first last : ℕ) (p : Point)
    → d.low <ℤ d.high
    → i ≤ 3
    → scale 3 (scale 10_000 (price_of p)) ≡ price_label d i
    → (label_height d (price_label d i) ≡ pos ((42 + 178 * i) * domain_width d))
      × IsDrawnFor d i (plot_point d first last p)
label_height_even d i first last p h k e =
    (height_even d i h k, plot_point-IsDrawnFor d i first last p h k e)
