-- ===== src/Chart/Viewport/Domain.antt =====
-- The domain holds every price, with room, and never shrinks within one transition.
use algo_trading_system.Prelude.{
  ℕ, ◌≡◌, ◌≢◌, List, [], ◌∷◌, Option, none, some, arith, All, All-mono,
}
use algo_trading_system.Prelude.Int.{ℤ, ◌≤ℤ◌, scale, max_ℤ_bounds, min_ℤ_bounds, int_laws}
use algo_trading_system.Chart.{Point}
use algo_trading_system.Chart.Viewport.{
  price_of, min_price, max_price, PriceDomain, padded_domain, DomainRef, widen, next_domain,
}

pub min_price-le : (p : Point) (ps : List Point) → All (λ q. min_price p ps ≤ℤ price_of q) (p ∷ ps)
unfolding min_price
min_price-le p [] = (omega arith, tt)
min_price-le p (q ∷ qs) =
    let both = min_ℤ_bounds (price_of p) (min_price q qs) in
    (both.0, All-mono _ _ (q ∷ qs) (λ r le. omega (arith, both.1, le)) (min_price-le q qs))

pub max_price-ge : (p : Point) (ps : List Point) → All (λ q. price_of q ≤ℤ max_price p ps) (p ∷ ps)
unfolding max_price
max_price-ge p [] = (omega arith, tt)
max_price-ge p (q ∷ qs) =
    let both = max_ℤ_bounds (price_of p) (max_price q qs) in
    (both.0, All-mono _ _ (q ∷ qs) (λ r le. omega (arith, both.1, le)) (max_price-ge q qs))

-- `d` holds the price `v`.
pub record Holds (d : PriceDomain) (v : ℤ) : Type 0 where
  pub above_low : d.low ≤ℤ scale 10_000 v
  pub below_high : scale 10_000 v ≤ℤ d.high

-- `d` reaches at least as far as `e` on both sides.
pub record Contains (d e : PriceDomain) : Type 0 where
  pub low : d.low ≤ℤ e.low
  pub high : e.high ≤ℤ d.high

All-both {κ μ} :
    (P : Point → Type κ) (Q : Point → Type μ) (ps : List Point)
    → All P ps
    → All Q ps
    → All (λ p. P p × Q p) ps
All-both P Q [] h k = tt
All-both P Q (p ∷ ps) h k = ((h.0, k.0), All-both P Q ps h.1 k.1)

padded_domain-Holds :
    (p : Point) (ps : List Point) → All (λ q. Holds (padded_domain p ps) (price_of q)) (p ∷ ps)
unfolding padded_domain
padded_domain-Holds p ps =
    All-mono _ _ (p ∷ ps)
      (λ q both. record {
        above_low = omega (int_laws, both.0);
        below_high = omega (int_laws, both.1);
      })
      (All-both _ _ (p ∷ ps) (min_price-le p ps) (max_price-ge p ps))

widen-Contains : (d e : PriceDomain) → Contains (widen d e) d × Contains (widen d e) e
widen-Contains d e = ground arith

Contains-Holds : (d e : PriceDomain) (v : ℤ) → Contains d e → Holds e v → Holds d v
Contains-Holds d e v c h = omega arith

-- A domain never loses what the points need, whatever domain the chart had before.
next_domain-Contains-padded :
    (prior : Option DomainRef) (key : ℕ) (padded : PriceDomain)
    → Contains (next_domain prior key padded) padded
unfolding next_domain
next_domain-Contains-padded none key padded = omega arith
next_domain-Contains-padded (some prior) key padded =
    ground (arith, (widen-Contains padded prior.domain).0)

-- Within one transition the next domain is the least one that holds both the old domain and what
-- the points need: it contains both, and every domain that does contains it.
pub next_domain_widens :
    (prior : DomainRef) (key : ℕ) (padded other : PriceDomain)
    → prior.transition_key ≡ key
    → Contains other prior.domain
    → Contains other padded
    → Contains (next_domain (some prior) key padded) prior.domain
      × Contains (next_domain (some prior) key padded) padded
      × Contains other (next_domain (some prior) key padded)
unfolding next_domain
next_domain_widens prior key padded other same old new = ground arith

-- With another transition key the domain is exactly what the points need.
pub next_domain_resets :
    (prior : DomainRef) (key : ℕ) (padded : PriceDomain)
    → prior.transition_key ≢ key
    → next_domain (some prior) key padded ≡ padded
unfolding next_domain
next_domain_resets prior key padded other = ground arith

-- Every price lies within the domain that the chart uses.
pub next_domain-Holds :
    (prior : Option DomainRef) (key : ℕ) (p : Point) (ps : List Point)
    → All (λ q. Holds (next_domain prior key (padded_domain p ps)) (price_of q)) (p ∷ ps)
next_domain-Holds prior key p ps =
    All-mono _ _ (p ∷ ps)
      (λ q h.
        Contains-Holds _ _ (price_of q) (next_domain-Contains-padded prior key (padded_domain p ps))
          h)
      (padded_domain-Holds p ps)
