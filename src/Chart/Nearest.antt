-- ===== src/Chart/Nearest.antt =====
-- frontend/src/main.jsx: `nearestIndexByTimestamp`, the binary search behind the pointer on the chart,
-- and the choice of the point under the pointer in `selectPoint`.
--
-- A target time is a fraction of milliseconds, kept exactly as numerator and denominator.
pub mod Search
use mathlib.Core.Option
use algo_trading_system.Prelude.{
  ℕ, zero, suc, ◌+◌, ◌-◌, ◌*◌, ◌/◌, Bool, true, false, List, Option, none, some, ltb, ◌==◌,
  if◌then◌else◌, length, get_elem?, min, max,
}
use algo_trading_system.Chart.{Point, date_parse}

pub record Target : Type 0 where
  pub numerator : ℕ
  pub denominator : ℕ

-- `Date.parse(points[index].timestamp)`
abbrev pub date_at : List Point → ℕ → Option ℕ
date_at points index = elim (get_elem? points index) [
  | none ↦ none
  | some p ↦ date_parse p.timestamp
]

-- A comparison with NaN is false.
abbrev pub before_target : Target → Option ℕ → Bool
before_target target none = false
before_target target (some t) = ltb (t * target.denominator) target.numerator

-- `Math.abs(Date.parse(…) - target)`, in units of one over the denominator.
abbrev pub distance : Target → ℕ → ℕ
distance target t =
    (t * target.denominator - target.numerator) + (target.numerator - t * target.denominator)

abbrev pub nearer : Target → Option ℕ → Option ℕ → Bool
nearer target none b = false
nearer target (some a) none = false
nearer target (some a) (some b) = ltb (distance target a) (distance target b)

-- The `while` loop, on fuel; `below i` is its test of the middle point.
unfoldable pub search : ℕ → (ℕ → Bool) → ℕ → ℕ → Option ℕ
search zero below low high = none
search (suc fuel) below low high =
    let middle = (low + high) / 2 in
    let right = search fuel below (middle + 1) high in
    let left = search fuel below low middle in
    if ltb low high then (if below middle then right else left) else some low

-- After the loop: the point found, or the one before it.
abbrev pub choose : Target → List Point → ℕ → ℕ
choose target points low =
    if low == 0
    then low
    else if nearer target (date_at points low) (date_at points (low - 1))
    then low
    else low - 1

-- Every round at least drops one index, so `length` rounds are enough.
unfoldable pub nearest_index : List Point → Target → Option ℕ
nearest_index points target = Option.map (choose target points) (
    search (suc (length points)) (λ i. before_target target (date_at points i)) 0
      (length points - 1))
