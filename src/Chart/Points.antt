-- ===== src/Chart/Points.antt =====
-- frontend/src/main.jsx: `pointFromTick`, `pointFromCandle` and `normalizePoints`.
pub mod Order
pub mod Stability
pub mod Normalization
use algo_trading_system.Prelude.{
  arith, IsAscending, ℕ, ◌≤◌, ◌≡◌, Bool, true, false, ◌&&◌, List, [], ◌∷◌, Option, none, some, leb,
  ◌==◌, if◌then◌else◌, filterb, All,
}
use algo_trading_system.Chart.{
  Timestamp, blank, unparsable, instant, date_parse, Number, is_finite, Point, PointSource, Bar,
}

-- A tick of the wire, `price` already read by `Number`.
pub record WireTick : Type 0 where
  pub price : Number
  pub timestamp : Timestamp

pub record WireCandle : Type 0 where
  pub start_at : Timestamp
  pub end_at : Timestamp
  pub open_price : Number
  pub high : Number
  pub low : Number
  pub close : Number

-- A timestamp that is missing or empty is falsy.
abbrev pub truthy : Timestamp → Bool
truthy blank = false
truthy unparsable = true
truthy (instant t) = true

-- `a || b`
abbrev pub or_else : Timestamp → Timestamp → Timestamp
or_else a b = if truthy a then a else b

unfoldable pub point_from_tick : WireTick → Option Point
point_from_tick t =
    if is_finite t.price && truthy t.timestamp
    then some
        (record { timestamp = t.timestamp; price = t.price; source = PointSource.tick; bar = none })
    else none

unfoldable pub point_from_candle : WireCandle → Option Point
point_from_candle c =
    if is_finite c.close && truthy (or_else c.end_at c.start_at)
    then some (record {
      timestamp = or_else c.end_at c.start_at;
      price = c.close;
      source = PointSource.candle;
      bar = some (record { open_price = c.open_price; high = c.high; low = c.low });
    })
    else none

abbrev pub parses : Timestamp → Bool
parses t = elim (date_parse t) [ none ↦ false | some v ↦ true ]

abbrev pub usable : Point → Bool
usable p = is_finite p.price && parses p.timestamp

-- The sort key of a point whose timestamp parses; no other point is sorted.
abbrev pub time_of : Point → ℕ
time_of p = elim (date_parse p.timestamp) [ none ↦ 0 | some t ↦ t ]

-- `filter(Boolean)`
unfoldable pub present {ℓ} : {A : Type ℓ} → List (Option A) → List A
present [] = []
present (none ∷ xs) = present xs
present (some x ∷ xs) = x ∷ present xs

-- `sort` is stable: a point stays before the later ones of its instant.
unfoldable pub insert_by_time : Point → List Point → List Point
insert_by_time p [] = p ∷ []
insert_by_time p (q ∷ qs) =
    if leb (time_of p) (time_of q) then p ∷ q ∷ qs else q ∷ insert_by_time p qs

unfoldable pub sort_by_time : List Point → List Point
sort_by_time [] = []
sort_by_time (p ∷ ps) = insert_by_time p (sort_by_time ps)

unfoldable pub normalize_points : List (Option Point) → List Point
normalize_points xs = sort_by_time (filterb usable (present xs))

-- In the order of time, and every point drawable.
abbrev pub IsChronological : List Point → Type 0
IsChronological = IsAscending time_of

abbrev pub IsUsable : Point → Type 0
IsUsable p = usable p ≡ true

-- A usable point has a date.
pub usable_parses : (p : Point) → IsUsable p → date_parse p.timestamp ≡ some (time_of p)
usable_parses p u = ground arith

pub record IsSeries (ps : List Point) : Type 0 where
  pub usable : All IsUsable ps
  pub chronological : IsChronological ps

-- The points of one instant.
abbrev pub at_time : ℕ → List Point → List Point
at_time t = filterb (λ p. time_of p == t)
