-- ===== src/MarketData/TickChart.antt =====
-- market_data/tick_chart.py: `downsample_ticks`.
--
-- The doubles of the code are exact here: the width of a bucket is a fraction, and a time and a price
-- are natural numbers. The averages of one bucket have one denominator, the number of its ticks, so
-- the areas that are compared are compared by their numerators.
pub mod Buckets
pub mod Downsample
pub mod Triangles
use algo_trading_system.Prelude.{
  ℕ, zero, suc, ◌+◌, ◌-◌, ◌*◌, ◌/◌, Bool, true, List, [], ◌∷◌, Option, none, some, ltb, leb,
  if◌then◌else◌, length, take, drop, get_or, min,
}
use algo_trading_system.Prelude.Int.{ℤ, pos, abs, ◌-ℤ◌, ◌*ℤ◌}
use algo_trading_system.MarketData.{MarketTick}

-- `floor(bucket * bucket_width)` for `n` ticks and at most `m` points
unfoldable pub floor_width : ℕ → ℕ → ℕ → ℕ
floor_width n m bucket = bucket * (n - 2) / (m - 2)

abbrev pub average_start : ℕ → ℕ → ℕ → ℕ
average_start n m bucket = min (floor_width n m (bucket + 1) + 1) (n - 1)

abbrev pub average_end : ℕ → ℕ → ℕ → ℕ
average_end n m bucket = min (floor_width n m (bucket + 2) + 1) n

abbrev pub or_only : MarketTick → List MarketTick → List MarketTick
or_only t [] = t ∷ []
or_only t (u ∷ us) = u ∷ us

-- `ticks[average_start:average_end] or (ticks[-1],)`
unfoldable pub average_bucket : List MarketTick → MarketTick → ℕ → ℕ → List MarketTick
average_bucket ticks first m bucket =
    let n = length ticks in
    or_only (get_or ticks (n - 1) first) (
      take (average_end n m bucket - average_start n m bucket)
        (drop (average_start n m bucket) ticks))

abbrev pub total_time : List MarketTick → ℕ
total_time [] = 0
total_time (t ∷ ts) = t.timestamp + total_time ts

abbrev pub total_price : List MarketTick → ℕ
total_price [] = 0
total_price (t ∷ ts) = t.price + total_price ts

-- `area`, times the number of ticks of the average
unfoldable pub area : MarketTick → List MarketTick → MarketTick → ℕ
area previous bucket candidate =
    let k = length bucket in
    abs (
      (pos (k * previous.timestamp) -ℤ pos (total_time bucket))
        *ℤ (pos candidate.price -ℤ pos previous.price)
      -ℤ (pos previous.timestamp -ℤ pos candidate.timestamp)
        *ℤ (pos (total_price bucket) -ℤ pos (k * previous.price)))

unfoldable pub candidate_start : ℕ → ℕ → ℕ → ℕ
candidate_start n m bucket = min (floor_width n m bucket + 1) (n - 2)

unfoldable pub candidate_end : ℕ → ℕ → ℕ → ℕ
unfolding candidate_start
candidate_end n m bucket =
    let last = min (floor_width n m (bucket + 1) + 1) (n - 1) in
    if leb last (candidate_start n m bucket) then candidate_start n m bucket + 1 else last

-- `largest_area`, with `none` for the -1 that every area exceeds, and `chosen_index`
pub record Choice : Type 0 where
  pub largest_area : Option ℕ
  pub chosen_index : ℕ

abbrev pub exceeds : ℕ → Option ℕ → Bool
exceeds a none = true
exceeds a (some largest) = ltb largest a

unfoldable pub consider : (ℕ → ℕ) → ℕ → Choice → Choice
consider area_at index c =
    if exceeds (area_at index) c.largest_area
    then record { largest_area = some (area_at index); chosen_index = index }
    else c

-- The loop over `range(index, index + count)`
unfoldable pub choose_largest : (ℕ → ℕ) → ℕ → ℕ → Choice → Choice
choose_largest area_at index zero c = c
choose_largest area_at index (suc count) c =
    choose_largest area_at (suc index) count (consider area_at index c)

-- `area` of the candidate at an index
abbrev pub area_at : List MarketTick → MarketTick → ℕ → ℕ → ℕ → ℕ → ℕ
area_at ticks first m previous_index bucket i =
    area (get_or ticks previous_index first) (average_bucket ticks first m bucket)
      (get_or ticks i first)

-- `chosen_index` of a bucket
unfoldable pub choose_index : List MarketTick → MarketTick → ℕ → ℕ → ℕ → ℕ
choose_index ticks first m previous_index bucket =
    let start = candidate_start (length ticks) m bucket in
    (choose_largest (area_at ticks first m previous_index bucket) start
      (candidate_end (length ticks) m bucket - start)
      (record { largest_area = none; chosen_index = start })).chosen_index

-- The loop over the buckets, from `bucket` on, and the last tick
unfoldable pub select_ticks : List MarketTick → MarketTick → ℕ → ℕ → ℕ → ℕ → List MarketTick
select_ticks ticks first m previous_index bucket zero = get_or ticks (length ticks - 1) first ∷ []
select_ticks ticks first m previous_index bucket (suc count) =
    let i = choose_index ticks first m previous_index bucket in
    get_or ticks i first ∷ select_ticks ticks first m i (suc bucket) count

unfoldable pub downsample : List MarketTick → ℕ → List MarketTick
downsample [] m = []
downsample (first ∷ ticks) m =
    if leb (length (first ∷ ticks)) m
    then first ∷ ticks
    else first ∷ select_ticks (first ∷ ticks) first m 0 0 (m - 2)

-- `none` is the `ValueError`.
unfoldable pub downsample_ticks : List MarketTick → ℕ → Option (List MarketTick)
downsample_ticks ticks m = if ltb m 3 then none else some (downsample ticks m)
