-- ===== src/MarketData/TickChart/Downsample.antt =====
-- The ticks of a chart are a sample of the ticks it was made of.
use mathlib.Core.List.Sublist
use mathlib.Core.List.{Sublistᴰ}
use algo_trading_system.Prelude.{
  ℕ, zero, suc, ◌+◌, ◌-◌, ◌≤◌, ◌<◌, ◌≡◌, refl, sym, ap, ◌∙◌, Bool-cases, inl, inr, List, [], ◌∷◌,
  some, arith, ltb, false, leb, leb→le, leb-false→lt, length, drop, get_or, get_last?,
  get_last?-cons, get_last?-get_or,
}
use algo_trading_system.Prelude.Samples.{IsSample, nil_sublist, sublist_earlier, read_sublist}
use algo_trading_system.MarketData.{MarketTick}
use algo_trading_system.MarketData.TickChart.{
  floor_width, choose_index, select_ticks, downsample, downsample_ticks,
}
use algo_trading_system.MarketData.TickChart.Buckets.{
  floor_width_last, candidate_start-floor_width, candidate_end-floor_width, candidates_bounds,
}
use algo_trading_system.MarketData.TickChart.Triangles.{choose_index-IsFirstLargest}

-- The chosen tick lies in the range of the floors of its bucket.
choose_index_bounds :
    (ticks : List MarketTick) (first : MarketTick) (m previous_index b : ℕ)
    → 3 ≤ m
    → m < length ticks
    → b < m - 2
    → let i = choose_index ticks first m previous_index b in
      (floor_width (length ticks) m b + 1 ≤ i)
      × (suc i ≤ floor_width (length ticks) m (suc b) + 1)
      × (i < length ticks)
choose_index_bounds ticks first m previous_index b h k lt =
    let best = choose_index-IsFirstLargest ticks first m previous_index b h k lt in
    omega (
      arith,
      best.from_start,
      best.below_end,
      candidate_start-floor_width (length ticks) m b h k lt,
      candidate_end-floor_width (length ticks) m b h k lt,
      candidates_bounds (length ticks) m b h k lt,
    )

select_ticks-sublist :
    (ticks : List MarketTick) (first : MarketTick) (m previous_index b count : ℕ)
    → 3 ≤ m
    → m < length ticks
    → b + count ≡ m - 2
    → Sublistᴰ
        (select_ticks ticks first m previous_index b count)
        (drop (floor_width (length ticks) m b + 1) ticks)
unfolding select_ticks
select_ticks-sublist ticks first m previous_index b zero h k e =
    let last : b ≡ m - 2 = omega arith in
    read_sublist ticks first (floor_width (length ticks) m b + 1) (length ticks - 1)
      (rw last (omega (arith, floor_width_last (length ticks) m h k))) (omega arith) (nil_sublist _)
select_ticks-sublist ticks first m previous_index b (suc count) h k e =
    let i = choose_index ticks first m previous_index b in
    let (above, below, inside) =
      choose_index_bounds ticks first m previous_index b h k (omega arith) in
    read_sublist ticks first (floor_width (length ticks) m b + 1) i above inside (
      sublist_earlier ticks (suc i) (floor_width (length ticks) m (suc b) + 1) below
        (select_ticks-sublist ticks first m i (suc b) count h k (omega arith)))

get_last?-select_ticks :
    (ticks : List MarketTick) (first : MarketTick) (m previous_index b count : ℕ)
    → get_last? (select_ticks ticks first m previous_index b count)
      ≡ some (get_or ticks (length ticks - 1) first)
unfolding select_ticks
get_last?-select_ticks ticks first m previous_index b zero = refl
get_last?-select_ticks ticks first m previous_index b (suc count) =
    let i = choose_index ticks first m previous_index b in
    get_last?-cons (get_or ticks i first) (select_ticks ticks first m i (suc b) count)
      (get_last?-select_ticks ticks first m i (suc b) count)

length-select_ticks :
    (ticks : List MarketTick) (first : MarketTick) (m previous_index b count : ℕ)
    → length (select_ticks ticks first m previous_index b count) ≡ suc count
unfolding select_ticks
length-select_ticks ticks first m previous_index b zero = refl
length-select_ticks ticks first m previous_index b (suc count) =
    ap suc (
      length-select_ticks ticks first m (choose_index ticks first m previous_index b) (suc b) count)

downsample_long :
    (first : MarketTick) (ticks : List MarketTick) (m : ℕ)
    → 3 ≤ m
    → m < length (first ∷ ticks)
    → IsSample (first ∷ ticks) m (first ∷ select_ticks (first ∷ ticks) first m 0 0 (m - 2))
downsample_long first ticks m h k = record {
  drawn_from =
      ∣ Sublistᴰ.cons-cons refl (
        sublist_earlier (first ∷ ticks) 1 (floor_width (length (first ∷ ticks)) m 0 + 1)
          (omega arith)
          (select_ticks-sublist (first ∷ ticks) first m 0 0 (m - 2) h k (omega arith))) ∣₁;
  begins = refl;
  ends =
      get_last?-cons first (select_ticks (first ∷ ticks) first m 0 0 (m - 2))
        (get_last?-select_ticks (first ∷ ticks) first m 0 0 (m - 2))
      ∙ ap (λ i. some (get_or (first ∷ ticks) i first)) (omega arith)
      ∙ sym (get_last?-get_or first ticks first);
  size = omega (arith, k, length-select_ticks (first ∷ ticks) first m 0 0 (m - 2));
}

downsample-IsSample :
    (ticks : List MarketTick) (m : ℕ) → 3 ≤ m → IsSample ticks m (downsample ticks m)
unfolding downsample
downsample-IsSample [] m h = record {
  drawn_from = Sublist.refl [];
  begins = refl;
  ends = refl;
  size = omega arith;
}
downsample-IsSample (first ∷ ticks) m h = elim (Bool-cases (leb (length (first ∷ ticks)) m)) [
  | inl e ↦ rw e (record {
    drawn_from = Sublist.refl _;
    begins = refl;
    ends = refl;
    size = omega (arith, leb→le _ _ e);
  })
  | inr e ↦ rw e (downsample_long first ticks m h (leb-false→lt _ _ e))
]

-- A down-sampling to at most m points, for an m of 3 or more, gives a subsequence of the ticks, so that
-- no tick is repeated, moved or made up; it begins with the first tick and ends with the last; and it
-- has exactly m ticks, or all of them if there are fewer.
pub downsample_ticks-IsSample :
    (ticks : List MarketTick) (m : ℕ)
    → 3 ≤ m
    → (sample : List MarketTick) × (downsample_ticks ticks m ≡ some sample)
      × IsSample ticks m sample
unfolding downsample_ticks
downsample_ticks-IsSample ticks m h =
    let enough : ltb m 3 ≡ false = ground arith in
    (downsample ticks m, rw (enough, downsample_ticks) refl, downsample-IsSample ticks m h)
