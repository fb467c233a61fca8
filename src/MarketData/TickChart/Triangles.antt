-- ===== src/MarketData/TickChart/Triangles.antt =====
-- The candidate that a bucket chooses: one of its own, the first of those with the largest area.
use algo_trading_system.Prelude.{
  ℕ, zero, suc, ◌+◌, ◌-◌, ◌≤◌, ◌<◌, ◌≡◌, refl, Bool-cases, inl, inr, none, some, arith, ltb, ltb→lt,
  ltb-false→le, length, List, subst,
}
use algo_trading_system.MarketData.{MarketTick}
use algo_trading_system.MarketData.TickChart.Buckets.{candidates_bounds}
use algo_trading_system.MarketData.TickChart.{
  candidate_start, candidate_end, Choice, consider, choose_largest, area_at, choose_index,
}

-- What the loop knows once it has seen the candidates from `start` up to `index`.
record IsBest (f : ℕ → ℕ) (start index : ℕ) (c : Choice) : Type 0 where
  known : c.largest_area ≡ some (f c.chosen_index)
  from_start : start ≤ c.chosen_index
  below_index : c.chosen_index < index
  largest : (i : ℕ) → start ≤ i → i < index → f i ≤ f c.chosen_index
  first : (i : ℕ) → start ≤ i → i < c.chosen_index → f i < f c.chosen_index

up_to :
    (f : ℕ → ℕ) (start index v : ℕ)
    → ((i : ℕ) → start ≤ i → i < index → f i ≤ v)
    → f index ≤ v
    → (i : ℕ) → start ≤ i
    → i < suc index
    → f i ≤ v
up_to f start index v h k i a b = elim (Bool-cases (ltb i index)) [
  | inl less ↦ h i a (ltb→lt _ _ less)
  | inr more ↦ let last : i ≡ index = omega (arith, ltb-false→le _ _ more) in rw last k
]

consider-IsBest :
    (f : ℕ → ℕ) (start index : ℕ) (c : Choice)
    → IsBest f start index c
    → IsBest f start (suc index) (consider f index c)
unfolding consider
consider-IsBest f start index c h = elim (Bool-cases (ltb (f c.chosen_index) (f index))) [
  | inl more ↦
      let larger = ltb→lt _ _ more in
      rw (h.known, more)
        (record {
          known = refl;
          from_start = omega (arith, h.from_start, h.below_index);
          below_index = omega arith;
          largest =
              up_to f start index (f index) (λ i a b. omega (arith, h.largest i a b, larger))
                (omega arith);
          first = λ i a b. omega (arith, h.largest i a b, larger);
        })
  | inr less ↦
      let smaller = ltb-false→le _ _ less in
      rw (h.known, less)
        (record {
          known = refl;
          from_start = h.from_start;
          below_index = omega (arith, h.below_index);
          largest = up_to f start index (f c.chosen_index) h.largest smaller;
          first = h.first;
        })
]

choose_largest-IsBest :
    (f : ℕ → ℕ) (start index count : ℕ) (c : Choice)
    → IsBest f start index c
    → IsBest f start (index + count) (choose_largest f index count c)
unfolding choose_largest
choose_largest-IsBest f start index zero c h =
    let same : index ≡ index + 0 = omega arith in subst (λ e. IsBest f start e c) same h
choose_largest-IsBest f start index (suc count) c h =
    let next : suc index + count ≡ index + suc count = omega arith in
    subst (λ e. IsBest f start e (choose_largest f (suc index) count (consider f index c))) next
      (choose_largest-IsBest f start (suc index) count (consider f index c)
        (consider-IsBest f start index c h))

-- The choice of a bucket that has a candidate.
choose_largest-from_nothing :
    (f : ℕ → ℕ) (start count : ℕ)
    → IsBest f start
        (start + suc count)
        (choose_largest f start (suc count) (record { largest_area = none; chosen_index = start }))
unfolding choose_largest consider
choose_largest-from_nothing f start count =
    let next : suc start + count ≡ start + suc count = omega arith in
    let first : Choice = record { largest_area = some (f start); chosen_index = start } in
    subst (λ e. IsBest f start e (choose_largest f (suc start) count first)) next
      (choose_largest-IsBest f start (suc start) count first (record {
        known = refl;
        from_start = omega arith;
        below_index = omega arith;
        largest = λ i a b. (let same : i ≡ start = omega arith in rw same (omega arith));
        first = λ i a b. absurd (omega arith);
      }))

-- `i` is the first index from `start` to `end` with the largest value.
pub record IsFirstLargest (f : ℕ → ℕ) (start end_index i : ℕ) : Type 0 where
  pub from_start : start ≤ i
  pub below_end : i < end_index
  pub largest : (j : ℕ) → start ≤ j → j < end_index → f j ≤ f i
  pub first : (j : ℕ) → start ≤ j → j < i → f j < f i

choose_largest-IsFirstLargest :
    (f : ℕ → ℕ) (start end_index : ℕ)
    → start < end_index
    → IsFirstLargest f start end_index
        (choose_largest f start
          (end_index - start)
          (record { largest_area = none; chosen_index = start })).chosen_index
choose_largest-IsFirstLargest f start end_index h =
    let all = choose_largest-from_nothing f start (end_index - start - 1) in
    let size : suc (end_index - start - 1) ≡ end_index - start = omega arith in
    let whole : start + (end_index - start) ≡ end_index = omega arith in
    let best =
      subst
        (λ e. IsBest f start e (
          choose_largest f start (end_index - start)
            (record { largest_area = none; chosen_index = start })))
        whole
        (subst
          (λ k.
            IsBest f start (start + k)
              (choose_largest f start k (record { largest_area = none; chosen_index = start })))
          size all) in
    record {
      from_start = best.from_start;
      below_end = best.below_index;
      largest = best.largest;
      first = best.first;
    }

-- A bucket chooses the first of its candidates with the largest triangle between the tick chosen
-- before and the average of the next bucket.
pub choose_index-IsFirstLargest :
    (ticks : List MarketTick) (first : MarketTick) (m previous_index bucket : ℕ)
    → 3 ≤ m
    → m < length ticks
    → bucket < m - 2
    → IsFirstLargest
        (area_at ticks first m previous_index bucket)
        (candidate_start (length ticks) m bucket)
        (candidate_end (length ticks) m bucket)
        (choose_index ticks first m previous_index bucket)
unfolding choose_index
choose_index-IsFirstLargest ticks first m previous_index bucket h k lt =
    choose_largest-IsFirstLargest _ _ _ (candidates_bounds (length ticks) m bucket h k lt).1
