-- ===== src/Chart/Sampling/Laws.antt =====
-- What a sample keeps: at most `maximum` points, in the order of the series, with both ends.
use algo_trading_system.Prelude.{
  ℕ, zero, suc, ◌+◌, ◌-◌, ◌≤◌, ◌<◌, ◌≡◌, refl, ap, ◌∙◌, sym, Bool-cases, inl, inr, List, [], ◌∷◌,
  map, some, arith, leb, leb→le, leb-false→lt, length, length-map, get_elem?, get_or, get_last?,
  All, All-get_or, IsAscending, get_or_mono, min, get_last?-get_or,
}
use algo_trading_system.Chart.Sampling.{sample_index, range_from, sample, sample_points}
use algo_trading_system.Chart.Sampling.Indices.{
  sample_index_first, sample_index_last, sample_index_mono, sample_index-lt,
}

to_pred : (m : ℕ) → 0 + m ≡ suc m - 1
to_pred m = omega arith

length-range_from : (s k : ℕ) → length (range_from s k) ≡ k
length-range_from s zero = refl
length-range_from s (suc k) = ap suc (length-range_from (suc s) k)

module _ {ℓ} {A : Type ℓ} where
  -- A series longer than `maximum` is cut to exactly `maximum` points, and any other keeps its length.
  pub length-sample_points : (xs : List A) (m : ℕ) → length (sample_points xs m) ≡ min (length xs) m
  unfolding sample_points sample
  length-sample_points [] m = omega arith
  length-sample_points (p ∷ ps) m = elim (Bool-cases (leb (length (p ∷ ps)) m)) [
    | inl e ↦ rw e (omega (arith, leb→le _ _ e))
    | inr e ↦
        rw e
          (length-map (range_from 0 m) _ ∙ omega (arith, length-range_from 0 m, leb-false→lt _ _ e))
  ]

  get_last?-map-range_from :
      (f : ℕ → A) (s k : ℕ) → get_last? (map f (range_from s (suc k))) ≡ some (f (s + k))
  get_last?-map-range_from f s zero = ap (λ t. some (f t)) (omega arith)
  get_last?-map-range_from f s (suc k) =
      get_last?-map-range_from f (suc s) k ∙ ap (λ t. some (f t)) (omega arith)

  last_read : (p : A) (ps : List A) (m : ℕ) → 2 ≤ m → get_last? (sample p ps m) ≡ get_last? (p ∷ ps)
  unfolding sample
  last_read p ps zero h = absurd (omega arith)
  last_read p ps (suc m) h =
      get_last?-map-range_from _ 0 m
      ∙ ap (λ i. some (get_or (p ∷ ps) i p))
          (omega (
            arith,
            ap (sample_index (suc (length ps)) (suc m)) (to_pred m),
            sample_index_last (suc (length ps)) (suc m) h,
          ))
      ∙ sym (get_last?-get_or p ps p)

  pub get_last?-sample_points :
      (xs : List A) (m : ℕ) → 2 ≤ m → get_last? (sample_points xs m) ≡ get_last? xs
  unfolding sample_points
  get_last?-sample_points [] m h = refl
  get_last?-sample_points (p ∷ ps) m h = elim (Bool-cases (leb (length (p ∷ ps)) m)) [
    | inl e ↦ rw e
    | inr e ↦ rw e (last_read p ps m h)
  ]

  pub get_elem?-sample_points_zero :
      (xs : List A) (m : ℕ) → 2 ≤ m → get_elem? (sample_points xs m) 0 ≡ get_elem? xs 0
  unfolding sample_points sample
  get_elem?-sample_points_zero [] m h = refl
  get_elem?-sample_points_zero (p ∷ ps) zero h = absurd (omega arith)
  get_elem?-sample_points_zero (p ∷ ps) (suc m) h =
      elim (Bool-cases (leb (length (p ∷ ps)) (suc m))) [
        | inl e ↦ rw e
        | inr e ↦
            rw e (
              ap (λ i. some (get_or (p ∷ ps) i p)) (sample_index_first (length (p ∷ ps)) (suc m) h))
      ]

  -- A sample of two points or more begins with the first point of the series and ends with the last.
  pub sample_points_ends :
      (xs : List A) (m : ℕ)
      → 2 ≤ m
      → (get_elem? (sample_points xs m) 0 ≡ get_elem? xs 0)
        × (get_last? (sample_points xs m) ≡ get_last? xs)
  sample_points_ends xs m h = (get_elem?-sample_points_zero xs m h, get_last?-sample_points xs m h)

  All-map-range_from {κ} :
      (P : A → Type κ) (f : ℕ → A) (s k : ℕ)
      → ((i : ℕ) → s ≤ i → i < s + k → P (f i))
      → All P (map f (range_from s k))
  All-map-range_from P f s zero h = tt
  All-map-range_from P f s (suc k) h = (
    h s (omega arith) (omega arith),
    All-map-range_from P f (suc s) k (λ i a b. h i (omega arith) (omega arith)),
  )

  IsAscending-map-range_from :
      (key : A → ℕ) (f : ℕ → A) (s k : ℕ)
      → ((i j : ℕ) → i ≤ j → j < s + k → key (f i) ≤ key (f j))
      → IsAscending key (map f (range_from s k))
  IsAscending-map-range_from key f s zero h = tt
  IsAscending-map-range_from key f s (suc k) h = (
    All-map-range_from (λ y. key (f s) ≤ key y) f (suc s) k
        (λ i a b. h s i (omega arith) (omega arith)),
    IsAscending-map-range_from key f (suc s) k (λ i j a b. h i j a (omega arith)),
  )

  pub sample_points-IsAscending :
      (key : A → ℕ) (xs : List A) (m : ℕ)
      → 2 ≤ m
      → IsAscending key xs
      → IsAscending key (sample_points xs m)
  unfolding sample_points sample
  sample_points-IsAscending key [] m h s = s
  sample_points-IsAscending key (p ∷ ps) m h s = elim (Bool-cases (leb (length (p ∷ ps)) m)) [
    | inl e ↦ rw e s
    | inr e ↦ rw e (
        IsAscending-map-range_from key _ 0 m (λ i j a b.
          get_or_mono key (p ∷ ps) _ _ p s (sample_index_mono _ m i j h a)
            (sample_index-lt _ m j h (omega arith) (omega arith))))
  ]

  pub All-sample_points {κ} :
      (P : A → Type κ) (xs : List A) (m : ℕ) → 2 ≤ m → All P xs → All P (sample_points xs m)
  unfolding sample_points sample
  All-sample_points P [] m h a = a
  All-sample_points P (p ∷ ps) m h a = elim (Bool-cases (leb (length (p ∷ ps)) m)) [
    | inl e ↦ rw e a
    | inr e ↦ rw e (
        All-map-range_from P _ 0 m (λ i _ b.
          All-get_or P (p ∷ ps) _ p (sample_index-lt _ m i h (omega arith) (omega arith)) a))
  ]
