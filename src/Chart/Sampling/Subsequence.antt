-- ===== src/Chart/Sampling/Subsequence.antt =====
-- A sample is a subsequence of the series: it reads rising indices, and so repeats and moves nothing.
use mathlib.Core.List.Sublist
use mathlib.Core.List.{Sublist, Sublistᴰ}
use algo_trading_system.Prelude.{
  ℕ, zero, suc, ◌+◌, ◌≤◌, ◌<◌, Bool-cases, inl, inr, List, [], ◌∷◌, map, arith, leb, leb-false→lt,
  length, drop, get_or,
}
use algo_trading_system.Prelude.Samples.{nil_sublist, read_sublist}
use algo_trading_system.Chart.Sampling.{sample_index, range_from, sample, sample_points}
use algo_trading_system.Chart.Sampling.Indices.{sample_index-strict, sample_index-lt}

module _ {ℓ} {A : Type ℓ} where
  reads_sublist :
      (xs : List A) (d : A) (f : ℕ → ℕ) (b s k : ℕ)
      → ((i : ℕ) → s ≤ i → i < s + k → b ≤ f i)
      → ((i j : ℕ) → i < j → j < s + k → f i < f j)
      → ((i : ℕ) → i < s + k → f i < length xs)
      → Sublistᴰ (map (λ i. get_or xs (f i) d) (range_from s k)) (drop b xs)
  reads_sublist xs d f b s zero above rises within = nil_sublist (drop b xs)
  reads_sublist xs d f b s (suc k) above rises within =
      read_sublist xs d b (f s) (above s (omega arith) (omega arith)) (within s (omega arith)) (
        reads_sublist xs d f (suc (f s)) (suc s) k (λ i a lt. rises s i (omega arith) (omega arith))
          (λ i j a lt. rises i j a (omega arith)) (λ i lt. within i (omega arith)))

  -- A sample of two points or more is a subsequence of the series: no point is repeated, moved or made
  -- up.
  pub sample_points-sublist : (xs : List A) (m : ℕ) → 2 ≤ m → Sublist (sample_points xs m) xs
  unfolding sample_points sample
  sample_points-sublist [] m h = ∣ nil_sublist [] ∣₁
  sample_points-sublist (p ∷ ps) m h = elim (Bool-cases (leb (length (p ∷ ps)) m)) [
    | inl e ↦ rw e (Sublist.refl (p ∷ ps))
    | inr e ↦
        let long = leb-false→lt _ _ e in
        rw e (
          ∣◌∣₁ (
            reads_sublist (p ∷ ps) p (sample_index (length (p ∷ ps)) m) 0 0 m
              (λ i a lt. omega arith) (λ i j a lt. sample_index-strict _ m i j h (omega arith) a)
              (λ i lt. sample_index-lt _ m i h (omega arith) (omega arith))))
  ]
