-- ===== src/Prelude/Samples.antt =====
-- A sample of a list, and what reading its elements in order gives.
use mathlib.Core.List.{Sublist, Sublistᴰ}
use algo_trading_system.Prelude.{
  ℕ, zero, suc, ◌≤◌, ◌<◌, ◌≡◌, refl, List, [], ◌∷◌, arith, length, drop, get_or, get_elem?,
  get_last?, min,
}

module _ {ℓ} {A : Type ℓ} where
  pub record IsSample (xs : List A) (m : ℕ) (sample : List A) : Type ℓ where
    pub drawn_from : Sublist sample xs
    pub begins : get_elem? sample 0 ≡ get_elem? xs 0
    pub ends : get_last? sample ≡ get_last? xs
    pub size : length sample ≡ min (length xs) m

  pub nil_sublist : (xs : List A) → Sublistᴰ [] xs
  nil_sublist [] = Sublistᴰ.slnil
  nil_sublist (x ∷ xs) = Sublistᴰ.cons (nil_sublist xs)

  -- What is read behind index `i` is read behind any earlier index.
  pub sublist_earlier :
      {l : List A} (xs : List A) (b i : ℕ) → b ≤ i → Sublistᴰ l (drop i xs) → Sublistᴰ l (drop b xs)
  sublist_earlier [] zero zero h r = r
  sublist_earlier [] zero (suc i) h r = r
  sublist_earlier [] (suc b) zero h r = absurd (omega arith)
  sublist_earlier [] (suc b) (suc i) h r = r
  sublist_earlier (x ∷ xs) zero zero h r = r
  sublist_earlier (x ∷ xs) zero (suc i) h r =
      Sublistᴰ.cons (sublist_earlier xs zero i (omega arith) r)
  sublist_earlier (x ∷ xs) (suc b) zero h r = absurd (omega arith)
  sublist_earlier (x ∷ xs) (suc b) (suc i) h r = sublist_earlier xs b i (omega arith) r

  drop_at :
      (xs : List A) (i : ℕ) (d : A) → i < length xs → drop i xs ≡ get_or xs i d ∷ drop (suc i) xs
  drop_at [] i d h = elim h [ ]
  drop_at (x ∷ xs) zero d h = refl
  drop_at (x ∷ xs) (suc i) d h = drop_at xs i d (omega arith)

  -- The element at an index, and then some that are read behind it.
  pub read_sublist :
      {l : List A} (xs : List A) (d : A) (b i : ℕ)
      → b ≤ i
      → i < length xs
      → Sublistᴰ l (drop (suc i) xs)
      → Sublistᴰ (get_or xs i d ∷ l) (drop b xs)
  read_sublist xs d b i h k r =
      sublist_earlier xs b i h (rw (drop_at xs i d k) (Sublistᴰ.cons-cons refl r))
