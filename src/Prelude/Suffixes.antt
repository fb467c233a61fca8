-- ===== src/Prelude/Suffixes.antt =====
-- The last elements of a list: Python's `xs[-n:]` for a positive `n`, and a bounded deque.
use algo_trading_system.Prelude.{
  ℕ, ◌≤◌, ◌<◌, ◌≡◌, refl, List, [], ◌∷◌, arith, leb, leb→le, if◌then◌else◌, length, All, filterb,
  IsAscending, get_last?, Bool, Bool-cases, inl, inr,
}

module _ {ℓ} {A : Type ℓ} where
  unfoldable pub take_last : ℕ → List A → List A
  take_last n [] = []
  take_last n (x ∷ xs) =
      let rest = take_last n xs in if leb (length (x ∷ xs)) n then x ∷ xs else rest

  pub length-take_last : (n : ℕ) (xs : List A) → length (take_last n xs) ≤ n
  unfolding take_last
  length-take_last n [] = omega arith
  length-take_last n (x ∷ xs) = elim (Bool-cases (leb (length (x ∷ xs)) n)) [
    | inl e ↦ rw e (leb→le _ _ e)
    | inr e ↦ rw e (length-take_last n xs)
  ]

  pub All-take_last {κ} : (P : A → Type κ) (n : ℕ) (xs : List A) → All P xs → All P (take_last n xs)
  unfolding take_last
  All-take_last P n [] h = h
  All-take_last P n (x ∷ xs) h = elim (Bool-cases (leb (length (x ∷ xs)) n)) [
    | inl e ↦ rw e h
    | inr e ↦ rw e (All-take_last P n xs h.1)
  ]

  pub IsAscending-take_last :
      (key : A → ℕ) (n : ℕ) (xs : List A) → IsAscending key xs → IsAscending key (take_last n xs)
  unfolding take_last
  IsAscending-take_last key n [] h = h
  IsAscending-take_last key n (x ∷ xs) h = elim (Bool-cases (leb (length (x ∷ xs)) n)) [
    | inl e ↦ rw e h
    | inr e ↦ rw e (IsAscending-take_last key n xs h.1)
  ]

  pub get_last?-take_last :
      (n : ℕ) (xs : List A) → 0 < n → get_last? (take_last n xs) ≡ get_last? xs
  unfolding take_last
  get_last?-take_last n [] h = refl
  get_last?-take_last n (x ∷ []) h = ground arith
  get_last?-take_last n (x ∷ y ∷ ys) h = elim (Bool-cases (leb (length (x ∷ y ∷ ys)) n)) [
    | inl e ↦ rw e refl
    | inr e ↦ rw e (get_last?-take_last n (y ∷ ys) h)
  ]

  pub All-filterb {κ} :
      (P : A → Type κ) (p : A → Bool) (xs : List A) → All P xs → All P (filterb p xs)
  All-filterb P p [] h = h
  All-filterb P p (x ∷ xs) h = elim (Bool-cases (p x)) [
    | inl e ↦ rw (e, filterb) (h.0, All-filterb P p xs h.1)
    | inr e ↦ rw (e, filterb) (All-filterb P p xs h.1)
  ]

  pub IsAscending-filterb :
      (key : A → ℕ) (p : A → Bool) (xs : List A)
      → IsAscending key xs
      → IsAscending key (filterb p xs)
  IsAscending-filterb key p [] h = h
  IsAscending-filterb key p (x ∷ xs) h = elim (Bool-cases (p x)) [
    | inl e ↦
        rw (e, filterb)
          (All-filterb (λ y. key x ≤ key y) p xs h.0, IsAscending-filterb key p xs h.1)
    | inr e ↦ rw (e, filterb) (IsAscending-filterb key p xs h.1)
  ]
