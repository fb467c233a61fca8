-- ===== src/Prelude/Lists.antt =====
-- Lists measured and indexed by native numbers, under the library's names.
use Prim.Native.Nat.{ℕ, zero, suc, ◌+◌, ◌-◌, ◌<◌, ◌≤◌}
use mathlib.Core.Path.{◌≡◌, refl, ap, subst}
use mathlib.Core.Bool.{Bool, true}
use mathlib.Core.List.{List, [], ◌∷◌, ◌++◌, map}
use mathlib.Core.Option.{Option, none, some}
use native.Mathlib.Omega.{arith}
use mathlib.Core.Logic.{inl, inr}
use algo_trading_system.Prelude.Tests.{if◌then◌else◌, Bool-cases}

module _ {ℓ} {A : Type ℓ} where
  abbrev pub length : List A → ℕ
  length [] = 0
  length (x ∷ xs) = suc (length xs)

  abbrev pub get_elem? : List A → ℕ → Option A
  get_elem? [] i = none
  get_elem? (x ∷ xs) zero = some x
  get_elem? (x ∷ xs) (suc i) = get_elem? xs i

  abbrev pub get_or : List A → ℕ → A → A
  get_or [] i d = d
  get_or (x ∷ xs) zero d = x
  get_or (x ∷ xs) (suc i) d = get_or xs i d

  abbrev pub drop : ℕ → List A → List A
  drop zero xs = xs
  drop (suc n) [] = []
  drop (suc n) (x ∷ xs) = drop n xs

  abbrev pub take : ℕ → List A → List A
  take zero xs = []
  take (suc n) [] = []
  take (suc n) (x ∷ xs) = x ∷ take n xs

  -- `points.at(-1)`: nothing of an empty list.
  abbrev pub get_last? : List A → Option A
  get_last? [] = none
  get_last? (x ∷ []) = some x
  get_last? (x ∷ y ∷ ys) = get_last? (y ∷ ys)

  -- `points.slice(0, -1)`.
  abbrev pub drop_last : List A → List A
  drop_last [] = []
  drop_last (x ∷ []) = []
  drop_last (x ∷ y ∷ ys) = x ∷ drop_last (y ∷ ys)

  abbrev pub filterb : (A → Bool) → List A → List A
  filterb p [] = []
  filterb p (x ∷ xs) = let rest = filterb p xs in if p x then x ∷ rest else rest

  -- Every element has the property.
  abbrev pub All {κ} : (A → Type κ) → List A → Type κ
  All P [] = Unit
  All P (x ∷ xs) = P x × All P xs

  pub length-append : (xs ys : List A) → length (xs ++ ys) ≡ length xs + length ys
  length-append [] ys = omega arith
  length-append (x ∷ xs) ys = omega (arith, length-append xs ys)

  pub length-drop_last : (xs : List A) → length (drop_last xs) ≡ length xs - 1
  length-drop_last [] = omega arith
  length-drop_last (x ∷ []) = omega arith
  length-drop_last (x ∷ y ∷ ys) = omega (arith, length-drop_last (y ∷ ys))

  pub get_last?-append : (xs : List A) (y : A) → get_last? (xs ++ y ∷ []) ≡ some y
  get_last?-append [] y = refl
  get_last?-append (x ∷ []) y = refl
  get_last?-append (x ∷ z ∷ zs) y = get_last?-append (z ∷ zs) y

  pub no_last : (xs : List A) → get_last? xs ≡ none → xs ≡ []
  no_last [] h = refl
  no_last (x ∷ []) h = cc
  no_last (x ∷ y ∷ ys) h = let e = no_last (y ∷ ys) h in cc

  pub get_last?-cons :
      (x : A) (xs : List A) {z : A} → get_last? xs ≡ some z → get_last? (x ∷ xs) ≡ some z
  get_last?-cons x [] h = cc
  get_last?-cons x (y ∷ ys) h = h

  -- An index in range reads an element, whatever the default is.
  pub get_elem?-get_or :
      (xs : List A) (i : ℕ) (d : A) → i < length xs → get_elem? xs i ≡ some (get_or xs i d)
  get_elem?-get_or [] i d h = elim h [ ]
  get_elem?-get_or (x ∷ xs) zero d h = refl
  get_elem?-get_or (x ∷ xs) (suc i) d h = get_elem?-get_or xs i d (omega arith)

  pub get_last?-get_or :
      (x : A) (xs : List A) (d : A) → get_last? (x ∷ xs) ≡ some (get_or (x ∷ xs) (length xs) d)
  get_last?-get_or x [] d = refl
  get_last?-get_or x (y ∷ ys) d = get_last?-get_or y ys d

  pub All-append {κ} : (P : A → Type κ) (xs ys : List A) → All P xs → All P ys → All P (xs ++ ys)
  All-append P [] ys h k = k
  All-append P (x ∷ xs) ys h k = (h.0, All-append P xs ys h.1 k)

  pub All-get_or {κ} :
      (P : A → Type κ) (xs : List A) (i : ℕ) (d : A) → i < length xs → All P xs → P (get_or xs i d)
  All-get_or P [] i d h k = elim h [ ]
  All-get_or P (x ∷ xs) zero d h k = k.0
  All-get_or P (x ∷ xs) (suc i) d h k = All-get_or P xs i d (omega arith) k.1

  pub All-get_last? {κ} :
      (P : A → Type κ) (xs : List A) {x : A} → All P xs → get_last? xs ≡ some x → P x
  All-get_last? P [] h e = cc
  All-get_last? P (y ∷ []) {x} h e = let same : y ≡ x = cc in subst P same h.0
  All-get_last? P (y ∷ z ∷ zs) h e = All-get_last? P (z ∷ zs) h.1 e

  pub All-of-get_or {κ} :
      (P : A → Type κ) (xs : List A) (d : A)
      → ((i : ℕ) → i < length xs → P (get_or xs i d))
      → All P xs
  All-of-get_or P [] d f = tt
  All-of-get_or P (x ∷ xs) d f =
      (f 0 (omega arith), All-of-get_or P xs d (λ i lt. f (suc i) (omega arith)))

  pub All-mono {κ μ} :
      (P : A → Type κ) (Q : A → Type μ) (xs : List A) → ((x : A) → P x → Q x) → All P xs → All Q xs
  All-mono P Q [] f h = tt
  All-mono P Q (x ∷ xs) f h = (f x h.0, All-mono P Q xs f h.1)

  pub All-drop_last {κ} : (P : A → Type κ) (xs : List A) → All P xs → All P (drop_last xs)
  All-drop_last P [] h = h
  All-drop_last P (x ∷ []) h = h.1
  All-drop_last P (x ∷ y ∷ ys) h = (h.0, All-drop_last P (y ∷ ys) h.1)

  pub filterb-All : (p : A → Bool) (xs : List A) → All (λ x. p x ≡ true) (filterb p xs)
  filterb-All p [] = tt
  filterb-All p (x ∷ xs) = elim (Bool-cases (p x)) [
    | inl e ↦ rw (e, filterb) (e, filterb-All p xs)
    | inr e ↦ rw (e, filterb) (filterb-All p xs)
  ]

  pub filterb_self : (p : A → Bool) (xs : List A) → All (λ x. p x ≡ true) xs → filterb p xs ≡ xs
  filterb_self p [] h = refl
  filterb_self p (x ∷ xs) h = rw (h.0, filterb) (ap (x ∷◌) (filterb_self p xs h.1))

-- Sorted by a key.
abbrev pub IsAscending {ℓ} : {A : Type ℓ} → (A → ℕ) → List A → Type 0
IsAscending key [] = Unit
IsAscending key (x ∷ xs) = All (λ y. key x ≤ key y) xs × IsAscending key xs

module _ {ℓ} {A : Type ℓ} (key : A → ℕ) where
  pub get_or_mono :
      (xs : List A) (i j : ℕ) (d : A)
      → IsAscending key xs
      → i ≤ j
      → j < length xs
      → key (get_or xs i d) ≤ key (get_or xs j d)
  get_or_mono [] i j d s h k = absurd (omega arith)
  get_or_mono (x ∷ xs) zero zero d s h k = omega arith
  get_or_mono (x ∷ xs) zero (suc j) d s h k =
      All-get_or (λ y. key x ≤ key y) xs j d (omega arith) s.0
  get_or_mono (x ∷ xs) (suc i) zero d s h k = absurd (omega arith)
  get_or_mono (x ∷ xs) (suc i) (suc j) d s h k =
      get_or_mono xs i j d s.1 (omega arith) (omega arith)

  -- A list stays sorted when an element is added behind that comes after its last one.
  pub IsAscending-append :
      (xs : List A) (y : A)
      → IsAscending key xs
      → All (λ x. key x ≤ key y) xs
      → IsAscending key (xs ++ y ∷ [])
  IsAscending-append [] y s h = (tt, tt)
  IsAscending-append (x ∷ xs) y s h =
      (All-append (λ z. key x ≤ key z) xs (y ∷ []) s.0 (h.0, tt), IsAscending-append xs y s.1 h.1)

  pub IsAscending-drop_last : (xs : List A) → IsAscending key xs → IsAscending key (drop_last xs)
  IsAscending-drop_last [] s = s
  IsAscending-drop_last (x ∷ []) s = tt
  IsAscending-drop_last (x ∷ y ∷ ys) s =
      (All-drop_last (λ z. key x ≤ key z) (y ∷ ys) s.0, IsAscending-drop_last (y ∷ ys) s.1)

  -- The last element of a sorted list comes after all the others.
  pub le-get_last? :
      (xs : List A) (z : A)
      → IsAscending key xs
      → get_last? xs ≡ some z
      → All (λ x. key x ≤ key z) xs
  le-get_last? [] z s e = tt
  le-get_last? (x ∷ []) z s e = (ground arith, tt)
  le-get_last? (x ∷ y ∷ ys) z s e =
      let rest = le-get_last? (y ∷ ys) z s.1 e in (omega (arith, s.0.0, rest.0), rest)

module _ {ℓ} {A : Type ℓ} where
  pub length-map {κ} : {B : Type κ} (xs : List A) (f : A → B) → length (map f xs) ≡ length xs
  length-map [] f = refl
  length-map (x ∷ xs) f = ap suc (length-map xs f)
