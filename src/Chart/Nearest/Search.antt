-- ===== src/Chart/Nearest/Search.antt =====
-- The search ends within its fuel, at a point that is nearest to the target.
use native.Mathlib.Decide.{dec_lt}
use mathlib.Core.Option
use mathlib.Core.Path.{ap, ap₂, sym, ◌∙◌}
use algo_trading_system.Prelude.{
  All, All-of-get_or, ==_iff, subst, get_or, ◌∷◌, All-get_or, get_elem?-get_or, get_or_mono, ℕ,
  zero, suc, ◌+◌, ◌-◌, ◌*◌, ◌/◌, ◌≤◌, ◌<◌, ◌≡◌, Bool, true, false, List, some, arith, ltb, ◌==◌,
  Bool-cases, inl, inr, ltb→lt, ltb-false→le, length,
}
use algo_trading_system.Chart.{Point}
use algo_trading_system.Chart.Points.{IsSeries, IsUsable, usable_parses, time_of}
use algo_trading_system.Chart.Nearest.{
  Target, date_at, before_target, choose, distance, nearer, search, nearest_index,
}

-- What the loop finds between `low` and `high`: the point before it is below, and it is not below
-- itself unless it is the last one.
pub record Found (below : ℕ → Bool) (low high r : ℕ) : Type 0 where
  pub from : low ≤ r
  pub to : r ≤ high
  pub not_below : r < high → below r ≡ false
  pub previous_below : low < r → below (r - 1) ≡ true

Found-right :
    (below : ℕ → Bool) (low middle high r : ℕ)
    → low ≤ middle
    → below middle ≡ true
    → Found below (middle + 1) high r
    → Found below low high r
Found-right below low middle high r le e h = record {
  from = omega (arith, h.from);
  to = h.to;
  not_below = h.not_below;
  previous_below = λ lt. elim (dec_lt (middle + 1) r) [
    | yes gt ↦ h.previous_below gt
    | no le' ↦ subst (λ i. below i ≡ true) (omega (arith, h.from)) e
  ];
}

Found-left :
    (below : ℕ → Bool) (low middle high r : ℕ)
    → middle ≤ high
    → below middle ≡ false
    → Found below low middle r
    → Found below low high r
Found-left below low middle high r le e h = record {
  from = h.from;
  to = omega (arith, h.to);
  not_below = λ lt. elim (dec_lt r middle) [
    | yes gt ↦ h.not_below gt
    | no le' ↦ subst (λ i. below i ≡ false) (omega (arith, h.to)) e
  ];
  previous_below = h.previous_below;
}

search-Found :
    (fuel : ℕ) (below : ℕ → Bool) (low high : ℕ)
    → high - low < fuel
    → low ≤ high
    → (r : ℕ) × (search fuel below low high ≡ some r) × Found below low high r
unfolding search
search-Found zero below low high h le = elim h [ ]
search-Found (suc fuel) below low high h le = elim (Bool-cases (ltb low high)) [
  | inl more ↦
      let middle : ℕ = (low + high) / 2 in
      let lt = ltb→lt _ _ more in
      elim (Bool-cases (below ((low + high) / 2))) [
        | inl e ↦
            let (r, runs, found) =
              search-Found fuel below (middle + 1) high (omega arith) (omega arith) in
            (r, rw (more, e) runs, Found-right below low middle high r (omega arith) e found)
        | inr e ↦
            let (r, runs, found) = search-Found fuel below low middle (omega arith) (omega arith) in
            (r, rw (more, e) runs, Found-left below low middle high r (omega arith) e found)
      ]
  | inr over ↦
      let ge = ltb-false→le _ _ over in
      (
        low,
        rw over,
        record {
          from = omega arith;
          to = le;
          not_below = λ lt. absurd (omega arith);
          previous_below = λ lt. absurd (omega arith);
        },
      )
]

mul_mono : (a b d : ℕ) → a ≤ b → a * d ≤ b * d
mul_mono a b d h = grind arith

abbrev gap : ℕ → ℕ → ℕ
gap num x = (x - num) + (num - x)

-- Over rising numbers `x 0 ≤ … ≤ x (n - 1)`.
module _ (x : ℕ → ℕ) (num n : ℕ) (mono : (i j : ℕ) → i ≤ j → j < n → x i ≤ x j) where
  right_of : (r j : ℕ) → r ≤ j → j < n → (r < n - 1 → num ≤ x r) → gap num (x r) ≤ gap num (x j)
  right_of r j le lt not_below = elim (dec_lt r (n - 1)) [
    | yes h ↦ omega (arith, not_below h, mono r j le lt)
    | no h ↦ let same : j ≡ r = omega arith in rw same (omega arith)
  ]

  left_of : (r j : ℕ) → j ≤ r → r < n → x r ≤ num → gap num (x r) ≤ gap num (x j)
  left_of r j le lt below = omega (arith, mono j r le lt)

-- The time of the point at an index in range, as the search reads it.
abbrev time_at : Point → List Point → ℕ → ℕ
time_at p ps i = time_of (get_or (p ∷ ps) i p)

date_at-time_at :
    (p : Point) (ps : List Point) (i : ℕ)
    → IsSeries (p ∷ ps)
    → i < length (p ∷ ps)
    → date_at (p ∷ ps) i ≡ some (time_at p ps i)
date_at-time_at p ps i h lt =
    rw (get_elem?-get_or (p ∷ ps) i p lt, date_at)
      (usable_parses (get_or (p ∷ ps) i p) (All-get_or IsUsable (p ∷ ps) i p lt h.usable))

-- `r` reads a point that is at least as near as every other one.
abbrev pub IsNearest : Target → Point → List Point → ℕ → Type 0
IsNearest target p ps r =
    (r < length (p ∷ ps))
    × All (λ q. distance target (time_at p ps r) ≤ distance target (time_of q)) (p ∷ ps)

module _ (target : Target) (p : Point) (ps : List Point) (h : IsSeries (p ∷ ps)) where
  open target use {numerator, denominator}

  abbrev scaled : ℕ → ℕ
  scaled i = time_at p ps i * denominator

  scaled_mono : (i j : ℕ) → i ≤ j → j < length (p ∷ ps) → scaled i ≤ scaled j
  scaled_mono i j le lt =
      mul_mono _ _ denominator (get_or_mono time_of (p ∷ ps) i j p h.chronological le lt)

  -- What a test of the loop says of a time in range.
  below→lt :
      (i : ℕ)
      → i < length (p ∷ ps)
      → before_target target (date_at (p ∷ ps) i) ≡ true
      → scaled i < numerator
  below→lt i lt e =
      ltb→lt _ _ (subst (λ d. before_target target d ≡ true) (date_at-time_at p ps i h lt) e)

  not_below→le :
      (i : ℕ)
      → i < length (p ∷ ps)
      → before_target target (date_at (p ∷ ps) i) ≡ false
      → numerator ≤ scaled i
  not_below→le i lt e =
      ltb-false→le _ _ (subst (λ d. before_target target d ≡ false) (date_at-time_at p ps i h lt) e)

  nearer-distance :
      (i j : ℕ)
      → i < length (p ∷ ps)
      → j < length (p ∷ ps)
      → nearer target (date_at (p ∷ ps) i) (date_at (p ∷ ps) j)
        ≡ ltb (distance target (time_at p ps i)) (distance target (time_at p ps j))
  nearer-distance i j a b =
      ap₂ (nearer target) (date_at-time_at p ps i h a) (date_at-time_at p ps j h b)

  module _ (r : ℕ)
      (found : Found
        (λ i. before_target target (date_at (p ∷ ps) i))
        0
        (length (p ∷ ps) - 1)
        r) where
    right_side :
        (j : ℕ)
        → r ≤ j
        → j < length (p ∷ ps)
        → distance target (time_at p ps r) ≤ distance target (time_at p ps j)
    right_side j le lt =
        right_of scaled numerator (length (p ∷ ps)) scaled_mono r j le lt
          (λ inside. not_below→le r (omega arith) (found.not_below (omega arith)))

    left_side :
        (j : ℕ) → j < r → distance target (time_at p ps (r - 1)) ≤ distance target (time_at p ps j)
    left_side j lt =
        left_of scaled numerator (length (p ∷ ps)) scaled_mono (r - 1) j (omega arith)
          (omega (arith, found.to))
          (omega (
            arith,
            below→lt (r - 1) (omega (arith, found.to)) (found.previous_below (omega arith)),
          ))

    IsNearest-of_all :
        (i : ℕ)
        → i < length (p ∷ ps)
        → ((j : ℕ)
            → j < length (p ∷ ps)
            → distance target (time_at p ps i) ≤ distance target (time_at p ps j))
        → IsNearest target p ps i
    IsNearest-of_all i lt f = (lt, All-of-get_or _ (p ∷ ps) p f)

    choose-IsNearest : IsNearest target p ps (choose target (p ∷ ps) r)
    choose-IsNearest = elim (Bool-cases (r == 0)) [
      | inl e ↦ subst (IsNearest target p ps) {x = r} (rw (e, choose)) (
          IsNearest-of_all r (omega (arith, found.to))
            (λ j lt. right_side j (omega (arith, (==_iff r 0).0 e)) lt))
      | inr e ↦
          let pos : 0 < r = ground arith in
          let step =
            nearer-distance r (r - 1) (omega (arith, found.to)) (omega (arith, found.to)) in
          elim (Bool-cases (nearer target (date_at (p ∷ ps) r) (date_at (p ∷ ps) (r - 1)))) [
            | inl near ↦
                let closer = ltb→lt _ _ (sym step ∙ near) in
                subst (IsNearest target p ps) {x = r} (rw (e, near, choose)) (
                  IsNearest-of_all r (omega (arith, found.to)) (λ j lt. elim (dec_lt j r) [
                    | yes left ↦ omega (arith, closer, left_side j left)
                    | no right ↦ right_side j (omega arith) lt
                  ]))
            | inr far ↦
                let closer = ltb-false→le _ _ (sym step ∙ far) in
                subst (IsNearest target p ps) {x = r - 1} (rw (e, far, choose)) (
                  IsNearest-of_all (r - 1) (omega (arith, found.to)) (λ j lt. elim (dec_lt j r) [
                    | yes left ↦ left_side j left
                    | no right ↦ omega (arith, closer, right_side j (omega arith) lt)
                  ]))
          ]
    ]

-- On a series with at least one point the search ends, with an index in range whose point is at
-- least as near to the target time as every other point.
pub nearest_index_lem :
    (target : Target) (p : Point) (ps : List Point)
    → IsSeries (p ∷ ps)
    → (r : ℕ) × (nearest_index (p ∷ ps) target ≡ some r) × IsNearest target p ps r
unfolding nearest_index
nearest_index_lem target p ps h =
    let (r, runs, found) =
      search-Found (suc (length (p ∷ ps))) (λ i. before_target target (date_at (p ∷ ps) i)) 0
        (length (p ∷ ps) - 1) (omega arith) (omega arith) in
    (
      choose target (p ∷ ps) r,
      ap (Option.map (choose target (p ∷ ps))) runs,
      choose-IsNearest target p ps h r found,
    )
