-- ===== src/Trading/Analytics/Drawdown.antt =====
-- The maximum drawdown is the largest fall of the equity from one moment to a later one.
use algo_trading_system.Prelude.{
  ℕ, ◌≡◌, ◌⊎◌, inl, inr, refl, sym, ap, subst, ◌∙◌, List, [], ◌∷◌, arith, Bool-cases, All, All-mono,
}
use algo_trading_system.Prelude.Int.{
  ℤ, pos, ◌+ℤ◌, ◌-ℤ◌, ◌≤ℤ◌, ltb_ℤ, max_ℤ, max_ℤ_bounds, int_laws, eq_of_parts,
}
use algo_trading_system.Trading.Analytics.{
  DrawdownState, consider_outcome, drawdown_loop, maximum_drawdown,
}

-- The equity after each outcome.
abbrev pub equities : ℤ → List ℤ → List ℤ
equities equity [] = []
equities equity (realized_pnl ∷ outcomes) =
    (equity +ℤ realized_pnl) ∷ equities (equity +ℤ realized_pnl) outcomes

-- No fall from a value to a later one is larger than `r`.
abbrev pub IsBound : ℤ → List ℤ → Type 0
IsBound r [] = Unit
IsBound r (x ∷ xs) = All (λ v. (x -ℤ v) ≤ℤ r) xs × IsBound r xs

-- `r` is the fall from `k` to one of the values.
pub data IsFallFrom (k r : ℤ) : List ℤ → Type 0 where
  to_this : (v : ℤ) (vs : List ℤ) → r ≡ k -ℤ v → IsFallFrom k r (v ∷ vs)
  to_later : (v : ℤ) (vs : List ℤ) → IsFallFrom k r vs → IsFallFrom k r (v ∷ vs)

-- `r` is the fall from one of the values to a later one.
pub data IsFall (r : ℤ) : List ℤ → Type 0 where
  from_this : (x : ℤ) (xs : List ℤ) → IsFallFrom x r xs → IsFall r (x ∷ xs)
  from_later : (x : ℤ) (xs : List ℤ) → IsFall r xs → IsFall r (x ∷ xs)

-- The largest fall the loop has seen when it ends, from the peak and the drawdown that it starts with.
record IsBoundFrom (peak drawdown r : ℤ) (xs : List ℤ) : Type 0 where
  grows : drawdown ≤ℤ r
  from_peak : All (λ v. (peak -ℤ v) ≤ℤ r) xs
  within : IsBound r xs

consider_outcome-equity :
    (p : ℤ) (s : DrawdownState) → (consider_outcome p s).equity ≡ s.equity +ℤ p
unfolding consider_outcome
consider_outcome-equity p s =
    elim (Bool-cases (ltb_ℤ s.max_drawdown (max_ℤ s.peak (s.equity +ℤ p) -ℤ (s.equity +ℤ p)))) [
      | inl e ↦ rw (e, consider_outcome) refl
      | inr e ↦ rw (e, consider_outcome) refl
    ]

-- The step keeps the higher of the peaks and the larger of the drawdowns.
consider_outcome-peak :
    (p : ℤ) (s : DrawdownState) → (consider_outcome p s).peak ≡ max_ℤ s.peak (s.equity +ℤ p)
unfolding consider_outcome
consider_outcome-peak p s =
    elim (Bool-cases (ltb_ℤ s.max_drawdown (max_ℤ s.peak (s.equity +ℤ p) -ℤ (s.equity +ℤ p)))) [
      | inl e ↦ rw (e, consider_outcome) refl
      | inr e ↦ rw (e, consider_outcome) refl
    ]

consider_outcome-drawdown :
    (p : ℤ) (s : DrawdownState)
    → let fall = max_ℤ s.peak (s.equity +ℤ p) -ℤ (s.equity +ℤ p) in
      let after = (consider_outcome p s).max_drawdown in
      (s.max_drawdown ≤ℤ after) × (fall ≤ℤ after) × ((after ≡ s.max_drawdown) ⊎ (after ≡ fall))
unfolding consider_outcome
consider_outcome-drawdown p s =
    elim (Bool-cases (ltb_ℤ s.max_drawdown (max_ℤ s.peak (s.equity +ℤ p) -ℤ (s.equity +ℤ p)))) [
      | inl e ↦ rw (e, consider_outcome) (ground arith, omega arith, inr refl)
      | inr e ↦ rw (e, consider_outcome) (omega arith, ground arith, inl refl)
    ]

drawdown_loop-IsBoundFrom :
    (ps : List ℤ) (s : DrawdownState)
    → s.equity ≤ℤ s.peak
    → IsBoundFrom s.peak s.max_drawdown (drawdown_loop ps s).max_drawdown (equities s.equity ps)
unfolding drawdown_loop
drawdown_loop-IsBoundFrom [] s h = record { grows = omega arith; from_peak = tt; within = tt }
drawdown_loop-IsBoundFrom (p ∷ ps) s h =
    let next = consider_outcome p s in
    let e = s.equity +ℤ p in
    let same_equity = consider_outcome-equity p s in
    let same_peak = consider_outcome-peak p s in
    let higher = max_ℤ_bounds s.peak e in
    let (kept, covered, either) = consider_outcome-drawdown p s in
    let below : next.equity ≤ℤ next.peak = rw (same_equity, same_peak) higher.1 in
    let rest : IsBoundFrom (max_ℤ s.peak e) next.max_drawdown (drawdown_loop ps next).max_drawdown
        (equities e ps) =
      subst
        (λ k. IsBoundFrom k next.max_drawdown (drawdown_loop ps next).max_drawdown (equities e ps))
        same_peak
        (subst
          (λ x.
            IsBoundFrom next.peak next.max_drawdown (drawdown_loop ps next).max_drawdown
              (equities x ps))
          same_equity (drawdown_loop-IsBoundFrom ps next below)) in
    record {
      grows = omega (arith, kept, rest.grows);
      from_peak = (
        omega (int_laws, higher.0, covered, rest.grows),
        All-mono _ _ (equities e ps) (λ v le. omega (int_laws, higher.0, le)) rest.from_peak,
      );
      within = (
        All-mono _ _ (equities e ps) (λ v le. omega (int_laws, higher.1, le)) rest.from_peak,
        rest.within,
      );
    }

-- Where the result of the loop comes from.
data Origin (peak drawdown r : ℤ) (xs : List ℤ) : Type 0 where
  from_start : r ≡ drawdown → Origin peak drawdown r xs
  no_fall : r ≡ pos 0 → Origin peak drawdown r xs
  from_peak : IsFallFrom peak r xs → Origin peak drawdown r xs
  from_value : IsFall r xs → Origin peak drawdown r xs

max_ℤ-cases : (a b : ℤ) → (max_ℤ a b ≡ a) ⊎ (max_ℤ a b ≡ b)
unfolding max_ℤ
max_ℤ-cases a b = ground arith

self_minus : (a : ℤ) → a -ℤ a ≡ pos 0
self_minus a = eq_of_parts _ _ (omega int_laws)

-- A step back in the origin of a result.
step_back :
    (peak drawdown peak_next drawdown_next r e : ℤ) (xs : List ℤ)
    → (peak_next ≡ peak) ⊎ (peak_next ≡ e)
    → (drawdown_next ≡ drawdown) ⊎ (drawdown_next ≡ peak_next -ℤ e)
    → Origin peak_next drawdown_next r xs
    → Origin peak drawdown r (e ∷ xs)
step_back k d k' d' r e xs old (inl same) (from_start h) = from_start (h ∙ same)
step_back k d k' d' r e xs (inl same) (inr fall) (from_start h) =
    from_peak (to_this e xs (h ∙ fall ∙ ap (λ x. x -ℤ e) same))
step_back k d k' d' r e xs (inr new) (inr fall) (from_start h) =
    no_fall (h ∙ fall ∙ ap (λ x. x -ℤ e) new ∙ self_minus e)
step_back k d k' d' r e xs old step (no_fall h) = no_fall h
step_back k d k' d' r e xs (inl same) step (from_peak h) =
    from_peak (to_later e xs (subst (λ x. IsFallFrom x r xs) same h))
step_back k d k' d' r e xs (inr new) step (from_peak h) =
    from_value (from_this e xs (subst (λ x. IsFallFrom x r xs) new h))
step_back k d k' d' r e xs old step (from_value h) = from_value (from_later e xs h)

drawdown_loop-Origin :
    (ps : List ℤ) (s : DrawdownState)
    → Origin s.peak s.max_drawdown (drawdown_loop ps s).max_drawdown (equities s.equity ps)
unfolding drawdown_loop
drawdown_loop-Origin [] s = from_start refl
drawdown_loop-Origin (p ∷ ps) s =
    let next = consider_outcome p s in
    let e = s.equity +ℤ p in
    let same_peak = consider_outcome-peak p s in
    step_back s.peak s.max_drawdown next.peak next.max_drawdown _ e (equities e ps)
      (elim (max_ℤ-cases s.peak e) [ inl h ↦ inl (same_peak ∙ h) | inr h ↦ inr (same_peak ∙ h) ])
      (elim (consider_outcome-drawdown p s).2 [
        | inl h ↦ inl h
        | inr h ↦ inr (h ∙ ap (λ k. k -ℤ e) (sym same_peak))
      ])
      (subst
        (λ x.
          Origin next.peak next.max_drawdown (drawdown_loop ps next).max_drawdown (equities x ps))
        (consider_outcome-equity p s) (drawdown_loop-Origin ps next))

-- The maximum drawdown is the largest fall of the equity, from its start or its value after an
-- outcome to its value after a later one: no such fall is larger, and it is one of them or 0.
pub maximum_drawdown-IsBound :
    (starting_equity : ℕ) (outcomes : List ℤ)
    → let r = (maximum_drawdown starting_equity outcomes).max_drawdown in
      let curve = pos starting_equity ∷ equities (pos starting_equity) outcomes in
      IsBound r curve × (pos 0 ≤ℤ r) × ((r ≡ pos 0) ⊎ IsFall r curve)
unfolding maximum_drawdown
maximum_drawdown-IsBound starting_equity outcomes =
    let start : DrawdownState = record {
      equity = pos starting_equity;
      peak = pos starting_equity;
      max_drawdown = pos 0;
      fraction_numerator = pos 0;
      fraction_denominator = pos 1;
    } in
    let bound = drawdown_loop-IsBoundFrom outcomes start (omega arith) in
    (
      (bound.from_peak, bound.within),
      bound.grows,
      elim (drawdown_loop-Origin outcomes start) [
        | from_start h ↦ inl h
        | no_fall h ↦ inl h
        | from_peak h ↦ inr (from_this _ _ h)
        | from_value h ↦ inr (from_later _ _ h)
      ],
    )
