-- ===== src/Chart/Pointer/Hover.antt =====
-- The point under the pointer: the target time lies on the chart, no update is lost, and what is
-- shown after the next frame is a nearest point.
use algo_trading_system.Prelude.{
  subst, ◌-◌, ℕ, ◌+◌, ◌-◌, ◌*◌, ◌≤◌, ◌<◌, ◌≡◌, ◌⊎◌, inl, inr, refl, true, List, [], ◌∷◌, some,
  arith, Option-cases, ==_iff,
}
use algo_trading_system.Chart.{Point}
use algo_trading_system.Chart.Points.{IsSeries}
use algo_trading_system.Chart.Nearest.{nearest_index}
use algo_trading_system.Chart.Nearest.Search.{IsNearest, nearest_index_lem}
use algo_trading_system.Chart.Pointer.{
  PointerEvent, clamped_x, target_time, HoverState, aim, select_point, clear_hover, frame_fires,
  transition_changes, HoverEvent, pointer_moves, pointer_leaves, frame, transition, hover_step,
  hover_run,
}

clamped_x_bounds : (e : PointerEvent) → (12 * e.width ≤ clamped_x e) × (clamped_x e ≤ 550 * e.width)
unfolding clamped_x
clamped_x_bounds e = omega arith

mul_mono : (a b d : ℕ) → a ≤ b → a * d ≤ b * d
mul_mono a b d h = grind arith

-- A share of at most `d` of the gap between two times, over `d`.
share_bounds :
    (first gap c d : ℕ)
    → c ≤ d
    → (first * d ≤ first * d + c * gap) × (first * d + c * gap ≤ (first + gap) * d)
share_bounds first gap c d h = (omega arith, omega (arith, mul_mono c d gap h))

-- On a chart of some width whose last time is not before its first, the time that the pointer aims at
-- lies between the two, wherever the pointer is, and its denominator is not 0.
pub target_time_bounds :
    (first last : ℕ) (e : PointerEvent)
    → first ≤ last
    → 0 < e.width
    → (0 < (target_time first last e).denominator)
      × (first * (target_time first last e).denominator ≤ (target_time first last e).numerator)
      × ((target_time first last e).numerator ≤ last * (target_time first last e).denominator)
unfolding target_time
target_time_bounds first last e h w =
    let within = clamped_x_bounds e in
    let bounds =
      share_bounds first (last - first) (clamped_x e - 12 * e.width) (538 * e.width)
        (omega (arith, within.0, within.1)) in
    let total : first + (last - first) ≡ last = omega arith in
    (
      omega arith,
      bounds.0,
      subst
          (λ t.
            first * (538 * e.width) + (clamped_x e - 12 * e.width) * (last - first)
            ≤ t * (538 * e.width))
          total bounds.1,
    )

-- With no frame pending the hovered point is the one last aimed at.
abbrev pub IsSettled : HoverState → Type 0
IsSettled s = (s.frame_pending ≡ true) ⊎ (s.hovered ≡ s.target_index)

aim-IsSettled : (i : ℕ) (s : HoverState) → IsSettled s → IsSettled (aim i s)
unfolding aim
aim-IsSettled i s h = ground arith

select_point-IsSettled :
    (ps : List Point) (first last : ℕ) (e : PointerEvent) (s : HoverState)
    → IsSettled s
    → IsSettled (select_point ps first last e s)
unfolding select_point
select_point-IsSettled [] first last e s h = h
select_point-IsSettled (p ∷ ps) first last e s h =
    elim (Option-cases (nearest_index (p ∷ ps) (target_time first last e))) [
      | inl none' ↦ rw (none', select_point) h
      | inr (i, some') ↦ rw (some', select_point) (aim-IsSettled i s h)
    ]

hover_step-IsSettled : (s : HoverState) (e : HoverEvent) → IsSettled s → IsSettled (hover_step s e)
unfolding hover_step clear_hover frame_fires transition_changes
hover_step-IsSettled s (pointer_moves ps first last e) h =
    select_point-IsSettled ps first last e s h
hover_step-IsSettled s pointer_leaves h = inr refl
hover_step-IsSettled s frame h = ground arith
hover_step-IsSettled s transition h = ground arith

-- From a state where the shown point is the one last aimed at, or a frame that will show it is pending,
-- any sequence of pointer moves, leaves, frames and transitions leads to such a state again.
pub hover_run-IsSettled :
    (s : HoverState) (es : List HoverEvent) → IsSettled s → IsSettled (hover_run s es)
unfolding hover_run
hover_run-IsSettled s [] h = h
hover_run-IsSettled s (e ∷ es) h =
    hover_run-IsSettled (hover_step s e) es (hover_step-IsSettled s e h)

aim_frame : (i : ℕ) (s : HoverState) → IsSettled s → (frame_fires (aim i s)).hovered ≡ some i
unfolding aim frame_fires
aim_frame i s h = elim (Option-cases s.target_index) [
  | inl e ↦ rw e refl
  | inr (j, e) ↦ ground (arith, ==_iff j i)
]

-- Where the shown point is the one last aimed at or a frame is pending, a move of the pointer over a
-- series with at least one point, and then the next frame, show a point of it that is at least as near
-- to the target time as every other one.
pub select_point_frame :
    (p : Point) (ps : List Point) (first last : ℕ) (e : PointerEvent) (s : HoverState)
    → IsSeries (p ∷ ps)
    → IsSettled s
    → (r : ℕ) × ((frame_fires (select_point (p ∷ ps) first last e s)).hovered ≡ some r)
      × IsNearest (target_time first last e) p ps r
unfolding select_point
select_point_frame p ps first last e s h settled =
    let (r, found, nearest) = nearest_index_lem (target_time first last e) p ps h in
    (r, rw (found, select_point) (aim_frame r s settled), nearest)
