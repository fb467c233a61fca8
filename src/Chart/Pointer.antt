-- ===== src/Chart/Pointer.antt =====
-- frontend/src/main.jsx, `PriceChart`: the pointer over the chart (`selectPoint`, `clearHover`, the
-- animation frame and the effect of a new transition).
pub mod Hover
use algo_trading_system.Prelude.{
  ℕ, ◌+◌, ◌-◌, ◌*◌, Bool, true, false, List, [], ◌∷◌, Option, none, some, ◌==◌, if◌then◌else◌, min,
  max,
}
use algo_trading_system.Chart.{Point}
use algo_trading_system.Chart.Nearest.{Target, nearest_index}
use algo_trading_system.Chart.Viewport.{plot_left, plot_right}

abbrev pub view_width : ℕ
view_width = 640

-- A pointer event over the chart: how far right of the left edge it is (an event left of the edge
-- is at 0, since the code clamps it to the plot), and the width of the chart, in one unit.
pub record PointerEvent : Type 0 where
  pub offset : ℕ
  pub width : ℕ

-- `clampedX`, over the width
unfoldable pub clamped_x : PointerEvent → ℕ
clamped_x e = max (plot_left * e.width) (min (plot_right * e.width) (e.offset * view_width))

-- `targetTime`
unfoldable pub target_time : ℕ → ℕ → PointerEvent → Target
unfolding clamped_x
target_time first_time last_time e = record {
  numerator =
      first_time * ((plot_right - plot_left) * e.width)
      + (clamped_x e - plot_left * e.width) * (last_time - first_time);
  denominator = (plot_right - plot_left) * e.width;
}

-- `targetHoverIndex`, `hoverFrame !== null` and `hoveredIndex`
pub record HoverState : Type 0 where
  pub target_index : Option ℕ
  pub frame_pending : Bool
  pub hovered : Option ℕ

abbrev pub no_hover : HoverState
no_hover = record { target_index = none; frame_pending = false; hovered = none }

abbrev pub same_index : Option ℕ → ℕ → Bool
same_index none i = false
same_index (some j) i = j == i

-- `selectPoint` once the nearest index is known
unfoldable pub aim : ℕ → HoverState → HoverState
aim i s =
    if same_index s.target_index i
    then s
    else record s { target_index = some i; frame_pending = true }

unfoldable pub select_point : List Point → ℕ → ℕ → PointerEvent → HoverState → HoverState
unfolding aim
select_point [] first_time last_time e s = s
select_point (p ∷ ps) first_time last_time e s =
    elim (nearest_index (p ∷ ps) (target_time first_time last_time e)) [
      | none ↦ s
      | some i ↦ aim i s
    ]

unfoldable pub clear_hover : HoverState → HoverState
clear_hover s = no_hover

-- The callback of `requestAnimationFrame`; a frame that was cancelled does not fire.
unfoldable pub frame_fires : HoverState → HoverState
frame_fires s =
    if s.frame_pending then record s { frame_pending = false; hovered = s.target_index } else s

-- The effect on `transitionKey`; it leaves a frame that is pending.
unfoldable pub transition_changes : HoverState → HoverState
transition_changes s = record s { target_index = none; hovered = none }

pub data HoverEvent : Type 0 where
  pointer_moves : List Point → ℕ → ℕ → PointerEvent → HoverEvent
  pointer_leaves frame transition : HoverEvent

unfoldable pub hover_step : HoverState → HoverEvent → HoverState
hover_step s (pointer_moves ps first_time last_time e) = select_point ps first_time last_time e s
hover_step s pointer_leaves = clear_hover s
hover_step s frame = frame_fires s
hover_step s transition = transition_changes s

unfoldable pub hover_run : HoverState → List HoverEvent → HoverState
hover_run s [] = s
hover_run s (e ∷ es) = hover_run (hover_step s e) es
