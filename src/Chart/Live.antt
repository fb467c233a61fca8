-- ===== src/Chart/Live.antt =====
-- frontend/src/main.jsx: `mergeLivePoint`, which adds one live point to the series on the screen.
pub mod Invariant
use algo_trading_system.Prelude.{
  ℕ, ◌-◌, Bool, true, false, List, [], ◌∷◌, ◌++◌, Option, none, some, ltb, leb, if◌then◌else◌,
  get_last?, drop_last,
}
use algo_trading_system.Chart.{Point, date_parse, live_point_interval_ms}
use algo_trading_system.Chart.Sampling.{cap_live_series}

-- A comparison with NaN is false.
abbrev pub before : Option ℕ → Option ℕ → Bool
before none b = false
before (some a) none = false
before (some a) (some b) = ltb a b

-- `incomingTime - lastTime <= LIVE_POINT_INTERVAL_MS`, asked only where `incomingTime < lastTime`
-- is false, so that the difference is a natural number.
abbrev pub within_interval : Option ℕ → Option ℕ → Bool
within_interval none b = false
within_interval (some a) none = false
within_interval (some a) (some b) = leb (a - b) live_point_interval_ms

unfoldable pub merge_behind : List Point → Point → Point → List Point
unfolding cap_live_series
merge_behind points last incoming =
    let incoming_time = date_parse incoming.timestamp in
    let last_time = date_parse last.timestamp in
    if before incoming_time last_time
    then points
    else if within_interval incoming_time last_time
    then drop_last points ++ incoming ∷ []
    else cap_live_series (points ++ incoming ∷ [])

unfoldable pub merge_live_point : List Point → Point → List Point
unfolding merge_behind
merge_live_point points incoming = elim (get_last? points) [
  | none ↦ incoming ∷ []
  | some last ↦ merge_behind points last incoming
]
