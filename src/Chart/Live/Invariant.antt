-- ===== src/Chart/Live/Invariant.antt =====
-- A series that takes live points stays in order, bounded, and ends with the newest of them.
use algo_trading_system.Prelude.{
  max, ◌⊎◌, ◌-◌, ◌≤◌, ◌≡◌, ◌∙◌, true, false, List, [], ◌∷◌, ◌++◌, some, arith, ltb, leb, Bool-cases,
  Option-cases, inl, inr, leb→le, length, length-append, length-drop_last, get_last?,
  get_last?-append, drop_last, All, All-mono, ltb-false→le, All-append, All-get_last?,
  All-drop_last, IsAscending-append, IsAscending-drop_last, le-get_last?,
}
use algo_trading_system.Chart.{Point, date_parse, max_live_series_points, live_point_interval_ms}
use algo_trading_system.Chart.Points.{IsSeries, IsUsable, usable_parses, time_of}
use algo_trading_system.Chart.Sampling.{cap_live_series}
use algo_trading_system.Chart.Sampling.Laws.{
  length-sample_points, get_last?-sample_points, sample_points-IsAscending, All-sample_points,
}
use algo_trading_system.Chart.Live.{merge_behind, merge_live_point, before, within_interval}

pub get_last?-cap_live_series {ℓ} :
    {A : Type ℓ} (xs : List A) → get_last? (cap_live_series xs) ≡ get_last? xs
unfolding cap_live_series
get_last?-cap_live_series xs = elim (Bool-cases (leb (length xs) max_live_series_points)) [
  | inl e ↦ rw e
  | inr e ↦ rw e (get_last?-sample_points xs 720 (omega arith))
]

length-cap_live_series {ℓ} :
    {A : Type ℓ} (xs : List A) → length (cap_live_series xs) ≤ max_live_series_points
unfolding cap_live_series
length-cap_live_series xs = elim (Bool-cases (leb (length xs) max_live_series_points)) [
  | inl e ↦ rw e (leb→le _ _ e)
  | inr e ↦ rw e (omega (arith, length-sample_points xs 720))
]

cap_live_series-IsSeries : (ps : List Point) → IsSeries ps → IsSeries (cap_live_series ps)
unfolding cap_live_series
cap_live_series-IsSeries ps h = elim (Bool-cases (leb (length ps) max_live_series_points)) [
  | inl e ↦ rw e h
  | inr e ↦ rw e (record {
    usable = All-sample_points IsUsable ps 720 (omega arith) h.usable;
    chronological = sample_points-IsAscending time_of ps 720 (omega arith) h.chronological;
  })
]

-- A usable point at or after the last one may follow the series, and may follow it in place of the
-- last one.
append-IsSeries :
    (ps : List Point) (p : Point)
    → IsSeries ps
    → IsUsable p
    → All (λ q. time_of q ≤ time_of p) ps
    → IsSeries (ps ++ p ∷ [])
append-IsSeries ps p h u later = record {
  usable = All-append IsUsable ps (p ∷ []) h.usable (u, tt);
  chronological = IsAscending-append time_of ps p h.chronological later;
}

drop_last-IsSeries : (ps : List Point) → IsSeries ps → IsSeries (drop_last ps)
drop_last-IsSeries ps h = record {
  usable = All-drop_last IsUsable ps h.usable;
  chronological = IsAscending-drop_last time_of ps h.chronological;
}

-- What a live point does to a series of points with valid dates, on each branch.
merge_behind-IsSeries :
    (ps : List Point) (last incoming : Point)
    → IsSeries ps
    → get_last? ps ≡ some last
    → IsUsable incoming
    → IsSeries (merge_behind ps last incoming)
unfolding merge_behind
merge_behind-IsSeries ps last incoming h e u =
    let u' = All-get_last? IsUsable ps h.usable e in
    elim (Bool-cases (ltb (time_of incoming) (time_of last))) [
      | inl old ↦ rw (usable_parses incoming u, usable_parses last u', old) h
      | inr new ↦
          let not_later = ltb-false→le (time_of incoming) (time_of last) new in
          let earlier : All (λ q. time_of q ≤ time_of incoming) ps =
            All-mono _ _ ps (λ q le. omega (arith, le))
              (le-get_last? time_of ps last h.chronological e) in
          elim (Bool-cases (leb (time_of incoming - time_of last) live_point_interval_ms)) [
            | inl close ↦
                rw (usable_parses incoming u, usable_parses last u', new, close)
                  (append-IsSeries (drop_last ps) incoming (drop_last-IsSeries ps h) u
                    (All-drop_last _ ps earlier))
            | inr apart ↦
                rw (usable_parses incoming u, usable_parses last u', new, apart)
                  (cap_live_series-IsSeries (ps ++ incoming ∷ [])
                    (append-IsSeries ps incoming h u earlier))
          ]
    ]

-- A usable live point keeps a series in order and drawable, wherever its instant falls.
pub merge_live_point-IsSeries :
    (ps : List Point) (incoming : Point)
    → IsSeries ps
    → IsUsable incoming
    → IsSeries (merge_live_point ps incoming)
unfolding merge_live_point
merge_live_point-IsSeries ps incoming h u = elim (Option-cases (get_last? ps)) [
  | inl e ↦ rw (e, merge_live_point) (record { usable = (u, tt); chronological = (tt, tt) })
  | inr (last, e) ↦ rw (e, merge_live_point) (merge_behind-IsSeries ps last incoming h e u)
]

length-merge_behind :
    (ps : List Point) (last incoming : Point)
    → get_last? ps ≡ some last
    → length (merge_behind ps last incoming) ≤ max (length ps) max_live_series_points
unfolding merge_behind
length-merge_behind [] last incoming e = cc
length-merge_behind (p ∷ ps) last incoming e = ground (
  arith,
  length-append (drop_last (p ∷ ps)) (incoming ∷ []),
  length-drop_last (p ∷ ps),
  length-cap_live_series ((p ∷ ps) ++ incoming ∷ []),
)

-- After a live point a series has at most 1200 points, or at most as many as before where it was
-- longer than that already.
length-merge_live_point :
    (ps : List Point) (incoming : Point)
    → length (merge_live_point ps incoming) ≤ max (length ps) max_live_series_points
unfolding merge_live_point
length-merge_live_point ps incoming = elim (Option-cases (get_last? ps)) [
  | inl e ↦ rw (e, merge_live_point) (omega arith)
  | inr (last, e) ↦ rw (e, merge_live_point) (length-merge_behind ps last incoming e)
]

get_last?-merge_behind :
    (ps : List Point) (last incoming : Point)
    → before (date_parse incoming.timestamp) (date_parse last.timestamp) ≡ false
    → get_last? (merge_behind ps last incoming) ≡ some incoming
unfolding merge_behind
get_last?-merge_behind ps last incoming e =
    elim (Bool-cases
      (within_interval (date_parse incoming.timestamp) (date_parse last.timestamp))) [
        | inl close ↦ rw (e, close) (get_last?-append (drop_last ps) incoming)
        | inr apart ↦
            rw (e, apart)
              (get_last?-cap_live_series (ps ++ incoming ∷ []) ∙ get_last?-append ps incoming)
      ]

merge_behind_old :
    (ps : List Point) (last incoming : Point)
    → before (date_parse incoming.timestamp) (date_parse last.timestamp) ≡ true
    → merge_behind ps last incoming ≡ ps
unfolding merge_behind
merge_behind_old ps last incoming e = rw e

-- After a merge the live point is the latest one of the series, also where the series was sampled;
-- the one exception is a live point before the last point, which leaves the series as it was.
merge_live_point_latest :
    (ps : List Point) (incoming : Point)
    → (get_last? (merge_live_point ps incoming) ≡ some incoming)
      ⊎ ((last : Point) × (get_last? ps ≡ some last)
          × (before (date_parse incoming.timestamp) (date_parse last.timestamp) ≡ true)
          × (merge_live_point ps incoming ≡ ps))
unfolding merge_live_point
merge_live_point_latest ps incoming = elim (Option-cases (get_last? ps)) [
  | inl e ↦ inl (rw (e, merge_live_point))
  | inr (last, e) ↦
      elim (Bool-cases (before (date_parse incoming.timestamp) (date_parse last.timestamp))) [
        | inl old ↦
            inr (last, e, old, rw (e, merge_live_point) (merge_behind_old ps last incoming old))
        | inr new ↦ inl (rw (e, merge_live_point) (get_last?-merge_behind ps last incoming new))
      ]
]

-- A live point becomes the last point of the series, which then has at most 1200 points, or as many as
-- before where it was longer than that already; the one exception is a live point before the last
-- point, which leaves the series as it was.
pub merge_live_point_outcome :
    (ps : List Point) (incoming : Point)
    → (length (merge_live_point ps incoming) ≤ max (length ps) max_live_series_points)
      × ((get_last? (merge_live_point ps incoming) ≡ some incoming)
          ⊎ ((last : Point) × (get_last? ps ≡ some last)
              × (before (date_parse incoming.timestamp) (date_parse last.timestamp) ≡ true)
              × (merge_live_point ps incoming ≡ ps)))
merge_live_point_outcome ps incoming =
    (length-merge_live_point ps incoming, merge_live_point_latest ps incoming)
