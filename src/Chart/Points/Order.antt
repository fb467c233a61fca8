-- ===== src/Chart/Points/Order.antt =====
-- The order of a normalized series, and that normalizing it again changes nothing.
use algo_trading_system.Prelude.{
  ℕ, ◌≤◌, ◌≡◌, refl, List, [], ◌∷◌, map, Option, some, arith, leb, inl, inr, Bool-cases, leb→le,
  leb-false→lt, filterb, filterb-All, filterb_self, All, ap, le→leb,
}
use algo_trading_system.Chart.{Point}
use algo_trading_system.Chart.Points.{
  usable, time_of, present, insert_by_time, sort_by_time, normalize_points, IsChronological,
  IsUsable, IsSeries,
}

pub All-insert_by_time {κ} :
    (P : Point → Type κ) (p : Point) (qs : List Point)
    → P p
    → All P qs
    → All P (insert_by_time p qs)
unfolding insert_by_time
All-insert_by_time P p [] h k = (h, k)
All-insert_by_time P p (q ∷ qs) h k = elim (Bool-cases (leb (time_of p) (time_of q))) [
  | inl e ↦ rw e (h, k)
  | inr e ↦ rw e (k.0, All-insert_by_time P p qs h k.1)
]

pub All-sort_by_time {κ} :
    (P : Point → Type κ) (ps : List Point) → All P ps → All P (sort_by_time ps)
unfolding sort_by_time
All-sort_by_time P [] h = h
All-sort_by_time P (p ∷ ps) h =
    All-insert_by_time P p (sort_by_time ps) h.0 (All-sort_by_time P ps h.1)

All-later :
    (a b : ℕ) (qs : List Point) → a ≤ b → All (λ q. b ≤ time_of q) qs → All (λ q. a ≤ time_of q) qs
All-later a b [] h k = tt
All-later a b (q ∷ qs) h k = (omega (arith, k.0), All-later a b qs h k.1)

insert_by_time-IsChronological :
    (p : Point) (qs : List Point) → IsChronological qs → IsChronological (insert_by_time p qs)
unfolding insert_by_time
insert_by_time-IsChronological p [] h = (tt, tt)
insert_by_time-IsChronological p (q ∷ qs) h = elim (Bool-cases (leb (time_of p) (time_of q))) [
  | inl e ↦ let le = leb→le _ _ e in rw e ((le, All-later (time_of p) (time_of q) qs le h.0), h)
  | inr e ↦
      let le = leb-false→lt _ _ e in
      rw e (
        All-insert_by_time (λ r. time_of q ≤ time_of r) p qs (omega arith) h.0,
        insert_by_time-IsChronological p qs h.1,
      )
]

sort_by_time-IsChronological : (ps : List Point) → IsChronological (sort_by_time ps)
unfolding sort_by_time
sort_by_time-IsChronological [] = tt
sort_by_time-IsChronological (p ∷ ps) =
    insert_by_time-IsChronological p (sort_by_time ps) (sort_by_time-IsChronological ps)

-- Whatever the response holds, the normalized series is chronological and holds points with a
-- finite price and a timestamp that parses only.
pub normalize_points-IsSeries : (xs : List (Option Point)) → IsSeries (normalize_points xs)
unfolding normalize_points
normalize_points-IsSeries xs = record {
  usable = All-sort_by_time IsUsable _ (filterb-All usable (present xs));
  chronological = sort_by_time-IsChronological (filterb usable (present xs));
}

present-some : (ps : List Point) → present (map some ps) ≡ ps
unfolding present
present-some [] = refl
present-some (p ∷ ps) = ap (p ∷◌) (present-some ps)

insert_by_time-first :
    (p : Point) (ps : List Point)
    → All (λ q. time_of p ≤ time_of q) ps
    → insert_by_time p ps ≡ p ∷ ps
unfolding insert_by_time
insert_by_time-first p [] h = refl
insert_by_time-first p (q ∷ qs) h = rw (le→leb _ _ h.0)

sort_by_time_self : (ps : List Point) → IsChronological ps → sort_by_time ps ≡ ps
unfolding sort_by_time
sort_by_time_self [] h = refl
sort_by_time_self (p ∷ ps) h = rw (sort_by_time_self ps h.1) (insert_by_time-first p ps h.0)

-- Normalizing a series that is chronological and drawable already gives it back unchanged, so
-- normalizing twice is normalizing once.
pub normalize_points_self : (ps : List Point) → IsSeries ps → normalize_points (map some ps) ≡ ps
unfolding normalize_points
normalize_points_self ps h =
    rw (present-some ps, filterb_self usable ps h.usable) (sort_by_time_self ps h.chronological)
