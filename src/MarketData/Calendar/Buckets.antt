-- ===== src/MarketData/Calendar/Buckets.antt =====
-- The bucket of an instant holds it, and the buckets of a session do not overlap.
use algo_trading_system.Prelude.{
  ℕ, ◌+◌, ◌-◌, ◌*◌, ◌≤◌, ◌<◌, ◌≡◌, none, some, arith, min, subst, ◌⊎◌, inl, inr, refl, Option-cases,
  ap, sym, ◌∙◌,
}
use algo_trading_system.Prelude.Division.{below_multiple, same_quotient}
use algo_trading_system.MarketData.Calendar.{
  CandleInterval, weekly, monthly, CandleBucket, ExchangeDays, intraday_duration, intraday_bucket,
  week_boundaries, month_boundaries, long_bucket, bucket_in, bucket_for,
}

-- What the packages document: an instant of a session lies from its opening to before its close;
-- later sessions open and close later; the next session from a day on is no later than any session from
-- that day on, the previous one no earlier than any up to it; and a day lies in its week and month.
pub record IsExchange (days : ExchangeDays) : Type 0 where
  pub opened : (t s : ℕ) → days.session_at t ≡ some s → days.session_open s ≤ t
  pub not_closed : (t s : ℕ) → days.session_at t ≡ some s → t < days.session_close s
  pub open_order : (r s : ℕ) → r ≤ s → days.session_open r ≤ days.session_open s
  pub close_order : (r s : ℕ) → r ≤ s → days.session_close r ≤ days.session_close s
  pub next : (t s d : ℕ) → days.session_at t ≡ some s → d ≤ s → days.next_session d ≤ s
  pub previous : (t s d : ℕ) → days.session_at t ≡ some s → s ≤ d → s ≤ days.previous_session d
  pub in_week : (s : ℕ) → days.weekday s ≤ 6
  pub month_begun : (s : ℕ) → days.month_start s ≤ s
  pub month_ends : (s : ℕ) → s ≤ days.month_end s

pub record HoldsInstant (t : ℕ) (b : CandleBucket) : Type 0 where
  pub begun : b.start_at ≤ t
  pub not_over : t < b.end_at

module _ (days : ExchangeDays) (exchange : IsExchange days) (t s : ℕ)
    (at : days.session_at t ≡ some s) where
  intraday_bucket-HoldsInstant : (d : ℕ) → 0 < d → HoldsInstant t (intraday_bucket days t s d)
  unfolding intraday_bucket
  intraday_bucket-HoldsInstant d h =
      let bounds = below_multiple (t - days.session_open s) d h in
      record {
        begun = omega (arith, bounds.0, exchange.opened t s at);
        not_over = omega (arith, bounds.1, exchange.opened t s at, exchange.not_closed t s at);
      }

  week_boundaries-HoldsInstant : HoldsInstant t (week_boundaries days s)
  unfolding week_boundaries
  week_boundaries-HoldsInstant = record {
    begun = omega (
      arith,
      exchange.open_order (days.next_session (s - days.weekday s)) s
          (exchange.next t s (s - days.weekday s) at (omega arith)),
      exchange.opened t s at,
    );
    not_over = omega (
      arith,
      exchange.close_order s (days.previous_session (s - days.weekday s + 6))
          (exchange.previous t s (s - days.weekday s + 6) at (omega (arith, exchange.in_week s))),
      exchange.not_closed t s at,
    );
  }

  month_boundaries-HoldsInstant : HoldsInstant t (month_boundaries days s)
  unfolding month_boundaries
  month_boundaries-HoldsInstant = record {
    begun = omega (
      arith,
      exchange.open_order (days.next_session (days.month_start s)) s
          (exchange.next t s (days.month_start s) at (exchange.month_begun s)),
      exchange.opened t s at,
    );
    not_over = omega (
      arith,
      exchange.close_order s (days.previous_session (days.month_end s))
          (exchange.previous t s (days.month_end s) at (exchange.month_ends s)),
      exchange.not_closed t s at,
    );
  }

intraday_duration_pos : (i : CandleInterval) (d : ℕ) → intraday_duration i ≡ some d → 0 < d
intraday_duration_pos i d e = ground arith

module _ (days : ExchangeDays) (exchange : IsExchange days) (t s : ℕ)
    (at : days.session_at t ≡ some s) where
  bucket_in-HoldsInstant : (i : CandleInterval) → HoldsInstant t (bucket_in days t i s)
  bucket_in-HoldsInstant i = elim (Option-cases (intraday_duration i)) [
    | inl long ↦ rw (long, bucket_in) (long_bucket-HoldsInstant i)
    | inr (d, short) ↦
        rw (short, bucket_in)
          (intraday_bucket-HoldsInstant days exchange t s at d (intraday_duration_pos i d short))
  ]
    where
      long_bucket-HoldsInstant : (i : CandleInterval) → HoldsInstant t (long_bucket days s i)
      long_bucket-HoldsInstant weekly = week_boundaries-HoldsInstant days exchange t s at
      long_bucket-HoldsInstant monthly = month_boundaries-HoldsInstant days exchange t s at
      long_bucket-HoldsInstant i = record {
        begun = exchange.opened t s at;
        not_over = exchange.not_closed t s at;
      }

-- An instant outside trading hours has no bucket; every other one has a bucket for each interval, and
-- the bucket starts no later than the instant and ends after it, whatever days the exchange is open.
pub bucket_for-HoldsInstant :
    (days : ExchangeDays) (t : ℕ) (i : CandleInterval)
    → IsExchange days
    → ((days.session_at t ≡ none) × (bucket_for days t i ≡ none))
      ⊎ ((b : CandleBucket) × (bucket_for days t i ≡ some b) × HoldsInstant t b)
unfolding bucket_for
bucket_for-HoldsInstant days t i exchange = elim (Option-cases (days.session_at t)) [
  | inl closed ↦ inl (closed, rw (closed, bucket_for) refl)
  | inr (s, at) ↦ inr (
    bucket_in days t i s,
    rw (at, bucket_for) refl,
    bucket_in-HoldsInstant days exchange t s at i,
  )
]

abbrev start_of : ExchangeDays → ℕ → ℕ → ℕ → CandleBucket
start_of days s d q = record {
  start_at = days.session_open s + q * d;
  end_at = min (days.session_open s + q * d + d) (days.session_close s);
}

module _ (days : ExchangeDays) (exchange : IsExchange days) (t u s : ℕ)
    (at : days.session_at u ≡ some s) where
  intraday_bucket_same :
      (d : ℕ)
      → HoldsInstant u (intraday_bucket days t s d)
      → intraday_bucket days u s d ≡ intraday_bucket days t s d
  unfolding intraday_bucket
  intraday_bucket_same d h = ap (start_of days s d) (
      same_quotient (t - days.session_open s) (u - days.session_open s) d (omega (arith, h.begun))
        (omega (arith, h.not_over, exchange.opened u s at)))

  bucket_in_same :
      (i : CandleInterval)
      → HoldsInstant u (bucket_in days t i s)
      → bucket_in days u i s ≡ bucket_in days t i s
  bucket_in_same i =
      elim (intraday_duration i)
        as (λ o.
          HoldsInstant u
            (elim o [ some d ↦ intraday_bucket days t s d | none ↦ long_bucket days s i ])
          → (elim o [ some d ↦ intraday_bucket days u s d | none ↦ long_bucket days s i ])
            ≡ (elim o [ some d ↦ intraday_bucket days t s d | none ↦ long_bucket days s i ])) [
              | none ↦ λ h. refl
              | some d ↦ λ h. intraday_bucket_same d h
            ]

bucket_for_open :
    (days : ExchangeDays) (t s : ℕ) (i : CandleInterval)
    → days.session_at t ≡ some s
    → bucket_for days t i ≡ some (bucket_in days t i s)
unfolding bucket_for
bucket_for_open days t s i at = rw (at, bucket_for) refl

-- The buckets of a session do not overlap: an instant of the session that lies in the bucket of
-- another instant of it has that same bucket, for every interval.
pub bucket_for_same :
    (days : ExchangeDays) (t u s : ℕ) (i : CandleInterval) (b : CandleBucket)
    → IsExchange days
    → days.session_at t ≡ some s
    → days.session_at u ≡ some s
    → bucket_for days t i ≡ some b
    → HoldsInstant u b
    → bucket_for days u i ≡ some b
unfolding bucket_for
bucket_for_same days t u s i b exchange at_t at_u e h =
    let both : some (bucket_in days t i s) ≡ some b = sym (bucket_for_open days t s i at_t) ∙ e in
    let own : bucket_in days t i s ≡ b = cc in
    bucket_for_open days u s i at_u
    ∙ (ap some
        (bucket_in_same days exchange t u s at_u i (subst (HoldsInstant u) (sym own) h) ∙ own))
