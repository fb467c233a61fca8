-- ===== src/MarketData/Calendar.antt =====
-- market_data/exchange_calendar.py: `XnysExchangeCalendar`, and the intervals of market_data/types.py.
--
-- What the packages exchange_calendars and pandas answer is the parameter `ExchangeDays`. A day is its
-- number, counted from a Monday long before the first session, and an instant as in MarketData.
pub mod Buckets
use algo_trading_system.Prelude.{ℕ, ◌+◌, ◌-◌, ◌*◌, ◌/◌, Option, none, some, min}

pub data CandleInterval : Type 0 where
  one_minute two_minutes three_minutes five_minutes ten_minutes fifteen_minutes : CandleInterval
  thirty_minutes forty_five_minutes one_hour two_hours four_hours : CandleInterval
  daily weekly monthly : CandleInterval

abbrev pub minutes : ℕ → ℕ
minutes n = n * 60_000_000

-- `_INTRADAY_DURATIONS`
abbrev pub intraday_duration : CandleInterval → Option ℕ
intraday_duration one_minute = some (minutes 1)
intraday_duration two_minutes = some (minutes 2)
intraday_duration three_minutes = some (minutes 3)
intraday_duration five_minutes = some (minutes 5)
intraday_duration ten_minutes = some (minutes 10)
intraday_duration fifteen_minutes = some (minutes 15)
intraday_duration thirty_minutes = some (minutes 30)
intraday_duration forty_five_minutes = some (minutes 45)
intraday_duration one_hour = some (minutes 60)
intraday_duration two_hours = some (minutes 120)
intraday_duration four_hours = some (minutes 240)
intraday_duration daily = none
intraday_duration weekly = none
intraday_duration monthly = none

pub record CandleBucket : Type 0 where
  pub start_at : ℕ
  pub end_at : ℕ

-- The session of an instant within trading hours, where a session opens and closes, the next session
-- from a day on and the last one up to it, and what a day is in its week and its month.
pub record ExchangeDays : Type 0 where
  pub session_at : ℕ → Option ℕ
  pub session_open : ℕ → ℕ
  pub session_close : ℕ → ℕ
  pub next_session : ℕ → ℕ
  pub previous_session : ℕ → ℕ
  pub weekday : ℕ → ℕ
  pub month_start : ℕ → ℕ
  pub month_end : ℕ → ℕ

-- From the opening of the session, which no instant of the session precedes.
unfoldable pub intraday_bucket : ExchangeDays → ℕ → ℕ → ℕ → CandleBucket
intraday_bucket days t session duration =
    let opening = days.session_open session in
    let start = opening + ((t - opening) / duration) * duration in
    record { start_at = start; end_at = min (start + duration) (days.session_close session) }

-- `_week_boundaries` and `_month_boundaries` end with the same two sessions.
abbrev pub sessions_between : ExchangeDays → ℕ → ℕ → CandleBucket
sessions_between days first last = record {
  start_at = days.session_open (days.next_session first);
  end_at = days.session_close (days.previous_session last);
}

unfoldable pub week_boundaries : ExchangeDays → ℕ → CandleBucket
week_boundaries days session =
    let week_start = session - days.weekday session in
    sessions_between days week_start (week_start + 6)

unfoldable pub month_boundaries : ExchangeDays → ℕ → CandleBucket
month_boundaries days session =
    sessions_between days (days.month_start session) (days.month_end session)

abbrev pub long_bucket : ExchangeDays → ℕ → CandleInterval → CandleBucket
long_bucket days session weekly = week_boundaries days session
long_bucket days session monthly = month_boundaries days session
long_bucket days session interval = record {
  start_at = days.session_open session;
  end_at = days.session_close session;
}

abbrev pub bucket_in : ExchangeDays → ℕ → CandleInterval → ℕ → CandleBucket
bucket_in days t interval session = elim (intraday_duration interval) [
  | some duration ↦ intraday_bucket days t session duration
  | none ↦ long_bucket days session interval
]

unfoldable pub bucket_for : ExchangeDays → ℕ → CandleInterval → Option CandleBucket
bucket_for days t interval = elim (days.session_at t) [
  | none ↦ none
  | some session ↦ some (bucket_in days t interval session)
]
