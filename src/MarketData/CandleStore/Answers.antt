-- ===== src/MarketData/CandleStore/Answers.antt =====
-- What the candle store holds and answers, whatever candles it was given.
use algo_trading_system.Prelude.{
  ℕ, suc, ◌≤◌, ◌≡◌, refl, sym, ap, subst, ◌∙◌, true, List, [], ◌∷◌, Option, some, arith, Bool-cases,
  Option-cases, inl, inr, if◌then◌else◌, length, All, All-mono, IsAscending, filterb-All, get_last?,
  le-get_last?, no_last,
}
use algo_trading_system.Prelude.Texts.{Text, text_eq_iff}
use algo_trading_system.Prelude.Suffixes.{take_last, length-take_last, All-take_last, All-filterb}
use algo_trading_system.MarketData.Calendar.{CandleInterval}
use algo_trading_system.MarketData.CandleEngine.{Candle}
use algo_trading_system.MarketData.CandleStore.{
  InMemoryCandleStore, start_of, new_candle_store, put_candle, is_series, with_series, upsert,
  upsert_all, sort_candles, latest_candle, lies_in, list_candles,
}
use algo_trading_system.MarketData.CandleStore.Strict.{
  IsStrict, All-place, place-IsStrict, take_last-IsStrict, IsStrict-filterb, length-filterb,
}
use algo_trading_system.MarketData.CandleStore.Ordered.{
  place, sort_candles-IsAscending, sort_candles-put_candle, trim-take_last,
}

-- What an upsert does to the candles of every series, seen in the order of time.
abbrev pub IsUpserted : Candle → InMemoryCandleStore → InMemoryCandleStore → Type 0
IsUpserted c s t =
    (t.max_candles_per_series ≡ s.max_candles_per_series)
    × ((symbol : Text) (interval : CandleInterval)
        → sort_candles (t.candles symbol interval) ≡ (
            if is_series c symbol interval
            then take_last s.max_candles_per_series
                (place c (sort_candles (s.candles c.symbol c.interval)))
            else sort_candles (s.candles symbol interval)))

-- An upsert always ends: the loop that removes candles needs no more rounds than the series has
-- candles. Read in the order of time, the series of the candle then has it at its place, instead of
-- the one with the same start if there was one, without the oldest candles beyond the bound; every
-- other series is as before.
pub upsert-IsUpserted :
    (c : Candle) (s : InMemoryCandleStore)
    → (t : InMemoryCandleStore) × (upsert c s ≡ some t) × IsUpserted c s t
unfolding upsert
upsert-IsUpserted c s =
    let series = put_candle c (s.candles c.symbol c.interval) in
    let (kept, ended, newest) =
      trim-take_last (length series) s.max_candles_per_series series (omega arith) in
    (
      with_series c kept s,
      rw (ended, upsert) refl,
      (
        refl,
        λ symbol interval. elim (Bool-cases (is_series c symbol interval)) [
          | inl own ↦
              rw own
                (newest ∙ ap (take_last s.max_candles_per_series) (sort_candles-put_candle c _))
          | inr other ↦ rw other refl
        ],
      ),
    )

-- What a series of the store has, in the order of time.
pub record IsKept (maximum : ℕ) (symbol : Text) (interval : CandleInterval) (cs : List Candle)
    : Type 0 where
  pub strict : IsStrict cs
  pub bounded : length cs ≤ maximum
  pub own : All (λ c. is_series c symbol interval ≡ true) cs

abbrev IsCandleStore : ℕ → InMemoryCandleStore → Type 0
IsCandleStore maximum s =
    (s.max_candles_per_series ≡ maximum)
    × ((symbol : Text) (interval : CandleInterval)
        → IsKept maximum symbol interval (sort_candles (s.candles symbol interval)))

is_series_moves :
    (c d : Candle) (symbol : Text) (interval : CandleInterval)
    → is_series c symbol interval ≡ true
    → is_series d c.symbol c.interval ≡ true
    → is_series d symbol interval ≡ true
is_series_moves c d symbol interval h k =
    ground (
      arith,
      text_eq_iff c.symbol symbol,
      text_eq_iff d.symbol c.symbol,
      text_eq_iff d.symbol symbol,
    )

IsUpserted-IsCandleStore :
    (maximum : ℕ) (c : Candle) (s t : InMemoryCandleStore)
    → IsCandleStore maximum s
    → IsUpserted c s t
    → IsCandleStore maximum t
IsUpserted-IsCandleStore maximum c s t h u = (
  u.0 ∙ h.0,
  λ symbol interval.
      subst (IsKept maximum symbol interval) (sym (u.1 symbol interval))
        (elim (Bool-cases (is_series c symbol interval)) [
          | inl own ↦
              let before = h.1 c.symbol c.interval in
              rw own (record {
                strict = take_last-IsStrict _ _ (place-IsStrict c _ before.strict);
                bounded = omega (
                  arith,
                  h.0,
                  length-take_last s.max_candles_per_series
                      (place c (sort_candles (s.candles c.symbol c.interval))),
                );
                own = All-take_last _ _ _ (
                    All-place (λ d. is_series d symbol interval ≡ true) c _ own
                      (All-mono _ _ (sort_candles (s.candles c.symbol c.interval))
                        (λ d e. is_series_moves c d symbol interval own e) before.own));
              })
          | inr other ↦ rw other (h.1 symbol interval)
        ]),
)

upsert_all-IsCandleStore :
    (maximum : ℕ) (cs : List Candle) (s : InMemoryCandleStore)
    → IsCandleStore maximum s
    → (t : InMemoryCandleStore) × (upsert_all cs s ≡ some t) × IsCandleStore maximum t
unfolding upsert_all
upsert_all-IsCandleStore maximum [] s h = (s, refl, h)
upsert_all-IsCandleStore maximum (c ∷ cs) s h =
    let (t, e, u) = upsert-IsUpserted c s in
    let (v, f, k) =
      upsert_all-IsCandleStore maximum cs t (IsUpserted-IsCandleStore maximum c s t h u) in
    (v, rw (e, upsert_all) f, k)

-- What the store answers for a series and a period.
pub record IsCandleAnswer (maximum : ℕ) (symbol : Text) (interval : CandleInterval)
    (start_at end_at : ℕ) (latest : Option Candle) (cs : List Candle) : Type 0 where
  pub strict : IsStrict cs
  pub bounded : length cs ≤ maximum
  pub own : All (λ c. is_series c symbol interval ≡ true) cs
  pub inside : All (λ c. lies_in start_at end_at c ≡ true) cs
  pub until : All (λ c. (l : Candle) × (latest ≡ some l) × (c.start_at ≤ l.start_at)) cs

until_last :
    (cs : List Candle)
    → IsAscending start_of cs
    → All (λ c. (l : Candle) × (get_last? cs ≡ some l) × (c.start_at ≤ l.start_at)) cs
until_last cs h = elim (Option-cases (get_last? cs)) [
  | inl e ↦ rw (no_last cs e) tt
  | inr (l, e) ↦ All-mono _ _ cs (λ c le. (l, e, le)) (le-get_last? start_of cs l h e)
]

-- Whatever candles a new store with a positive bound is given, and in whatever order, every upsert
-- ends, and a listing has the candles of the asked series only, each start once and in the order of
-- time, at most as many as the bound, all within the period; the latest candle of the series, which
-- exists if anything is listed, starts no earlier than any of them.
pub candle_store_answers :
    (upper : Text → Text) (n : ℕ) (cs : List Candle) (symbol : Text) (interval : CandleInterval)
    (start_at end_at : ℕ)
    → (s t : InMemoryCandleStore) × (new_candle_store (suc n) ≡ some s)
      × (upsert_all cs s ≡ some t)
      × IsCandleAnswer
          (suc n)
          (upper symbol)
          interval
          start_at
          end_at
          (latest_candle upper symbol interval t)
          (list_candles upper symbol interval start_at end_at t)
unfolding latest_candle list_candles sort_candles
candle_store_answers upper n cs symbol interval start_at end_at =
    let s : InMemoryCandleStore = record {
      max_candles_per_series = suc n;
      candles = λ symbol interval. [];
    } in
    let (t, e, h) =
      upsert_all-IsCandleStore (suc n) cs s
        (refl, λ symbol interval. record { strict = tt; bounded = omega arith; own = tt }) in
    let kept = h.1 (upper symbol) interval in
    let series = sort_candles (t.candles (upper symbol) interval) in
    let within = lies_in start_at end_at in
    (
      s,
      t,
      refl,
      e,
      record {
        strict = IsStrict-filterb within series kept.strict;
        bounded = omega (arith, kept.bounded, length-filterb within series);
        own = All-filterb _ within series kept.own;
        inside = filterb-All within series;
        until = All-filterb _ within series (until_last series (sort_candles-IsAscending _));
      },
    )
