-- ===== src/MarketData/TickProcessor/Answers.antt =====
-- What the store answers after a processor has run.
use algo_trading_system.Prelude.{
  ℕ, zero, suc, ◌≤◌, ◌<◌, ◌≡◌, ◌≢◌, ◌⊎◌, inl, inr, refl, sym, subst, true, ◌&&◌, List, [], ◌∷◌,
  ◌++◌, Option, none, some, arith, Bool-cases, length, All, IsAscending, filterb-All, get_last?,
  get_last?-append, ◌∙◌, ap,
}
use algo_trading_system.Prelude.Texts.{Text, text_eq_refl}
use algo_trading_system.Prelude.TextMaps.{find}
use algo_trading_system.Prelude.Suffixes.{
  take_last, length-take_last, All-take_last, IsAscending-take_last, get_last?-take_last,
  All-filterb, IsAscending-filterb,
}
use algo_trading_system.MarketData.{MarketTick, timestamp_of}
use algo_trading_system.MarketData.TickStore.{
  InMemoryTickStore, ticks_of, append, latest, TickFilter, within, limited, list_ticks,
}
use algo_trading_system.MarketData.TickProcessor.{
  TickProcessor, accepted, dropped_out_of_order, precedes, process, consume,
}
use algo_trading_system.MarketData.TickProcessor.Feed.{
  ticks_of-append, new_processor, consume-IsFeed,
}

abbrev IsWithinLimit : Option ℕ → List MarketTick → Type 0
IsWithinLimit none ticks = Unit
IsWithinLimit (some n) ticks = length ticks ≤ n

-- What an answer of `list_ticks` has.
pub record IsAnswer (symbol : Text) (f : TickFilter) (ticks : List MarketTick) : Type 0 where
  pub ascending : IsAscending timestamp_of ticks
  pub inside : All (λ t. within f t ≡ true) ticks
  pub own : All (λ t. t.symbol ≡ symbol) ticks
  pub limit : IsWithinLimit f.limit ticks

limited-IsAnswer :
    (symbol : Text) (f : TickFilter) (o : Option ℕ) (ticks : List MarketTick)
    → f.limit ≡ o
    → o ≢ some 0
    → IsAscending timestamp_of ticks
    → All (λ t. within f t ≡ true) ticks
    → All (λ t. t.symbol ≡ symbol) ticks
    → (r : List MarketTick) × (limited o ticks ≡ some r) × IsAnswer symbol f r
limited-IsAnswer symbol f none ticks e d a i w = (
  ticks,
  refl,
  record {
    ascending = a;
    inside = i;
    own = w;
    limit = subst (λ x. IsWithinLimit x ticks) (sym e) tt;
  },
)
limited-IsAnswer symbol f (some zero) ticks e d a i w = absurd (d refl)
limited-IsAnswer symbol f (some (suc n)) ticks e d a i w = (
  take_last (suc n) ticks,
  refl,
  record {
    ascending = IsAscending-take_last timestamp_of (suc n) ticks a;
    inside = All-take_last _ (suc n) ticks i;
    own = All-take_last _ (suc n) ticks w;
    limit =
        subst (λ x. IsWithinLimit x (take_last (suc n) ticks)) (sym e)
          (length-take_last (suc n) ticks);
  },
)

-- Whatever ticks a new processor with a positive bound was given, a query whose limit, if there is
-- one, is not 0 is answered with ticks of the symbol in upper case only, in the order of time, within
-- the period asked for and no more than the limit.
pub list_ticks-IsAnswer :
    (upper : Text → Text) (maximum : ℕ) (ticks : List MarketTick) (symbol : Text) (f : TickFilter)
    → 0 < maximum
    → f.limit ≢ some 0
    → (r : List MarketTick) × (list_ticks upper symbol f
          (consume (new_processor maximum) ticks).store
        ≡ some r)
      × IsAnswer (upper symbol) f r
unfolding list_ticks
list_ticks-IsAnswer upper maximum ticks symbol f m d =
    let feed = consume-IsFeed maximum ticks (upper symbol) m in
    limited-IsAnswer (upper symbol) f f.limit _ refl d
      (IsAscending-filterb timestamp_of (within f) _ feed.ascending) (filterb-All (within f) _)
      (All-filterb _ (within f) _ feed.own)

latest-append :
    (upper : Text → Text) (tick : MarketTick) (store : InMemoryTickStore)
    → 0 < store.max_ticks_per_symbol
    → upper tick.symbol ≡ tick.symbol
    → latest upper tick.symbol (append tick store) ≡ some tick
unfolding latest
latest-append upper tick store m u =
    ap (λ k. get_last? (ticks_of k (append tick store))) u
    ∙ ap get_last? (ticks_of-append tick store tick.symbol)
    ∙ rw (text_eq_refl tick.symbol) (
        get_last?-take_last store.max_ticks_per_symbol (ticks_of tick.symbol store ++ tick ∷ []) m
        ∙ get_last?-append (ticks_of tick.symbol store) tick)

-- With a positive bound, and for a symbol in upper case, a tick is either accepted, and is then the
-- latest one of its symbol, or dropped, where the processor drops ticks out of order and the tick
-- precedes the watermark of its symbol; then nothing has changed.
pub process-latest :
    (upper : Text → Text) (tick : MarketTick) (s : TickProcessor)
    → 0 < s.store.max_ticks_per_symbol
    → upper tick.symbol ≡ tick.symbol
    → (((process tick s).0 ≡ accepted)
        × (latest upper tick.symbol (process tick s).1.store ≡ some tick))
      ⊎ ((process tick s ≡ (dropped_out_of_order, s))
          × (s.reject_out_of_order_ticks ≡ true)
          × (precedes tick.timestamp (find tick.symbol s.latest_timestamp_by_symbol) ≡ true))
unfolding process
process-latest upper tick s m u =
    elim (Bool-cases (
      s.reject_out_of_order_ticks
      && precedes tick.timestamp (find tick.symbol s.latest_timestamp_by_symbol))) [
        | inl late ↦ rw (late, process) (inr (refl, ground arith, ground arith))
        | inr timely ↦ rw (timely, process) (inl (refl, latest-append upper tick s.store m u))
      ]
