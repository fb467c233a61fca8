-- ===== src/MarketData/TickProcessor/Feed.antt =====
-- What a processor keeps of each symbol, and what its store answers.
use mathlib.Core.Option
use algo_trading_system.Prelude.{
  no_last, ℕ, ◌≤◌, ◌<◌, ◌≡◌, refl, sym, ap, ◌∙◌, subst, Bool, true, false, ◌&&◌, List, [], ◌∷◌,
  ◌++◌, Option, none, some, arith, inl, inr, Bool-cases, Option-cases, if◌then◌else◌, length, All,
  All-append, All-mono, IsAscending, IsAscending-append, get_last?, get_last?-append, le-get_last?,
  ltb, ltb-false→le,
}
use algo_trading_system.Prelude.Texts.{Text, text_eq, text_eq_iff}
use algo_trading_system.Prelude.TextMaps.{TextMap, find, put, find-put}
use algo_trading_system.Prelude.Suffixes.{
  take_last, length-take_last, All-take_last, IsAscending-take_last, get_last?-take_last,
}
use algo_trading_system.MarketData.{MarketTick, timestamp_of}
use algo_trading_system.MarketData.TickStore.{InMemoryTickStore, ticks_of, append, or_empty}
use algo_trading_system.MarketData.TickProcessor.{
  TickProcessor, precedes, advances, accept_tick, process, consume,
}

-- The stored ticks of a symbol are its own, in the order of time and no more than the maximum, and the
-- watermark is the time of the last one.
pub record IsFeed (maximum : ℕ) (symbol : Text) (watermark : Option ℕ) (ticks : List MarketTick)
    : Type 0 where
  pub ascending : IsAscending timestamp_of ticks
  pub bounded : length ticks ≤ maximum
  pub own : All (λ t. t.symbol ≡ symbol) ticks
  pub marked : Option.map timestamp_of (get_last? ticks) ≡ watermark

-- A tick that does not precede the watermark precedes no stored tick.
earlier :
    (maximum : ℕ) (symbol : Text) (w : Option ℕ) (ticks : List MarketTick) (t : ℕ)
    → IsFeed maximum symbol w ticks
    → precedes t w ≡ false
    → All (λ x. timestamp_of x ≤ t) ticks
earlier maximum symbol w ticks t h p = elim (Option-cases (get_last? ticks)) [
  | inl e ↦ subst (All (λ x. timestamp_of x ≤ t)) (sym (no_last ticks e)) tt
  | inr (last, e) ↦
      let mark : some (timestamp_of last) ≡ w = ap (Option.map timestamp_of) (sym e) ∙ h.marked in
      let le =
        ltb-false→le t (timestamp_of last) (subst (λ o. precedes t o ≡ false) (sym mark) p) in
      All-mono _ _ ticks (λ x k. omega (arith, le, k))
        (le-get_last? timestamp_of ticks last h.ascending e)
]

IsFeed-append :
    (maximum : ℕ) (tick : MarketTick) (w : Option ℕ) (ticks : List MarketTick)
    → 0 < maximum
    → IsFeed maximum tick.symbol w ticks
    → precedes tick.timestamp w ≡ false
    → IsFeed maximum tick.symbol (some tick.timestamp) (take_last maximum (ticks ++ tick ∷ []))
IsFeed-append maximum tick w ticks m h p = record {
  ascending = IsAscending-take_last timestamp_of maximum _ (
      IsAscending-append timestamp_of ticks tick h.ascending
        (earlier maximum tick.symbol w ticks tick.timestamp h p));
  bounded = length-take_last maximum _;
  own = All-take_last _ maximum _ (All-append _ ticks (tick ∷ []) h.own (refl, tt));
  marked =
      ap (Option.map timestamp_of)
        (get_last?-take_last maximum (ticks ++ tick ∷ []) m ∙ get_last?-append ticks tick);
}

mark_accepted :
    (symbol j : Text) (t : ℕ) (m : TextMap ℕ) (w : Option ℕ)
    → find symbol m ≡ w
    → precedes t w ≡ false
    → find j (if advances t w then put symbol t m else m)
      ≡ (if text_eq symbol j then some t else find j m)
mark_accepted symbol j t m none e p = find-put j symbol t m
mark_accepted symbol j t m (some w) e p = elim (Bool-cases (ltb w t)) [
  | inl more ↦ rw more (find-put j symbol t m)
  | inr same ↦
      let equal : w ≡ t = omega (arith, ltb-false→le _ _ same, ltb-false→le _ _ p) in
      elim (Bool-cases (text_eq symbol j)) [
        | inl own ↦
            rw (same, own)
              (ap (λ k. find k m) (sym ((text_eq_iff symbol j).0 own)) ∙ e ∙ ap some equal)
        | inr other ↦ rw (same, other) refl
      ]
]

-- After a tick is accepted, the watermark of its symbol is its time; no other one changes.
pub find-accept_tick :
    (tick : MarketTick) (s : TickProcessor) (j : Text)
    → precedes tick.timestamp (find tick.symbol s.latest_timestamp_by_symbol) ≡ false
    → find j
        (accept_tick tick
          (find tick.symbol s.latest_timestamp_by_symbol)
          s).latest_timestamp_by_symbol
      ≡ (if text_eq tick.symbol j then some tick.timestamp else find j s.latest_timestamp_by_symbol)
unfolding accept_tick
find-accept_tick tick s j p =
    mark_accepted tick.symbol j tick.timestamp s.latest_timestamp_by_symbol _ refl p

pub ticks_of-append :
    (tick : MarketTick) (store : InMemoryTickStore) (j : Text)
    → ticks_of j (append tick store) ≡ (
        if text_eq tick.symbol j
        then take_last store.max_ticks_per_symbol (ticks_of tick.symbol store ++ tick ∷ [])
        else ticks_of j store)
unfolding append ticks_of
ticks_of-append tick store j =
    ap or_empty (find-put j tick.symbol _ store.ticks_by_symbol)
    ∙ elim (Bool-cases (text_eq tick.symbol j)) [ inl e ↦ rw e refl | inr e ↦ rw e refl ]

-- A processor that drops ticks out of order, with the stored ticks of every symbol in order.
record IsOrderly (maximum : ℕ) (s : TickProcessor) : Type 0 where
  rejects : s.reject_out_of_order_ticks ≡ true
  limit : s.store.max_ticks_per_symbol ≡ maximum
  feeds : (j : Text) → IsFeed maximum j (find j s.latest_timestamp_by_symbol) (ticks_of j s.store)

accept_tick-feeds :
    (maximum : ℕ) (tick : MarketTick) (s : TickProcessor) (j : Text)
    → 0 < maximum
    → IsOrderly maximum s
    → precedes tick.timestamp (find tick.symbol s.latest_timestamp_by_symbol) ≡ false
    → IsFeed maximum j
        (if text_eq tick.symbol j then some tick.timestamp else find j s.latest_timestamp_by_symbol)
        (if text_eq tick.symbol j
          then take_last s.store.max_ticks_per_symbol (ticks_of tick.symbol s.store ++ tick ∷ [])
          else ticks_of j s.store)
unfolding ticks_of
accept_tick-feeds maximum tick s j m h p = elim (Bool-cases (text_eq tick.symbol j)) [
  | inl own ↦
      rw (own, h.limit)
        (subst
          (λ k.
            IsFeed maximum k (some tick.timestamp)
              (take_last maximum (ticks_of tick.symbol s.store ++ tick ∷ [])))
          ((text_eq_iff tick.symbol j).0 own)
          (IsFeed-append maximum tick _ _ m (h.feeds tick.symbol) p))
  | inr other ↦ rw other (h.feeds j)
]

accept_tick-IsOrderly :
    (maximum : ℕ) (tick : MarketTick) (s : TickProcessor)
    → 0 < maximum
    → IsOrderly maximum s
    → precedes tick.timestamp (find tick.symbol s.latest_timestamp_by_symbol) ≡ false
    → IsOrderly maximum (accept_tick tick (find tick.symbol s.latest_timestamp_by_symbol) s)
unfolding accept_tick append
accept_tick-IsOrderly maximum tick s m h p = record {
  rejects = h.rejects;
  limit = h.limit;
  feeds = λ j.
      rw (find-accept_tick tick s j p, ticks_of-append tick s.store j)
        (accept_tick-feeds maximum tick s j m h p);
}

-- The test that drops a tick.
abbrev pub is_late : MarketTick → TickProcessor → Bool
is_late tick s =
    s.reject_out_of_order_ticks
    && precedes tick.timestamp (find tick.symbol s.latest_timestamp_by_symbol)

process-IsOrderly :
    (maximum : ℕ) (tick : MarketTick) (s : TickProcessor)
    → 0 < maximum
    → IsOrderly maximum s
    → IsOrderly maximum (process tick s).1
unfolding process
process-IsOrderly maximum tick s m h = elim (Bool-cases (is_late tick s)) [
  | inl late ↦ rw (late, process) h
  | inr timely ↦
      let follows : precedes tick.timestamp (find tick.symbol s.latest_timestamp_by_symbol)
          ≡ false =
        ground (arith, h.rejects) in
      rw (timely, process) (accept_tick-IsOrderly maximum tick s m h follows)
]

consume-IsOrderly :
    (maximum : ℕ) (ticks : List MarketTick) (s : TickProcessor)
    → 0 < maximum
    → IsOrderly maximum s
    → IsOrderly maximum (consume s ticks)
unfolding consume
consume-IsOrderly maximum [] s m h = h
consume-IsOrderly maximum (tick ∷ ticks) s m h =
    consume-IsOrderly maximum ticks (process tick s).1 m (process-IsOrderly maximum tick s m h)

-- A new processor with the default settings, over an empty store.
abbrev pub new_processor : ℕ → TickProcessor
new_processor maximum = record {
  store = record { max_ticks_per_symbol = maximum; ticks_by_symbol = [] };
  reject_out_of_order_ticks = true;
  latest_timestamp_by_symbol = [];
}

new_processor-IsOrderly : (maximum : ℕ) → IsOrderly maximum (new_processor maximum)
unfolding find ticks_of
new_processor-IsOrderly maximum = record {
  rejects = refl;
  limit = refl;
  feeds = λ j. record { ascending = tt; bounded = omega arith; own = tt; marked = refl };
}

-- Whatever ticks a new processor with a positive bound is given, and in whatever order, it keeps for
-- every symbol ticks of that symbol only, in the order of time and at most as many as the bound, and
-- its watermark for the symbol is the time of the last one, or none where there is none.
pub consume-IsFeed :
    (maximum : ℕ) (ticks : List MarketTick) (symbol : Text)
    → 0 < maximum
    → IsFeed maximum symbol
        (find symbol (consume (new_processor maximum) ticks).latest_timestamp_by_symbol)
        (ticks_of symbol (consume (new_processor maximum) ticks).store)
consume-IsFeed maximum ticks symbol m =
    (consume-IsOrderly maximum ticks (new_processor maximum) m
        (new_processor-IsOrderly maximum)).feeds
      symbol
