-- ===== src/MarketData/CandleEngine/Aggregation.antt =====
-- What a tick does to the candle with its key and to those with other keys.
use algo_trading_system.Prelude.{
  ◌+◌, ◌≡◌, inl, inr, refl, ap, ◌∙◌, true, false, List, [], ◌∷◌, ◌++◌, Option, none, some, arith,
  Bool-cases, Option-cases, ltb, max, min, ==_iff,
}
use algo_trading_system.Prelude.Texts.{Text, text_eq_refl}
use algo_trading_system.MarketData.{MarketTick}
use algo_trading_system.MarketData.Calendar.{CandleInterval, CandleBucket}
use algo_trading_system.MarketData.CandleEngine.{
  ActiveCandle, from_tick, apply_tick, has_key, interval_index, get_active, set_active, Progress,
  keep_active, take_tick,
}
use algo_trading_system.MarketData.CandleEngine.Keys.{
  key_test, key_test_same, get_active-set_active, IsUnique, set_active-IsUnique, get_active-key,
}
use algo_trading_system.MarketData.CandleEngine.Series.{
  OpenBar, highest, lowest, closing, traded, aggregate, extend,
}

highest-append :
    (t : MarketTick) (us : List MarketTick) (v : MarketTick)
    → highest t (us ++ v ∷ []) ≡ max (highest t us) v.price
unfolding highest
highest-append t [] v = refl
highest-append t (u ∷ us) v = omega (arith, highest-append u us v)

lowest-append :
    (t : MarketTick) (us : List MarketTick) (v : MarketTick)
    → lowest t (us ++ v ∷ []) ≡ min (lowest t us) v.price
unfolding lowest
lowest-append t [] v = refl
lowest-append t (u ∷ us) v = omega (arith, lowest-append u us v)

closing-append :
    (t : MarketTick) (us : List MarketTick) (v : MarketTick) → closing t (us ++ v ∷ []) ≡ v.price
unfolding closing
closing-append t [] v = refl
closing-append t (u ∷ us) v = closing-append u us v

traded-append :
    (t : MarketTick) (us : List MarketTick) (v : MarketTick)
    → traded t (us ++ v ∷ []) ≡ traded t us + v.trade_size
unfolding traded
traded-append t [] v = refl
traded-append t (u ∷ us) v = omega (arith, traded-append u us v)

-- A tick that joins the open bar updates the candle as `apply` does.
aggregate-apply_tick :
    (i : CandleInterval) (tick : MarketTick) (bar : OpenBar)
    → apply_tick tick (aggregate i bar)
      ≡ aggregate i (record bar { later = bar.later ++ tick ∷ [] })
unfolding apply_tick
aggregate-apply_tick i tick bar =
    rw
      (
        highest-append bar.first bar.later tick,
        lowest-append bar.first bar.later tick,
        closing-append bar.first bar.later tick,
        traded-append bar.first bar.later tick,
      )
      refl

aggregate-from_tick :
    (i : CandleInterval) (tick : MarketTick) (b : CandleBucket)
    → from_tick tick i b ≡ aggregate i (extend tick b none)
unfolding from_tick highest lowest closing traded
aggregate-from_tick i tick b = refl

pub take_tick-IsUnique :
    (tick : MarketTick) (j : CandleInterval) (b : CandleBucket) (p : Progress)
    → IsUnique p.active
    → IsUnique (take_tick tick j b p).active
unfolding take_tick keep_active
take_tick-IsUnique tick j b p h = elim (Option-cases (get_active tick.symbol j p.active)) [
  | inl e ↦ rw (e, take_tick) (set_active-IsUnique _ p.active h)
  | inr (a, e) ↦ elim (Bool-cases (ltb a.bucket.start_at b.start_at)) [
    | inl later ↦ rw (e, take_tick, later) (set_active-IsUnique _ p.active h)
    | inr same ↦ rw (e, take_tick, same) (set_active-IsUnique _ p.active h)
  ]
]

module _ (symbol : Text) (i : CandleInterval) where
  set_active_other :
      (new : ActiveCandle) (m : List ActiveCandle)
      → has_key symbol i new ≡ false
      → get_active symbol i (set_active new m) ≡ get_active symbol i m
  set_active_other new m off = get_active-set_active symbol i new m ∙ rw off refl

  pub take_tick_other :
      (tick : MarketTick) (j : CandleInterval) (b : CandleBucket) (p : Progress)
      → key_test tick.symbol j symbol i ≡ false
      → get_active symbol i (take_tick tick j b p).active ≡ get_active symbol i p.active
  unfolding take_tick keep_active from_tick apply_tick
  take_tick_other tick j b p off = elim (Option-cases (get_active tick.symbol j p.active)) [
    | inl e ↦ rw (e, take_tick) (set_active_other (from_tick tick j b) p.active off)
    | inr (a, e) ↦
        let own = get_active-key tick.symbol j p.active a e in
        elim (Bool-cases (ltb a.bucket.start_at b.start_at)) [
          | inl later ↦
              rw (e, take_tick, later) (set_active_other (from_tick tick j b) p.active off)
          | inr same ↦
              rw (e, take_tick, same)
                (set_active_other (apply_tick tick a) p.active
                  (key_test_same a.symbol tick.symbol symbol a.interval j i own ∙ off))
        ]
  ]

has_key-from_tick :
    (tick : MarketTick) (i : CandleInterval) (b : CandleBucket)
    → has_key tick.symbol i (from_tick tick i b) ≡ true
unfolding from_tick
has_key-from_tick tick i b =
    ground (arith, text_eq_refl tick.symbol, ==_iff (interval_index i) (interval_index i))

-- What the key of a tick holds afterwards, where the candle before is that of a bar.
abbrev pub open_candle : CandleInterval → Option OpenBar → Option ActiveCandle
open_candle i none = none
open_candle i (some bar) = some (aggregate i bar)

set_active_own :
    (symbol : Text) (i : CandleInterval) (new : ActiveCandle) (m : List ActiveCandle)
    → has_key symbol i new ≡ true
    → get_active symbol i (set_active new m) ≡ some new
set_active_own symbol i new m on = get_active-set_active symbol i new m ∙ rw on refl

pub take_tick_own :
    (tick : MarketTick) (i : CandleInterval) (b : CandleBucket) (p : Progress)
    (bar : Option OpenBar)
    → get_active tick.symbol i p.active ≡ open_candle i bar
    → get_active tick.symbol i (take_tick tick i b p).active
      ≡ some (aggregate i (extend tick b bar))
unfolding take_tick keep_active
take_tick_own tick i b p none e =
    rw (e, take_tick)
      (set_active_own tick.symbol i (from_tick tick i b) p.active (has_key-from_tick tick i b)
        ∙ ap some (aggregate-from_tick i tick b))
take_tick_own tick i b p (some bar) e = elim (Bool-cases (ltb bar.bucket.start_at b.start_at)) [
  | inl later ↦
      rw (e, take_tick, later)
        (set_active_own tick.symbol i (from_tick tick i b) p.active (has_key-from_tick tick i b)
          ∙ ap some (aggregate-from_tick i tick b))
  | inr same ↦
      rw (e, take_tick, same)
        (set_active_own tick.symbol i (apply_tick tick (aggregate i bar)) p.active
            (unfold apply_tick in get_active-key tick.symbol i p.active (aggregate i bar) e)
          ∙ ap some (aggregate-apply_tick i tick bar))
]
