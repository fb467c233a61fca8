-- ===== src/MarketData/CandleEngine/Completed.antt =====
-- The candles that a call of the engine completes, for one symbol and interval.
use algo_trading_system.Prelude.{
  ◌≡◌, ◌⊎◌, inl, inr, refl, sym, ap, ◌∙◌, Bool, true, false, ◌&&◌, List, [], ◌∷◌, ◌++◌, map, Option,
  none, some, All, Bool-cases, Option-cases, ltb, if◌then◌else◌, filterb,
}
use algo_trading_system.Prelude.Texts.{Text}
use algo_trading_system.MarketData.{MarketTick}
use algo_trading_system.MarketData.Calendar.{CandleInterval, CandleBucket, ExchangeDays, bucket_for}
use algo_trading_system.MarketData.CandleEngine.{
  Candle, ActiveCandle, to_candle, has_key, get_active, Progress, keep_active, take_tick,
  take_intervals, update_of,
}
use algo_trading_system.MarketData.CandleEngine.Keys.{
  key_test, key_test_same, IsUnique, get_active-key,
}
use algo_trading_system.MarketData.CandleEngine.Removal.{unique_rest}
use algo_trading_system.MarketData.CandleEngine.Series.{OpenBar, aggregate, ended_by}
use algo_trading_system.MarketData.CandleEngine.Aggregation.{open_candle}

filterb-append {ℓ} :
    {A : Type ℓ} (p : A → Bool) (xs ys : List A)
    → filterb p (xs ++ ys) ≡ filterb p xs ++ filterb p ys
filterb-append p [] ys = refl
filterb-append p (x ∷ xs) ys = elim (Bool-cases (p x)) [
  | inl e ↦ rw e (ap (x ∷◌) (filterb-append p xs ys))
  | inr e ↦ rw e (filterb-append p xs ys)
]

append_nil {ℓ} : {A : Type ℓ} (xs : List A) → xs ++ [] ≡ xs
append_nil [] = refl
append_nil (x ∷ xs) = ap (x ∷◌) (append_nil xs)

-- The candles of a key among others.
abbrev pub of_key : Text → CandleInterval → List Candle → List Candle
of_key symbol i cs = filterb (λ c. key_test c.symbol c.interval symbol i) cs

completed_other :
    (symbol : Text) (i : CandleInterval) (cs : List Candle) (a : ActiveCandle)
    → has_key symbol i a ≡ false
    → of_key symbol i (cs ++ to_candle true a ∷ []) ≡ of_key symbol i cs
unfolding to_candle
completed_other symbol i cs a off =
    filterb-append (λ c. key_test c.symbol c.interval symbol i) cs (to_candle true a ∷ [])
    ∙ rw off (append_nil _)

completed_own :
    (symbol : Text) (i : CandleInterval) (cs : List Candle) (a : ActiveCandle)
    → has_key symbol i a ≡ true
    → of_key symbol i (cs ++ to_candle true a ∷ []) ≡ of_key symbol i cs ++ to_candle true a ∷ []
unfolding to_candle
completed_own symbol i cs a on =
    filterb-append (λ c. key_test c.symbol c.interval symbol i) cs (to_candle true a ∷ [])
    ∙ rw on refl

pub take_tick-completed_other :
    (symbol : Text) (i : CandleInterval) (tick : MarketTick) (j : CandleInterval) (b : CandleBucket)
    (p : Progress)
    → key_test tick.symbol j symbol i ≡ false
    → of_key symbol i (take_tick tick j b p).completed ≡ of_key symbol i p.completed
unfolding take_tick keep_active
take_tick-completed_other symbol i tick j b p off =
    elim (Option-cases (get_active tick.symbol j p.active)) [
      | inl e ↦ rw (e, take_tick) refl
      | inr (a, e) ↦
          let own = get_active-key tick.symbol j p.active a e in
          elim (Bool-cases (ltb a.bucket.start_at b.start_at)) [
            | inl later ↦
                rw (e, take_tick, later)
                  (completed_other symbol i p.completed a
                    (key_test_same a.symbol tick.symbol symbol a.interval j i own ∙ off))
            | inr same ↦ rw (e, take_tick, same) refl
          ]
    ]

pub take_tick-completed_own :
    (tick : MarketTick) (i : CandleInterval) (b : CandleBucket) (p : Progress)
    (bar : Option OpenBar)
    → get_active tick.symbol i p.active ≡ open_candle i bar
    → of_key tick.symbol i (take_tick tick i b p).completed
      ≡ of_key tick.symbol i p.completed ++ ended_by i (some b) bar
unfolding take_tick keep_active
take_tick-completed_own tick i b p none e = rw (e, take_tick) (sym (append_nil _))
take_tick-completed_own tick i b p (some bar) e =
    elim (Bool-cases (ltb bar.bucket.start_at b.start_at)) [
      | inl later ↦
          rw (e, take_tick, later)
            (completed_own tick.symbol i p.completed (aggregate i bar)
              (get_active-key tick.symbol i p.active (aggregate i bar) e))
      | inr same ↦ rw (e, take_tick, same) (sym (append_nil _))
    ]

pub take_intervals-completed_other :
    (days : ExchangeDays) (symbol : Text) (i : CandleInterval) (tick : MarketTick)
    (js : List CandleInterval) (p : Progress)
    → All (λ j. key_test tick.symbol j symbol i ≡ false) js
    → of_key symbol i (take_intervals days tick js p).completed ≡ of_key symbol i p.completed
unfolding take_intervals
take_intervals-completed_other days symbol i tick [] p h = refl
take_intervals-completed_other days symbol i tick (j ∷ js) p h =
    elim (Option-cases (bucket_for days tick.timestamp j)) [
      | inl e ↦ rw (e, take_intervals) (take_intervals-completed_other days symbol i tick js p h.1)
      | inr (b, e) ↦
          rw (e, take_intervals)
            (take_intervals-completed_other days symbol i tick js (take_tick tick j b p) h.1
              ∙ take_tick-completed_other symbol i tick j b p h.0)
    ]

pub take_interval-completed_own :
    (days : ExchangeDays) (tick : MarketTick) (i : CandleInterval) (p : Progress)
    (bar : Option OpenBar)
    → get_active tick.symbol i p.active ≡ open_candle i bar
    → of_key tick.symbol i (take_intervals days tick (i ∷ []) p).completed
      ≡ of_key tick.symbol i p.completed ++ ended_by i (bucket_for days tick.timestamp i) bar
unfolding take_intervals
take_interval-completed_own days tick i p bar e =
    elim (Option-cases (bucket_for days tick.timestamp i)) [
      | inl n ↦ rw (n, take_intervals) (sym (append_nil _))
      | inr (b, n) ↦ rw (n, take_intervals) (take_tick-completed_own tick i b p bar e)
    ]

abbrev is_nil : List Candle → Bool
is_nil [] = true
is_nil (c ∷ cs) = false

-- Nothing is completed where nothing is updated.
abbrev IsReported : Progress → Type 0
IsReported p = (p.completed ≡ []) ⊎ (is_nil p.updated ≡ false)

is_nil-append : (cs : List Candle) (c : Candle) → is_nil (cs ++ c ∷ []) ≡ false
is_nil-append [] c = refl
is_nil-append (d ∷ cs) c = refl

take_tick-IsReported :
    (tick : MarketTick) (j : CandleInterval) (b : CandleBucket) (p : Progress)
    → IsReported (take_tick tick j b p)
unfolding take_tick keep_active
take_tick-IsReported tick j b p = elim (Option-cases (get_active tick.symbol j p.active)) [
  | inl e ↦ rw (e, take_tick) (inr (is_nil-append p.updated _))
  | inr (a, e) ↦ elim (Bool-cases (ltb a.bucket.start_at b.start_at)) [
    | inl later ↦ rw (e, take_tick, later) (inr (is_nil-append p.updated _))
    | inr same ↦ rw (e, take_tick, same) (inr (is_nil-append p.updated _))
  ]
]

take_intervals-IsReported :
    (days : ExchangeDays) (tick : MarketTick) (js : List CandleInterval) (p : Progress)
    → IsReported p
    → IsReported (take_intervals days tick js p)
unfolding take_intervals
take_intervals-IsReported days tick [] p h = h
take_intervals-IsReported days tick (j ∷ js) p h =
    elim (Option-cases (bucket_for days tick.timestamp j)) [
      | inl e ↦ rw (e, take_intervals) (take_intervals-IsReported days tick js p h)
      | inr (b, e) ↦
          rw (e, take_intervals)
            (take_intervals-IsReported days tick js (take_tick tick j b p)
              (take_tick-IsReported tick j b p))
    ]

update_of-completed :
    (us cs : List Candle) → (cs ≡ []) ⊎ (is_nil us ≡ false) → (update_of us cs).completed ≡ cs
update_of-completed [] cs (inl e) = sym e
update_of-completed [] cs (inr e) = cc
update_of-completed (u ∷ us) cs h = refl

-- The update of a tick loses no completed candle.
pub completed_reported :
    (days : ExchangeDays) (tick : MarketTick) (js : List CandleInterval) (m : List ActiveCandle)
    → let p = take_intervals days tick js (record { active = m; updated = []; completed = [] }) in
      (update_of p.updated p.completed).completed ≡ p.completed
completed_reported days tick js m = update_of-completed _ _ (
    take_intervals-IsReported days tick js (record { active = m; updated = []; completed = [] })
      (inl refl))

-- The candle with the key, complete, if it passes a test.
abbrev pub taken_by : (ActiveCandle → Bool) → Option ActiveCandle → List Candle
taken_by q none = []
taken_by q (some a) = if q a then to_candle true a ∷ [] else []

module _ (symbol : Text) (i : CandleInterval) (q : ActiveCandle → Bool) where
  of_key-cons :
      (a : ActiveCandle) (m : List ActiveCandle)
      → of_key symbol i (map (to_candle true) (filterb q (a ∷ m))) ≡ (
          if q a && has_key symbol i a
          then to_candle true a ∷ of_key symbol i (map (to_candle true) (filterb q m))
          else of_key symbol i (map (to_candle true) (filterb q m)))
  unfolding to_candle
  of_key-cons a m = elim (Bool-cases (q a)) [ inl e ↦ rw e refl | inr e ↦ rw e refl ]

  taken_by_cons :
      (k : Bool) (rest : List Candle) (a : ActiveCandle) (g : Option ActiveCandle)
      → (k ≡ true → g ≡ none)
      → rest ≡ taken_by q g
      → (if q a && k then to_candle true a ∷ rest else rest) ≡ taken_by q (if k then some a else g)
  taken_by_cons true rest a g h e =
      let empty : rest ≡ [] = e ∙ ap (taken_by q) (h refl) in
      elim (Bool-cases (q a)) [ inl on ↦ rw (on, empty) refl | inr off ↦ rw (off, empty) refl ]
  taken_by_cons false rest a g h e = elim (Bool-cases (q a)) [
    | inl on ↦ rw on e
    | inr off ↦ rw off e
  ]

  pub of_key-finalized :
      (m : List ActiveCandle)
      → IsUnique m
      → of_key symbol i (map (to_candle true) (filterb q m)) ≡ taken_by q (get_active symbol i m)
  unfolding get_active
  of_key-finalized [] h = refl
  of_key-finalized (a ∷ m) h =
      of_key-cons a m
      ∙ taken_by_cons (has_key symbol i a) _ a (get_active symbol i m) (unique_rest symbol i a m h)
          (of_key-finalized m h.1)
