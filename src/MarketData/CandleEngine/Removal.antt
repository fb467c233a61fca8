-- ===== src/MarketData/CandleEngine/Removal.antt =====
-- What taking candles out of the list of active ones leaves.
use algo_trading_system.Prelude.{
  ◌≡◌, inl, inr, refl, sym, ap, ◌∙◌, Bool, true, false, ◌&&◌, ◌||◌, List, [], ◌∷◌, map, Option,
  none, some, arith, if◌then◌else◌, Bool-cases, filterb,
}
use algo_trading_system.Prelude.Texts.{Text}
use algo_trading_system.MarketData.Calendar.{CandleInterval}
use algo_trading_system.MarketData.CandleEngine.{
  Candle, ActiveCandle, to_candle, has_key, get_active, delete_active, delete_completed,
}
use algo_trading_system.MarketData.CandleEngine.Keys.{
  key_test, key_test_iff, key_test_same, key_test_sym, key_test_apart, if_apart, IsUnique,
  get_active_same,
}

if_none {ℓ} : {A : Type ℓ} (b : Bool) → ◌≡◌ {A = Option A} none (if b then none else none)
if_none true = refl
if_none false = refl

if_removed {ℓ} :
    {A : Type ℓ} (b c : Bool) (y : A) (z : Option A)
    → b ≡ c
    → (b ≡ true → z ≡ none)
    → z ≡ (if c then none else if b then some y else z)
if_removed true true y z h k = k refl
if_removed true false y z h k = cc
if_removed false true y z h k = cc
if_removed false false y z h k = refl

module _ (symbol : Text) (interval : CandleInterval) where
  pub unique_rest :
      (a : ActiveCandle) (m : List ActiveCandle)
      → IsUnique (a ∷ m)
      → has_key symbol interval a ≡ true
      → get_active symbol interval m ≡ none
  unique_rest a m h e =
      let p = (key_test_iff a.symbol symbol a.interval interval).0 e in
      get_active_same symbol a.symbol interval a.interval m (sym p.0) (sym p.1) ∙ h.0

  pub get_active-delete_active :
      (s : Text) (i : CandleInterval) (m : List ActiveCandle)
      → IsUnique m
      → get_active symbol interval (delete_active s i m)
        ≡ (if key_test s i symbol interval then none else get_active symbol interval m)
  unfolding get_active delete_active
  get_active-delete_active s i [] h = if_none (key_test s i symbol interval)
  get_active-delete_active s i (a ∷ m) h = elim (Bool-cases (has_key s i a)) [
    | inl e ↦
        rw (e, delete_active)
          (if_removed (has_key symbol interval a) (key_test s i symbol interval) a
            (get_active symbol interval m) (key_test_same a.symbol s symbol a.interval i interval e)
            (unique_rest a m h))
    | inr e ↦
        rw (e, delete_active)
          (if_apart (has_key symbol interval a) (key_test s i symbol interval) none (some a)
            (get_active symbol interval m) _
            (key_test_apart a.symbol s symbol a.interval i interval e)
            (get_active-delete_active s i m h.1))
  ]

pub delete_active-IsUnique :
    (s : Text) (i : CandleInterval) (m : List ActiveCandle)
    → IsUnique m
    → IsUnique (delete_active s i m)
unfolding delete_active get_active
delete_active-IsUnique s i [] h = tt
delete_active-IsUnique s i (a ∷ m) h = elim (Bool-cases (has_key s i a)) [
  | inl e ↦ rw (e, delete_active) h.1
  | inr e ↦
      rw (e, delete_active)
        (
          get_active-delete_active a.symbol a.interval s i m h.1
              ∙ rw (key_test_sym a.symbol s a.interval i e) h.0,
          delete_active-IsUnique s i m h.1,
        )
]

-- What is left of the candle with the key when the candles that pass a test are taken out.
abbrev pub left_by : (ActiveCandle → Bool) → Option ActiveCandle → Option ActiveCandle
left_by p none = none
left_by p (some a) = if p a then none else some a

module _ (symbol : Text) (interval : CandleInterval) where
  -- Whether one of the candles has the key.
  any_key : List Candle → Bool
  any_key [] = false
  any_key (c ∷ cs) = key_test c.symbol c.interval symbol interval || any_key cs

  get_active-delete_completed :
      (cs : List Candle) (m : List ActiveCandle)
      → IsUnique m
      → get_active symbol interval (delete_completed cs m)
        ≡ (if any_key cs then none else get_active symbol interval m)
  unfolding delete_completed any_key
  get_active-delete_completed [] m h = refl
  get_active-delete_completed (c ∷ cs) m h =
      get_active-delete_completed cs (delete_active c.symbol c.interval m)
        (delete_active-IsUnique c.symbol c.interval m h)
      ∙ ground (arith, get_active-delete_active symbol interval c.symbol c.interval m h)

  any_key_cons :
      (p : ActiveCandle → Bool) (a : ActiveCandle) (m : List ActiveCandle)
      → any_key (map (to_candle true) (filterb p (a ∷ m)))
        ≡ ((p a && has_key symbol interval a) || any_key (map (to_candle true) (filterb p m)))
  unfolding any_key to_candle
  any_key_cons p a m = elim (Bool-cases (p a)) [ inl e ↦ rw e refl | inr e ↦ rw e refl ]

  absent_rest :
      (k : Bool) (a : ActiveCandle) (g : Option ActiveCandle)
      → (if k then some a else g) ≡ none
      → (k ≡ false) × (g ≡ none)
  absent_rest true a g h = cc
  absent_rest false a g h = (refl, h)

  any_key_absent :
      (p : ActiveCandle → Bool) (m : List ActiveCandle)
      → get_active symbol interval m ≡ none
      → any_key (map (to_candle true) (filterb p m)) ≡ false
  unfolding any_key get_active
  any_key_absent p [] h = refl
  any_key_absent p (a ∷ m) h =
      let off = absent_rest (has_key symbol interval a) a (get_active symbol interval m) h in
      any_key_cons p a m ∙ ground (arith, off, any_key_absent p m off.1)

  left_by_cons :
      (p : ActiveCandle → Bool) (k rest : Bool) (a : ActiveCandle) (g : Option ActiveCandle)
      → (k ≡ true → rest ≡ false)
      → (if rest then none else g) ≡ left_by p g
      → (if (p a && k) || rest then none else if k then some a else g)
        ≡ left_by p (if k then some a else g)
  left_by_cons p true rest a g off h = ground (arith, off refl)
  left_by_cons p false rest a g off h = ground arith

  any_key-filterb :
      (p : ActiveCandle → Bool) (m : List ActiveCandle)
      → IsUnique m
      → (if any_key (map (to_candle true) (filterb p m))
          then none
          else get_active symbol interval m)
        ≡ left_by p (get_active symbol interval m)
  unfolding any_key get_active to_candle
  any_key-filterb p [] h = refl
  any_key-filterb p (a ∷ m) h =
      ap
        (λ b.
          if b
          then none
          else if has_key symbol interval a
          then some a
          else get_active symbol interval m)
        (any_key_cons p a m)
      ∙ left_by_cons p (has_key symbol interval a) (any_key (map (to_candle true) (filterb p m))) a
          (get_active symbol interval m)
          (λ e. any_key_absent p m (unique_rest symbol interval a m h e)) (any_key-filterb p m h.1)

  pub get_active-finalized :
      (p : ActiveCandle → Bool) (m : List ActiveCandle)
      → IsUnique m
      → get_active symbol interval (delete_completed (map (to_candle true) (filterb p m)) m)
        ≡ left_by p (get_active symbol interval m)
  get_active-finalized p m h =
      get_active-delete_completed (map (to_candle true) (filterb p m)) m h ∙ any_key-filterb p m h

pub delete_completed-IsUnique :
    (cs : List Candle) (m : List ActiveCandle) → IsUnique m → IsUnique (delete_completed cs m)
unfolding delete_completed
delete_completed-IsUnique [] m h = h
delete_completed-IsUnique (c ∷ cs) m h =
    delete_completed-IsUnique cs (delete_active c.symbol c.interval m)
      (delete_active-IsUnique c.symbol c.interval m h)
