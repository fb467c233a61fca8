-- ===== src/MarketData/CandleEngine/Keys.antt =====
-- The list of active candles as a map from a symbol and an interval.
use algo_trading_system.Prelude.{
  ◌≡◌, ◌↔◌, inl, inr, refl, sym, subst, ◌∙◌, Bool, true, false, ◌&&◌, List, [], ◌∷◌, none, some,
  arith, ◌==◌, ==_iff, if◌then◌else◌, Bool-cases,
}
use algo_trading_system.Prelude.Texts.{Text, text_eq, text_eq_iff}
use algo_trading_system.MarketData.Calendar.{CandleInterval}
use algo_trading_system.MarketData.CandleEngine.{
  ActiveCandle, interval_index, has_key, get_active, set_active,
}

-- Whether two keys are the same.
abbrev pub key_test : Text → CandleInterval → Text → CandleInterval → Bool
key_test s i t j = text_eq s t && interval_index i == interval_index j

pub key_test_iff :
    (s t : Text) (i j : CandleInterval)
    → (key_test s i t j ≡ true) ↔ ((s ≡ t) × (interval_index i ≡ interval_index j))
key_test_iff s t i j = ground (arith, text_eq_iff s t, ==_iff (interval_index i) (interval_index j))

pub key_test_sym :
    (s t : Text) (i j : CandleInterval) → key_test s i t j ≡ false → key_test t j s i ≡ false
key_test_sym s t i j h = ground (arith, key_test_iff s t i j, key_test_iff t s j i)

pub same_key :
    (t : Text) (i : CandleInterval) (new a : ActiveCandle)
    → has_key t i new ≡ true
    → has_key t i a ≡ true
    → has_key new.symbol new.interval a ≡ true
same_key t i new a h k =
    let p = (key_test_iff new.symbol t new.interval i).0 h in
    let q = (key_test_iff a.symbol t a.interval i).0 k in
    (key_test_iff a.symbol new.symbol a.interval new.interval).1 (q.0 ∙ sym p.0, q.1 ∙ sym p.1)

-- A third key meets both of two that are the same, or none.
pub key_test_same :
    (s t u : Text) (i j k : CandleInterval)
    → key_test s i t j ≡ true
    → key_test s i u k ≡ key_test t j u k
key_test_same s t u i j k h =
    let p = (key_test_iff s t i j).0 h in λ x. text_eq (p.0 x) u && p.1 x == interval_index k

pub key_test_apart :
    (s t u : Text) (i j k : CandleInterval)
    → key_test s i t j ≡ false
    → (key_test s i u k && key_test t j u k) ≡ false
key_test_apart s t u i j k h = elim (Bool-cases (key_test s i u k)) [
  | inr off ↦ rw off refl
  | inl on ↦ rw on (key_test_sym u t k j (sym (key_test_same s u t i k j on) ∙ h))
]

if_same {ℓ} :
    {A : Type ℓ} (b c : Bool) (x y z : A)
    → b ≡ c
    → (if c then x else z) ≡ (if c then x else if b then y else z)
if_same b true x y z h = refl
if_same true false x y z h = cc
if_same false false x y z h = refl

pub if_apart {ℓ} :
    {A : Type ℓ} (b c : Bool) (x y z rest : A)
    → (b && c) ≡ false
    → rest ≡ (if c then x else z)
    → (if b then y else rest) ≡ (if c then x else if b then y else z)
if_apart true true x y z rest n h = cc
if_apart true false x y z rest n h = refl
if_apart false c x y z rest n h = h

module _ (symbol : Text) (interval : CandleInterval) where
  pub get_active-set_active :
      (new : ActiveCandle) (m : List ActiveCandle)
      → get_active symbol interval (set_active new m)
        ≡ (if has_key symbol interval new then some new else get_active symbol interval m)
  unfolding get_active set_active
  get_active-set_active new [] = refl
  get_active-set_active new (a ∷ m) = elim (Bool-cases (has_key new.symbol new.interval a)) [
    | inl e ↦
        rw (e, set_active)
          (if_same (has_key symbol interval a) (has_key symbol interval new) (some new) (some a)
            (get_active symbol interval m)
            (key_test_same a.symbol new.symbol symbol a.interval new.interval interval e))
    | inr e ↦
        rw (e, set_active)
          (if_apart (has_key symbol interval a) (has_key symbol interval new) (some new) (some a)
            (get_active symbol interval m) _
            (key_test_apart a.symbol new.symbol symbol a.interval new.interval interval e)
            (get_active-set_active new m))
  ]

-- No two active candles have the same key.
abbrev pub IsUnique : List ActiveCandle → Type 0
IsUnique [] = Unit
IsUnique (a ∷ m) = (get_active a.symbol a.interval m ≡ none) × IsUnique m

pub get_active_same :
    (s t : Text) (i j : CandleInterval) (m : List ActiveCandle)
    → s ≡ t
    → interval_index i ≡ interval_index j
    → get_active s i m ≡ get_active t j m
unfolding get_active
get_active_same s t i j [] p q = refl
get_active_same s t i j (a ∷ m) p q = λ k.
    if text_eq a.symbol (p k) && interval_index a.interval == q k
    then some a
    else get_active_same s t i j m p q k

pub set_active-IsUnique :
    (new : ActiveCandle) (m : List ActiveCandle) → IsUnique m → IsUnique (set_active new m)
unfolding set_active get_active
set_active-IsUnique new [] h = (refl, tt)
set_active-IsUnique new (a ∷ m) h = elim (Bool-cases (has_key new.symbol new.interval a)) [
  | inl e ↦
      rw (e, set_active)
        (
          get_active_same new.symbol a.symbol new.interval a.interval m
                (sym ((key_test_iff a.symbol new.symbol a.interval new.interval).0 e).0)
                (sym ((key_test_iff a.symbol new.symbol a.interval new.interval).0 e).1)
              ∙ h.0,
          h.1,
        )
  | inr e ↦
      rw (e, set_active)
        (
          get_active-set_active a.symbol a.interval new m
              ∙ rw (key_test_sym a.symbol new.symbol a.interval new.interval e) h.0,
          set_active-IsUnique new m h.1,
        )
]

pub get_active-key :
    (t : Text) (i : CandleInterval) (m : List ActiveCandle) (a : ActiveCandle)
    → get_active t i m ≡ some a
    → has_key t i a ≡ true
unfolding get_active
get_active-key t i [] a e = cc
get_active-key t i (b ∷ m) a e =
    elim (has_key t i b)
        as (λ x.
          has_key t i b ≡ x
          → (if x then some b else get_active t i m) ≡ some a
          → has_key t i a ≡ true) [
            | true ↦
                λ key found. let same : b ≡ a = cc in subst (λ x. has_key t i x ≡ true) same key
            | false ↦ λ key found. get_active-key t i m a found
          ]
      refl e
