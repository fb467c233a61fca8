-- ===== src/MarketData/CandleStore/Strict.antt =====
-- Candles with one start each, in the order of time.
use algo_trading_system.Prelude.{
  ℕ, ◌≤◌, ◌<◌, List, [], ◌∷◌, arith, Bool-cases, inl, inr, ltb, ltb→lt, ltb-false→le, leb, ◌==◌,
  ==_iff, length, All, All-mono, Bool, filterb,
}
use algo_trading_system.Prelude.Suffixes.{take_last, All-filterb}
use algo_trading_system.MarketData.CandleEngine.{Candle}
use algo_trading_system.MarketData.CandleStore.{}
use algo_trading_system.MarketData.CandleStore.Ordered.{place}

abbrev pub IsStrict : List Candle → Type 0
IsStrict [] = Unit
IsStrict (c ∷ cs) = All (λ d. c.start_at < d.start_at) cs × IsStrict cs

pub All-place {κ} :
    (P : Candle → Type κ) (new : Candle) (cs : List Candle)
    → P new
    → All P cs
    → All P (place new cs)
unfolding place
All-place P new [] h k = (h, k)
All-place P new (c ∷ cs) h k = elim (Bool-cases (ltb c.start_at new.start_at)) [
  | inl e ↦ rw e (k.0, All-place P new cs h k.1)
  | inr e ↦ rw e (elim (Bool-cases (c.start_at == new.start_at)) [
    | inl same ↦ rw same (h, k.1)
    | inr other ↦ rw other (h, k)
  ])
]

pub place-IsStrict : (new : Candle) (cs : List Candle) → IsStrict cs → IsStrict (place new cs)
unfolding place
place-IsStrict new [] h = (tt, tt)
place-IsStrict new (c ∷ cs) h = elim (Bool-cases (ltb c.start_at new.start_at)) [
  | inl e ↦ rw e (
    All-place (λ d. c.start_at < d.start_at) new cs (ltb→lt _ _ e) h.0,
    place-IsStrict new cs h.1,
  )
  | inr e ↦ rw e (elim (Bool-cases (c.start_at == new.start_at)) [
    | inl same ↦
        let equal = (==_iff _ _).0 same in
        rw same (All-mono _ _ cs (λ d le. omega (arith, equal, le)) h.0, h.1)
    | inr other ↦
        let less : new.start_at < c.start_at = ground (arith, ltb-false→le _ _ e, other) in
        rw other ((less, All-mono _ _ cs (λ d le. omega (arith, less, le)) h.0), h)
  ])
]

pub take_last-IsStrict : (n : ℕ) (cs : List Candle) → IsStrict cs → IsStrict (take_last n cs)
unfolding take_last
take_last-IsStrict n [] h = h
take_last-IsStrict n (c ∷ cs) h = elim (Bool-cases (leb (length (c ∷ cs)) n)) [
  | inl e ↦ rw e h
  | inr e ↦ rw e (take_last-IsStrict n cs h.1)
]

pub IsStrict-filterb :
    (p : Candle → Bool) (cs : List Candle) → IsStrict cs → IsStrict (filterb p cs)
IsStrict-filterb p [] h = h
IsStrict-filterb p (c ∷ cs) h = elim (Bool-cases (p c)) [
  | inl e ↦ rw (e, filterb) (All-filterb _ p cs h.0, IsStrict-filterb p cs h.1)
  | inr e ↦ rw (e, filterb) (IsStrict-filterb p cs h.1)
]

pub length-filterb : (p : Candle → Bool) (cs : List Candle) → length (filterb p cs) ≤ length cs
length-filterb p [] = omega arith
length-filterb p (c ∷ cs) = ground (arith, length-filterb p cs)
