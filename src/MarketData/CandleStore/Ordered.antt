-- ===== src/MarketData/CandleStore/Ordered.antt =====
-- The candles of a series in the order of time: an upsert places a candle and keeps the newest.
use algo_trading_system.Prelude.{
  ℕ, zero, suc, ◌-◌, ◌≤◌, ◌<◌, ◌≡◌, ◌≢◌, refl, sym, ap, ◌∙◌, List, [], ◌∷◌, some, arith, Bool-cases,
  inl, inr, ltb, ltb→lt, ltb-false→le, ◌==◌, ==_iff, if◌then◌else◌, length, All, IsAscending,
  All-mono, min,
}
use algo_trading_system.Prelude.Suffixes.{take_last}
use algo_trading_system.MarketData.CandleEngine.{Candle}
use algo_trading_system.MarketData.CandleStore.{
  start_of, put_candle, least_start, delete_candle, delete_oldest, trim, insert_candle,
  sort_candles,
}

-- A candle takes the place of the one with its start, or its place in the order of time.
unfoldable pub place : Candle → List Candle → List Candle
place new [] = new ∷ []
place new (c ∷ cs) =
    let rest = place new cs in
    if ltb c.start_at new.start_at
    then c ∷ rest
    else (if c.start_at == new.start_at then new ∷ cs else new ∷ c ∷ cs)

abbrev later : List Candle → List Candle
later [] = []
later (c ∷ cs) = cs

insert_candle_same :
    (new c : Candle) (cs : List Candle)
    → c.start_at ≡ new.start_at
    → place new (insert_candle c cs) ≡ insert_candle new cs
unfolding place insert_candle
insert_candle_same new c [] e = ground arith
insert_candle_same new c (d ∷ ds) e = ground (arith, insert_candle_same new c ds e)

insert_candle-place :
    (new c : Candle) (cs : List Candle)
    → c.start_at ≢ new.start_at
    → insert_candle c (place new cs) ≡ place new (insert_candle c cs)
unfolding place insert_candle
insert_candle-place new c [] e = ground arith
insert_candle-place new c (d ∷ ds) e = ground (arith, insert_candle-place new c ds e)

pub sort_candles-put_candle :
    (new : Candle) (cs : List Candle)
    → sort_candles (put_candle new cs) ≡ place new (sort_candles cs)
unfolding sort_candles put_candle
sort_candles-put_candle new [] = unfold place insert_candle in refl
sort_candles-put_candle new (c ∷ cs) = elim (Bool-cases (c.start_at == new.start_at)) [
  | inl e ↦ rw e (sym (insert_candle_same new c (sort_candles cs) ((==_iff _ _).0 e)))
  | inr e ↦ rw e (
      ap (insert_candle c) (sort_candles-put_candle new cs)
      ∙ insert_candle-place new c (sort_candles cs) (ground (arith, e)))
]

All-insert_candle {κ} :
    (P : Candle → Type κ) (c : Candle) (cs : List Candle)
    → P c
    → All P cs
    → All P (insert_candle c cs)
unfolding insert_candle
All-insert_candle P c [] h k = (h, k)
All-insert_candle P c (d ∷ ds) h k = elim (Bool-cases (ltb d.start_at c.start_at)) [
  | inl e ↦ rw e (k.0, All-insert_candle P c ds h k.1)
  | inr e ↦ rw e (h, k)
]

All-above :
    (a b : ℕ) (cs : List Candle)
    → a ≤ b
    → All (λ c. b ≤ c.start_at) cs
    → All (λ c. a ≤ c.start_at) cs
All-above a b cs h k = All-mono _ _ cs (λ c le. omega (arith, h, le)) k

insert_candle-IsAscending :
    (c : Candle) (cs : List Candle)
    → IsAscending start_of cs
    → IsAscending start_of (insert_candle c cs)
unfolding insert_candle
insert_candle-IsAscending c [] h = (tt, tt)
insert_candle-IsAscending c (d ∷ ds) h = elim (Bool-cases (ltb d.start_at c.start_at)) [
  | inl e ↦ rw e (
    All-insert_candle (λ x. d.start_at ≤ x.start_at) c ds (omega (arith, ltb→lt _ _ e)) h.0,
    insert_candle-IsAscending c ds h.1,
  )
  | inr e ↦ let le = ltb-false→le _ _ e in rw e ((le, All-above c.start_at d.start_at ds le h.0), h)
]

pub sort_candles-IsAscending : (cs : List Candle) → IsAscending start_of (sort_candles cs)
unfolding sort_candles
sort_candles-IsAscending [] = tt
sort_candles-IsAscending (c ∷ cs) =
    insert_candle-IsAscending c (sort_candles cs) (sort_candles-IsAscending cs)

length-insert_candle :
    (c : Candle) (cs : List Candle) → length (insert_candle c cs) ≡ suc (length cs)
unfolding insert_candle
length-insert_candle c [] = refl
length-insert_candle c (d ∷ ds) = ground (arith, length-insert_candle c ds)

pub length-sort_candles : (cs : List Candle) → length (sort_candles cs) ≡ length cs
unfolding sort_candles
length-sort_candles [] = refl
length-sort_candles (c ∷ cs) =
    length-insert_candle c (sort_candles cs) ∙ ap suc (length-sort_candles cs)

delete_candle-insert_candle :
    (start : ℕ) (c : Candle) (cs : List Candle)
    → c.start_at ≡ start
    → delete_candle start (insert_candle c cs) ≡ cs
unfolding delete_candle insert_candle
delete_candle-insert_candle start c [] e = ground arith
delete_candle-insert_candle start c (d ∷ ds) e =
    ground (arith, delete_candle-insert_candle start c ds e)

insert_candle-in_front :
    (c : Candle) (cs : List Candle)
    → All (λ d. c.start_at ≤ d.start_at) cs
    → insert_candle c cs ≡ c ∷ cs
unfolding insert_candle
insert_candle-in_front c [] h = refl
insert_candle-in_front c (d ∷ ds) h = ground (arith, h.0)

insert_candle-delete_candle :
    (start : ℕ) (c : Candle) (cs : List Candle)
    → c.start_at ≢ start
    → IsAscending start_of cs
    → insert_candle c (delete_candle start cs) ≡ delete_candle start (insert_candle c cs)
unfolding delete_candle insert_candle
insert_candle-delete_candle start c [] e h = ground arith
insert_candle-delete_candle start c (d ∷ ds) e h = elim (Bool-cases (ltb d.start_at c.start_at)) [
  | inl less ↦ ground (arith, insert_candle-delete_candle start c ds e h.1, less)
  | inr more ↦
      let front =
        insert_candle-in_front c ds
          (All-above c.start_at d.start_at ds (ltb-false→le _ _ more) h.0) in
      ground (arith, front, more)
]

sort_candles-delete_candle :
    (start : ℕ) (cs : List Candle)
    → sort_candles (delete_candle start cs) ≡ delete_candle start (sort_candles cs)
unfolding sort_candles delete_candle
sort_candles-delete_candle start [] = refl
sort_candles-delete_candle start (c ∷ cs) = elim (Bool-cases (c.start_at == start)) [
  | inl e ↦ rw e (sym (delete_candle-insert_candle start c (sort_candles cs) ((==_iff _ _).0 e)))
  | inr e ↦ rw e (
      ap (insert_candle c) (sort_candles-delete_candle start cs)
      ∙ insert_candle-delete_candle start c (sort_candles cs) (ground (arith, e))
          (sort_candles-IsAscending cs))
]

abbrev first_or : ℕ → List Candle → ℕ
first_or m [] = m
first_or m (c ∷ cs) = min m c.start_at

first_or-insert_candle :
    (m : ℕ) (c : Candle) (cs : List Candle)
    → first_or (min m c.start_at) cs ≡ first_or m (insert_candle c cs)
unfolding insert_candle
first_or-insert_candle m c [] = refl
first_or-insert_candle m c (d ∷ ds) = ground arith

least_start-first_or : (m : ℕ) (cs : List Candle) → least_start m cs ≡ first_or m (sort_candles cs)
unfolding least_start sort_candles
least_start-first_or m [] = refl
least_start-first_or m (c ∷ cs) =
    least_start-first_or (min m c.start_at) cs ∙ first_or-insert_candle m c (sort_candles cs)

delete_first :
    (c : Candle) (cs : List Candle)
    → delete_candle (first_or c.start_at cs) (insert_candle c cs) ≡ later (insert_candle c cs)
unfolding delete_candle insert_candle
delete_first c [] = ground arith
delete_first c (d ∷ ds) = ground arith

sort_candles-delete_oldest :
    (cs : List Candle) → sort_candles (delete_oldest cs) ≡ later (sort_candles cs)
unfolding delete_oldest
sort_candles-delete_oldest [] = unfold sort_candles in refl
sort_candles-delete_oldest (c ∷ cs) =
    sort_candles-delete_candle (least_start c.start_at cs) (c ∷ cs)
    ∙ rw (least_start-first_or c.start_at cs)
        (unfold sort_candles in delete_first c (sort_candles cs))

length-later : (cs : List Candle) → length (later cs) ≡ length cs - 1
length-later [] = omega arith
length-later (c ∷ cs) = omega arith

length-delete_oldest : (cs : List Candle) → length (delete_oldest cs) ≡ length cs - 1
length-delete_oldest cs =
    sym (length-sort_candles (delete_oldest cs))
    ∙ ap length (sort_candles-delete_oldest cs)
    ∙ length-later (sort_candles cs)
    ∙ ap (λ n. n - 1) (length-sort_candles cs)

take_last_short : (maximum : ℕ) (cs : List Candle) → length cs ≤ maximum → take_last maximum cs ≡ cs
unfolding take_last
take_last_short maximum [] h = refl
take_last_short maximum (c ∷ cs) h = ground (arith, h)

take_last-later :
    (maximum : ℕ) (cs : List Candle)
    → maximum < length cs
    → take_last maximum (later cs) ≡ take_last maximum cs
unfolding take_last
take_last-later maximum [] h = refl
take_last-later maximum (c ∷ cs) h = ground (arith, h)

-- With a unit of fuel for each candle the loop ends, and it keeps the newest candles.
pub trim-take_last :
    (fuel maximum : ℕ) (cs : List Candle)
    → length cs ≤ fuel
    → (kept : List Candle) × (trim fuel maximum cs ≡ some kept)
      × (sort_candles kept ≡ take_last maximum (sort_candles cs))
unfolding trim
trim-take_last zero maximum cs h = (
  cs,
  ground (arith, h),
  sym (take_last_short maximum _ (omega (arith, h, length-sort_candles cs))),
)
trim-take_last (suc fuel) maximum cs h = elim (Bool-cases (ltb maximum (length cs))) [
  | inl more ↦
      let (kept, ended, newest) =
        trim-take_last fuel maximum (delete_oldest cs)
          (omega (arith, h, length-delete_oldest cs)) in
      (
        kept,
        rw more ended,
        newest
            ∙ ap (take_last maximum) (sort_candles-delete_oldest cs)
            ∙ take_last-later maximum (sort_candles cs)
                (omega (arith, ltb→lt _ _ more, length-sort_candles cs)),
      )
  | inr fits ↦ (
    cs,
    rw fits refl,
    sym (take_last_short maximum _ (omega (arith, ltb-false→le _ _ fits, length-sort_candles cs))),
  )
]
