-- ===== src/Dashboard/Series/Cache.antt =====
-- The cache of loaded series is a map: what a key holds after a write.
use algo_trading_system.Prelude.{
  ℕ, zero, suc, ◌≡◌, ◌↔◌, refl, sym, ap, ◌∙◌, true, [], ◌∷◌, some, arith, if◌then◌else◌,
}
use algo_trading_system.Prelude.Texts.{text_eq_iff}
use algo_trading_system.Chart.{
  ChartRange, one_day, one_week, one_month, three_months, six_months, one_year, three_years,
  five_years,
}
use algo_trading_system.Chart.Loader.{LoadedSeries}
use algo_trading_system.Dashboard.Series.{
  CacheKey, Cache, range_index, key_eq, cache_get, cache_set,
}

abbrev range_of : ℕ → ChartRange
range_of zero = one_day
range_of (suc zero) = one_week
range_of (suc (suc zero)) = one_month
range_of (suc (suc (suc zero))) = three_months
range_of (suc (suc (suc (suc zero)))) = six_months
range_of (suc (suc (suc (suc (suc zero))))) = one_year
range_of (suc (suc (suc (suc (suc (suc zero)))))) = three_years
range_of (suc (suc (suc (suc (suc (suc (suc n))))))) = five_years

range_of-range_index : (r : ChartRange) → range_of (range_index r) ≡ r
range_of-range_index ChartRange.one_day = refl
range_of-range_index ChartRange.one_week = refl
range_of-range_index ChartRange.one_month = refl
range_of-range_index ChartRange.three_months = refl
range_of-range_index ChartRange.six_months = refl
range_of-range_index ChartRange.one_year = refl
range_of-range_index ChartRange.three_years = refl
range_of-range_index ChartRange.five_years = refl

range_index-injective : (r q : ChartRange) → range_index r ≡ range_index q → r ≡ q
range_index-injective r q e = sym (range_of-range_index r) ∙ ap range_of e ∙ range_of-range_index q

pub key_eq_iff : (a b : CacheKey) → (key_eq a b ≡ true) ↔ (a ≡ b)
unfolding key_eq
key_eq_iff a b =
    ground (arith, text_eq_iff a.symbol b.symbol, range_index-injective a.range b.range)

-- A read after a write finds what was written under the same key, and what was there before under
-- any other.
pub cache_get-cache_set :
    (j k : CacheKey) (v : LoadedSeries) (m : Cache)
    → cache_get j (cache_set k v m) ≡ (if key_eq k j then some v else cache_get j m)
unfolding cache_get cache_set
cache_get-cache_set j k v [] = refl
cache_get-cache_set j k v ((i, w) ∷ m) =
    ground (arith, key_eq_iff k j, key_eq_iff i k, key_eq_iff i j, cache_get-cache_set j k v m)
