-- ===== src/Trading/Strategies/Registered.antt =====
-- A registry has every strategy under a name of its own.
use algo_trading_system.Prelude.{
  ℕ, ◌≡◌, ◌≢◌, refl, ap, true, false, ◌||◌, List, [], ◌∷◌, ◌++◌, none, some, Option-cases,
  Bool-cases, inl, inr, arith,
}
use algo_trading_system.Prelude.Texts.{Text, text_eq, text_eq_iff, includes}
use algo_trading_system.Prelude.TextMaps.{TextMap, find}
use algo_trading_system.ControlPlane.{all_distinct}
use algo_trading_system.Trading.Strategies.{Strategy, register_as, register}

includes-append_last :
    (names : List Text) (name n : Text)
    → includes (names ++ name ∷ []) n ≡ (includes names n || text_eq name n)
unfolding includes
includes-append_last [] name n = ground arith
includes-append_last (x ∷ xs) name n = ground (arith, includes-append_last xs name n)

all_distinct-append_last :
    (names : List Text) (name : Text)
    → all_distinct names ≡ true
    → includes names name ≡ false
    → all_distinct (names ++ name ∷ []) ≡ true
unfolding all_distinct includes
all_distinct-append_last [] name h k = refl
all_distinct-append_last (x ∷ xs) name h k = ground (
  arith,
  includes-append_last xs name x,
  text_eq_iff x name,
  text_eq_iff name x,
  all_distinct-append_last xs name,
)

still_filled :
    (names : List Text) (c : ℕ) (cs : Text)
    → includes names [] ≡ false
    → includes (names ++ (c ∷ cs) ∷ []) [] ≡ false
still_filled names c cs h = rw (includes-append_last names (c ∷ cs) [], h) (unfold text_eq in refl)

module _ {ℓ} {S : Type ℓ} where
  abbrev pub names_of : TextMap (Strategy S) → List Text
  names_of [] = []
  names_of ((name, p) ∷ m) = name ∷ names_of m

  -- Every name is there once, and none is blank.
  pub record IsRegistry (m : TextMap (Strategy S)) : Type 0 where
    pub distinct : all_distinct (names_of m) ≡ true
    pub filled : includes (names_of m) [] ≡ false

  names_of-append :
      (m : TextMap (Strategy S)) (name : Text) (p : Strategy S)
      → names_of (m ++ (name, p) ∷ []) ≡ names_of m ++ name ∷ []
  names_of-append [] name p = refl
  names_of-append ((n, q) ∷ m) name p = ap (n ∷◌) (names_of-append m name p)

  unregistered :
      (m : TextMap (Strategy S)) (name : Text)
      → find name m ≡ none
      → includes (names_of m) name ≡ false
  unfolding find includes
  unregistered [] name h = refl
  unregistered ((n, q) ∷ m) name h = elim (Bool-cases (text_eq n name)) [
    | inl e ↦ (let found : some q ≡ none = rw⁻¹ h (rw (e, find) refl) in cc)
    | inr e ↦ rw e (unregistered m name (rw⁻¹ h (rw (e, find) refl)))
  ]

  register_as-IsRegistry :
      (name : Text) (p : Strategy S) (m : TextMap (Strategy S))
      → IsRegistry m
      → let (error, after) = register_as name p m in
        IsRegistry after
        × ((error ≡ none) → names_of after ≡ names_of m ++ name ∷ [])
        × ((error ≢ none) → after ≡ m)
  unfolding register_as
  register_as-IsRegistry [] p m h = (h, λ e. cc, λ e. refl)
  register_as-IsRegistry (c ∷ cs) p m h = elim (Option-cases (find (c ∷ cs) m)) [
    | inl e ↦
        let fresh = unregistered m (c ∷ cs) e in
        rw (e, register_as)
          (
            record {
              distinct =
                  rw (names_of-append m (c ∷ cs) p)
                    (all_distinct-append_last (names_of m) (c ∷ cs) h.distinct fresh);
              filled = rw (names_of-append m (c ∷ cs) p) (still_filled (names_of m) c cs h.filled);
            },
            λ same. names_of-append m (c ∷ cs) p,
            λ other. absurd (other refl),
          )
    | inr (q, e) ↦ rw (e, register_as) (h, λ e. cc, λ e. refl)
  ]

  -- The names of a registry stay distinct and filled; a strategy that is accepted is the last, under
  -- its stripped name, and one that is refused changes nothing.
  pub register-IsRegistry :
      (strip : Text → Text) (p : Strategy S) (m : TextMap (Strategy S))
      → IsRegistry m
      → let (error, after) = register strip p m in
        IsRegistry after
        × ((error ≡ none) → names_of after ≡ names_of m ++ strip p.name ∷ [])
        × ((error ≢ none) → after ≡ m)
  unfolding register
  register-IsRegistry strip p m h = register_as-IsRegistry (strip p.name) p m h
