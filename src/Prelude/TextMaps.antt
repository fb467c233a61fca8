-- ===== src/Prelude/TextMaps.antt =====
-- Python's `dict` with keys that are texts, as an association list.
use algo_trading_system.Prelude.{◌≡◌, refl, List, [], ◌∷◌, Option, none, some, arith, if◌then◌else◌}
use algo_trading_system.Prelude.Texts.{Text, text_eq, text_eq_iff}

abbrev pub TextMap {ℓ} : Type ℓ → Type ℓ
TextMap A = List (Text × A)

module _ {ℓ} {A : Type ℓ} where
  unfoldable pub find : Text → TextMap A → Option A
  find k [] = none
  find k ((j, v) ∷ m) = if text_eq j k then some v else find k m

  unfoldable pub put : Text → A → TextMap A → TextMap A
  put k v [] = (k, v) ∷ []
  put k v ((j, w) ∷ m) = let rest = put k v m in if text_eq j k then (k, v) ∷ m else (j, w) ∷ rest

  pub find-put :
      (j k : Text) (v : A) (m : TextMap A)
      → find j (put k v m) ≡ (if text_eq k j then some v else find j m)
  unfolding find put
  find-put j k v [] = refl
  find-put j k v ((i, w) ∷ m) =
      ground (arith, text_eq_iff k j, text_eq_iff i k, text_eq_iff i j, find-put j k v m)
