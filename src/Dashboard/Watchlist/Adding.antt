-- ===== src/Dashboard/Watchlist/Adding.antt =====
-- Adding a symbol, from the payload of the dashboard to the configuration of the server.
use algo_trading_system.Prelude.{
  ◌+◌, ◌≡◌, ◌∙◌, ap, refl, Bool, true, false, ◌||◌, List, [], ◌∷◌, ◌++◌, some, arith, ==_iff,
}
use algo_trading_system.Prelude.Texts.{Text, text_eq, text_eq_iff, includes}
use algo_trading_system.ControlPlane.Symbols.{valid_symbol_filled}
use algo_trading_system.ControlPlane.{
  TextRules, RuntimeTradingConfiguration, ok, valid_symbol, all_valid, all_distinct, clean_symbols,
  normalize_symbols, to_configuration,
}
use algo_trading_system.ControlPlane.Store.{recorded, get_or_create}
use algo_trading_system.ControlPlane.Service.{
  validate_transition, entering_live, enabling_automation, ControlService, get, checked, commit,
  update,
}
use algo_trading_system.ControlPlane.Service.Updates.{commit_expected}
use algo_trading_system.ControlPlane.Service.History.{get_of_stored}
use algo_trading_system.Dashboard.Watchlist.{add_payload}

-- Stripping blanks and raising the case leave a symbol that is valid already as it is.
pub record KeepsSymbols (rules : TextRules) : Type 0 where
  pub strip_symbol : (t : Text) → valid_symbol t ≡ true → rules.strip t ≡ t
  pub upper_symbol : (t : Text) → valid_symbol t ≡ true → rules.upper t ≡ t

module _ (rules : TextRules) (keeps : KeepsSymbols rules) where
  clean_symbols_valid : (ss : List Text) → all_valid ss ≡ true → clean_symbols rules ss ≡ ss
  unfolding clean_symbols all_valid
  clean_symbols_valid [] h = refl
  clean_symbols_valid (s ∷ ss) h =
      let valid : valid_symbol s ≡ true = ground arith in
      let others : all_valid ss ≡ true = ground arith in
      rw (
        keeps.strip_symbol s valid,
        keeps.upper_symbol s valid,
        valid_symbol_filled s valid,
        clean_symbols_valid ss others,
      )

all_valid-append :
    (ss : List Text) (s : Text)
    → all_valid ss ≡ true
    → valid_symbol s ≡ true
    → all_valid (ss ++ s ∷ []) ≡ true
unfolding all_valid
all_valid-append [] s h v = rw v refl
all_valid-append (t ∷ ts) s h v = ground (arith, all_valid-append ts s)

includes-append :
    (ss : List Text) (s t : Text) → includes (ss ++ s ∷ []) t ≡ (includes ss t || text_eq s t)
unfolding includes
includes-append [] s t = ground arith
includes-append (u ∷ us) s t = ground (arith, includes-append us s t)

all_distinct-append :
    (ss : List Text) (s : Text)
    → all_distinct ss ≡ true
    → includes ss s ≡ false
    → all_distinct (ss ++ s ∷ []) ≡ true
unfolding all_distinct includes
all_distinct-append [] s h n = refl
all_distinct-append (t ∷ ts) s h n =
    ground
      (arith, all_distinct-append ts s, includes-append ts s t, text_eq_iff t s, text_eq_iff s t)

-- The next configuration: the symbol is added at the end, and the version rises.
abbrev pub with_symbol : RuntimeTradingConfiguration → Text → RuntimeTradingConfiguration
with_symbol c symbol = record c { symbols = c.symbols ++ symbol ∷ []; version = c.version + 1 }

module _ (rules : TextRules) (keeps : KeepsSymbols rules) where
  normalize_symbols_valid :
      (ss : List Text)
      → all_valid ss ≡ true
      → all_distinct ss ≡ true
      → normalize_symbols rules ss ≡ ok ss
  unfolding normalize_symbols
  normalize_symbols_valid ss v d = rw (clean_symbols_valid rules keeps ss v, v, d) refl

  module _ (c : RuntimeTradingConfiguration) (symbol : Text) (valid : all_valid c.symbols ≡ true)
      (distinct : all_distinct c.symbols ≡ true) (new_valid : valid_symbol symbol ≡ true)
      (new : includes c.symbols symbol ≡ false) where
    to_configuration-add_payload :
        to_configuration rules (add_payload c symbol) (c.version + 1) ≡ ok (with_symbol c symbol)
    unfolding to_configuration
    to_configuration-add_payload =
        rw
          (normalize_symbols_valid (c.symbols ++ symbol ∷ [])
            (all_valid-append c.symbols symbol valid new_valid)
            (all_distinct-append c.symbols symbol distinct new))
          refl

    -- An addition enters nothing that needs a confirmation.
    validate_transition-add_payload :
        validate_transition c (with_symbol c symbol) (add_payload c symbol) ≡ ok tt
    unfolding validate_transition entering_live enabling_automation
    validate_transition-add_payload = ground (arith, ==_iff c.version c.version)

    checked-add_payload : checked rules c (add_payload c symbol) ≡ ok (with_symbol c symbol)
    checked-add_payload = rw (to_configuration-add_payload, validate_transition-add_payload) refl

    module _ {ℓ} {A : Type ℓ} (s : ControlService A) (stored : s.store.configuration ≡ some c) where
      -- The call that applies the configuration with the symbol.
      abbrev call : Bool × A
      call = s.apply_configuration (with_symbol c symbol) s.application

      -- The service behind the addition.
      added : ControlService A
      added = record s { store = recorded (with_symbol c symbol) s.store; application = call.1 }

      get_self : get s ≡ (c, s)
      unfolding get get_or_create
      get_self = ground arith

      commit-add_payload :
          call.0 ≡ true
          → commit c (with_symbol c symbol) c.version s ≡ (ok (with_symbol c symbol), added)
      unfolding added
      commit-add_payload returned =
          commit_expected s c (with_symbol c symbol) c.version stored refl ∙ rw returned refl

      update-added :
          call.0 ≡ true → update rules (add_payload c symbol) s ≡ (ok (with_symbol c symbol), added)
      unfolding update
      update-added returned =
          let check : checked rules (get s).0 (add_payload c symbol) ≡ ok (with_symbol c symbol) =
            ap (λ x. checked rules x.0 (add_payload c symbol)) get_self ∙ checked-add_payload in
          rw (check, update)
            (ap (λ x. commit x.0 (with_symbol c symbol) c.version x.1) get_self
              ∙ commit-add_payload returned)

      -- Adding a valid symbol that is not listed yet to the configuration that the server has stored,
      -- whose symbols are valid and distinct, succeeds without any confirmation, also while live orders
      -- are automatic, where stripping and raising keep valid symbols and applying the result to the
      -- application returns; the answer is that configuration with the symbol at the end and the next
      -- version, and it is what the server then has.
      pub update-add_payload :
          call.0 ≡ true
          → ((update rules (add_payload c symbol) s).0 ≡ ok (with_symbol c symbol))
            × ((get (update rules (add_payload c symbol) s).1).0 ≡ with_symbol c symbol)
      unfolding added
      update-add_payload returned =
          rw (update-added returned) (refl, (get_of_stored added (with_symbol c symbol) refl).0)
