-- ===== src/ControlPlane/Symbols.antt =====
-- Facts about the symbols that the pattern accepts.
use algo_trading_system.Prelude.{◌≡◌, refl, true, [], ◌∷◌, arith}
use algo_trading_system.Prelude.Texts.{Text}
use algo_trading_system.ControlPlane.{valid_symbol, all_symbol_chars, is_filled}

pub valid_symbol_filled : (t : Text) → valid_symbol t ≡ true → is_filled t ≡ true
unfolding valid_symbol
valid_symbol_filled [] h = h
valid_symbol_filled (c ∷ cs) h = refl

pub valid_symbol_chars : (s : Text) → valid_symbol s ≡ true → all_symbol_chars s ≡ true
unfolding valid_symbol
valid_symbol_chars [] h = cc
valid_symbol_chars (c ∷ cs) h = ground arith
