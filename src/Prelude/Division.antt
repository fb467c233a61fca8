-- ===== src/Prelude/Division.antt =====
-- Quotients of natural numbers.
use algo_trading_system.Prelude.{ℕ, ◌+◌, ◌*◌, ◌/◌, ◌≤◌, ◌<◌, ◌≡◌, arith}

pub below_multiple : (x d : ℕ) → 0 < d → (x / d * d ≤ x) × (x < x / d * d + d)
below_multiple x d h = grind arith

pub same_quotient : (x y d : ℕ) → x / d * d ≤ y → y < x / d * d + d → y / d ≡ x / d
same_quotient x y d a b = grind arith
