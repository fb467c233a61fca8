-- ===== src/Trading/Risk/Limits.antt =====
-- What an approved signal keeps to.
use algo_trading_system.Prelude.{
  ℕ, ◌+◌, ◌*◌, ◌≤◌, ◌<◌, ◌≡◌, ◌⊎◌, inl, inr, refl, Bool, true, false, ◌&&◌, ◌||◌, not, arith, ltb,
  leb, ltb→lt, ltb-false→le, leb-false→lt, ==_iff, Bool-cases, subst, sym, ◌==◌, if◌then◌else◌,
}
use algo_trading_system.Prelude.Int.{ℤ, pos, abs, ◌<ℤ◌, ◌-ℤ◌, leb_ℤ, int_laws}
use algo_trading_system.Prelude.Division.{below_multiple}
use algo_trading_system.ControlPlane.{RiskPolicy}
use algo_trading_system.Trading.{StrategyDirection, buy, sell, exit, hold, StrategySignalIntent}
use algo_trading_system.Trading.Risk.{
  wide, RiskContext, RiskManagedSignal, RejectReason, RiskDecision, approved, not_applicable,
  is_amount, is_valid_signal, opens_position, stop_distance, stop_loss, take_profit, expected_move,
  position_size, current_daily_loss, reject_if, managed_signal, approve, check_portfolio, evaluate,
}

-- The entry lies between the stop and the target, on the sides that fit the direction, and both are
-- positive.
abbrev pub Brackets : StrategyDirection → RiskManagedSignal → Type 0
Brackets buy s =
    (pos 0 <ℤ s.stop_loss)
    × (s.stop_loss <ℤ pos s.entry_price)
    × (pos s.entry_price <ℤ s.take_profit)
Brackets sell s =
    (pos 0 <ℤ s.take_profit)
    × (s.take_profit <ℤ pos s.entry_price)
    × (pos s.entry_price <ℤ s.stop_loss)
Brackets exit s = ⊥
Brackets hold s = ⊥

-- What one share loses between the entry and the stop of the signal.
abbrev pub loss_per_share : RiskManagedSignal → ℕ
loss_per_share s = abs (pos s.entry_price -ℤ s.stop_loss)

pub record IsWithinLimits (policy : RiskPolicy) (intent : StrategySignalIntent) (c : RiskContext)
    (s : RiskManagedSignal) : Type 0 where
  -- The signal is that of the intent, at the price of the context.
  pub symbol : s.symbol ≡ intent.symbol
  pub timestamp : s.timestamp ≡ intent.timestamp
  pub strategy : s.strategy ≡ intent.strategy
  pub direction : s.direction ≡ intent.direction
  pub entry : s.entry_price ≡ wide c.entry_price
  pub new_position : c.would_average_down ≡ false
  pub losses : c.consecutive_losses < policy.max_consecutive_losses
  pub prices : Brackets s.direction s
  pub loss_at_stop : s.position_risk ≡ s.position_size * loss_per_share s
  pub risk : s.position_size * loss_per_share s ≤ c.account_equity * policy.risk_per_trade_fraction
  -- One share more would risk too much.
  pub largest :
      c.account_equity * policy.risk_per_trade_fraction
      < s.position_size * loss_per_share s + loss_per_share s
  pub daily_loss :
      wide (current_daily_loss c) + s.position_size * loss_per_share s
      ≤ c.account_equity * policy.max_daily_loss_fraction
  pub reserve :
      (c.available_cash ≡ 0)
      ⊎ (wide (s.position_size * c.entry_price)
            + c.account_equity * policy.minimum_cash_reserve_fraction
          ≤ wide c.available_cash)
  pub exposure :
      wide (c.gross_exposure + s.position_size * c.entry_price)
      ≤ c.account_equity * policy.max_gross_exposure_fraction
  pub room : (c.has_open_position ≡ true) ⊎ (c.open_positions < policy.max_open_positions)

reject_if_approved :
    (b : Bool) (r : RejectReason) (next : RiskDecision) (s : RiskManagedSignal)
    → reject_if b r next ≡ approved s
    → (b ≡ false) × (next ≡ approved s)
reject_if_approved true r next s h = cc
reject_if_approved false r next s h = (refl, h)

opening_approved :
    (opens : Bool) (next : RiskDecision) (s : RiskManagedSignal)
    → (if not opens then not_applicable else next) ≡ approved s
    → (opens ≡ true) × (next ≡ approved s)
opening_approved true next s h = (refl, h)
opening_approved false next s h = cc

-- A signal that is approved is the one that was made, and valid.
approve_approved :
    (made s : RiskManagedSignal)
    → approve made ≡ approved s
    → (is_valid_signal s ≡ true) × (made ≡ s)
unfolding approve
approve_approved made s h = elim (Bool-cases (is_valid_signal made)) [
  | inl e ↦
      let same : made ≡ s = ground arith in (subst (λ x. is_valid_signal x ≡ true) same e, same)
  | inr e ↦ ground arith
]

record IsPortfolioSafe (policy : RiskPolicy) (intent : StrategySignalIntent) (c : RiskContext)
    (size : ℕ) (s : RiskManagedSignal) : Type 0 where
  made : managed_signal policy intent c size ≡ s
  valid : is_valid_signal s ≡ true
  daily_loss :
      wide (current_daily_loss c) + size * stop_distance policy c
      ≤ c.account_equity * policy.max_daily_loss_fraction
  reserve :
      (c.available_cash ≡ 0)
      ⊎ (wide (size * c.entry_price) + c.account_equity * policy.minimum_cash_reserve_fraction
          ≤ wide c.available_cash)
  exposure :
      wide (c.gross_exposure + size * c.entry_price)
      ≤ c.account_equity * policy.max_gross_exposure_fraction
  room : (c.has_open_position ≡ true) ⊎ (c.open_positions < policy.max_open_positions)

reserve_kept :
    (cash needed : ℕ)
    → (not (cash == 0) && ltb (wide cash) needed) ≡ false
    → (cash ≡ 0) ⊎ (needed ≤ wide cash)
reserve_kept cash needed h = elim (Bool-cases (cash == 0)) [
  | inl e ↦ inl ((==_iff cash 0).0 e)
  | inr e ↦ inr (ltb-false→le (wide cash) needed (ground arith))
]

room_left :
    (has : Bool) (limit n : ℕ) → (not has && leb limit n) ≡ false → (has ≡ true) ⊎ (n < limit)
room_left true limit n h = inl refl
room_left false limit n h = inr (leb-false→lt limit n h)

check_portfolio_approved :
    (policy : RiskPolicy) (intent : StrategySignalIntent) (c : RiskContext) (size : ℕ)
    (s : RiskManagedSignal)
    → check_portfolio policy intent c size ≡ approved s
    → IsPortfolioSafe policy intent c size s
unfolding check_portfolio
check_portfolio_approved policy intent c size s h =
    let funded = reject_if_approved _ _ _ s h in
    let daily = reject_if_approved _ _ _ s funded.1 in
    let cash = reject_if_approved _ _ _ s daily.1 in
    let exposed = reject_if_approved _ _ _ s cash.1 in
    let held = reject_if_approved _ _ _ s exposed.1 in
    let done = approve_approved (managed_signal policy intent c size) s held.1 in
    record {
      made = done.1;
      valid = done.0;
      daily_loss = ltb-false→le _ _ daily.0;
      reserve = reserve_kept c.available_cash _ cash.0;
      exposure = ltb-false→le _ _ exposed.0;
      room = room_left c.has_open_position _ _ held.0;
    }

leb_ℤ-false→lt : (a b : ℤ) → leb_ℤ a b ≡ false → b <ℤ a
leb_ℤ-false→lt a b h = leb-false→lt _ _ h

sub_below : (a b : ℕ) → 0 < b → (pos a -ℤ pos b) <ℤ pos a
sub_below a b h = omega int_laws

abs-sub_of_add : (a d : ℕ) → abs (pos a -ℤ pos (a + d)) ≡ d
unfolding ◌-ℤ◌
abs-sub_of_add a d = ground arith

abs-sub_of_sub : (a d : ℕ) → abs (pos a -ℤ (pos a -ℤ pos d)) ≡ d
unfolding ◌-ℤ◌
abs-sub_of_sub a d = ground arith

-- The stop is at its distance from the entry.
distance-stop_loss :
    (d : StrategyDirection) (policy : RiskPolicy) (c : RiskContext)
    → abs (pos (wide c.entry_price) -ℤ stop_loss policy d c) ≡ stop_distance policy c
distance-stop_loss buy policy c = abs-sub_of_sub (wide c.entry_price) (stop_distance policy c)
distance-stop_loss d policy c = abs-sub_of_add (wide c.entry_price) (stop_distance policy c)

brackets :
    (d : StrategyDirection) (policy : RiskPolicy) (c : RiskContext) (s : RiskManagedSignal)
    → opens_position d ≡ true
    → 0 < stop_distance policy c
    → 0 < expected_move policy c
    → s.entry_price ≡ wide c.entry_price
    → s.stop_loss ≡ stop_loss policy d c
    → s.take_profit ≡ take_profit policy d c
    → leb_ℤ (stop_loss policy d c) (pos 0) ≡ false
    → leb_ℤ (take_profit policy d c) (pos 0) ≡ false
    → Brackets d s
brackets buy policy c s o sd em e l t x y =
    rw (e, l, t)
      (
        leb_ℤ-false→lt (stop_loss policy buy c) (pos 0) x,
        sub_below (wide c.entry_price) (stop_distance policy c) sd,
        omega arith,
      )
brackets sell policy c s o sd em e l t x y =
    rw (e, l, t)
      (
        leb_ℤ-false→lt (take_profit policy sell c) (pos 0) y,
        sub_below (wide c.entry_price) (expected_move policy c) em,
        omega arith,
      )
brackets exit policy c s o sd em e l t x y = cc
brackets hold policy c s o sd em e l t x y = cc

is_amount_pos : (n : ℕ) → is_amount n ≡ true → 0 < n
is_amount_pos n h = ltb→lt 0 n (ground arith)

factor_pos : (a b : ℕ) → 0 < a * b → 0 < b
factor_pos a b h = grind arith

-- What a valid signal says of the distances.
valid_distances :
    (policy : RiskPolicy) (intent : StrategySignalIntent) (c : RiskContext) (size : ℕ)
    → is_valid_signal (managed_signal policy intent c size) ≡ true
    → (0 < size * stop_distance policy c) × (0 < expected_move policy c)
unfolding is_valid_signal managed_signal
valid_distances policy intent c size h =
    (is_amount_pos _ (ground arith), is_amount_pos _ (ground arith))

evaluate_safe :
    (policy : RiskPolicy) (intent : StrategySignalIntent) (c : RiskContext) (s : RiskManagedSignal)
    → opens_position intent.direction ≡ true
    → c.would_average_down ≡ false
    → c.consecutive_losses < policy.max_consecutive_losses
    → (leb_ℤ (stop_loss policy intent.direction c) (pos 0)
        || leb_ℤ (take_profit policy intent.direction c) (pos 0))
      ≡ false
    → IsPortfolioSafe policy intent c (position_size policy c) s
    → IsWithinLimits policy intent c s
unfolding managed_signal position_size
evaluate_safe policy intent c s opens fresh streak priced p =
    subst (IsWithinLimits policy intent c) p.made (
      let valid = subst (λ x. is_valid_signal x ≡ true) (sym p.made) p.valid in
      let distances = valid_distances policy intent c (position_size policy c) valid in
      let positive = factor_pos (position_size policy c) (stop_distance policy c) distances.0 in
      let size =
        below_multiple (c.account_equity * policy.risk_per_trade_fraction) (stop_distance policy c)
          positive in
      let loss = distance-stop_loss intent.direction policy c in
      record {
        symbol = refl;
        timestamp = refl;
        strategy = refl;
        direction = refl;
        entry = refl;
        new_position = fresh;
        losses = streak;
        prices =
            brackets intent.direction policy c _ opens positive distances.1 refl refl refl
              (ground arith) (ground arith);
        loss_at_stop = rw loss refl;
        risk = rw loss size.0;
        largest = rw loss size.1;
        daily_loss = rw loss p.daily_loss;
        reserve = p.reserve;
        exposure = p.exposure;
        room = p.room;
      })

-- Every signal that the engine approves is of the symbol, time, strategy and direction of the intent,
-- at the price of the context; its entry lies between a positive stop and a positive target, on the
-- sides that fit its direction. It is for the most shares whose loss from the entry to the stop of the
-- signal stays within the risk per trade, and that loss is the risk it names; with that loss the day
-- stays within the daily limit, the order leaves the cash reserve (unless the available cash is 0) and
-- the gross exposure within its limit; and neither the limit of losses in a row, nor that of open
-- positions, nor the ban on averaging down is broken.
pub evaluate_approved :
    (policy : RiskPolicy) (intent : StrategySignalIntent) (c : RiskContext) (s : RiskManagedSignal)
    → evaluate policy intent c ≡ approved s
    → IsWithinLimits policy intent c s
unfolding evaluate
evaluate_approved policy intent c s h =
    let opens = opening_approved (opens_position intent.direction) _ s h in
    let fresh = reject_if_approved _ _ _ s opens.1 in
    let streak = reject_if_approved _ _ _ s fresh.1 in
    let priced = reject_if_approved _ _ _ s streak.1 in
    evaluate_safe policy intent c s opens.0 fresh.0 (leb-false→lt _ _ streak.0) priced.0
      (check_portfolio_approved policy intent c (position_size policy c) s priced.1)
