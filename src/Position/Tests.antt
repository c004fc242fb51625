-- ===== src/Position/Tests.antt =====
-- Positions under an arithmetic without rounding, and the theorems at them.
use rstrader.Base.{◌≡◌, refl, ap, inr, ◌&&◌, true, Option, none, some, if◌then◌else◌, arith}
use rstrader.Base.Int.{ℤ, pos, ◌+ℤ◌, ◌-ℤ◌, neg_ℤ, eq_of_parts, +ℤ_parts}
use rstrader.Base.Float.{F64, nan, neg_inf, fin, pos_inf, zero_f64, partial_cmp, ltf, neg, abs}
use rstrader.Base.Float.Exact.{num, add_exact, exact}
use rstrader.Position.{
  Position, epsilon_units, is_flat, new, reset, increment_average_price, increase_position,
  trade_pnl, decrease_position, change_amount, snapped, base_fee, counted, settled, trade, trade_to,
  trade_with_fee, close_quote, close, mark_to_market_pnl, current_pnl,
}
use rstrader.Position.Amount.{IsAddition, trade-amount}
use rstrader.Position.Average.{average_after, trade-avp}
use rstrader.Position.Returns.{HasPrice, is_price, is_some, trade_returns, trade-HasPrice}
use rstrader.Position.Closing.{Closes, closing-Closes, DiffersInFees, trade_with_fee-DiffersInFees}

opposite_cancels : (n : ℤ) → n +ℤ neg_ℤ n ≡ pos 0
opposite_cancels n = eq_of_parts (n +ℤ neg_ℤ n) (pos 0) (ground (arith, +ℤ_parts n (neg_ℤ n)))

zero_adds : (n : ℤ) → pos 0 +ℤ n ≡ n
zero_adds n = eq_of_parts (pos 0 +ℤ n) n (ground (arith, +ℤ_parts (pos 0) n))

zero_add_exact : (x : F64) → add_exact zero_f64 x ≡ x
zero_add_exact nan = refl
zero_add_exact neg_inf = refl
zero_add_exact (fin n) = ap fin (zero_adds n)
zero_add_exact pos_inf = refl

exact-IsAddition : IsAddition exact
exact-IsAddition = (λ n. ap fin (opposite_cancels n), zero_add_exact, λ m n. refl)

abbrev long : Position
long = record {
  amount = num 10;
  avp = num 100;
  realized = zero_f64;
  fees = zero_f64;
  fee_percent = zero_f64;
  quote_volume = zero_f64;
  quote_volume2 = zero_f64;
  trades_count = 1;
  contract_size = num 1;
}

-- Five more at 130.
abbrev longer : Position
longer = record long {
  amount = num 15;
  avp = num 110;
  quote_volume = num 650;
  quote_volume2 = num 5;
  trades_count = 2;
}

trade_runs : trade exact (num 5) (num 130) long ≡ some longer
unfolding trade counted settled change_amount increase_position increment_average_price snapped
    base_fee partial_cmp epsilon_units ◌+ℤ◌ ◌-ℤ◌
trade_runs = refl

abbrev summary : Option Position → Option (F64 × F64 × F64)
summary none = none
summary (some p) = some (p.amount, p.avp, p.realized)

-- Crossing zero, reaching a target, and profits.
cross_runs :
    summary (trade exact (neg (num 12)) (num 120) long) ≡ some (neg (num 2), num 120, num 200)
unfolding trade counted settled change_amount increase_position increment_average_price
    decrease_position trade_pnl snapped base_fee partial_cmp epsilon_units ◌+ℤ◌ ◌-ℤ◌
cross_runs = refl

trade_to_runs : trade_to exact (num 15) (num 130) long ≡ some longer
unfolding trade_to trade counted settled change_amount increase_position increment_average_price
    snapped base_fee partial_cmp epsilon_units ◌+ℤ◌ ◌-ℤ◌
trade_to_runs = refl

profit_runs : mark_to_market_pnl exact (num 102) (num 103) long ≡ some (num 20)
unfolding mark_to_market_pnl trade_pnl partial_cmp ◌+ℤ◌ ◌-ℤ◌
profit_runs = refl

current_pnl_runs : current_pnl exact (num 103) long ≡ num 30
unfolding current_pnl trade_pnl partial_cmp ◌+ℤ◌ ◌-ℤ◌
current_pnl_runs = refl

new_runs : (new zero_f64 (num 1)).amount ≡ zero_f64
unfolding new reset
new_runs = refl

long-HasPrice : HasPrice long
unfolding partial_cmp epsilon_units
long-HasPrice = inr (refl, refl)

trade-amount_example :
    longer.amount
    ≡ (if is_flat (exact.add long.amount (num 5)) then zero_f64 else exact.add long.amount (num 5))
trade-amount_example =
    trade-amount exact exact-IsAddition (num 5) (num 130) long longer refl trade_runs

trade-avp_example :
    longer.avp ≡ average_after exact (num 5) (exact.add long.amount (num 5)) (num 130) long
trade-avp_example = trade-avp exact exact-IsAddition (num 5) (num 130) long longer refl trade_runs

trade_returns_example : is_some (trade exact (num 5) (num 130) long) ≡ (
    ltf zero_f64 (abs (num 5))
    && is_price (average_after exact (num 5) (exact.add long.amount (num 5)) (num 130) long))
trade_returns_example =
    trade_returns exact exact-IsAddition (num 5) (num 130) long refl long-HasPrice

trade-HasPrice_example : HasPrice longer
trade-HasPrice_example =
    trade-HasPrice exact exact-IsAddition (num 5) (num 130) long longer refl refl long-HasPrice
      trade_runs

num_below : ltf (num 102) (num 103) ≡ true
unfolding partial_cmp
num_below = refl

closing-Closes_example :
    Closes exact exact-IsAddition (close exact (num 120) long)
    × Closes exact exact-IsAddition (close_quote exact (num 102) (num 103) long)
closing-Closes_example =
    closing-Closes exact exact-IsAddition (num 120) (num 102) (num 103) long num_below refl
      long-HasPrice

trade_with_fee-DiffersInFees_runs :
    DiffersInFees
      (trade_with_fee exact (num 5) (num 130) (some (num 1)) long)
      (trade exact (num 5) (num 130) long)
trade_with_fee-DiffersInFees_runs =
    trade_with_fee-DiffersInFees exact (num 5) (num 130) (some (num 1)) long
