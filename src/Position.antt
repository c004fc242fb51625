-- ===== src/Position.antt =====
-- src/xcommons/position.rs: a position with its average price, profit, fees and volumes. The sums
-- and products that round are those of a `Rounded`; a failed assertion is `none`.
pub mod Amount
pub mod Average
pub mod Returns
pub mod Closing
mod Tests
use rstrader.Base.{
  ℕ, ◌+◌, ◌-◌, ◌*◌, ◌^◌, ◌&&◌, Bool, true, false, not, Option, none, some, ltb, ◌==◌, if◌then◌else◌,
}
use rstrader.Base.Options.{◌>>=◌}
use rstrader.Base.Int.{ℤ, pos, negsuc}
use rstrader.Base.Float.{
  F64, nan, neg_inf, fin, pos_inf, zero_f64, ltf, lef, eqf, neg, abs, is_finite, Rounded,
}

pub record Position : Type 0 where
  pub amount : F64
  pub avp : F64
  pub realized : F64
  pub fees : F64
  pub fee_percent : F64
  pub quote_volume : F64
  pub quote_volume2 : F64
  pub trades_count : ℕ
  pub contract_size : F64

-- 1e-8, as the double next to it.
unfoldable pub epsilon_units : ℕ
epsilon_units = 6044629098073146 * 2 ^ 995

abbrev pub epsilon : F64
epsilon = fin (pos epsilon_units)

pub reset : Position → Position
reset p = record p {
  amount = zero_f64;
  avp = zero_f64;
  realized = zero_f64;
  fees = zero_f64;
  quote_volume = zero_f64;
  quote_volume2 = zero_f64;
  trades_count = 0;
}

unfoldable pub new : F64 → F64 → Position
unfolding reset
new fee_percent contract_size = reset (record {
  amount = zero_f64;
  avp = zero_f64;
  realized = zero_f64;
  fees = zero_f64;
  fee_percent = fee_percent;
  quote_volume = zero_f64;
  quote_volume2 = zero_f64;
  trades_count = 0;
  contract_size = contract_size;
})

-- The test for a size that is effectively zero.
abbrev pub is_flat : F64 → Bool
is_flat x = ltf (abs x) epsilon

-- `signum`, asked away from zero only: 1.0, -1.0 and NaN.
abbrev pub signum : F64 → Option Bool
signum nan = none
signum neg_inf = some false
signum (fin (pos n)) = some true
signum (fin (negsuc n)) = some false
signum pos_inf = some true

-- `==` of two signs, false where one is NaN.
abbrev pub eq_sign : Option Bool → Option Bool → Bool
eq_sign none t = false
eq_sign (some s) none = false
eq_sign (some true) (some t) = t
eq_sign (some false) (some t) = not t

abbrev pub same_signum : F64 → F64 → Bool
same_signum x y = eq_sign (signum x) (signum y)

module _ (r : Rounded) where
  unfoldable pub increment_average_price : F64 → F64 → Position → F64
  increment_average_price quantity price p =
      if is_flat p.amount
      then price
      else r.div (r.add (r.mul (abs p.amount) p.avp) (r.mul price (abs quantity)))
          (r.add (abs quantity) (abs p.amount))

  unfoldable pub increase_position : F64 → F64 → Position → Option Position
  increase_position quantity price p =
      let avp = increment_average_price quantity price p in
      if is_finite avp && ltf zero_f64 avp
      then some (record p { avp = avp; amount = r.add p.amount quantity })
      else none

  pub trade_pnl : F64 → F64 → Position → F64
  trade_pnl quantity price p = r.mul (r.mul (r.sub price p.avp) quantity) p.contract_size

  pub decrease_position : F64 → F64 → Position → Option Position
  decrease_position quantity price p =
      if lef epsilon (abs p.amount)
      then some (record p {
        realized = r.add p.realized (trade_pnl (neg quantity) price p);
        amount = r.add p.amount quantity;
      })
      else none

  -- The branches of `trade` on the position it has and the one it is to have.
  unfoldable pub change_amount : F64 → F64 → F64 → Position → Option Position
  change_amount quantity pending price p =
      if is_flat p.amount
      then increase_position quantity price p
      else if is_flat pending
      then decrease_position quantity price p
      else if same_signum p.amount pending
      then if ltf (abs p.amount) (abs pending)
        then increase_position quantity price p
        else decrease_position quantity price p
      else (decrease_position (neg p.amount) price p >>= increase_position pending price)

  -- The quantity traded: what closes the position where the request leaves next to nothing.
  unfoldable pub snapped : F64 → Position → F64
  snapped requested p = if is_flat (r.add p.amount requested) then neg p.amount else requested

  unfoldable pub base_fee : F64 → F64 → Position → F64
  base_fee requested price p =
      r.mul (r.mul (r.mul p.fee_percent (abs requested)) price) p.contract_size

  counted : F64 → F64 → Position → Position
  counted requested price p = record p {
    trades_count = if ltb p.trades_count (2 ^ 32 - 1) then p.trades_count + 1 else p.trades_count;
    quote_volume2 = r.add p.quote_volume2 (abs requested);
    quote_volume = r.add p.quote_volume (r.mul (r.mul (abs requested) price) p.contract_size);
  }

  -- Behind the branches: the fee, and the snap to zero.
  settled : F64 → F64 → F64 → Position → Position
  settled requested price pending p =
      let fee = base_fee requested price p in
      record p {
        fees = r.add p.fees fee;
        realized = r.sub p.realized fee;
        amount = if is_flat pending && not (eqf p.amount zero_f64) then zero_f64 else p.amount;
      }

  unfoldable pub trade : F64 → F64 → Position → Option Position
  unfolding counted settled
  trade requested price p =
      let quantity = snapped requested p in
      let pending = r.add p.amount quantity in
      if ltf zero_f64 (abs requested)
      then (do
        changed ← change_amount quantity pending price (counted requested price p)
        some (settled requested price pending changed))
      else none

  pub trade_to : F64 → F64 → Position → Option Position
  trade_to target price p =
      let diff = r.sub target p.amount in
      if ltf epsilon (abs diff) then trade diff price p else some p

  -- The exchange's fee in place of the computed one.
  pub override_fee : F64 → F64 → F64 → Position → Position
  override_fee fee requested price p =
      let base = base_fee requested price p in
      let without =
        if eqf base zero_f64
        then p
        else record p { fees = r.sub p.fees base; realized = r.add p.realized base } in
      if eqf fee zero_f64
      then without
      else record without { fees = r.add without.fees fee; realized = r.sub without.realized fee }

  unfoldable pub trade_with_fee : F64 → F64 → Option F64 → Position → Option Position
  trade_with_fee requested price none p = trade requested price p
  trade_with_fee requested price (some fee) p = do
    traded ← trade requested price p
    some (override_fee fee requested price traded)

  pub trade_quote : F64 → F64 → F64 → Position → Option Position
  trade_quote bid ask quantity p =
      if ltf bid ask then trade quantity (if ltf zero_f64 quantity then ask else bid) p else none

  pub close_quote : F64 → F64 → Position → Option Position
  close_quote bid ask p =
      if ltf bid ask
      then if eqf p.amount zero_f64 then some p else trade_quote bid ask (neg p.amount) p
      else none

  pub close : F64 → Position → Option Position
  close price p = if eqf p.amount zero_f64 then some p else trade (neg p.amount) price p

  pub mark_to_market_pnl : F64 → F64 → Position → Option F64
  mark_to_market_pnl bid ask p =
      if lef bid ask
      then some (
          if eqf p.amount zero_f64
          then p.realized
          else r.add p.realized (trade_pnl p.amount (if ltf p.amount zero_f64 then ask else bid) p))
      else none

  pub current_pnl : F64 → Position → F64
  current_pnl price p =
      if eqf p.amount zero_f64 then p.realized else r.add p.realized (trade_pnl p.amount price p)
