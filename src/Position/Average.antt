-- ===== src/Position/Average.antt =====
-- The average price that a trade leaves.
use rstrader.Base.{◌≡◌, refl, ap, ◌∙◌, Bool, true, false, Option, none, some, if◌then◌else◌, arith}
use rstrader.Base.Options.{◌>>=◌}
use rstrader.Base.Int.{ℤ}
use rstrader.Base.Float.{F64, fin, zero_f64, partial_cmp, ltf, neg, abs, is_finite, Rounded}
use rstrader.Position.{
  Position, is_flat, same_signum, increment_average_price, increase_position, decrease_position,
  change_amount, snapped, counted, settled, trade,
}
use rstrader.Position.Amount.{IsAddition, epsilon-positive, is_finite-fin, closed-amount}

module _ (r : Rounded) where
  -- The price paid where a position is opened or crosses zero, the weighted average where it grows,
  -- and the old average where it shrinks.
  abbrev pub average_after : F64 → F64 → F64 → Position → F64
  average_after quantity sum px p =
      if is_flat p.amount
      then px
      else if is_flat sum
      then p.avp
      else if same_signum p.amount sum
      then if ltf (abs p.amount) (abs sum) then increment_average_price r quantity px p else p.avp
      else px

  increase_position-avp :
      (q px : F64) (p p' : Position)
      → increase_position r q px p ≡ some p'
      → p'.avp ≡ increment_average_price r q px p
  unfolding increase_position
  increase_position-avp q px p p' h = ground (arith, h)

  decrease_position-avp :
      (q px : F64) (p p' : Position) → decrease_position r q px p ≡ some p' → p'.avp ≡ p.avp
  unfolding decrease_position
  decrease_position-avp q px p p' h = ground (arith, h)

  pub opened-avp :
      (q px : F64) (p : Position) → p.amount ≡ zero_f64 → increment_average_price r q px p ≡ px
  unfolding increment_average_price partial_cmp
  opened-avp q px p e = ground (arith, e, epsilon-positive)

  pub flat-avp :
      (q px : F64) (p : Position) → is_flat p.amount ≡ true → increment_average_price r q px p ≡ px
  unfolding increment_average_price
  flat-avp q px p e = ground (arith, e)

  crossed-avp :
      (q px : F64) (o : Option Position) (p : Position)
      → ((c : Position) → o ≡ some c → c.amount ≡ zero_f64)
      → (o >>= increase_position r q px) ≡ some p
      → p.avp ≡ px
  crossed-avp q px none p z h = cc
  crossed-avp q px (some c) p z h = increase_position-avp q px c p h ∙ opened-avp q px c (z c refl)

  module _ (laws : IsAddition r) where
    change_amount-avp :
        (q px : F64) (n : ℤ) (p p' : Position)
        → p.amount ≡ fin n
        → change_amount r q (r.add p.amount q) px p ≡ some p'
        → p'.avp ≡ average_after q (r.add p.amount q) px p
    unfolding change_amount
    change_amount-avp q px n p p' e h =
        let pending = r.add p.amount q in
        ground (
          arith,
          h,
          increase_position-avp q px p p',
          flat-avp q px p,
          decrease_position-avp q px p p',
          crossed-avp pending px (decrease_position r (neg p.amount) px p) p'
              (λ c. closed-amount r laws px n p c e),
        )

    trade_chain-avp :
        (requested pending px x : F64) (o : Option Position) (p' : Position)
        → ((c : Position) → o ≡ some c → c.avp ≡ x)
        → (o >>= (λ c. some (settled r requested px pending c))) ≡ some p'
        → p'.avp ≡ x
    unfolding settled
    trade_chain-avp requested pending px x none p' f h = cc
    trade_chain-avp requested pending px x (some c) p' f h = ground (arith, f c refl, h)

    -- Closing what is left is the same as trading the request that leaves dust.
    pub average_after-snapped :
        (requested px : F64) (n : ℤ) (p : Position)
        → p.amount ≡ fin n
        → let q = snapped r requested p in
          average_after q (r.add p.amount q) px p
          ≡ average_after requested (r.add p.amount requested) px p
    unfolding snapped partial_cmp
    average_after-snapped requested px n p e =
        let cancel : r.add p.amount (neg p.amount) ≡ zero_f64 =
          ap (λ x. r.add x (neg x)) e ∙ laws.0 n in
        ground (arith, cancel, epsilon-positive)

    unguarded :
        (b : Bool) (o : Option Position) (p : Position)
        → (if b then o else none) ≡ some p
        → o ≡ some p
    unguarded true o p h = h
    unguarded false o p h = cc

    -- The average price that a trade leaves, if no assertion fails: the price paid where the position
    -- is opened or crosses zero, the average weighted by amounts where it grows, and the old average
    -- where it shrinks or closes. The old amount is finite, and the rounded addition is one as in
    -- `IsAddition`.
    pub trade-avp :
        (requested px : F64) (p p' : Position)
        → is_finite p.amount ≡ true
        → trade r requested px p ≡ some p'
        → p'.avp ≡ average_after requested (r.add p.amount requested) px p
    unfolding trade counted increment_average_price
    trade-avp requested px p p' e h =
        let (n, e') = is_finite-fin p.amount e in
        let q = snapped r requested p in
        let x = r.add p.amount q in
        let c = counted r requested px p in
        let chain =
          trade_chain-avp requested x px (average_after q x px c) (change_amount r q x px c) p'
            (λ s. change_amount-avp q px n c s e') in
        chain (unguarded (ltf zero_f64 (abs requested)) _ p' h)
        ∙ average_after-snapped requested px n p e'
