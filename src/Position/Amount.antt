-- ===== src/Position/Amount.antt =====
-- The amount that a trade leaves.
use rstrader.Base.{
  ◌<◌, ◌≡◌, refl, ap, ◌∙◌, ◌&&◌, not, true, false, Option, none, some, if◌then◌else◌, arith,
}
use rstrader.Base.Options.{◌>>=◌}
use rstrader.Base.Int.{ℤ}
use rstrader.Base.Float.{
  F64, nan, neg_inf, fin, pos_inf, zero_f64, partial_cmp, eqf, neg, is_finite, is_nan, Rounded,
}
use rstrader.Position.{
  Position, epsilon_units, is_flat, increase_position, decrease_position, change_amount, snapped,
  counted, settled, trade,
}

pub epsilon-positive : 0 < epsilon_units
unfolding epsilon_units
epsilon-positive = omega arith

-- What IEEE addition does exactly: a number and its opposite cancel, zero adds nothing, and the sum
-- of finite numbers is a number.
abbrev pub IsAddition : Rounded → Type 0
IsAddition r =
    ((n : ℤ) → r.add (fin n) (neg (fin n)) ≡ zero_f64)
    × ((x : F64) → r.add zero_f64 x ≡ x)
    × ((m n : ℤ) → is_nan (r.add (fin m) (fin n)) ≡ false)

pub is_finite-fin : (x : F64) → is_finite x ≡ true → (n : ℤ) × (x ≡ fin n)
is_finite-fin nan h = cc
is_finite-fin neg_inf h = cc
is_finite-fin (fin n) h = (n, refl)
is_finite-fin pos_inf h = cc

module _ (r : Rounded) where
  increase_position-amount :
      (q px : F64) (p p' : Position)
      → increase_position r q px p ≡ some p'
      → p'.amount ≡ r.add p.amount q
  unfolding increase_position
  increase_position-amount q px p p' h = ground (arith, h)

  decrease_position-amount :
      (q px : F64) (p p' : Position)
      → decrease_position r q px p ≡ some p'
      → p'.amount ≡ r.add p.amount q
  unfolding decrease_position
  decrease_position-amount q px p p' h = ground (arith, h)

  crossed-amount :
      (q px : F64) (o : Option Position) (p : Position)
      → ((p' : Position) → o ≡ some p' → p'.amount ≡ zero_f64)
      → ((x : F64) → r.add zero_f64 x ≡ x)
      → (o >>= increase_position r q px) ≡ some p
      → p.amount ≡ q
  crossed-amount q px none p z a h = cc
  crossed-amount q px (some c) p z a h =
      increase_position-amount q px c p h ∙ ap (λ x. r.add x q) (z c refl) ∙ a q

  module _ (laws : IsAddition r) where
    pub closed-amount :
        (px : F64) (n : ℤ) (p c : Position)
        → p.amount ≡ fin n
        → decrease_position r (neg p.amount) px p ≡ some c
        → c.amount ≡ zero_f64
    closed-amount px n p c e h =
        decrease_position-amount (neg p.amount) px p c h ∙ ap (λ x. r.add x (neg x)) e ∙ laws.0 n

    change_amount-amount :
        (q px : F64) (n : ℤ) (p p' : Position)
        → p.amount ≡ fin n
        → change_amount r q (r.add p.amount q) px p ≡ some p'
        → p'.amount ≡ r.add p.amount q
    unfolding change_amount
    change_amount-amount q px n p p' e h =
        let pending = r.add p.amount q in
        ground (
          arith,
          h,
          increase_position-amount q px p p',
          decrease_position-amount q px p p',
          crossed-amount pending px (decrease_position r (neg p.amount) px p) p'
              (λ c. closed-amount px n p c e) laws.1,
        )

    trade_chain-amount :
        (requested pending px : F64) (o : Option Position) (p' : Position) (x : F64)
        → ((c : Position) → o ≡ some c → c.amount ≡ x)
        → (o >>= (λ c. some (settled r requested px pending c))) ≡ some p'
        → p'.amount ≡ (if is_flat pending && not (eqf x zero_f64) then zero_f64 else x)
    unfolding settled
    trade_chain-amount requested pending px none p' x f h = cc
    trade_chain-amount requested pending px (some c) p' x f h = ground (arith, f c refl, h)

    trade_applied-amount :
        (requested px : F64) (n : ℤ) (p p' : Position)
        → p.amount ≡ fin n
        → trade r requested px p ≡ some p'
        → let x = r.add p.amount (snapped r requested p) in
          p'.amount ≡ (if is_flat x && not (eqf x zero_f64) then zero_f64 else x)
    unfolding trade counted
    trade_applied-amount requested px n p p' e h =
        let q = snapped r requested p in
        let x = r.add p.amount q in
        let c = counted r requested px p in
        let chain =
          trade_chain-amount requested x px (change_amount r q x px c) p' x
            (λ s. change_amount-amount q px n c s e) in
        ground (arith, h, chain)

    snapped_sum :
        (requested : F64) (n : ℤ) (p : Position)
        → p.amount ≡ fin n
        → let x = r.add p.amount (snapped r requested p) in
          (if is_flat x && not (eqf x zero_f64) then zero_f64 else x)
          ≡ (if is_flat (r.add p.amount requested) then zero_f64 else r.add p.amount requested)
    unfolding snapped partial_cmp
    snapped_sum requested n p e =
        let cancel : r.add p.amount (neg p.amount) ≡ zero_f64 =
          ap (λ x. r.add x (neg x)) e ∙ laws.0 n in
        ground (arith, cancel, epsilon-positive)

    -- The amount that a trade leaves, if no assertion fails: the sum of the old amount and the
    -- requested quantity, or zero exactly where that sum is smaller than epsilon. The old amount is
    -- finite, and the rounded addition is one as in `IsAddition`.
    pub trade-amount :
        (requested px : F64) (p p' : Position)
        → is_finite p.amount ≡ true
        → trade r requested px p ≡ some p'
        → p'.amount
          ≡ (if is_flat (r.add p.amount requested) then zero_f64 else r.add p.amount requested)
    trade-amount requested px p p' e h =
        let (n, e') = is_finite-fin p.amount e in
        trade_applied-amount requested px n p p' e' h ∙ snapped_sum requested n p e'
