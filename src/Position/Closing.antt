-- ===== src/Position/Closing.antt =====
-- Closing a position, and trades with a fee that the exchange reports.
use rstrader.Base.{
  ◌≡◌, refl, ap, ◌∙◌, inl, inr, ◌&&◌, Bool, true, false, Option, none, some, if◌then◌else◌, arith,
}
use rstrader.Base.Options.{◌>>=◌}
use rstrader.Base.Float.{F64, zero_f64, partial_cmp, ltf, lef, eqf, neg, abs, is_finite, Rounded}
use rstrader.Position.{
  Position, epsilon, is_flat, trade, trade_with_fee, override_fee, trade_quote, close_quote, close,
}
use rstrader.Position.Amount.{IsAddition, epsilon-positive, is_finite-fin, trade-amount}
use rstrader.Position.Average.{average_after}
use rstrader.Position.Returns.{HasPrice, is_some, is_price, trade_returns}

module _ (r : Rounded) (laws : IsAddition r) where
  -- A run that ends with nothing left.
  abbrev pub Closes : Option Position → Type 0
  Closes o = (p : Position) × (o ≡ some p) × (p.amount ≡ zero_f64)

  both_hold : (b v w : Bool) → v ≡ (b && w) → b ≡ true → w ≡ true → v ≡ true
  both_hold b v w e h k = cc

  closing-avp :
      (q sum px : F64) (p : Position)
      → lef epsilon (abs p.amount) ≡ true
      → sum ≡ zero_f64
      → average_after r q sum px p ≡ p.avp
  unfolding partial_cmp
  closing-avp q sum px p h e = ground (arith, h, e, epsilon-positive)

  opposite-positive : (x : F64) → lef epsilon (abs x) ≡ true → ltf zero_f64 (abs (neg x)) ≡ true
  unfolding partial_cmp
  opposite-positive x h = ground (arith, h, epsilon-positive)

  opposite_returns :
      (px : F64) (p : Position)
      → is_finite p.amount ≡ true
      → HasPrice p
      → eqf p.amount zero_f64 ≡ false
      → is_some (trade r (neg p.amount) px p) ≡ true
  unfolding partial_cmp
  opposite_returns px p e (inl zero) z = ground (arith, zero, z)
  opposite_returns px p e (inr (big, price)) z =
      let (n, e') = is_finite-fin p.amount e in
      let sum = r.add p.amount (neg p.amount) in
      let cancel : sum ≡ zero_f64 = ap (λ x. r.add x (neg x)) e' ∙ laws.0 n in
      both_hold _ _ _ (trade_returns r laws (neg p.amount) px p e (inr (big, price)))
        (opposite-positive p.amount big)
        (ap is_price (closing-avp (neg p.amount) sum px p big cancel) ∙ price)

  zero_if_flat : (x : F64) → x ≡ zero_f64 → (if is_flat x then zero_f64 else x) ≡ zero_f64
  zero_if_flat x e = ground (arith, e)

  some-Closes :
      (o : Option Position)
      → is_some o ≡ true
      → ((p : Position) → o ≡ some p → p.amount ≡ zero_f64)
      → Closes o
  some-Closes none s f = cc
  some-Closes (some p) s f = (p, refl, f p refl)

  opposite-Closes :
      (px : F64) (p : Position)
      → is_finite p.amount ≡ true
      → HasPrice p
      → eqf p.amount zero_f64 ≡ false
      → Closes (trade r (neg p.amount) px p)
  opposite-Closes px p e v z =
      let (n, e') = is_finite-fin p.amount e in
      let cancel : r.add p.amount (neg p.amount) ≡ zero_f64 =
        ap (λ x. r.add x (neg x)) e' ∙ laws.0 n in
      some-Closes (trade r (neg p.amount) px p) (opposite_returns px p e v z) (λ s h.
        trade-amount r laws (neg p.amount) px p s e h
        ∙ zero_if_flat (r.add p.amount (neg p.amount)) cancel)

  eqf-zero : (x : F64) → eqf x zero_f64 ≡ true → x ≡ zero_f64
  unfolding partial_cmp
  eqf-zero x h = ground arith

  branch-Closes :
      (b : Bool) (o : Option Position) (p : Position)
      → (b ≡ true → p.amount ≡ zero_f64)
      → (b ≡ false → Closes o)
      → Closes (if b then some p else o)
  branch-Closes true o p z f = (p, refl, z refl)
  branch-Closes false o p z f = f refl

  guarded-Closes :
      (b : Bool) (o : Option Position) → b ≡ true → Closes o → Closes (if b then o else none)
  guarded-Closes true o h c = c
  guarded-Closes false o h c = cc

  close-Closes :
      (px : F64) (p : Position) → is_finite p.amount ≡ true → HasPrice p → Closes (close r px p)
  unfolding close
  close-Closes px p e v =
      branch-Closes (eqf p.amount zero_f64) (trade r (neg p.amount) px p) p (eqf-zero p.amount)
        (opposite-Closes px p e v)

  -- Closing, at a price or at a quote whose bid is below its ask, never fails, and leaves no amount.
  -- The position has a finite amount and, unless it is zero, is no dust and has a price; the addition
  -- is one as in `IsAddition`.
  pub closing-Closes :
      (px bid ask : F64) (p : Position)
      → ltf bid ask ≡ true
      → is_finite p.amount ≡ true
      → HasPrice p
      → Closes (close r px p) × Closes (close_quote r bid ask p)
  unfolding close_quote trade_quote
  closing-Closes px bid ask p q e v = (
    close-Closes px p e v,
    guarded-Closes (ltf bid ask) _ q (
        branch-Closes (eqf p.amount zero_f64) _ p (eqf-zero p.amount) (λ z.
          guarded-Closes (ltf bid ask) _ q
            (opposite-Closes (if ltf zero_f64 (neg p.amount) then ask else bid) p e v z))),
  )

-- Two outcomes that agree but for fees and profit.
abbrev pub DiffersInFees : Option Position → Option Position → Type 0
DiffersInFees none none = Unit
DiffersInFees (some p) none = true ≡ false
DiffersInFees none (some p) = true ≡ false
DiffersInFees (some p) (some q) =
    (p.amount ≡ q.amount)
    × (p.avp ≡ q.avp)
    × (p.quote_volume ≡ q.quote_volume)
    × (p.quote_volume2 ≡ q.quote_volume2)
    × (p.trades_count ≡ q.trades_count)

chain_differs :
    (r : Rounded) (fee requested px : F64) (o : Option Position)
    → DiffersInFees (o >>= (λ t. some (override_fee r fee requested px t))) o
unfolding override_fee
chain_differs r fee requested px none = tt
chain_differs r fee requested px (some p) = ground arith

-- A trade with the exchange's fee, or without one, fails where the plain trade does, and else leaves
-- the same amount, average price, volumes and count: only fees and profit differ.
pub trade_with_fee-DiffersInFees :
    (r : Rounded) (requested px : F64) (fee : Option F64) (p : Position)
    → DiffersInFees (trade_with_fee r requested px fee p) (trade r requested px p)
unfolding trade_with_fee
trade_with_fee-DiffersInFees r requested px none p = same (trade r requested px p)
  where
    same : (o : Option Position) → DiffersInFees o o
    same none = tt
    same (some q) = (refl, refl, refl, refl, refl)
trade_with_fee-DiffersInFees r requested px (some fee) p =
    chain_differs r fee requested px (trade r requested px p)
