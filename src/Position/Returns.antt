-- ===== src/Position/Returns.antt =====
-- The trades that return, and the price that every open position has.
use rstrader.Base.{
  ◌≡◌, refl, sym, ap, ◌∙◌, ◌⊎◌, inl, inr, ◌&&◌, Bool, true, false, Option, none, some,
  if◌then◌else◌, arith,
}
use rstrader.Base.Options.{◌>>=◌}
use rstrader.Base.Int.{ℤ}
use rstrader.Base.Float.{
  F64, fin, zero_f64, partial_cmp, ltf, lef, neg, abs, is_finite, is_nan, Rounded,
}
use rstrader.Position.{
  Position, epsilon, is_flat, same_signum, increment_average_price, increase_position,
  decrease_position, change_amount, snapped, counted, settled, trade,
}
use rstrader.Position.Amount.{
  IsAddition, epsilon-positive, is_finite-fin, closed-amount, trade-amount,
}
use rstrader.Position.Average.{
  average_after, opened-avp, flat-avp, average_after-snapped, trade-avp,
}

abbrev pub is_price : F64 → Bool
is_price x = is_finite x && ltf zero_f64 x

-- A position that is not zero is no dust and has a price.
abbrev pub HasPrice : Position → Type 0
HasPrice p = (p.amount ≡ zero_f64) ⊎ ((lef epsilon (abs p.amount) ≡ true) × (is_price p.avp ≡ true))

abbrev pub is_some : Option Position → Bool
is_some none = false
is_some (some p) = true

-- The branches of a change of the amount, whatever their tests say.
branches_return :
    (flat closing same grows : Bool) (inc dec cross : Option Position) (w px avp : F64)
    → is_some inc ≡ is_price w
    → (flat ≡ true → w ≡ px)
    → (flat ≡ false → is_some dec ≡ true)
    → (flat ≡ false → is_price avp ≡ true)
    → (flat ≡ false → is_some cross ≡ is_price px)
    → is_some (
        if flat
        then inc
        else if closing
        then dec
        else if same
        then if grows then inc else dec
        else cross)
      ≡ is_price (
          if flat
          then px
          else if closing
          then avp
          else if same
          then if grows then w else avp
          else px)
branches_return true closing same grows inc dec cross w px avp i f d a c = i ∙ ap is_price (f refl)
branches_return false true same grows inc dec cross w px avp i f d a c = d refl ∙ sym (a refl)
branches_return false false true true inc dec cross w px avp i f d a c = i
branches_return false false true false inc dec cross w px avp i f d a c = d refl ∙ sym (a refl)
branches_return false false false grows inc dec cross w px avp i f d a c = c refl

module _ (r : Rounded) (laws : IsAddition r) where
  increase_position_returns :
      (q px : F64) (p : Position)
      → is_some (increase_position r q px p) ≡ is_price (increment_average_price r q px p)
  unfolding increase_position
  increase_position_returns q px p = ground arith

  decrease_position_returns :
      (q px : F64) (n : ℤ) (p : Position)
      → p.amount ≡ fin n
      → is_flat p.amount ≡ false
      → is_some (decrease_position r q px p) ≡ true
  unfolding decrease_position partial_cmp
  decrease_position_returns q px n p e h = ground (arith, e, h)

  crossed_returns :
      (q px : F64) (o : Option Position)
      → ((c : Position) → o ≡ some c → c.amount ≡ zero_f64)
      → is_some o ≡ true
      → is_some (o >>= increase_position r q px) ≡ is_price px
  crossed_returns q px none z s = cc
  crossed_returns q px (some c) z s =
      increase_position_returns q px c ∙ ap is_price (opened-avp r q px c (z c refl))

  unflat-avp : (p : Position) → HasPrice p → is_flat p.amount ≡ false → is_price p.avp ≡ true
  unfolding partial_cmp
  unflat-avp p (inl e) h = ground (arith, e, h, epsilon-positive)
  unflat-avp p (inr (e, v)) h = v

  change_amount_returns :
      (q px : F64) (n : ℤ) (p : Position)
      → p.amount ≡ fin n
      → HasPrice p
      → is_some (change_amount r q (r.add p.amount q) px p)
        ≡ is_price (average_after r q (r.add p.amount q) px p)
  unfolding change_amount
  change_amount_returns q px n p e v =
      let sum = r.add p.amount q in
      branches_return (is_flat p.amount) (is_flat sum) (same_signum p.amount sum)
        (ltf (abs p.amount) (abs sum)) (increase_position r q px p) (decrease_position r q px p)
        (decrease_position r (neg p.amount) px p >>= increase_position r sum px)
        (increment_average_price r q px p) px p.avp (increase_position_returns q px p)
        (flat-avp r q px p) (λ u. decrease_position_returns q px n p e u) (λ u. unflat-avp p v u)
        (λ u.
          crossed_returns sum px (decrease_position r (neg p.amount) px p)
            (λ c. closed-amount r laws px n p c e)
            (decrease_position_returns (neg p.amount) px n p e u))

  trade_chain_returns :
      (requested pending px : F64) (o : Option Position)
      → is_some (o >>= (λ c. some (settled r requested px pending c))) ≡ is_some o
  trade_chain_returns requested pending px none = refl
  trade_chain_returns requested pending px (some c) = refl

  guarded :
      (b : Bool) (o : Option Position) (v : Bool)
      → is_some o ≡ v
      → is_some (if b then o else none) ≡ (b && v)
  guarded true o v h = h
  guarded false o v h = refl

  guard_true : (b v : Bool) → (b && v) ≡ true → v ≡ true
  guard_true true v h = h
  guard_true false v h = cc

  -- A trade returns exactly where the quantity is neither zero nor NaN and the average price that it
  -- is to leave is finite and positive: no other assertion can fail. The position has a finite amount
  -- and, unless it is zero, is no dust and has a price; the addition is one as in `IsAddition`.
  pub trade_returns :
      (requested px : F64) (p : Position)
      → is_finite p.amount ≡ true
      → HasPrice p
      → is_some (trade r requested px p) ≡ (
          ltf zero_f64 (abs requested)
          && is_price (average_after r requested (r.add p.amount requested) px p))
  unfolding trade counted increment_average_price
  trade_returns requested px p e v =
      let (n, e') = is_finite-fin p.amount e in
      let q = snapped r requested p in
      let x = r.add p.amount q in
      let c = counted r requested px p in
      let done =
        trade_chain_returns requested x px (change_amount r q x px c)
        ∙ change_amount_returns q px n c e' v
        ∙ ap is_price (average_after-snapped r laws requested px n p e') in
      guarded (ltf zero_f64 (abs requested)) _ _ done

  sum_kept :
      (x a avp : F64)
      → is_nan x ≡ false
      → a ≡ (if is_flat x then zero_f64 else x)
      → is_price avp ≡ true
      → (a ≡ zero_f64) ⊎ ((lef epsilon (abs a) ≡ true) × (is_price avp ≡ true))
  unfolding partial_cmp
  sum_kept x a avp k e v = ground (arith, k, e, v)

  -- A trade keeps the invariant of a position: unless its amount is zero, it is no smaller than
  -- epsilon and the average price is finite and positive. The old amount and the quantity are
  -- finite, and the addition is one as in `IsAddition`.
  pub trade-HasPrice :
      (requested px : F64) (p p' : Position)
      → is_finite requested ≡ true
      → is_finite p.amount ≡ true
      → HasPrice p
      → trade r requested px p ≡ some p'
      → HasPrice p'
  trade-HasPrice requested px p p' i e v h =
      let (m, i') = is_finite-fin requested i in
      let (n, e') = is_finite-fin p.amount e in
      let sum = r.add p.amount requested in
      let number : is_nan sum ≡ false =
        ap is_nan (ap (λ a. r.add a requested) e' ∙ ap (r.add (fin n)) i') ∙ laws.2 n m in
      let price : is_price p'.avp ≡ true =
        ap is_price (trade-avp r laws requested px p p' e h)
        ∙ guard_true (ltf zero_f64 (abs requested)) _
            (sym (trade_returns requested px p e v) ∙ ap is_some h) in
      sum_kept sum p'.amount p'.avp number (trade-amount r laws requested px p p' e h) price
