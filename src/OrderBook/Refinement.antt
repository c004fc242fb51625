-- ===== src/OrderBook/Refinement.antt =====
-- The book as a function from side and price to quantity: updates overwrite one level of it.
use rstrader.Base.{
  ◌≡◌, ◌≢◌, ◌↔◌, Bool, true, false, ◌&&◌, not, Option, none, some, if◌then◌else◌, arith,
  Option-cases, inl, inr,
}
use rstrader.Base.Int.{ℤ, ltb_ℤ, eqb_ℤ_iff, max_ℤ}
use rstrader.Base.Float.{F64, zero_f64, eqf, is_nan}
use rstrader.Base.Bytes.{ascii}
use rstrader.Errors.{AppError, ok, err}
use rstrader.Oms.{Side, unknown, buy, sell}
use rstrader.Types.{OrderBookL2Update}
use rstrader.OrderBook.{OrderBookManager, check_market, set_level, change_side, apply_update}
use rstrader.OrderBook.Levels.{PriceMap, get, Sorted}
use rstrader.OrderBook.Levels.Lookup.{get-insert, get-remove}
use rstrader.OrderBook.Updates.{IsValid}

-- The quantity offered on a side at a price.
abbrev pub level : Side → F64 → OrderBookManager → Option F64
level buy p b = get p b.bids
level sell p b = get p b.asks
level unknown p b = none

abbrev pub same_side : Side → Side → Bool
same_side buy buy = true
same_side sell sell = true
same_side _ _ = false

-- The update says something of this level: it is not older than the book, and of that side and
-- price.
abbrev pub concerns : OrderBookL2Update → OrderBookManager → Side → F64 → Bool
concerns u b s p = not (ltb_ℤ u.update_id b.last_update_id) && (same_side s u.side && eqf p u.price)

-- The quantity that an update announces: zero is the end of the level.
abbrev pub announced : OrderBookL2Update → Option F64
announced u = if eqf u.qty zero_f64 then none else some u.qty

get-set_level :
    (p q j : F64) (m : PriceMap)
    → is_nan p ≡ false
    → is_nan j ≡ false
    → Sorted m
    → get j (set_level p q m)
      ≡ (if eqf j p then (if eqf q zero_f64 then none else some q) else get j m)
unfolding set_level
get-set_level p q j m hp hj s = ground (arith, get-insert p q j m hp hj s, get-remove p j m hp hj s)

-- An accepted update sets exactly the level it concerns to what it announces, on a well-formed
-- book and for prices that are numbers; an old one changes no level.
pub apply_update-level :
    (u : OrderBookL2Update) (b b' : OrderBookManager) (s : Side) (p : F64)
    → IsValid b
    → is_nan u.price ≡ false
    → is_nan p ≡ false
    → apply_update u b ≡ ok b'
    → level s p b' ≡ (if concerns u b s p then announced u else level s p b)
unfolding apply_update check_market change_side
apply_update-level u b b' s p v hu hp h = ground (
  arith,
  get-set_level u.price u.qty p b.bids hu hp v.bids_sorted,
  get-set_level u.price u.qty p b.asks hu hp v.asks_sorted,
)

-- After an accepted update the book knows the update's market, and its last id is the larger of
-- the two, so ids never fall.
pub apply_update-ids :
    (u : OrderBookL2Update) (b b' : OrderBookManager)
    → apply_update u b ≡ ok b'
    → (b'.market_id ≡ some u.market_id) × (b'.last_update_id ≡ max_ℤ b.last_update_id u.update_id)
unfolding apply_update check_market change_side
apply_update-ids u b b' h = ground (arith, eqb_ℤ_iff u.market_id)

refused_known :
    (u : OrderBookL2Update) (b : OrderBookManager) (known : ℤ)
    → b.market_id ≡ some known
    → (apply_update u b ≡ err (AppError.pipeline (ascii "Market id mismatch")))
      ↔ (u.market_id ≢ known)
unfolding apply_update check_market
refused_known u b known e = (ground arith, ground arith)

-- An update is refused exactly when the book already serves another market.
pub apply_update-err_iff :
    (u : OrderBookL2Update) (b : OrderBookManager)
    → (apply_update u b ≡ err (AppError.pipeline (ascii "Market id mismatch")))
      ↔ ((known : ℤ) × (b.market_id ≡ some known) × (u.market_id ≢ known))
unfolding apply_update check_market
apply_update-err_iff u b = (
  λ h. elim (Option-cases b.market_id) [
    | inl unknown_market ↦ ground arith
    | inr (known, e) ↦ (known, e, (refused_known u b known e).0 h)
  ],
  λ (known, e, ne). (refused_known u b known e).1 ne,
)
