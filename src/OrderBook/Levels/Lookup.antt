-- ===== src/OrderBook/Levels/Lookup.antt =====
-- The map laws on sorted maps, and that the operations keep them sorted.
use rstrader.Base.{◌≡◌, refl, true, false, none, some, [], ◌∷◌, if◌then◌else◌, arith}
use rstrader.Base.Float.{F64, ltf, eqf, is_nan}
use rstrader.Base.Float.Order.{cmp_flip, cmp_eq, cmp_refl, cmp_trans, cmp-ne-none}
use rstrader.OrderBook.Levels.{PriceMap, insert, remove, get, Above, Sorted}

pub Above-trans : (p r : F64) (m : PriceMap) → ltf p r ≡ true → Above r m → Above p m
Above-trans p r [] h a = tt
Above-trans p r ((s, v) ∷ m) h a = (ground (arith, cmp_trans p r s), Above-trans p r m h a.1)

Above-insert : (b p q : F64) (m : PriceMap) → ltf b p ≡ true → Above b m → Above b (insert p q m)
unfolding insert
Above-insert b p q [] h a = (h, tt)
Above-insert b p q ((r, v) ∷ m) h a = ground (arith, Above-insert b p q m h a.1)

Above-remove : (b p : F64) (m : PriceMap) → Above b m → Above b (remove p m)
unfolding remove
Above-remove b p [] a = tt
Above-remove b p ((r, v) ∷ m) a = ground (arith, Above-remove b p m a.1)

-- Setting the quantity at a price that is a number keeps the map sorted.
pub insert-Sorted : (p q : F64) (m : PriceMap) → is_nan p ≡ false → Sorted m → Sorted (insert p q m)
unfolding insert
insert-Sorted p q [] h s = (h, tt, tt)
insert-Sorted p q ((r, v) ∷ m) h s = ground (
  arith,
  cmp_flip p r,
  cmp-ne-none p r h s.0,
  Above-trans p r m,
  Above-insert r p q m,
  insert-Sorted p q m h s.2,
)

pub remove-Sorted : (p : F64) (m : PriceMap) → Sorted m → Sorted (remove p m)
unfolding remove
remove-Sorted p [] s = tt
remove-Sorted p ((r, v) ∷ m) s = ground (arith, Above-remove r p m s.1, remove-Sorted p m s.2)

-- Below all prices there is nothing.
get-Above : (p : F64) (m : PriceMap) → Above p m → get p m ≡ none
unfolding get
get-Above p [] a = refl
get-Above p ((r, v) ∷ m) a = ground arith

pub get-insert :
    (p q j : F64) (m : PriceMap)
    → is_nan p ≡ false
    → is_nan j ≡ false
    → Sorted m
    → get j (insert p q m) ≡ (if eqf j p then some q else get j m)
unfolding get insert
get-insert p q j [] hp hj s = ground (arith, cmp-ne-none j p hj hp)
get-insert p q j ((r, v) ∷ m) hp hj s = ground (
  arith,
  cmp_flip p r,
  cmp_flip j r,
  cmp_flip j p,
  cmp_eq p r,
  cmp_eq j r,
  cmp_eq j p,
  cmp_trans j p r,
  cmp_trans j r p,
  cmp_trans p j r,
  cmp_trans p r j,
  cmp_trans r p j,
  cmp_trans r j p,
  cmp_refl r s.0,
  cmp-ne-none p r hp s.0,
  cmp-ne-none j r hj s.0,
  cmp-ne-none j p hj hp,
  get-insert p q j m hp hj s.2,
)

pub get-remove :
    (p j : F64) (m : PriceMap)
    → is_nan p ≡ false
    → is_nan j ≡ false
    → Sorted m
    → get j (remove p m) ≡ (if eqf j p then none else get j m)
unfolding get remove
get-remove p j [] hp hj s = ground arith
get-remove p j ((r, v) ∷ m) hp hj s = ground (
  arith,
  cmp_flip p r,
  cmp_flip j r,
  cmp_flip j p,
  cmp_eq p r,
  cmp_eq j r,
  cmp_eq j p,
  cmp_trans j p r,
  cmp_trans j r p,
  cmp_trans p j r,
  cmp_trans p r j,
  cmp_trans r p j,
  cmp_trans r j p,
  cmp_refl r s.0,
  cmp-ne-none p r hp s.0,
  cmp-ne-none j r hj s.0,
  cmp-ne-none j p hj hp,
  get-Above j m,
  Above-trans j r m,
  get-remove p j m hp hj s.2,
)
