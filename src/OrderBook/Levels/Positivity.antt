-- ===== src/OrderBook/Levels/Positivity.antt =====
-- The operations keep every quantity above zero.
use rstrader.Base.{◌≡◌, true, [], ◌∷◌, arith}
use rstrader.Base.Float.{F64, zero_f64, ltf}
use rstrader.OrderBook.Levels.{PriceMap, insert, remove, Positive}

pub insert-Positive :
    (p q : F64) (m : PriceMap) → ltf zero_f64 q ≡ true → Positive m → Positive (insert p q m)
unfolding insert
insert-Positive p q [] h v = (h, tt)
insert-Positive p q ((r, w) ∷ m) h v = ground (arith, insert-Positive p q m h v.1)

pub remove-Positive : (p : F64) (m : PriceMap) → Positive m → Positive (remove p m)
unfolding remove
remove-Positive p [] v = tt
remove-Positive p ((r, w) ∷ m) v = ground (arith, remove-Positive p m v.1)
