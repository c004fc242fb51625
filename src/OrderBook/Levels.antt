-- ===== src/OrderBook/Levels.antt =====
-- `BTreeMap<OrderedFloat, f64>`: entries in ascending order of their prices, found by `OrderedFloat`'s
-- `cmp`, which takes a NaN for equal to anything. An equal price keeps its key and gets the new value.
pub mod Lookup
pub mod Order
pub mod Positivity
use Prim.Native.Nat.{Ordering}
use rstrader.Base.{◌≡◌, Bool, true, false, Option, none, some, List, [], ◌∷◌}
use rstrader.Base.Float.{F64, zero_f64, partial_cmp, ltf, is_nan}

abbrev pub PriceMap : Type 0
PriceMap = List (F64 × F64)

abbrev pub cmp : F64 → F64 → Ordering
cmp x y = elim (partial_cmp x y) [ none ↦ Ordering.eq | some o ↦ o ]

unfoldable pub insert : F64 → F64 → PriceMap → PriceMap
insert p q [] = (p, q) ∷ []
insert p q ((r, v) ∷ m) = elim (cmp p r) [
  | Ordering.lt ↦ (p, q) ∷ (r, v) ∷ m
  | Ordering.eq ↦ (r, q) ∷ m
  | Ordering.gt ↦ (r, v) ∷ insert p q m
]

unfoldable pub remove : F64 → PriceMap → PriceMap
remove p [] = []
remove p ((r, v) ∷ m) = elim (cmp p r) [
  | Ordering.lt ↦ (r, v) ∷ m
  | Ordering.eq ↦ m
  | Ordering.gt ↦ (r, v) ∷ remove p m
]

-- The quantity at a price; the source reads the map only in order.
unfoldable pub get : F64 → PriceMap → Option F64
get p [] = none
get p ((r, v) ∷ m) = elim (cmp p r) [
  | Ordering.lt ↦ none
  | Ordering.eq ↦ some v
  | Ordering.gt ↦ get p m
]

-- Every price of the map is above the given one.
abbrev pub Above : F64 → PriceMap → Type 0
Above p [] = Unit
Above p ((r, v) ∷ m) = (ltf p r ≡ true) × Above p m

-- Prices are numbers and rise.
abbrev pub Sorted : PriceMap → Type 0
Sorted [] = Unit
Sorted ((r, v) ∷ m) = (is_nan r ≡ false) × Above r m × Sorted m

-- Quantities are above zero.
abbrev pub Positive : PriceMap → Type 0
Positive [] = Unit
Positive ((r, v) ∷ m) = (ltf zero_f64 v ≡ true) × Positive m
