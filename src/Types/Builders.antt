-- ===== src/Types/Builders.antt =====
-- What an update made by a builder says of itself.
use rstrader.Base.{ℕ, ◌≡◌, ◌↔◌, true, arith}
use rstrader.Base.Float.{F64, partial_cmp, eqf, zero_f64}
use rstrader.Base.Bytes.{Bytes}
use rstrader.Exchange.{discriminant}
use rstrader.XMarketId.{exchange_from}
use rstrader.XMarketId.Fields.{exchange_from-make}
use rstrader.Types.{OrderBookL2Update, OrderBookL2UpdateBuilder, delete, build_bid, build_ask}

-- A built update is a deletion exactly when its quantity is zero, and its market id names its
-- exchange.
abbrev pub IsCoherent : OrderBookL2Update → Type 0
IsCoherent u =
    ((u.action ≡ delete) ↔ (u.qty ≡ zero_f64))
    × (exchange_from u.market_id ≡ discriminant u.exchange)

zero_iff : (q : F64) → (eqf q zero_f64 ≡ true) ↔ (q ≡ zero_f64)
unfolding partial_cmp
zero_iff q = ground arith

-- Both builders, at any hash: the action says whether the quantity is zero, and the market id
-- names the exchange of the update.
pub build-IsCoherent :
    (hash : Bytes → ℕ) (b : OrderBookL2UpdateBuilder) (price qty : F64)
    → IsCoherent (build_bid hash b price qty) × IsCoherent (build_ask hash b price qty)
unfolding build_bid build_ask
build-IsCoherent hash b price qty = (
  (ground (arith, zero_iff qty), exchange_from-make hash b.exchange b.ticker),
  (ground (arith, zero_iff qty), exchange_from-make hash b.exchange b.ticker),
)
