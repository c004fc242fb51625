-- ===== src/Exchange.antt =====
-- `ExchangeId` and `StreamType` of src/xcommons/types.rs: their discriminants, their names and the
-- parsing of those.
pub mod Names
mod Tests
use rstrader.Base.{
  ℕ, ◌≡◌, Bool, true, false, ◌&&◌, ◌-◌, Option, none, some, [], ◌∷◌, leb, if◌then◌else◌,
}
use rstrader.Base.Bytes.{Bytes, ascii, bytes_eq, trim, to_upper}

pub data ExchangeId : Type 0 where
  binance_futures okx_swap okx_spot deribit : ExchangeId

-- `exchange as u64`.
unfoldable pub discriminant : ExchangeId → ℕ
discriminant binance_futures = 1
discriminant okx_swap = 2
discriminant okx_spot = 3
discriminant deribit = 4

-- `Display`.
unfoldable pub exchange_name : ExchangeId → Bytes
exchange_name binance_futures = ascii "BINANCE_FUTURES"
exchange_name okx_swap = ascii "OKX_SWAP"
exchange_name okx_spot = ascii "OKX_SPOT"
exchange_name deribit = ascii "DERIBIT"

-- `FromStr`; `none` stands for the error message.
pub exchange_of_upper : Bytes → Option ExchangeId
exchange_of_upper s =
    if bytes_eq s (ascii "BINANCE_FUTURES")
    then some binance_futures
    else if bytes_eq s (ascii "OKX_SWAP")
    then some okx_swap
    else if bytes_eq s (ascii "OKX_SPOT")
    then some okx_spot
    else if bytes_eq s (ascii "DERIBIT")
    then some deribit
    else none

pub exchange_from_str : Bytes → Option ExchangeId
exchange_from_str s = exchange_of_upper (to_upper (trim s))

pub data StreamType : Type 0 where
  l2 trade obs : StreamType

pub stream_type_from_str : Bytes → Option StreamType
stream_type_from_str s =
    let u = to_upper (trim s) in
    if bytes_eq u (ascii "L2")
    then some l2
    else if bytes_eq u (ascii "TRADES")
    then some trade
    else if bytes_eq u (ascii "TRADE")
    then some trade
    else if bytes_eq u (ascii "OBS")
    then some obs
    else none
