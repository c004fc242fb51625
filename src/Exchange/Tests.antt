-- ===== src/Exchange/Tests.antt =====
-- Exchange names as a user may write them.
use rstrader.Base.{◌≡◌, refl, some}
use rstrader.Base.Bytes.{ascii, bytes_eq, trim, to_upper}
use rstrader.Exchange.{
  okx_swap, exchange_name, exchange_of_upper, exchange_from_str, trade, stream_type_from_str,
}
use rstrader.Exchange.Names.{exchange_from_str_iff}

lower_case : exchange_from_str (ascii " okx_Swap ") ≡ some okx_swap
unfolding exchange_from_str exchange_of_upper to_upper trim bytes_eq
lower_case = refl

trades_alias : stream_type_from_str (ascii "trades") ≡ some trade
unfolding stream_type_from_str to_upper trim bytes_eq
trades_alias = refl

exchange_from_str_iff_runs : exchange_from_str (ascii " okx_Swap ") ≡ some okx_swap
unfolding to_upper trim exchange_name
exchange_from_str_iff_runs = (exchange_from_str_iff (ascii " okx_Swap ") okx_swap).1 refl
