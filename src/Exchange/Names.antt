-- ===== src/Exchange/Names.antt =====
-- An exchange's name is parsed back to it, in any case of the letters and between any blanks.
use rstrader.Base.{◌≡◌, refl, ◌↔◌, ap, ◌∙◌, some, arith}
use rstrader.Base.Bytes.{Bytes, ascii, bytes_eq, bytes_eq_sound, trim, to_upper}
use rstrader.Exchange.{
  ExchangeId, binance_futures, okx_swap, okx_spot, deribit, exchange_name, exchange_of_upper,
  exchange_from_str, StreamType, l2, trade, obs, stream_type_from_str,
}

of_upper_sound : (s : Bytes) (x : ExchangeId) → exchange_of_upper s ≡ some x → s ≡ exchange_name x
unfolding exchange_of_upper exchange_name
of_upper_sound s x h = ground (
  arith,
  bytes_eq_sound s (ascii "BINANCE_FUTURES"),
  bytes_eq_sound s (ascii "OKX_SWAP"),
  bytes_eq_sound s (ascii "OKX_SPOT"),
  bytes_eq_sound s (ascii "DERIBIT"),
)

of_upper_name : (x : ExchangeId) → exchange_of_upper (exchange_name x) ≡ some x
unfolding exchange_of_upper exchange_name bytes_eq
of_upper_name binance_futures = refl
of_upper_name okx_swap = refl
of_upper_name okx_spot = refl
of_upper_name deribit = refl

-- A text parses to an exchange exactly when, trimmed and in upper case, it is the exchange's name.
pub exchange_from_str_iff :
    (s : Bytes) (x : ExchangeId)
    → (exchange_from_str s ≡ some x) ↔ (to_upper (trim s) ≡ exchange_name x)
unfolding exchange_from_str
exchange_from_str_iff s x =
    (of_upper_sound (to_upper (trim s)) x, λ e. ap exchange_of_upper e ∙ of_upper_name x)

pub exchange_from_str-exchange_name :
    (x : ExchangeId) → exchange_from_str (exchange_name x) ≡ some x
unfolding exchange_name trim to_upper
exchange_from_str-exchange_name binance_futures =
    (exchange_from_str_iff (ascii "BINANCE_FUTURES") binance_futures).1 refl
exchange_from_str-exchange_name okx_swap =
    (exchange_from_str_iff (ascii "OKX_SWAP") okx_swap).1 refl
exchange_from_str-exchange_name okx_spot =
    (exchange_from_str_iff (ascii "OKX_SPOT") okx_spot).1 refl
exchange_from_str-exchange_name deribit = (exchange_from_str_iff (ascii "DERIBIT") deribit).1 refl

-- A name of a stream.
abbrev pub stream_name : StreamType → Bytes
stream_name l2 = ascii "L2"
stream_name trade = ascii "TRADES"
stream_name obs = ascii "OBS"

pub stream_type_from_str-stream_name :
    (t : StreamType) → stream_type_from_str (stream_name t) ≡ some t
unfolding stream_type_from_str bytes_eq trim to_upper
stream_type_from_str-stream_name l2 = refl
stream_type_from_str-stream_name trade = refl
stream_type_from_str-stream_name obs = refl
