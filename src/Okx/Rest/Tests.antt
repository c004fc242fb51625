-- ===== src/Okx/Rest/Tests.antt =====
-- The instruments, symbols and conversions of OKX at concrete values.
use rstrader.Base.{ℕ, ◌≡◌, refl, ◌↔◌, true, Option, none, some, [], ◌∷◌, if◌then◌else◌}
use rstrader.Base.Int.{pos}
use rstrader.Base.Float.{F64}
use rstrader.Base.Float.Exact.{num, exact}
use rstrader.Base.Bytes.{Bytes, ascii, bytes_eq}
use rstrader.Errors.{err}
use rstrader.Exchange.{okx_swap}
use rstrader.Okx.{
  data_message, not_found, OkxInstrumentInfo, InstrumentMetadata, contains, insert, from_okx_info,
  parsed_if_any, cache_instruments, initialize_with_instruments,
}
use rstrader.Okx.Symbols.{
  convert_symbol, convert_symbol_from_okx, convert_symbol_from_okx-convert_symbol,
}
use rstrader.Okx.Registry.{IsListed, initialize_with_instruments_iff}
use rstrader.Okx.Rest.{parse_okx_message, parse_okx_message-data}

abbrev digit : Bytes → Option F64
digit t = if bytes_eq t (ascii "1") then some (num 1) else none

abbrev info : OkxInstrumentInfo
info = record {
  inst_id = ascii "BTC-USDT-SWAP";
  inst_type = ascii "SWAP";
  state = ascii "live";
  lot_size = ascii "1";
  contract_multiplier = some (ascii "1");
  contract_value = none;
  tick_size = ascii "1";
  base_currency = none;
  quote_currency = none;
}

abbrev metadata : InstrumentMetadata
metadata = record {
  inst_id = ascii "BTC-USDT-SWAP";
  inst_type = ascii "SWAP";
  lot_size = num 1;
  contract_multiplier = some (num 1);
  contract_value = none;
  tick_size = num 1;
  base_currency = none;
  quote_currency = none;
}

convert_symbol_from_okx-convert_symbol_example :
    convert_symbol_from_okx okx_swap (convert_symbol okx_swap (ascii "BTCUSDT")) ≡ ascii "BTCUSDT"
convert_symbol_from_okx-convert_symbol_example =
    convert_symbol_from_okx-convert_symbol okx_swap (ascii "BTCUSDT")
      (refl, (refl, (refl, (refl, (refl, (refl, (refl, tt)))))))

initialize_with_instruments_iff_runs :
    (contains ((ascii "BTC-USDT-SWAP", metadata) ∷ []) (ascii "BTC-USDT-SWAP") ≡ true)
    ↔ IsListed (ascii "BTC-USDT-SWAP") (info ∷ [])
unfolding initialize_with_instruments cache_instruments from_okx_info parsed_if_any insert bytes_eq
initialize_with_instruments_iff_runs =
    initialize_with_instruments_iff digit (info ∷ []) ((ascii "BTC-USDT-SWAP", metadata) ∷ [])
      (ascii "BTC-USDT-SWAP") refl

abbrev zero_hash : Bytes → ℕ
zero_hash t = 0

parse_okx_message-data_example :
    parse_okx_message exact digit zero_hash
      (some (data_message []))
      okx_swap
      (ascii "BTCUSDT")
      1
      (pos 2)
    ≡ err not_found
parse_okx_message-data_example =
    parse_okx_message-data exact digit zero_hash [] okx_swap (ascii "BTCUSDT") 1 (pos 2)
