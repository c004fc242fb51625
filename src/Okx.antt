-- ===== src/Okx.antt =====
-- src/exchanges/okx.rs: the instruments of OKX, the books it sends and the connector. A response
-- over REST and what serde makes of a message are arguments; error messages leave out the values
-- that they print. `last_updated` is left out, as nothing reads it.
pub mod Symbols
pub mod Registry
pub mod Connector
pub mod Processing
pub mod Rest
use rstrader.Base.{
  ℕ, Bool, true, false, Option, none, some, List, [], ◌∷◌, ◌++◌, if◌then◌else◌, map, length,
}
use rstrader.Base.Int.{ℤ, pos}
use rstrader.Base.Word.{signed64}
use rstrader.Base.Decimal.{read_i64}
use rstrader.Base.Float.{F64, Rounded}
use rstrader.Base.Float.Exact.{num}
use rstrader.Base.Bytes.{Bytes, ascii, bytes_eq}
use rstrader.Errors.{AppError, Result, ok, err, ◌>>=◌, connection_error, parse_error}
use rstrader.Exchange.{ExchangeId, okx_swap, okx_spot}
use rstrader.Okx.Symbols.{convert_symbol, convert_symbol_from_okx}
use rstrader.Types.{PriceLevel, OrderBookSnapshot}
use rstrader.XMarketId.{make}

pub record OkxDepthData : Type 0 where
  pub asks : List (List Bytes)
  pub bids : List (List Bytes)
  pub timestamp : Bytes
  pub checksum : Option ℤ
  pub prev_seq_id : Option ℤ
  pub seq_id : Option ℤ

-- The channel's argument and the action of an update are not read.
pub data OkxMessage : Type 0 where
  subscription : OkxMessage
  data_message : List OkxDepthData → OkxMessage
  error_message : (code msg : Bytes) → OkxMessage

pub record OkxTradeData : Type 0 where
  pub inst_id : Bytes
  pub trade_id : Bytes
  pub price : Bytes
  pub size : Bytes
  pub side : Bytes
  pub timestamp : Bytes

pub record OkxInstrumentInfo : Type 0 where
  pub inst_id : Bytes
  pub inst_type : Bytes
  pub state : Bytes
  pub lot_size : Bytes
  pub contract_multiplier : Option Bytes
  pub contract_value : Option Bytes
  pub tick_size : Bytes
  pub base_currency : Option Bytes
  pub quote_currency : Option Bytes

pub record InstrumentMetadata : Type 0 where
  pub inst_id : Bytes
  pub inst_type : Bytes
  pub lot_size : F64
  pub contract_multiplier : Option F64
  pub contract_value : Option F64
  pub tick_size : F64
  pub base_currency : Option Bytes
  pub quote_currency : Option Bytes

-- `fast_float::parse`, or the error.
abbrev pub parsed : (Bytes → Option F64) → AppError → Bytes → Result F64
parsed parse_f64 e text = elim (parse_f64 text) [ none ↦ err e | some x ↦ ok x ]

pub parsed_if_any : (Bytes → Option F64) → AppError → Option Bytes → Result (Option F64)
parsed_if_any parse_f64 e none = ok none
parsed_if_any parse_f64 e (some text) = parsed parse_f64 e text >>= λ x. ok (some x)

pub from_okx_info : (Bytes → Option F64) → OkxInstrumentInfo → Result InstrumentMetadata
unfolding parsed_if_any
from_okx_info parse_f64 info = do
  lot_size ← parsed parse_f64 (parse_error (ascii "Invalid lot size")) info.lot_size
  tick_size ← parsed parse_f64 (parse_error (ascii "Invalid tick size")) info.tick_size
  multiplier ←
      parsed_if_any parse_f64 (parse_error (ascii "Invalid contract multiplier"))
        info.contract_multiplier
  value ← parsed_if_any parse_f64 (parse_error (ascii "Invalid contract value")) info.contract_value
  ok (record {
    inst_id = info.inst_id;
    inst_type = info.inst_type;
    lot_size = lot_size;
    contract_multiplier = multiplier;
    contract_value = value;
    tick_size = tick_size;
    base_currency = info.base_currency;
    quote_currency = info.quote_currency;
  })

abbrev pub or_one : Option F64 → F64
or_one none = num 1
or_one (some x) = x

pub normalize_quantity : Rounded → InstrumentMetadata → F64 → F64
normalize_quantity ops m raw =
    ops.mul (ops.mul raw (or_one m.contract_value)) (or_one m.contract_multiplier)

pub get_contract_multiplier : InstrumentMetadata → F64
get_contract_multiplier m = or_one m.contract_multiplier

-- The map of the instruments, each id once.
abbrev pub InstrumentRegistry : Type 0
InstrumentRegistry = List (Bytes × InstrumentMetadata)

pub insert : Bytes → InstrumentMetadata → InstrumentRegistry → InstrumentRegistry
insert id m [] = (id, m) ∷ []
insert id m ((k, n) ∷ rest) =
    let later = insert id m rest in if bytes_eq k id then (id, m) ∷ rest else (k, n) ∷ later

unfoldable pub find : Bytes → InstrumentRegistry → Option InstrumentMetadata
find id [] = none
find id ((k, n) ∷ rest) = let later = find id rest in if bytes_eq k id then some n else later

abbrev pub not_found : AppError
not_found = parse_error (ascii "Instrument metadata not found for")

unfoldable pub get_metadata : InstrumentRegistry → Bytes → Result InstrumentMetadata
get_metadata r id = elim (find id r) [ none ↦ err not_found | some m ↦ ok m ]

pub contains : InstrumentRegistry → Bytes → Bool
contains r id = elim (find id r) [ none ↦ false | some m ↦ true ]

pub len : InstrumentRegistry → ℕ
len r = length r

-- What `send`, the status and `json` give, with the `code` and the `data` of the answer.
pub data ApiResponse (A : Type 0) : Type 0 where
  unsent bad_status bad_json : ApiResponse A
  answer : (code : Bytes) → List A → ApiResponse A

-- Only the live instruments are kept.
pub cache_instruments :
    (Bytes → Option F64) → List OkxInstrumentInfo → InstrumentRegistry → Result InstrumentRegistry
cache_instruments parse_f64 [] cache = ok cache
cache_instruments parse_f64 (info ∷ infos) cache =
    let later = cache_instruments parse_f64 infos in
    if bytes_eq info.state (ascii "live")
    then (from_okx_info parse_f64 info >>= λ m. later (insert info.inst_id m cache))
    else later cache

pub initialize_with_instruments :
    (Bytes → Option F64) → ApiResponse OkxInstrumentInfo → Result InstrumentRegistry
unfolding cache_instruments
initialize_with_instruments parse_f64 unsent =
    err (connection_error (ascii "Failed to get instruments"))
initialize_with_instruments parse_f64 bad_status =
    err (connection_error (ascii "HTTP error getting instruments"))
initialize_with_instruments parse_f64 bad_json =
    err (parse_error (ascii "Failed to parse instruments response"))
initialize_with_instruments parse_f64 (answer code infos) =
    if bytes_eq code (ascii "0")
    then cache_instruments parse_f64 infos []
    else err (connection_error (ascii "OKX API error getting instruments"))

-- An entry of a book: its price and its size, converted; one with fewer fields is skipped.
pub read_entry :
    (Bytes → Option F64)
    → (F64 → F64)
    → AppError
    → AppError
    → List Bytes
    → Result (Option (F64 × F64))
read_entry parse_f64 convert no_price no_size (p ∷ q ∷ fields) = do
  price ← parsed parse_f64 no_price p
  raw_size ← parsed parse_f64 no_size q
  ok (some (price, convert raw_size))
read_entry parse_f64 convert no_price no_size fields = ok none

pub parse_timestamp : AppError → Bytes → Result ℤ
parse_timestamp e text = elim (read_i64 text) [ none ↦ err e | some t ↦ ok t ]

abbrev pub or_else : ℤ → Option ℤ → ℤ
or_else z none = z
or_else z (some n) = n
