-- ===== src/Okx/Rest.antt =====
-- src/exchanges/okx.rs: the snapshot over REST, and the conversions of whole updates.
mod Tests
use rstrader.Base.{
  ℕ, ◌≡◌, refl, if_both, Bool, true, false, Option, none, some, List, [], ◌∷◌, ◌++◌, map,
  if◌then◌else◌,
}
use rstrader.Base.Int.{ℤ, pos}
use rstrader.Base.Word.{signed64}
use rstrader.Base.Decimal.{read_i64}
use rstrader.Base.Float.{F64, Rounded}
use rstrader.Base.Bytes.{Bytes, ascii, bytes_eq}
use rstrader.Errors.{AppError, Result, ok, err, ◌>>=◌, connection_error, parse_error}
use rstrader.Exchange.{ExchangeId, okx_swap, okx_spot}
use rstrader.XMarketId.{make}
use rstrader.Metrics.{millis_to_micros}
use rstrader.Oms.{Side}
use rstrader.Types.{
  OrderBookL2Update, OrderBookL2UpdateBuilder, build_bid, build_ask, TradeUpdate, PriceLevel,
  OrderBookSnapshot, RawMessage,
}
use rstrader.Okx.{
  OkxDepthData, OkxMessage, subscription, data_message, error_message, OkxTradeData,
  InstrumentMetadata, InstrumentRegistry, find, not_found, get_metadata, normalize_quantity,
  read_entry, parse_timestamp, parsed, or_else, ApiResponse, unsent, bad_status, bad_json, answer,
}
use rstrader.Okx.Symbols.{convert_symbol, convert_symbol_from_okx}
use rstrader.Okx.Processing.Trades.{parse_side}
use rstrader.Okx.Connector.{OkxConnector, new_swap, new_spot}
use rstrader.Processor.Loop.{read_all}

module _ (ops : Rounded) (parse_f64 : Bytes → Option F64) where
  read_bid : InstrumentMetadata → List Bytes → Result (Option (F64 × F64))
  read_bid m =
      read_entry parse_f64 (normalize_quantity ops m) (parse_error (ascii "Invalid bid price"))
        (parse_error (ascii "Invalid bid size"))

  read_ask : InstrumentMetadata → List Bytes → Result (Option (F64 × F64))
  read_ask m =
      read_entry parse_f64 (normalize_quantity ops m) (parse_error (ascii "Invalid ask price"))
        (parse_error (ascii "Invalid ask size"))

  abbrev level_of : F64 × F64 → PriceLevel
  level_of (price, qty) = record { price = price; qty = qty }

  module _ (hash : Bytes → ℕ) where
    pub snapshot_of : OkxConnector → Bytes → OkxDepthData → Result OrderBookSnapshot
    unfolding read_bid read_ask
    snapshot_of c symbol d = do
      m ← get_metadata c.instrument_registry (convert_symbol c.exchange_id symbol)
      bids ← read_all (read_bid m) d.bids
      asks ← read_all (read_ask m) d.asks
      timestamp ← parse_timestamp (parse_error (ascii "Invalid timestamp")) d.timestamp
      ok (record {
        market_id = make hash c.exchange_id symbol;
        last_update_id = or_else (pos 0) d.seq_id;
        timestamp = timestamp;
        sequence = or_else (pos 0) d.seq_id;
        bids = map level_of bids;
        asks = map level_of asks;
      })

    pub get_depth_snapshot :
        OkxConnector → Bytes → ApiResponse OkxDepthData → Result OrderBookSnapshot
    unfolding snapshot_of
    get_depth_snapshot c symbol unsent =
        err (connection_error (ascii "Failed to get depth snapshot"))
    get_depth_snapshot c symbol bad_status =
        err (connection_error (ascii "HTTP error getting depth"))
    get_depth_snapshot c symbol bad_json =
        err (parse_error (ascii "Failed to parse depth response"))
    get_depth_snapshot c symbol (answer code []) =
        if bytes_eq code (ascii "0")
        then err (parse_error (ascii "No depth data in response"))
        else err (connection_error (ascii "OKX API error getting depth"))
    get_depth_snapshot c symbol (answer code (d ∷ ds)) =
        if bytes_eq code (ascii "0")
        then snapshot_of c symbol d
        else err (connection_error (ascii "OKX API error getting depth"))

    abbrev builder : ExchangeId → Bytes → ℕ → ℤ → ℤ → OkxDepthData → OrderBookL2UpdateBuilder
    builder exchange symbol packet_id rcv_timestamp timestamp d = record {
      timestamp = millis_to_micros timestamp;
      rcv_timestamp = rcv_timestamp;
      exchange = exchange;
      ticker = symbol;
      seq_id = or_else (pos 0) d.seq_id;
      packet_id = signed64 packet_id;
      update_id = or_else (pos 0) d.seq_id;
      first_update_id = or_else (or_else (pos 0) d.seq_id) d.prev_seq_id;
    }

    updates_of :
        InstrumentMetadata
        → ExchangeId
        → Bytes
        → ℕ
        → ℤ
        → OkxDepthData
        → Result (List OrderBookL2Update)
    unfolding read_bid read_ask
    updates_of m exchange symbol packet_id rcv d = do
      timestamp ← parse_timestamp (parse_error (ascii "Invalid timestamp")) d.timestamp
      bids ← read_all (read_bid m) d.bids
      asks ← read_all (read_ask m) d.asks
      let b = builder exchange symbol packet_id rcv timestamp d
      ok (
          map (λ (l : F64 × F64). build_bid hash b l.0 l.1) bids
          ++ map (λ (l : F64 × F64). build_ask hash b l.0 l.1) asks)

    updates_of_all :
        InstrumentMetadata
        → ExchangeId
        → Bytes
        → ℕ
        → ℤ
        → List OkxDepthData
        → Result (List OrderBookL2Update)
    unfolding updates_of
    updates_of_all m exchange symbol packet_id rcv [] = ok []
    updates_of_all m exchange symbol packet_id rcv (d ∷ ds) = do
      us ← updates_of m exchange symbol packet_id rcv d
      later ← updates_of_all m exchange symbol packet_id rcv ds
      ok (us ++ later)

    pub parse_depth_update :
        OkxConnector → List OkxDepthData → Bytes → ℕ → ℤ → Result (List OrderBookL2Update)
    unfolding updates_of_all
    parse_depth_update c ds symbol packet_id rcv = do
      m ← get_metadata c.instrument_registry (convert_symbol c.exchange_id symbol)
      updates_of_all m c.exchange_id symbol packet_id rcv ds

    abbrev is_swap : ExchangeId → Bool
    is_swap okx_swap = true
    is_swap _ = false

    -- The connector that it makes for the occasion knows no instrument.
    pub parse_okx_message :
        Option OkxMessage → ExchangeId → Bytes → ℕ → ℤ → Result (List OrderBookL2Update)
    unfolding parse_depth_update
    parse_okx_message none exchange symbol packet_id rcv =
        err (parse_error (ascii "Failed to parse OKX message"))
    parse_okx_message (some (data_message ds)) exchange symbol packet_id rcv =
        parse_depth_update (if is_swap exchange then new_swap [] else new_spot []) ds symbol
          packet_id rcv
    parse_okx_message (some subscription) exchange symbol packet_id rcv = ok []
    parse_okx_message (some (error_message code msg)) exchange symbol packet_id rcv =
        err (parse_error (ascii "OKX WebSocket error"))

    -- Whatever a data message holds, the result is the error of an unknown instrument.
    pub parse_okx_message-data :
        (ds : List OkxDepthData) (exchange : ExchangeId) (symbol : Bytes) (packet_id : ℕ) (rcv : ℤ)
        → parse_okx_message (some (data_message ds)) exchange symbol packet_id rcv ≡ err not_found
    unfolding parse_okx_message parse_depth_update get_metadata find
    parse_okx_message-data ds exchange symbol packet_id rcv =
        if_both (λ c. parse_depth_update c ds symbol packet_id rcv ≡ err not_found)
          (is_swap exchange) refl refl

  trade_side : Bytes → Result Side
  trade_side text = elim (parse_side text) [
    | none ↦ err (parse_error (ascii "Invalid trade side"))
    | some side ↦ ok side
  ]

  pub convert_trade_update : OkxConnector → OkxTradeData → ℤ → ℤ → Result TradeUpdate
  unfolding trade_side
  convert_trade_update c t rcv packet_id = do
    price ← parsed parse_f64 (parse_error (ascii "Invalid trade price")) t.price
    raw_size ← parsed parse_f64 (parse_error (ascii "Invalid trade size")) t.size
    m ← get_metadata c.instrument_registry t.inst_id
    side ← trade_side t.side
    timestamp ← parse_timestamp (parse_error (ascii "Invalid timestamp")) t.timestamp
    ok (record {
      timestamp = millis_to_micros timestamp;
      rcv_timestamp = rcv;
      exchange = c.exchange_id;
      ticker = convert_symbol_from_okx c.exchange_id t.inst_id;
      seq_id = or_else (pos 0) (read_i64 t.trade_id);
      packet_id = packet_id;
      trade_id = t.trade_id;
      order_id = none;
      side = side;
      price = price;
      qty = normalize_quantity ops m raw_size;
    })
