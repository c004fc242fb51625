-- ===== src/Okx/Connector.antt =====
-- src/exchanges/okx.rs: the connector. A connection is the list of frames still to come, as in the
-- Binance connector; what `connect_async` and `send` give are arguments, and a channel of messages
-- is the number of those that its receiver still takes. Addresses and log lines are left out.
mod Forward
mod Tests
use rstrader.Base.{ℕ, zero, suc, Bool, Option, none, some, List, [], ◌∷◌, ◌++◌, if◌then◌else◌}
use rstrader.Base.Bytes.{Bytes, ascii}
use rstrader.Errors.{AppError, Result, ok, err, connection_error, validation_error}
use rstrader.Exchange.{ExchangeId, okx_swap, okx_spot}
use rstrader.Types.{ConnectionStatus, RawMessage}
use rstrader.Types as Types
use rstrader.Binance.{
  Frame, text_frame, close_frame, ping_frame, pong_frame, other_frame, failure_frame,
}
use rstrader.Binance.Session.{Opened, refused, stream}
use rstrader.Okx.{InstrumentRegistry, contains}
use rstrader.Okx.Symbols.{convert_symbol}

pub data OkxSyncState : Type 0 where
  disconnected connected subscribed synced : OkxSyncState
  error : Bytes → OkxSyncState

pub record OkxConnector : Type 0 where
  pub ws_stream : Option (List Frame)
  pub exchange_id : ExchangeId
  pub sync_state : OkxSyncState
  pub instrument_registry : InstrumentRegistry

abbrev pub new_on : ExchangeId → InstrumentRegistry → OkxConnector
new_on exchange registry = record {
  ws_stream = none;
  exchange_id = exchange;
  sync_state = disconnected;
  instrument_registry = registry;
}

abbrev pub new_swap : InstrumentRegistry → OkxConnector
new_swap = new_on okx_swap

abbrev pub new_spot : InstrumentRegistry → OkxConnector
new_spot = new_on okx_spot

-- `none` where the source panics.
pub get_inst_type : ExchangeId → Option Bytes
get_inst_type okx_swap = some (ascii "SWAP")
get_inst_type okx_spot = some (ascii "SPOT")
get_inst_type _ = none

pub connect : Opened → OkxConnector → OkxConnector × Result (Unit {0})
connect (refused e) c =
    (c, err (connection_error (ascii "Failed to connect to OKX WebSocket: " ++ e)))
connect (stream frames) c = (record c { ws_stream = some frames; sync_state = connected }, ok tt)

not_connected : AppError
not_connected = connection_error (ascii "WebSocket not connected")

-- The requests of both channels, given the error of sending them, if there is one.
pub subscribe : Bytes → Option Bytes → OkxConnector → OkxConnector × Result (Unit {0})
unfolding not_connected
subscribe what failure c = elim c.ws_stream [
  | none ↦ (c, err not_connected)
  | some frames ↦ elim failure [
    | some e ↦ (c, err (connection_error (what ++ e)))
    | none ↦ (record c { sync_state = subscribed }, ok tt)
  ]
]

pub subscribe_l2 : Option Bytes → OkxConnector → OkxConnector × Result (Unit {0})
unfolding subscribe
subscribe_l2 = subscribe (ascii "Failed to send subscription: ")

pub subscribe_trades : Option Bytes → OkxConnector → OkxConnector × Result (Unit {0})
unfolding subscribe
subscribe_trades = subscribe (ascii "Failed to send trades subscription: ")

abbrev pub raw_message : ExchangeId → ℕ → Bytes → RawMessage
raw_message exchange now text = record {
  exchange_id = exchange;
  data_bytes = text;
  timestamp = now;
}

pub read_one : List Frame → OkxConnector → OkxConnector × Result (Option RawMessage)
read_one [] c = (record c { sync_state = disconnected }, ok none)
read_one (text_frame now text ∷ frames) c =
    (record c { ws_stream = some frames }, ok (some (raw_message c.exchange_id now text)))
read_one (close_frame ∷ frames) c =
    (record c { ws_stream = some frames; sync_state = disconnected }, ok none)
read_one (failure_frame e ∷ frames) c = (
  record c { ws_stream = some frames; sync_state = error e },
  err (connection_error (ascii "WebSocket error: " ++ e)),
)
read_one (f ∷ frames) c = (record c { ws_stream = some frames }, ok none)

pub next_message : OkxConnector → OkxConnector × Result (Option RawMessage)
unfolding read_one not_connected
next_message c = elim c.ws_stream [
  | none ↦ (c, err not_connected)
  | some frames ↦ read_one frames c
]

pub connection_status : OkxSyncState → ConnectionStatus
connection_status disconnected = Types.disconnected
connection_status (error e) = Types.error
connection_status _ = Types.connected

pub disconnect : OkxConnector → OkxConnector
disconnect c = record c { ws_stream = none; sync_state = disconnected }

pub validate_symbol : Bytes → OkxConnector → Result (Unit {0})
validate_symbol symbol c =
    if contains c.instrument_registry (convert_symbol c.exchange_id symbol)
    then ok tt
    else err (validation_error (ascii "Symbol not found or not active on OKX"))

-- The loop that hands the texts on: the messages sent, the frames left, and the result.
pub forward : ExchangeId → ℕ → List Frame → List RawMessage × List Frame × Result (Unit {0})
forward exchange room [] = ([], [], ok tt)
forward exchange room (text_frame now text ∷ frames) = elim room [
  | zero ↦ ([], frames, ok tt)
  | suc n ↦
      let (sent, rest, r) = forward exchange n frames in
      (raw_message exchange now text ∷ sent, rest, r)
]
forward exchange room (close_frame ∷ frames) = ([], frames, ok tt)
forward exchange room (failure_frame e ∷ frames) =
    ([], frames, err (connection_error (ascii "WebSocket error: " ++ e)))
forward exchange room (f ∷ frames) = forward exchange room frames

-- Connecting, the request of the channel, and the loop.
pub forward_from : ℕ → OkxConnector → OkxConnector × List RawMessage × Result (Unit {0})
unfolding forward not_connected
forward_from room c = elim c.ws_stream [
  | none ↦ (c, [], err not_connected)
  | some frames ↦
      let (sent, rest, r) = forward c.exchange_id room frames in
      (record c { ws_stream = some rest }, sent, r)
]

after_step :
    ℕ → OkxConnector × Result (Unit {0}) → OkxConnector × List RawMessage × Result (Unit {0})
unfolding forward_from
after_step room (c, err e) = (c, [], err e)
after_step room (c, ok done) = forward_from room c

pub start_depth_stream :
    Opened → Option Bytes → ℕ → OkxConnector → OkxConnector × List RawMessage × Result (Unit {0})
unfolding connect subscribe_l2 after_step
start_depth_stream opened failure room c =
    let (c₁, r) = connect opened c in
    elim r [ err e ↦ (c₁, [], err e) | ok done ↦ after_step room (subscribe_l2 failure c₁) ]

pub start_trade_stream :
    Opened → Option Bytes → ℕ → OkxConnector → OkxConnector × List RawMessage × Result (Unit {0})
unfolding connect forward_from
start_trade_stream opened failure room c =
    let (c₁, r) = connect opened c in
    elim r [
      | err e ↦ (c₁, [], err e)
      | ok done ↦ elim failure [
        | some e ↦
            (c₁, [], err (connection_error (ascii "Failed to send trade subscription: " ++ e)))
        | none ↦ forward_from room c₁
      ]
    ]
