-- ===== src/Binance/Session.antt =====
-- src/exchanges/binance.rs: connecting, subscribing and reading messages. The stream that
-- `connect_async` opens, or its error, is an argument.
pub mod Bounds
pub mod Chain
use rstrader.Base.{
  ℕ, ◌-◌, Bool, true, false, Option, none, some, List, [], ◌∷◌, ◌++◌, length, drop, ltb,
  if◌then◌else◌,
}
use rstrader.Base.Int.{ℤ, pos, ltb_ℤ, leb_ℤ}
use rstrader.Base.Word.{add_i64}
use rstrader.Base.Bytes.{Bytes, ascii}
use rstrader.Errors.{AppError, Result, ok, err, connection_error, stream_error}
use rstrader.Types.{
  ConnectionStatus, disconnected, connecting, connected, failed, RawMessage, OrderBookSnapshot,
}
use rstrader.Binance.Scan.{scan_depth_u_fields}
use rstrader.Binance.{
  BufferedDepthUpdate, SyncState, unsynced, opening, buffering_updates, synchronizing, synchronized,
  resynchronizing, trade_stream, Frame, text_frame, close_frame, ping_frame, pong_frame,
  other_frame, failure_frame, Connector, max_buffered_updates, validate_update_sequence_fields,
  raw_message,
}

pub connect : Connector → Connector
connect c = record c { connection_status = connected; sync_state = opening }

-- What `connect_async` gives.
pub data Opened : Type 0 where
  refused : Bytes → Opened
  stream : List Frame → Opened

websocket_error : Bytes → AppError
websocket_error e = connection_error (ascii "WebSocket error: " ++ e)

-- Buffering starts only where no synchronisation has.
buffering_from : SyncState → SyncState
buffering_from unsynced = buffering_updates
buffering_from opening = buffering_updates
buffering_from s = s

pub subscribe_l2 : Bytes → Opened → Connector → Connector × Result (Unit {0})
unfolding websocket_error buffering_from
subscribe_l2 symbol (refused e) c = (c, err (websocket_error e))
subscribe_l2 symbol (stream frames) c = (
  record c {
    ws_stream = some frames;
    symbol = some symbol;
    sync_state = buffering_from c.sync_state;
  },
  ok tt,
)

pub subscribe_trades : Bytes → Opened → Connector → Connector × Result (Unit {0})
unfolding websocket_error
subscribe_trades symbol (refused e) c = (c, err (websocket_error e))
subscribe_trades symbol (stream frames) c = (
  record c {
    ws_stream = some frames;
    symbol = some symbol;
    sync_state = trade_stream;
    connection_status = connected;
  },
  ok tt,
)

pub disconnect : Connector → Connector
disconnect c = record c {
  ws_stream = none;
  sync_state = unsynced;
  connection_status = disconnected;
}

-- The new update behind the buffer, and the oldest dropped beyond the limit.
pub push_capped : BufferedDepthUpdate → List BufferedDepthUpdate → List BufferedDepthUpdate
push_capped u buffer =
    let longer = buffer ++ u ∷ [] in
    if ltb max_buffered_updates (length longer)
    then drop (length longer - max_buffered_updates) longer
    else longer

-- What becomes of a text frame: read on, hand it out, or fail.
pub data Outcome : Type 0 where
  read_on hand_out : Outcome
  reject : AppError → Outcome

-- A depth message with its three ids, `U`, `u` and `pu`, while synchronising with a snapshot.
pub on_first : ℤ → ℤ → ℤ → Connector → Connector × Outcome
on_first last first_id final_id c =
    if leb_ℤ final_id last
    then (c, read_on)
    else if ltb_ℤ last first_id
    then (record c { sync_state = synchronized final_id }, hand_out)
    else if leb_ℤ first_id (add_i64 last (pos 1))
    then if leb_ℤ (add_i64 last (pos 1)) final_id
      then (record c { sync_state = synchronized final_id }, hand_out)
      else (record c { sync_state = synchronized final_id }, hand_out)
    else (record c { sync_state = synchronized final_id }, hand_out)

-- And once synchronised.
pub on_next : ℤ → ℤ → ℤ → Connector → Connector × Outcome
on_next last final_id prev_id c = elim (validate_update_sequence_fields prev_id last) [
  | ok done ↦ (record c { sync_state = synchronized final_id }, hand_out)
  | err e ↦ (c, reject e)
]

invalid_state : AppError
invalid_state = stream_error (ascii "Received update in invalid state")

pub on_depth : SyncState → ℤ × ℤ × ℤ → Bytes → Connector → Connector × Outcome
unfolding on_first on_next push_capped invalid_state
on_depth buffering_updates (first_id, final_id, prev_id) text c = (
  record c {
    update_buffer =
        push_capped
          (record {
            first_update_id = first_id;
            final_update_id = final_id;
            prev_final_update_id = prev_id;
            text = text;
          })
          c.update_buffer;
  },
  read_on,
)
on_depth (synchronizing last) (first_id, final_id, prev_id) text c =
    on_first last first_id final_id c
on_depth (synchronized last) (first_id, final_id, prev_id) text c = on_next last final_id prev_id c
on_depth s ids text c = (c, reject invalid_state)

-- A text that is no depth message is handed out.
pub on_scanned : Option (ℤ × ℤ × ℤ) → Bytes → Connector → Connector × Outcome
unfolding on_depth
on_scanned none text c = (c, hand_out)
on_scanned (some ids) text c = on_depth c.sync_state ids text c

pub on_text : Bytes → Connector → Connector × Outcome
unfolding on_scanned
on_text text c = elim c.sync_state [
  | trade_stream ↦ (c, hand_out)
  | _ ↦ on_scanned (scan_depth_u_fields text) text c
]

-- The end of the round for one text frame, given what reading on would give.
pub settle :
    ℕ
    → Bytes
    → List Frame
    → Connector × Result (Option RawMessage)
    → Connector
    → Outcome
    → Connector × Result (Option RawMessage)
settle now text frames later after read_on = later
settle now text frames later after hand_out =
    (record after { ws_stream = some frames }, ok (some (raw_message now text)))
settle now text frames later after (reject e) = (record after { ws_stream = some frames }, err e)

-- The loop of `next_message` over the frames to come.
pub read_frames : List Frame → Connector → Connector × Result (Option RawMessage)
unfolding on_text websocket_error settle
read_frames [] c = (record c { ws_stream = some []; connection_status = disconnected }, ok none)
read_frames (text_frame now text ∷ frames) c =
    let (after, outcome) = on_text text c in
    settle now text frames (read_frames frames after) after outcome
read_frames (close_frame ∷ frames) c = (
  record c { ws_stream = some frames; connection_status = disconnected; sync_state = unsynced },
  ok none,
)
read_frames (failure_frame e ∷ frames) c =
    (record c { ws_stream = some frames; connection_status = failed }, err (websocket_error e))
read_frames (f ∷ frames) c = read_frames frames c

pub read_stream : Option (List Frame) → Connector → Connector × Result (Option RawMessage)
unfolding read_frames
read_stream none c = (c, err (connection_error (ascii "WebSocket not connected")))
read_stream (some frames) c = read_frames frames c

pub next_message : Connector → Connector × Result (Option RawMessage)
unfolding read_stream
next_message c = read_stream c.ws_stream c
