-- ===== src/Binance.antt =====
-- src/exchanges/binance.rs: the connector of Binance futures. A connection is the list of frames
-- still to come, each text frame with the clock's reading when it arrives; an empty list is a
-- stream that ended. Log lines and the values that messages print are left out.
pub mod Scan
pub mod Session
pub mod Rest
pub mod Processing
pub mod Replay
mod Tests
use rstrader.Base.{
  ℕ, ◌-◌, ◌&&◌, Bool, true, false, Option, none, some, List, [], ◌∷◌, ◌++◌, length, drop, map, ltb,
  if◌then◌else◌,
}
use rstrader.Base.Int.{ℤ, pos, negsuc, ltb_ℤ, leb_ℤ, eqb_ℤ}
use rstrader.Base.Word.{add_i64}
use rstrader.Base.Bytes.{Bytes, ascii}
use rstrader.Errors.{AppError, Result, ok, err, connection_error, stream_error}
use rstrader.Exchange.{ExchangeId, binance_futures}
use rstrader.Types.{
  ConnectionStatus, disconnected, connecting, connected, failed, RawMessage, OrderBookSnapshot,
}
use rstrader.Binance.Scan.{scan_depth_u_fields}

pub record BufferedDepthUpdate : Type 0 where
  pub first_update_id : ℤ
  pub final_update_id : ℤ
  pub prev_final_update_id : ℤ
  pub text : Bytes

pub data SyncState : Type 0 where
  unsynced opening buffering_updates : SyncState
  synchronizing synchronized : ℤ → SyncState
  resynchronizing trade_stream : SyncState

pub data Frame : Type 0 where
  text_frame : ℕ → Bytes → Frame
  close_frame ping_frame pong_frame other_frame : Frame
  failure_frame : Bytes → Frame

pub record Connector : Type 0 where
  pub ws_stream : Option (List Frame)
  pub connection_status : ConnectionStatus
  pub sync_state : SyncState
  pub symbol : Option Bytes
  pub update_buffer : List BufferedDepthUpdate

pub new : Connector
new = record {
  ws_stream = none;
  connection_status = disconnected;
  sync_state = unsynced;
  symbol = none;
  update_buffer = [];
}

abbrev pub max_buffered_updates : ℕ
max_buffered_updates = 50_000

-- `retain` of the updates that end after the snapshot.
pub retain_newer : ℤ → List BufferedDepthUpdate → List BufferedDepthUpdate
retain_newer last [] = []
retain_newer last (u ∷ us) =
    let rest = retain_newer last us in if ltb_ℤ last u.final_update_id then u ∷ rest else rest

-- What follows `retain`, on the updates it kept.
pub reconcile :
    ℤ → List BufferedDepthUpdate → Connector → Connector × Result (List BufferedDepthUpdate)
reconcile last [] c = (record c { update_buffer = [] }, ok [])
reconcile last (u ∷ us) c =
    if leb_ℤ u.first_update_id (add_i64 last (pos 1))
    then if leb_ℤ (add_i64 last (pos 1)) u.final_update_id
      then (record c { update_buffer = [] }, ok (u ∷ us))
      else (record c { update_buffer = u ∷ us }, ok [])
    else (
      record c { update_buffer = u ∷ us; sync_state = resynchronizing },
      err (stream_error (ascii "Gap in order book updates detected")),
    )

pub process_buffered_updates : ℤ → Connector → Connector × Result (List BufferedDepthUpdate)
process_buffered_updates last c = reconcile last (retain_newer last c.update_buffer) c

pub validate_update_sequence_fields : ℤ → ℤ → Result (Unit {0})
validate_update_sequence_fields prev last =
    if eqb_ℤ prev last then ok tt else err (stream_error (ascii "Update sequence mismatch"))

pub initialize_synchronization : OrderBookSnapshot → Connector → Connector
initialize_synchronization snapshot c = record c {
  sync_state = synchronizing snapshot.last_update_id;
}

-- The messages to replay, at the clock's reading.
pub raw_message : ℕ → Bytes → RawMessage
raw_message now text = record { exchange_id = binance_futures; data_bytes = text; timestamp = now }

is_empty : List BufferedDepthUpdate → Bool
is_empty [] = true
is_empty (u ∷ us) = false

pub drain_buffered_as_raw : ℕ → Connector → Connector × List RawMessage
unfolding raw_message
drain_buffered_as_raw now c =
    (record c { update_buffer = [] }, map (λ u. raw_message now u.text) c.update_buffer)

some_if_any : List RawMessage → Option (List RawMessage)
some_if_any [] = none
some_if_any (m ∷ ms) = some (m ∷ ms)

-- The replay once the buffer was reconciled.
pub take_valid :
    ℕ → Connector × Result (List BufferedDepthUpdate) → Connector × Option (List RawMessage)
unfolding drain_buffered_as_raw some_if_any is_empty
take_valid now (c, err e) = (c, none)
take_valid now (c, ok valid) =
    let (after, messages) = drain_buffered_as_raw now c in
    if is_empty valid && is_empty c.update_buffer then (c, none) else (after, some_if_any messages)

pub replay_from : ℕ → SyncState → Connector → Connector × Option (List RawMessage)
unfolding take_valid
replay_from now (synchronizing last) c = take_valid now (process_buffered_updates last c)
replay_from now s c = (c, none)

pub take_l2_replay_messages : ℕ → Connector → Connector × Option (List RawMessage)
unfolding replay_from
take_l2_replay_messages now c = replay_from now c.sync_state c
