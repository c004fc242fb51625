-- ===== src/Binance/Session/Bounds.antt =====
-- The buffer of the connector never outgrows its limit.
use rstrader.Base.{ℕ, ◌-◌, ◌≤◌, Option, none, some, List, [], ◌∷◌, ◌++◌, length, length-drop, arith}
use rstrader.Base.Int.{ℤ}
use rstrader.Base.Bytes.{Bytes}
use rstrader.Errors.{Result, ok, err}
use rstrader.Types.{OrderBookSnapshot}
use rstrader.Binance.{
  BufferedDepthUpdate, SyncState, unsynced, opening, buffering_updates, synchronizing, synchronized,
  resynchronizing, trade_stream, Frame, text_frame, close_frame, ping_frame, pong_frame,
  other_frame, failure_frame, Connector, max_buffered_updates, retain_newer, reconcile,
  process_buffered_updates, take_valid, drain_buffered_as_raw, replay_from, take_l2_replay_messages,
  initialize_synchronization, new,
}
use rstrader.Binance.Scan.{scan_depth_u_fields}
use rstrader.Binance.Session.{
  push_capped, on_first, on_next, on_depth, on_scanned, on_text, read_frames, read_stream,
  next_message, Opened, refused, stream, connect, disconnect, subscribe_l2, subscribe_trades,
}

abbrev pub IsBounded : Connector → Type 0
IsBounded c = length c.update_buffer ≤ max_buffered_updates

push_capped-length :
    (u : BufferedDepthUpdate) (b : List BufferedDepthUpdate)
    → length (push_capped u b) ≤ max_buffered_updates
unfolding push_capped
push_capped-length u b =
    ground (arith, length-drop (length (b ++ u ∷ []) - max_buffered_updates) (b ++ u ∷ []))

on_depth-IsBounded :
    (s : SyncState) (ids : ℤ × ℤ × ℤ) (text : Bytes) (c : Connector)
    → IsBounded c
    → IsBounded (on_depth s ids text c).0
unfolding on_depth on_first on_next
on_depth-IsBounded buffering_updates (f, u, p) text c h =
    push_capped-length
      (record { first_update_id = f; final_update_id = u; prev_final_update_id = p; text = text })
      c.update_buffer
on_depth-IsBounded (synchronizing last) (f, u, p) text c h = ground arith
on_depth-IsBounded (synchronized last) (f, u, p) text c h = ground arith
on_depth-IsBounded unsynced (f, u, p) text c h = h
on_depth-IsBounded opening (f, u, p) text c h = h
on_depth-IsBounded resynchronizing (f, u, p) text c h = h
on_depth-IsBounded trade_stream (f, u, p) text c h = h

on_scanned-IsBounded :
    (ids : Option (ℤ × ℤ × ℤ)) (text : Bytes) (c : Connector)
    → IsBounded c
    → IsBounded (on_scanned ids text c).0
unfolding on_scanned
on_scanned-IsBounded none text c h = h
on_scanned-IsBounded (some ids) text c h = on_depth-IsBounded c.sync_state ids text c h

on_text-IsBounded : (text : Bytes) (c : Connector) → IsBounded c → IsBounded (on_text text c).0
unfolding on_text
on_text-IsBounded text c h =
    ground (arith, on_scanned-IsBounded (scan_depth_u_fields text) text c h, h)

read_frames-IsBounded :
    (frames : List Frame) (c : Connector) → IsBounded c → IsBounded (read_frames frames c).0
unfolding read_frames
read_frames-IsBounded [] c h = h
read_frames-IsBounded (text_frame now text ∷ frames) c h =
    let held = on_text-IsBounded text c h in
    ground (arith, read_frames-IsBounded frames (on_text text c).0 held, held)
read_frames-IsBounded (close_frame ∷ frames) c h = h
read_frames-IsBounded (ping_frame ∷ frames) c h = read_frames-IsBounded frames c h
read_frames-IsBounded (pong_frame ∷ frames) c h = read_frames-IsBounded frames c h
read_frames-IsBounded (other_frame ∷ frames) c h = read_frames-IsBounded frames c h
read_frames-IsBounded (failure_frame e ∷ frames) c h = h

read_stream-IsBounded :
    (s : Option (List Frame)) (c : Connector) → IsBounded c → IsBounded (read_stream s c).0
unfolding read_stream
read_stream-IsBounded none c h = h
read_stream-IsBounded (some frames) c h = read_frames-IsBounded frames c h

next_message-IsBounded : (c : Connector) → IsBounded c → IsBounded (next_message c).0
unfolding next_message
next_message-IsBounded c h = read_stream-IsBounded c.ws_stream c h

-- The calls on a connector.
pub data Call : Type 0 where
  call_connect call_next call_disconnect : Call
  call_subscribe_l2 call_subscribe_trades : Bytes → Opened → Call
  call_prepare : OrderBookSnapshot → Call
  call_take : ℕ → Call

step : Call → Connector → Connector
step call_connect c = connect c
step call_next c = (next_message c).0
step call_disconnect c = disconnect c
step (call_subscribe_l2 symbol o) c = (subscribe_l2 symbol o c).0
step (call_subscribe_trades symbol o) c = (subscribe_trades symbol o c).0
step (call_prepare snapshot) c = initialize_synchronization snapshot c
step (call_take now) c = (take_l2_replay_messages now c).0

pub run : List Call → Connector → Connector
unfolding step
run [] c = c
run (call ∷ calls) c = run calls (step call c)

subscribe_l2-IsBounded :
    (symbol : Bytes) (o : Opened) (c : Connector)
    → IsBounded c
    → IsBounded (subscribe_l2 symbol o c).0
unfolding subscribe_l2
subscribe_l2-IsBounded symbol (refused e) c h = h
subscribe_l2-IsBounded symbol (stream frames) c h = h

subscribe_trades-IsBounded :
    (symbol : Bytes) (o : Opened) (c : Connector)
    → IsBounded c
    → IsBounded (subscribe_trades symbol o c).0
unfolding subscribe_trades
subscribe_trades-IsBounded symbol (refused e) c h = h
subscribe_trades-IsBounded symbol (stream frames) c h = h

retain_newer-length :
    (last : ℤ) (us : List BufferedDepthUpdate) → length (retain_newer last us) ≤ length us
unfolding retain_newer
retain_newer-length last [] = omega arith
retain_newer-length last (u ∷ us) = ground (arith, retain_newer-length last us)

reconcile-IsBounded :
    (last : ℤ) (kept : List BufferedDepthUpdate) (c : Connector)
    → length kept ≤ max_buffered_updates
    → IsBounded (reconcile last kept c).0
unfolding reconcile
reconcile-IsBounded last [] c h = omega arith
reconcile-IsBounded last (u ∷ us) c h = ground (arith, h)

take_valid-IsBounded :
    (now : ℕ) (c : Connector) (r : Result (List BufferedDepthUpdate))
    → IsBounded c
    → IsBounded (take_valid now (c, r)).0
unfolding take_valid drain_buffered_as_raw
take_valid-IsBounded now c (ok valid) h = ground (arith, h)
take_valid-IsBounded now c (err e) h = h

replay_from-IsBounded :
    (now : ℕ) (s : SyncState) (c : Connector) → IsBounded c → IsBounded (replay_from now s c).0
unfolding replay_from process_buffered_updates
replay_from-IsBounded now (synchronizing last) c h =
    let r = reconcile last (retain_newer last c.update_buffer) c in
    take_valid-IsBounded now r.0 r.1 (
      reconcile-IsBounded last (retain_newer last c.update_buffer) c
        (ground (arith, retain_newer-length last c.update_buffer, h)))
replay_from-IsBounded now unsynced c h = h
replay_from-IsBounded now opening c h = h
replay_from-IsBounded now buffering_updates c h = h
replay_from-IsBounded now (synchronized last) c h = h
replay_from-IsBounded now resynchronizing c h = h
replay_from-IsBounded now trade_stream c h = h

step-IsBounded : (call : Call) (c : Connector) → IsBounded c → IsBounded (step call c)
unfolding step connect disconnect initialize_synchronization take_l2_replay_messages
step-IsBounded call_connect c h = h
step-IsBounded call_next c h = next_message-IsBounded c h
step-IsBounded call_disconnect c h = h
step-IsBounded (call_subscribe_l2 symbol o) c h = subscribe_l2-IsBounded symbol o c h
step-IsBounded (call_subscribe_trades symbol o) c h = subscribe_trades-IsBounded symbol o c h
step-IsBounded (call_prepare snapshot) c h = h
step-IsBounded (call_take now) c h = replay_from-IsBounded now c.sync_state c h

run_from-IsBounded : (calls : List Call) (c : Connector) → IsBounded c → IsBounded (run calls c)
unfolding run
run_from-IsBounded [] c h = h
run_from-IsBounded (call ∷ calls) c h =
    run_from-IsBounded calls (step call c) (step-IsBounded call c h)

-- Whatever calls are made on a new connector, in any order and with any frames arriving, at most
-- 50,000 updates are ever in its buffer.
pub run-IsBounded : (calls : List Call) → IsBounded (run calls new)
unfolding new
run-IsBounded calls = run_from-IsBounded calls new (omega arith)
