-- ===== src/Binance/Tests.antt =====
-- A connector that reads three depth messages, runs of it, and the theorems at it.
use rstrader.Base.{◌≡◌, refl, ◌↔◌, if◌then◌else◌, Option, none, some, List, [], ◌∷◌, arith}
use rstrader.Base.Int.{pos}
use rstrader.Base.Float.{F64, fin}
use rstrader.Base.Bytes.{Bytes, ascii, bytes_eq}
use rstrader.Errors.{ok}
use rstrader.Types.{connected, OrderBookSnapshot}
use rstrader.Exchange.{binance_futures}
use rstrader.XMarketId.{make}
use rstrader.Binance.{
  SyncState, synchronizing, synchronized, text_frame, ping_frame, close_frame, Connector,
  BufferedDepthUpdate, process_buffered_updates, new, take_l2_replay_messages,
}
use rstrader.Binance.Session.{stream, next_message}
use rstrader.Binance.Session.Bounds.{
  IsBounded, call_connect, call_subscribe_l2, call_next, call_take, run, run-IsBounded,
}
use rstrader.Binance.Session.Chain.{
  Reads, Continues, Starts, next_message-Continues, next_message-Starts,
}
use rstrader.Binance.Rest.{Response, depth, get_snapshot}
use rstrader.Binance.Rest.Parsed.{IsSnapshotOf, get_snapshot_iff}
use rstrader.Binance.Replay.{
  Selects, Reconciled, process_buffered_updates-Reconciled, take_l2_replay_messages-none,
}

abbrev message : Bytes
message = ascii "{\"U\":5, \"u\": 7, \"pu\":4}"

abbrev synced : SyncState → Connector
synced s = record {
  ws_stream = some (ping_frame ∷ text_frame 1 message ∷ close_frame ∷ []);
  connection_status = connected;
  sync_state = s;
  symbol = none;
  update_buffer =
      record {
        first_update_id = pos 3;
        final_update_id = pos 6;
        prev_final_update_id = pos 2;
        text = ascii "x";
      }
      ∷ [];
}

next_message-Continues_example :
    Reads
      (synchronized (pos 4))
      (Continues (pos 4))
      (synced (synchronized (pos 4))).ws_stream
      (next_message (synced (synchronized (pos 4))))
next_message-Continues_example = next_message-Continues (pos 4) (synced (synchronized (pos 4))) refl

next_message-Starts_runs :
    Reads
      (synchronizing (pos 5))
      (Starts (pos 5))
      (synced (synchronizing (pos 5))).ws_stream
      (next_message (synced (synchronizing (pos 5))))
next_message-Starts_runs = next_message-Starts (pos 5) (synced (synchronizing (pos 5))) refl

process_buffered_updates-Reconciled_example :
    (kept : List BufferedDepthUpdate) × Selects
      (pos 5)
      (synced (synchronizing (pos 5))).update_buffer
      kept
    × Reconciled (pos 5) kept (process_buffered_updates (pos 5) (synced (synchronizing (pos 5))))
process_buffered_updates-Reconciled_example =
    process_buffered_updates-Reconciled (pos 5) (synced (synchronizing (pos 5))) (ground arith)
      (ground arith)

take_l2_replay_messages-none_example :
    (take_l2_replay_messages 9 (synced (synchronizing (pos 5)))).1 ≡ none
take_l2_replay_messages-none_example =
    take_l2_replay_messages-none 9 (synced (synchronizing (pos 5))) (ground arith) (ground arith)

run-IsBounded_example : IsBounded (
    run
      (call_connect
        ∷ call_subscribe_l2 (ascii "btcusdt") (stream (text_frame 1 message ∷ []))
        ∷ call_next
        ∷ call_take 2
        ∷ [])
      new)
run-IsBounded_example = run-IsBounded (
    call_connect
    ∷ call_subscribe_l2 (ascii "btcusdt") (stream (text_frame 1 message ∷ []))
    ∷ call_next
    ∷ call_take 2
    ∷ [])

parse : Bytes → Option F64
parse t = if bytes_eq t (ascii "1.5") then some (fin (pos 3)) else none

abbrev response : Response
response =
    depth (record { last_update_id = pos 8; bids = (ascii "1.5", ascii "1.5") ∷ []; asks = [] })

abbrev got : OrderBookSnapshot
got = record {
  market_id = make (λ _. 5) binance_futures (ascii "ETH");
  last_update_id = pos 8;
  timestamp = pos 77;
  sequence = pos 8;
  bids = record { price = fin (pos 3); qty = fin (pos 3) } ∷ [];
  asks = [];
}

get_snapshot_iff_example :
    (get_snapshot parse (λ _. 5) (ascii "ETH") (pos 77) response ≡ ok got)
    ↔ IsSnapshotOf parse (λ _. 5) (ascii "ETH") (pos 77) response got
get_snapshot_iff_example = get_snapshot_iff parse (λ _. 5) (ascii "ETH") (pos 77) response got
