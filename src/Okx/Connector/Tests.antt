-- ===== src/Okx/Connector/Tests.antt =====
-- Runs of the connector of OKX.
use rstrader.Base.{◌+◌, ◌≡◌, refl, none, some, List, [], ◌∷◌, ◌++◌}
use rstrader.Base.Bytes.{ascii}
use rstrader.Errors.{ok}
use rstrader.Exchange.{okx_swap}
use rstrader.Types as Types
use rstrader.Binance.{Frame, text_frame, close_frame, ping_frame}
use rstrader.Binance.Session.{stream}
use rstrader.Okx.Connector.{
  connected, subscribed, new_swap, next_message, read_one, connection_status, start_depth_stream,
}
use rstrader.Okx.Connector.Forward.{messages, start_depth_stream-close}

-- A ping gives no message and leaves the state, where a caller that got no message takes the
-- connection for closed.
ping_unread :
    next_message
      (record (new_swap []) { ws_stream = some (ping_frame ∷ []); sync_state = connected })
    ≡ (record (new_swap []) { ws_stream = some []; sync_state = connected }, ok none)
unfolding next_message read_one
ping_unread = refl

abbrev frames : List Frame
frames = text_frame 1 (ascii "a") ∷ ping_frame ∷ text_frame 2 (ascii "b") ∷ []

start_depth_stream-close_example :
    (let (after, sent, r) =
        start_depth_stream (stream (frames ++ close_frame ∷ [])) none (2 + 5) (new_swap []) in
      (sent ≡ messages okx_swap frames)
      × (r ≡ ok tt)
      × (after.ws_stream ≡ some [])
      × (after.sync_state ≡ subscribed)
      × (connection_status after.sync_state ≡ Types.connected))
start_depth_stream-close_example =
    start_depth_stream-close (new_swap []) 5 frames [] (tt, (tt, (tt, tt)))
