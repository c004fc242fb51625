-- ===== src/Okx/Connector/Forward.antt =====
-- What the streams of src/exchanges/okx.rs hand on.
use Prim.Native.Nat.add
use rstrader.Base.{ℕ, suc, ◌+◌, ◌≡◌, refl, none, some, List, [], ◌∷◌, ◌++◌, All}
use rstrader.Errors.{ok}
use rstrader.Exchange.{ExchangeId}
use rstrader.Types.{RawMessage}
use rstrader.Types as Types
use rstrader.Binance.{
  Frame, text_frame, close_frame, ping_frame, pong_frame, other_frame, failure_frame,
}
use rstrader.Binance.Session.{stream}
use rstrader.Okx.Connector.{
  OkxConnector, subscribed, raw_message, connect, subscribe, subscribe_l2, forward, forward_from,
  after_step, start_depth_stream, connection_status,
}

-- Frames after which the loop goes on.
abbrev pub IsOpen : Frame → Type 0
IsOpen close_frame = ⊥
IsOpen (failure_frame e) = ⊥
IsOpen f = Unit

-- The texts among some frames, as messages.
abbrev pub messages : ExchangeId → List Frame → List RawMessage
messages exchange [] = []
messages exchange (text_frame now text ∷ fs) = raw_message exchange now text ∷ messages exchange fs
messages exchange (f ∷ fs) = messages exchange fs

abbrev pub count_texts : List Frame → ℕ
count_texts [] = 0
count_texts (text_frame now text ∷ fs) = suc (count_texts fs)
count_texts (f ∷ fs) = count_texts fs

forward-close :
    (exchange : ExchangeId) (room : ℕ) (fs later : List Frame)
    → All IsOpen fs
    → forward exchange (count_texts fs + room) (fs ++ close_frame ∷ later)
      ≡ (messages exchange fs, later, ok tt)
unfolding forward
forward-close exchange room [] later h = refl
forward-close exchange room (text_frame now text ∷ fs) later (h, k) =
    rw (add.suc, forward-close exchange room fs later k) refl
forward-close exchange room (close_frame ∷ fs) later (h, k) = absurd h
forward-close exchange room (failure_frame e ∷ fs) later (h, k) = absurd h
forward-close exchange room (ping_frame ∷ fs) later (h, k) = forward-close exchange room fs later k
forward-close exchange room (pong_frame ∷ fs) later (h, k) = forward-close exchange room fs later k
forward-close exchange room (other_frame ∷ fs) later (h, k) = forward-close exchange room fs later k

-- A depth stream whose receiver takes every message, up to the frame that closes it: all texts
-- before it are handed on in order, without an error, and the connector stays subscribed, so that
-- its status is still `Connected`.
pub start_depth_stream-close :
    (c : OkxConnector) (room : ℕ) (fs later : List Frame)
    → All IsOpen fs
    → (let (after, sent, r) =
          start_depth_stream (stream (fs ++ close_frame ∷ later)) none (count_texts fs + room) c in
        (sent ≡ messages c.exchange_id fs)
        × (r ≡ ok tt)
        × (after.ws_stream ≡ some later)
        × (after.sync_state ≡ subscribed)
        × (connection_status after.sync_state ≡ Types.connected))
unfolding start_depth_stream connect subscribe_l2 subscribe forward_from after_step
    connection_status
start_depth_stream-close c room fs later h =
    rw (forward-close c.exchange_id room fs later h) (refl, refl, refl, refl, refl)
