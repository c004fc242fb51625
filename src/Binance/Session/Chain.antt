-- ===== src/Binance/Session/Chain.antt =====
-- The chain of update ids that reading messages checks.
use rstrader.Base.{
  ℕ, ◌≡◌, refl, Bool, true, false, if◌then◌else◌, Option, none, some, List, [], ◌∷◌, arith,
}
use rstrader.Base.Int.{ℤ, ◌<ℤ◌, eqb_ℤ_iff}
use rstrader.Base.Bytes.{Bytes}
use rstrader.Errors.{Result, ok, err}
use rstrader.Types.{RawMessage}
use rstrader.Binance.{
  SyncState, unsynced, synchronizing, synchronized, Frame, text_frame, close_frame, ping_frame,
  pong_frame, other_frame, failure_frame, Connector, validate_update_sequence_fields, raw_message,
}
use rstrader.Binance.Scan.{scan_depth_u_fields}
use rstrader.Binance.Session.{
  Outcome, read_on, hand_out, reject, on_first, on_next, on_depth, on_scanned, on_text, settle,
  read_frames, read_stream, next_message,
}

-- A closing frame is among those to come.
abbrev pub has_close : List Frame → Bool
has_close [] = false
has_close (close_frame ∷ frames) = true
has_close (f ∷ frames) = has_close frames

-- The state that the end of these frames leaves.
abbrev pub at_end : SyncState → List Frame → SyncState
at_end start frames = if has_close frames then unsynced else start

-- What a call that started in the state `start` on these frames gives: a message as `After` says
-- of its ids and the new state; without one they ended, and with an error the state is as before.
abbrev pub ReadsFrom :
    SyncState
    → (Option (ℤ × ℤ × ℤ) → SyncState → Type 0)
    → List Frame
    → Connector × Result (Option RawMessage)
    → Type 0
ReadsFrom start After frames (c, ok (some m)) =
    After (scan_depth_u_fields m.data_bytes) c.sync_state
ReadsFrom start After frames (c, ok none) = c.sync_state ≡ at_end start frames
ReadsFrom start After frames (c, err e) = c.sync_state ≡ start

abbrev pub Reads :
    SyncState
    → (Option (ℤ × ℤ × ℤ) → SyncState → Type 0)
    → Option (List Frame)
    → Connector × Result (Option RawMessage)
    → Type 0
Reads start After none out = ReadsFrom start After [] out
Reads start After (some frames) out = ReadsFrom start After frames out

-- The same of one text.
abbrev Told :
    SyncState
    → (Option (ℤ × ℤ × ℤ) → SyncState → Type 0)
    → Option (ℤ × ℤ × ℤ)
    → Connector × Outcome
    → Type 0
Told start After ids (c, read_on) = c.sync_state ≡ start
Told start After ids (c, hand_out) = After ids c.sync_state
Told start After ids (c, reject e) = c.sync_state ≡ start

module _ (start : SyncState) (After : Option (ℤ × ℤ × ℤ) → SyncState → Type 0) where
  settle-Reads :
      (now : ℕ) (text : Bytes) (frames : List Frame)
      (later : Connector × Result (Option RawMessage)) (c : Connector) (o : Outcome)
      → (c.sync_state ≡ start → ReadsFrom start After frames later)
      → Told start After (scan_depth_u_fields text) (c, o)
      → ReadsFrom start After frames (settle now text frames later c o)
  unfolding settle raw_message
  settle-Reads now text frames later c read_on ih told = ih told
  settle-Reads now text frames later c (reject e) ih told = told
  settle-Reads now text frames later c hand_out ih told = told

  module _
      (told : (text : Bytes) (c : Connector)
        → c.sync_state ≡ start
        → Told start After (scan_depth_u_fields text) (on_text text c)) where
    read_frames-Reads :
        (frames : List Frame) (c : Connector)
        → c.sync_state ≡ start
        → ReadsFrom start After frames (read_frames frames c)
    unfolding read_frames
    read_frames-Reads [] c h = h
    read_frames-Reads (text_frame now text ∷ frames) c h =
        settle-Reads now text frames (read_frames frames (on_text text c).0) (on_text text c).0
          (on_text text c).1 (λ k. read_frames-Reads frames (on_text text c).0 k) (told text c h)
    read_frames-Reads (close_frame ∷ frames) c h = refl
    read_frames-Reads (ping_frame ∷ frames) c h = read_frames-Reads frames c h
    read_frames-Reads (pong_frame ∷ frames) c h = read_frames-Reads frames c h
    read_frames-Reads (other_frame ∷ frames) c h = read_frames-Reads frames c h
    read_frames-Reads (failure_frame e ∷ frames) c h = h

    read_stream-Reads :
        (s : Option (List Frame)) (c : Connector)
        → c.sync_state ≡ start
        → Reads start After s (read_stream s c)
    unfolding read_stream
    read_stream-Reads none c h = h
    read_stream-Reads (some frames) c h = read_frames-Reads frames c h

-- Synchronized at an id: a depth message names it as its predecessor and moves it.
abbrev pub Continues : ℤ → Option (ℤ × ℤ × ℤ) → SyncState → Type 0
Continues last none s = s ≡ synchronized last
Continues last (some (first_id, final_id, prev_id)) s =
    (prev_id ≡ last) × (s ≡ synchronized final_id)

-- Synchronizing with a snapshot: a depth message ends after it and is taken as the first.
abbrev pub Starts : ℤ → Option (ℤ × ℤ × ℤ) → SyncState → Type 0
Starts last none s = s ≡ synchronizing last
Starts last (some (first_id, final_id, prev_id)) s =
    (last <ℤ final_id) × (s ≡ synchronized final_id)

on_scanned-Continues :
    (last : ℤ) (ids : Option (ℤ × ℤ × ℤ)) (text : Bytes) (c : Connector)
    → c.sync_state ≡ synchronized last
    → Told (synchronized last) (Continues last) ids (on_scanned ids text c)
unfolding on_scanned on_depth on_next validate_update_sequence_fields
on_scanned-Continues last none text c h = h
on_scanned-Continues last (some (f, u, p)) text c h = ground (arith, eqb_ℤ_iff p last, h)

on_text-Continues :
    (last : ℤ) (text : Bytes) (c : Connector)
    → c.sync_state ≡ synchronized last
    → Told (synchronized last) (Continues last) (scan_depth_u_fields text) (on_text text c)
unfolding on_text
on_text-Continues last text c h =
    ground (arith, h, on_scanned-Continues last (scan_depth_u_fields text) text c h)

on_scanned-Starts :
    (last : ℤ) (ids : Option (ℤ × ℤ × ℤ)) (text : Bytes) (c : Connector)
    → c.sync_state ≡ synchronizing last
    → Told (synchronizing last) (Starts last) ids (on_scanned ids text c)
unfolding on_scanned on_depth on_first
on_scanned-Starts last none text c h = h
on_scanned-Starts last (some (f, u, p)) text c h = ground (arith, h)

on_text-Starts :
    (last : ℤ) (text : Bytes) (c : Connector)
    → c.sync_state ≡ synchronizing last
    → Told (synchronizing last) (Starts last) (scan_depth_u_fields text) (on_text text c)
unfolding on_text
on_text-Starts last text c h =
    ground (arith, h, on_scanned-Starts last (scan_depth_u_fields text) text c h)

-- Reading from a synchronized connector: a depth message is handed out only if it names the last
-- update id as its predecessor, and the last id moves to the message's own. Any other message and
-- an error leave the last id. A call that gives no message ends the synchronisation where a closing
-- frame is among the frames to come, and leaves the last id where none is.
pub next_message-Continues :
    (last : ℤ) (c : Connector)
    → c.sync_state ≡ synchronized last
    → Reads (synchronized last) (Continues last) c.ws_stream (next_message c)
unfolding next_message
next_message-Continues last c h =
    read_stream-Reads (synchronized last) (Continues last) (on_text-Continues last) c.ws_stream c h

-- Reading from a connector that synchronizes with a snapshot: the first depth message handed out
-- ends after the snapshot, and makes the connector synchronized at its final id. Any other message
-- leaves the state, and so does an error. A call that gives no message ends the synchronisation
-- where a closing frame is among the frames to come, and leaves the state where none is.
pub next_message-Starts :
    (last : ℤ) (c : Connector)
    → c.sync_state ≡ synchronizing last
    → Reads (synchronizing last) (Starts last) c.ws_stream (next_message c)
unfolding next_message
next_message-Starts last c h =
    read_stream-Reads (synchronizing last) (Starts last) (on_text-Starts last) c.ws_stream c h
