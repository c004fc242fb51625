-- ===== src/Binance/Replay.antt =====
-- What becomes of the updates buffered before the snapshot.
use rstrader.Base.{
  if◌then◌else◌, if_split, ℕ, ◌≡◌, refl, true, false, none, List, [], ◌∷◌, All, arith,
}
use rstrader.Base.Int.{ℤ, ltb_ℤ, pos, ◌<ℤ◌, ◌≤ℤ◌, ◌+ℤ◌, +ℤ_parts}
use rstrader.Base.Word.{IsI64, add_i64, add_i64_exact}
use rstrader.Errors.{Result, ok, err}
use rstrader.Binance.{
  BufferedDepthUpdate, SyncState, unsynced, opening, buffering_updates, synchronizing, synchronized,
  resynchronizing, trade_stream, Connector, retain_newer, reconcile, process_buffered_updates,
  take_valid, drain_buffered_as_raw, replay_from, take_l2_replay_messages,
}

-- The final id is an i64.
abbrev pub IsIdI64 : BufferedDepthUpdate → Type 0
IsIdI64 u = IsI64 u.final_update_id

abbrev pub IsNewer : ℤ → BufferedDepthUpdate → Type 0
IsNewer last u = (last <ℤ u.final_update_id) × IsI64 u.final_update_id

retain_newer-IsNewer :
    (last : ℤ) (us : List BufferedDepthUpdate)
    → All IsIdI64 us
    → All (IsNewer last) (retain_newer last us)
unfolding retain_newer
retain_newer-IsNewer last [] h = tt
retain_newer-IsNewer last (u ∷ us) (i, h) = ground (arith, retain_newer-IsNewer last us h)

-- The bounds of i64 leave room for one more than an id before another.
next_exact :
    (last id : ℤ) → IsI64 last → last <ℤ id → IsI64 id → add_i64 last (pos 1) ≡ last +ℤ pos 1
next_exact last id l h i = add_i64_exact last (pos 1) (ground (arith, +ℤ_parts last (pos 1)))

next-≤ : (last id : ℤ) → IsI64 last → last <ℤ id → IsI64 id → add_i64 last (pos 1) ≤ℤ id
next-≤ last id l h i = ground (arith, next_exact last id l h i, +ℤ_parts last (pos 1))

-- The outcome for the updates kept: all of them, in order, where the first covers the id after the
-- snapshot; or an error and a gap in front of them.
abbrev pub Covered : ℤ → List BufferedDepthUpdate → Type 0
Covered last [] = Unit
Covered last (u ∷ us) =
    (u.first_update_id ≤ℤ add_i64 last (pos 1)) × (add_i64 last (pos 1) ≤ℤ u.final_update_id)

abbrev pub Gap : ℤ → List BufferedDepthUpdate → Type 0
Gap last [] = true ≡ false
Gap last (u ∷ us) = add_i64 last (pos 1) <ℤ u.first_update_id

-- The second list is what the first has that ends after the id, in its order.
pub data Selects (last : ℤ) : List BufferedDepthUpdate → List BufferedDepthUpdate → Type 0 where
  none_left : Selects last [] []
  selected :
      {us kept : List BufferedDepthUpdate} (u : BufferedDepthUpdate)
      → last <ℤ u.final_update_id
      → Selects last us kept
      → Selects last (u ∷ us) (u ∷ kept)
  passed_over :
      {us kept : List BufferedDepthUpdate} (u : BufferedDepthUpdate)
      → u.final_update_id ≤ℤ last
      → Selects last us kept
      → Selects last (u ∷ us) kept

select_one :
    (last : ℤ) (u : BufferedDepthUpdate) (us kept : List BufferedDepthUpdate)
    → Selects last us kept
    → Selects last (u ∷ us) (if ltb_ℤ last u.final_update_id then u ∷ kept else kept)
select_one last u us kept h =
    if_split (Selects last (u ∷ us)) (ltb_ℤ last u.final_update_id)
      (λ e. selected u (ground (arith, e)) h) (λ e. passed_over u (ground (arith, e)) h)

retain_newer-Selects :
    (last : ℤ) (us : List BufferedDepthUpdate) → Selects last us (retain_newer last us)
unfolding retain_newer
retain_newer-Selects last [] = none_left
retain_newer-Selects last (u ∷ us) =
    select_one last u us (retain_newer last us) (retain_newer-Selects last us)

abbrev pub Reconciled :
    ℤ → List BufferedDepthUpdate → Connector × Result (List BufferedDepthUpdate) → Type 0
Reconciled last kept (c, ok valid) = (valid ≡ kept) × (c.update_buffer ≡ []) × Covered last kept
Reconciled last kept (c, err e) =
    (c.update_buffer ≡ kept) × (c.sync_state ≡ resynchronizing) × Gap last kept

reconcile-Reconciled :
    (last : ℤ) (kept : List BufferedDepthUpdate) (c : Connector)
    → IsI64 last
    → All (IsNewer last) kept
    → Reconciled last kept (reconcile last kept c)
unfolding reconcile
reconcile-Reconciled last [] c l a = (refl, refl, tt)
reconcile-Reconciled last (u ∷ us) c l ((n, i), a) =
    ground (arith, next-≤ last u.final_update_id l n i)

buffer-Reconciled :
    (last : ℤ) (c : Connector)
    → IsI64 last
    → All IsIdI64 c.update_buffer
    → Reconciled last (retain_newer last c.update_buffer) (process_buffered_updates last c)
unfolding process_buffered_updates
buffer-Reconciled last c l h =
    reconcile-Reconciled last (retain_newer last c.update_buffer) c l
      (retain_newer-IsNewer last c.update_buffer h)

-- Reconciling the buffer with a snapshot keeps exactly the updates of the buffer that end after the
-- snapshot, in their order. It gives them and empties the buffer, where there are none or the first
-- covers the id after the snapshot; or that id lies in front of the first, they stay in the buffer,
-- and with an error the connector must synchronise again. All ids are i64.
pub process_buffered_updates-Reconciled :
    (last : ℤ) (c : Connector)
    → IsI64 last
    → All IsIdI64 c.update_buffer
    → (kept : List BufferedDepthUpdate) × Selects last c.update_buffer kept
      × Reconciled last kept (process_buffered_updates last c)
process_buffered_updates-Reconciled last c l h = (
  retain_newer last c.update_buffer,
  retain_newer-Selects last c.update_buffer,
  buffer-Reconciled last c l h,
)

take_valid-none :
    (now : ℕ) (last : ℤ) (kept : List BufferedDepthUpdate)
    (r : Connector × Result (List BufferedDepthUpdate))
    → Reconciled last kept r
    → (take_valid now r).1 ≡ none
unfolding take_valid drain_buffered_as_raw
take_valid-none now last kept (c, err e) h = refl
take_valid-none now last kept (c, ok valid) (v, b, w) = ground (arith, b)

-- A snapshot's id is an i64.
abbrev pub IsSnapshotI64 : SyncState → Type 0
IsSnapshotI64 (synchronizing last) = IsI64 last
IsSnapshotI64 _ = Unit

replay_from-none :
    (now : ℕ) (s : SyncState) (c : Connector)
    → IsSnapshotI64 s
    → All IsIdI64 c.update_buffer
    → (replay_from now s c).1 ≡ none
unfolding replay_from
replay_from-none now (synchronizing last) c l h =
    take_valid-none now last (retain_newer last c.update_buffer) (process_buffered_updates last c)
      (buffer-Reconciled last c l h)
replay_from-none now unsynced c l h = refl
replay_from-none now opening c l h = refl
replay_from-none now buffering_updates c l h = refl
replay_from-none now (synchronized last) c l h = refl
replay_from-none now resynchronizing c l h = refl
replay_from-none now trade_stream c l h = refl

-- The replay never hands a message out, whatever was buffered: the updates that
-- `process_buffered_updates` drains from the buffer are dropped, and only an empty buffer is
-- encoded. All ids are i64.
pub take_l2_replay_messages-none :
    (now : ℕ) (c : Connector)
    → IsSnapshotI64 c.sync_state
    → All IsIdI64 c.update_buffer
    → (take_l2_replay_messages now c).1 ≡ none
unfolding take_l2_replay_messages
take_l2_replay_messages-none now c l h = replay_from-none now c.sync_state c l h
