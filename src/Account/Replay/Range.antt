-- ===== src/Account/Replay/Range.antt =====
-- Which executions the replay and the live stream apply.
use rstrader.Base.{
  inl, inr, ◌++◌, ◌^◌, ◌-◌, ◌≡◌, sym, ◌↔◌, Option, none, some, List, [], ◌∷◌, All, arith,
}
use mathlib.Core.Path.{subst}
use rstrader.Base.Options.{◌>>=◌}
use rstrader.Base.Int.{ℤ, pos, negsuc, -ℤ_parts, ◌≤ℤ◌, ◌<ℤ◌}
use rstrader.Base.Float.{F64, Rounded}
use rstrader.Base.Sort.{Mem, sort-Mem, Sorted}
use rstrader.Oms.{XExecution}
use rstrader.Position.{Position}
use rstrader.Account.{
  le_stored, le_replay, InMemoryExecutionsDatastore, upsert, upsert_all, newer_than, load_range,
  last_of, stable_sort_executions,
}
use rstrader.Account.Store.{
  IsOrdered, upsert-IsOrdered, newer_than-Mem, IsLatest, last_of-IsLatest, stable_sort-load_range,
  newer_than-Sorted,
}
use rstrader.Account.Replay.{
  MarketState, before_epoch, backfill, replayed, drop_applied, restart_point, apply_executions,
  with_position, start_market, last_time, ensure_position, taken_online,
}

epoch_bound :
    (start t : ℤ) → negsuc (2 ^ 63 - 1) <ℤ start → (before_epoch start <ℤ t) ↔ (start ≤ℤ t)
unfolding before_epoch
epoch_bound start t h = ground (arith, -ℤ_parts start (pos 1), h)

upsert_all-IsOrdered :
    (es : List XExecution) (s : InMemoryExecutionsDatastore)
    → IsOrdered s
    → IsOrdered (upsert_all es s)
unfolding upsert_all
upsert_all-IsOrdered [] s h = h
upsert_all-IsOrdered (e ∷ es) s h = upsert_all-IsOrdered es (upsert e s) (upsert-IsOrdered e s h)

-- In order of time.
abbrev pub IsInTime : List XExecution → Type 0
IsInTime [] = Unit
IsInTime (e ∷ es) = All (λ f. e.timestamp ≤ℤ f.timestamp) es × IsInTime es

later-All :
    (last : ℤ) (e : XExecution) (es : List XExecution)
    → last <ℤ e.timestamp
    → All (λ f. e.timestamp ≤ℤ f.timestamp) es
    → All (λ f. last <ℤ f.timestamp) es
later-All last e [] h a = tt
later-All last e (f ∷ es) h (b, a) = (ground (arith, h, b), later-All last e es h a)

drop_applied-later :
    (last : ℤ) (es : List XExecution)
    → IsInTime es
    → All (λ e. last <ℤ e.timestamp) (drop_applied last es)
unfolding drop_applied
drop_applied-later last [] t = tt
drop_applied-later last (e ∷ es) (a, t) =
    ground (arith, later-All last e es, drop_applied-later last es t, a)

-- The replay of a market takes exactly the executions stored of the account and the market at the
-- epoch or later. The epoch is not the least i64.
pub replayed-Mem :
    (x : XExecution) (account market start : ℤ) (s : MarketState)
    → negsuc (2 ^ 63 - 1) <ℤ start
    → Mem x (replayed account market start s)
      ↔ (Mem x (s.store.data_of account market) × (start ≤ℤ x.timestamp))
unfolding replayed stable_sort_executions load_range
replayed-Mem x a m start s h = ground (
  arith,
  sort-Mem le_replay x (newer_than (before_epoch start) (s.store.data_of a m)),
  newer_than-Mem x (before_epoch start) (s.store.data_of a m),
  epoch_bound start x.timestamp h,
)

latest_bound_of :
    (start : ℤ) (es : List XExecution) (o : Option XExecution)
    → IsLatest es (o >>= (λ e. some e.timestamp))
    → All (λ e. e.timestamp ≤ℤ (elim o [ none ↦ start | some e ↦ e.timestamp ])) es
latest_bound_of start [] none h = tt
latest_bound_of start (e ∷ es) none h = cc
latest_bound_of start es (some e) h = h.1

latest_bound :
    (start : ℤ) (es : List XExecution)
    → Sorted le_stored es
    → All (λ e. e.timestamp ≤ℤ last_time start es) es
latest_bound start es h = latest_bound_of start es (last_of es) (last_of-IsLatest es h)

replayed_bound :
    (account market start : ℤ) (s : MarketState)
    → IsOrdered s.store
    → All
        (λ e. e.timestamp ≤ℤ last_time start (replayed account market start s))
        (replayed account market start s)
unfolding replayed load_range
replayed_bound a m start s h =
    let stored = newer_than (before_epoch start) (s.store.data_of a m) in
    subst (λ es. All (λ e. e.timestamp ≤ℤ last_time start es) es)
      (sym (stable_sort-load_range s.store a m (before_epoch start) h))
      (latest_bound start stored
        (newer_than-Sorted (before_epoch start) (s.store.data_of a m) (h a m)))

started :
    (r : Rounded) (fee size : F64) (o : Option (Option Position)) (filled s' : MarketState)
    (t last : ℤ)
    → ◌>>=◌ {B = MarketState × ℤ} o (λ p. some (with_position r fee size filled p, t))
      ≡ some (s', last)
    → (s'.store ≡ filled.store) × (last ≡ t)
unfolding with_position ensure_position
started r fee size none filled s' t last h = cc
started r fee size (some p) filled s' t last h = ground (arith, h)

-- Those replayed at the start are no later than the time `start_market` gives.
start_market-replayed :
    (r : Rounded) (fee size : F64) (history : ℤ → List XExecution) (account market start last : ℤ)
    (s s' : MarketState)
    → IsOrdered s.store
    → start_market r fee size history account market start s ≡ some (s', last)
    → All (λ e. e.timestamp ≤ℤ last) (replayed account market start s')
unfolding start_market backfill replayed
start_market-replayed r fee size history a m start last s s' h e =
    let filled = backfill (history (restart_point a m start s)) s in
    let executions = replayed a m start filled in
    let ordered = upsert_all-IsOrdered (history (restart_point a m start s)) s.store h in
    let (same, time) =
      started r fee size (apply_executions r fee size executions filled.position) filled s'
        (last_time start executions) last e in
    subst (λ l. All (λ x. x.timestamp ≤ℤ l) (replayed a m start s')) (sym time)
      (subst
        (λ st.
          All (λ x. x.timestamp ≤ℤ last_time start executions)
            (stable_sort_executions (load_range a m (before_epoch start) st)))
        (sym same) (replayed_bound a m start filled ordered))

Mem-All {κ} :
    (P : XExecution → Type κ) (x : XExecution) (es : List XExecution) → All P es → Mem x es → P x
Mem-All P x [] h k = cc
Mem-All P x (e ∷ es) (h, hs) (inl k) = rw k h
Mem-All P x (e ∷ es) (h, hs) (inr k) = Mem-All P x es hs k

taken_online-later :
    (y : XExecution) (last : ℤ) (arrived : List XExecution) (s : MarketState)
    → IsInTime (s.live_buffer ++ arrived)
    → Mem y (taken_online last arrived s)
    → last <ℤ y.timestamp
unfolding taken_online stable_sort_executions
taken_online-later y last arrived s t k =
    Mem-All (λ e. last <ℤ e.timestamp) y (drop_applied last (s.live_buffer ++ arrived))
      (drop_applied-later last (s.live_buffer ++ arrived) t)
      ((sort-Mem le_replay y (drop_applied last (s.live_buffer ++ arrived))).0 k)

-- What the replay at the start applied, the switch to the live stream does not apply again: where
-- the buffer and what arrived meanwhile are in order of time, every execution that the switch
-- takes from them is later than every one that was replayed. The store is in its order at the
-- start. (One that the buffer itself holds twice is not looked at.)
pub start_market-taken_online :
    (r : Rounded) (fee size : F64) (history : ℤ → List XExecution) (account market start last : ℤ)
    (s s' : MarketState) (arrived : List XExecution) (x y : XExecution)
    → IsOrdered s.store
    → start_market r fee size history account market start s ≡ some (s', last)
    → IsInTime (s'.live_buffer ++ arrived)
    → Mem x (replayed account market start s')
    → Mem y (taken_online last arrived s')
    → x.timestamp <ℤ y.timestamp
start_market-taken_online r fee size history a m start last s s' arrived x y h e t j k =
    let bound =
      Mem-All (λ x. x.timestamp ≤ℤ last) x (replayed a m start s')
        (start_market-replayed r fee size history a m start last s s' h e) j in
    let later = taken_online-later y last arrived s' t k in ground (arith, bound, later)
