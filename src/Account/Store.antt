-- ===== src/Account/Store.antt =====
-- What the store of executions keeps and gives back.
use rstrader.Base.{
  ◌≡◌, refl, ◌↔◌, ◌⊎◌, inl, inr, ◌&&◌, Bool, true, false, Option, none, some, List, [], ◌∷◌, ◌++◌,
  All, if◌then◌else◌, arith,
}
use rstrader.Base.Options.{◌>>=◌}
use rstrader.Base.Int.{ℤ, ◌≤ℤ◌, ◌<ℤ◌, eqb_ℤ, eqb_ℤ_iff}
use rstrader.Base.Bytes.{bytes_eq_iff}
use rstrader.Base.Sort.{Mem, Mem-append, Sorted, Below, sort_by, sort-Mem, sort-Sorted, sort-id}
use rstrader.Oms.{XExecution}
use rstrader.Account.{
  SeenKey, key_of, same_key, was_seen, le_stored, le_replay, InMemoryExecutionsDatastore,
  put_bucket, upsert, newer_than, load_range, last_of, last_point, stable_sort_executions,
}
use rstrader.Account.Order.{
  le_stored-total, le_stored_trans, le_stored-le_replay, le_stored-timestamp,
}

-- Each bucket is in order.
abbrev pub IsOrdered : InMemoryExecutionsDatastore → Type 0
IsOrdered s = (account market : ℤ) → Sorted le_stored (s.data_of account market)

bucket-Ordered :
    (e : XExecution) (s : InMemoryExecutionsDatastore) (a m : ℤ)
    → Sorted le_stored (s.data_of a m)
    → Sorted le_stored (
        put_bucket e.account_id e.market_id
          (sort_by le_stored (s.data_of e.account_id e.market_id ++ e ∷ []))
          s.data_of
          a
          m)
unfolding put_bucket
bucket-Ordered e s a m h = choose (eqb_ℤ e.account_id a && eqb_ℤ e.market_id m)
  where
    choose :
        (b : Bool)
        → Sorted le_stored (
            if b
            then sort_by le_stored (s.data_of e.account_id e.market_id ++ e ∷ [])
            else s.data_of a m)
    choose true =
        sort-Sorted le_stored le_stored-total le_stored_trans
          (s.data_of e.account_id e.market_id ++ e ∷ [])
    choose false = h

-- Storing an execution keeps every bucket in order of time, execution id and time of receipt.
pub upsert-IsOrdered :
    (e : XExecution) (s : InMemoryExecutionsDatastore) → IsOrdered s → IsOrdered (upsert e s)
unfolding upsert
upsert-IsOrdered e s h a m = choose (was_seen (key_of e) s.seen)
  where
    choose :
        (b : Bool)
        → Sorted le_stored (
            (if b then s else record {
              seen = key_of e ∷ s.seen;
              data_of =
                  put_bucket e.account_id e.market_id
                    (sort_by le_stored (s.data_of e.account_id e.market_id ++ e ∷ []))
                    s.data_of;
            }).data_of
              a m)
    choose true = h a m
    choose false = bucket-Ordered e s a m (h a m)

same_key_refl : (k : SeenKey) → same_key k k ≡ true
same_key_refl k = ground (
  arith,
  eqb_ℤ_iff k.account_id k.account_id,
  eqb_ℤ_iff k.market_id k.market_id,
  eqb_ℤ_iff k.timestamp k.timestamp,
  bytes_eq_iff k.native_execution_id k.native_execution_id,
)

stored_again :
    (e : XExecution) (s : InMemoryExecutionsDatastore)
    → was_seen (key_of e) (upsert e s).seen ≡ true
unfolding upsert was_seen
stored_again e s = ground (arith, same_key_refl (key_of e))

seen_unchanged :
    (e : XExecution) (s : InMemoryExecutionsDatastore)
    → was_seen (key_of e) s.seen ≡ true
    → upsert e s ≡ s
unfolding upsert
seen_unchanged e s h = ground (arith, h)

-- Storing an execution twice is storing it once.
pub upsert-idempotent :
    (e : XExecution) (s : InMemoryExecutionsDatastore) → upsert e (upsert e s) ≡ upsert e s
upsert-idempotent e s = seen_unchanged e (upsert e s) (stored_again e s)

pub newer_than-Mem :
    (x : XExecution) (gt : ℤ) (es : List XExecution)
    → Mem x (newer_than gt es) ↔ (Mem x es × (gt <ℤ x.timestamp))
unfolding newer_than
newer_than-Mem x gt [] = ground arith
newer_than-Mem x gt (e ∷ es) = ground (arith, newer_than-Mem x gt es)

bucket-Mem :
    (x e : XExecution) (es : List XExecution)
    → Mem x (sort_by le_stored (es ++ e ∷ [])) ↔ (Mem x es ⊎ (x ≡ e))
bucket-Mem x e es = ground (arith, sort-Mem le_stored x (es ++ e ∷ []), Mem-append x es (e ∷ []))

-- Whether the execution is new to the store and belongs to the bucket.
abbrev pub IsAdded : XExecution → InMemoryExecutionsDatastore → ℤ → ℤ → Type 0
IsAdded e s account market =
    (was_seen (key_of e) s.seen ≡ false) × (e.account_id ≡ account) × (e.market_id ≡ market)

upsert-Mem :
    (x e : XExecution) (s : InMemoryExecutionsDatastore) (a m : ℤ)
    → Mem x ((upsert e s).data_of a m) ↔ (Mem x (s.data_of a m) ⊎ (IsAdded e s a m × (x ≡ e)))
unfolding upsert put_bucket
upsert-Mem x e s a m = ground (
  arith,
  eqb_ℤ_iff e.account_id a,
  eqb_ℤ_iff e.market_id m,
  bucket-Mem x e (s.data_of e.account_id e.market_id),
)

-- A range query sees what was stored: after storing an execution it gives what it gave before,
-- and the execution itself if it was new to the store, is of the account and the market asked for,
-- and lies after the time asked for.
pub load_range-upsert :
    (x e : XExecution) (s : InMemoryExecutionsDatastore) (account market gt_ts : ℤ)
    → Mem x (load_range account market gt_ts (upsert e s)) ↔ (
        Mem x (load_range account market gt_ts s)
        ⊎ (IsAdded e s account market × (gt_ts <ℤ e.timestamp) × (x ≡ e)))
unfolding load_range
load_range-upsert x e s a m gt = ground (
  arith,
  newer_than-Mem x gt ((upsert e s).data_of a m),
  newer_than-Mem x gt (s.data_of a m),
  upsert-Mem x e s a m,
)

newer_than-All :
    (P : XExecution → Type 0) (gt : ℤ) (es : List XExecution) → All P es → All P (newer_than gt es)
unfolding newer_than
newer_than-All P gt [] a = tt
newer_than-All P gt (e ∷ es) (h, a) = ground (arith, newer_than-All P gt es a, h)

pub newer_than-Sorted :
    (gt : ℤ) (es : List XExecution) → Sorted le_stored es → Sorted le_stored (newer_than gt es)
unfolding newer_than
newer_than-Sorted gt [] s = tt
newer_than-Sorted gt (e ∷ es) (a, s) =
    ground (arith, newer_than-Sorted gt es s, newer_than-All (Below le_stored e) gt es a)

Sorted-replay : (es : List XExecution) → Sorted le_stored es → Sorted le_replay es
Sorted-replay [] s = tt
Sorted-replay (e ∷ es) (a, s) = (below es a, Sorted-replay es s)
  where
    below : (fs : List XExecution) → All (Below le_stored e) fs → All (Below le_replay e) fs
    below [] b = tt
    below (f ∷ fs) (h, b) = (le_stored-le_replay e f h, below fs b)

-- The executions of a range come in the order of the replay: sorting them again changes nothing.
pub stable_sort-load_range :
    (s : InMemoryExecutionsDatastore) (account market gt_ts : ℤ)
    → IsOrdered s
    → stable_sort_executions (load_range account market gt_ts s) ≡ load_range account market gt_ts s
unfolding stable_sort_executions load_range
stable_sort-load_range s a m gt h =
    sort-id le_replay (newer_than gt (s.data_of a m))
      (Sorted-replay (newer_than gt (s.data_of a m)) (newer_than-Sorted gt (s.data_of a m) (h a m)))

-- The time is that of an execution, and no execution is later.
abbrev pub IsLatest : List XExecution → Option ℤ → Type 0
IsLatest es none = es ≡ []
IsLatest es (some t) =
    ((e : XExecution) × Mem e es × (e.timestamp ≡ t)) × All (λ e. e.timestamp ≤ℤ t) es

extend-IsLatest :
    (e f : XExecution) (es : List XExecution) (o : Option ℤ)
    → e.timestamp ≤ℤ f.timestamp
    → IsLatest (f ∷ es) o
    → IsLatest (e ∷ f ∷ es) o
extend-IsLatest e f es none l h = cc
extend-IsLatest e f es (some t) l ((x, m, q), (b, all)) =
    ((x, inr m, q), (ground (arith, l, b), (b, all)))

pub last_of-IsLatest :
    (es : List XExecution)
    → Sorted le_stored es
    → IsLatest es (last_of es >>= (λ e. some e.timestamp))
unfolding last_of
last_of-IsLatest [] s = refl
last_of-IsLatest (e ∷ []) s = ((e, inl refl, refl), ground arith)
last_of-IsLatest (e ∷ f ∷ es) (a, s) =
    extend-IsLatest e f es (last_of (f ∷ es) >>= (λ x. some x.timestamp))
      (le_stored-timestamp e f a.0) (last_of-IsLatest (f ∷ es) s)

-- The restart point of a store whose buckets are in order is the time of the latest execution
-- stored of the account and the market, and absent exactly where there is none.
pub last_point-IsLatest :
    (s : InMemoryExecutionsDatastore) (account market : ℤ)
    → IsOrdered s
    → IsLatest (s.data_of account market) (last_point account market s)
unfolding last_point
last_point-IsLatest s a m h = last_of-IsLatest (s.data_of a m) (h a m)
