-- ===== src/Account.antt =====
-- src/trading/account_state/mod.rs: the store of executions in memory, and the replay that builds
-- positions from it. A map is a function of its keys, where a missing bucket is the empty one; the
-- adapter's answers are arguments; broadcasts and log lines are left out.
pub mod Order
pub mod Store
pub mod Replay
use rstrader.Base.{
  ℕ, ◌&&◌, Bool, true, false, not, Option, none, some, List, [], ◌∷◌, ◌++◌, compare, Ordering,
  if◌then◌else◌,
}
use rstrader.Base.Options.{◌>>=◌}
use rstrader.Base.Int.{ℤ, pos, negsuc, ◌-ℤ◌, compare_ℤ, ltb_ℤ, leb_ℤ, eqb_ℤ, max_ℤ}
use rstrader.Base.Word.{wrap64}
use rstrader.Base.Float.{F64, zero_f64, eqf, neg, abs, Rounded}
use rstrader.Base.Bytes.{Bytes, bytes_eq}
use rstrader.Base.Sort.{sort_by}
use rstrader.Oms.{Side, buy, sell, unknown, XExecution, is_position_change}
use rstrader.Position.{Position, new, trade_with_fee}

-- `a.cmp(b)`, and where it is equal the next key.
abbrev pub then_with : Ordering → Ordering → Ordering
then_with Ordering.lt o = Ordering.lt
then_with Ordering.eq o = o
then_with Ordering.gt o = Ordering.gt

pub cmp_bytes : Bytes → Bytes → Ordering
cmp_bytes [] [] = Ordering.eq
cmp_bytes [] (y ∷ ys) = Ordering.lt
cmp_bytes (x ∷ xs) [] = Ordering.gt
cmp_bytes (x ∷ xs) (y ∷ ys) = then_with (compare x y) (cmp_bytes xs ys)

abbrev pub not_greater : Ordering → Bool
not_greater Ordering.gt = false
not_greater _ = true

-- The order of a bucket, and that of a replay.
abbrev pub cmp_replay : XExecution → XExecution → Ordering
cmp_replay a b =
    then_with (compare_ℤ a.timestamp b.timestamp)
      (cmp_bytes a.native_execution_id b.native_execution_id)

abbrev pub cmp_stored : XExecution → XExecution → Ordering
cmp_stored a b = then_with (cmp_replay a b) (compare_ℤ a.rcv_timestamp b.rcv_timestamp)

abbrev pub le_replay : XExecution → XExecution → Bool
le_replay a b = not_greater (cmp_replay a b)

abbrev pub le_stored : XExecution → XExecution → Bool
le_stored a b = not_greater (cmp_stored a b)

-- The keys of the idempotency set.
pub record SeenKey : Type 0 where
  pub account_id : ℤ
  pub market_id : ℤ
  pub native_execution_id : Bytes
  pub timestamp : ℤ

abbrev pub key_of : XExecution → SeenKey
key_of e = record {
  account_id = e.account_id;
  market_id = e.market_id;
  native_execution_id = e.native_execution_id;
  timestamp = e.timestamp;
}

abbrev pub same_key : SeenKey → SeenKey → Bool
same_key a b =
    eqb_ℤ a.account_id b.account_id
    && eqb_ℤ a.market_id b.market_id
    && bytes_eq a.native_execution_id b.native_execution_id
    && eqb_ℤ a.timestamp b.timestamp

pub was_seen : SeenKey → List SeenKey → Bool
was_seen k [] = false
was_seen k (s ∷ seen) = let rest = was_seen k seen in if same_key k s then true else rest

pub record InMemoryExecutionsDatastore : Type 0 where
  pub data_of : ℤ → ℤ → List XExecution
  pub seen : List SeenKey

pub empty_store : InMemoryExecutionsDatastore
empty_store = record { data_of = λ a m. []; seen = [] }

-- One bucket replaced.
pub put_bucket : ℤ → ℤ → List XExecution → (ℤ → ℤ → List XExecution) → ℤ → ℤ → List XExecution
put_bucket account market bucket buckets a m =
    if eqb_ℤ account a && eqb_ℤ market m then bucket else buckets a m

pub upsert : XExecution → InMemoryExecutionsDatastore → InMemoryExecutionsDatastore
upsert e s = if was_seen (key_of e) s.seen then s else record {
  seen = key_of e ∷ s.seen;
  data_of =
      put_bucket e.account_id e.market_id
        (sort_by le_stored (s.data_of e.account_id e.market_id ++ e ∷ [])) s.data_of;
}

pub newer_than : ℤ → List XExecution → List XExecution
newer_than gt_ts [] = []
newer_than gt_ts (e ∷ es) =
    let rest = newer_than gt_ts es in if ltb_ℤ gt_ts e.timestamp then e ∷ rest else rest

pub load_range : ℤ → ℤ → ℤ → InMemoryExecutionsDatastore → List XExecution
load_range account market gt_ts s = newer_than gt_ts (s.data_of account market)

pub last_of : List XExecution → Option XExecution
last_of [] = none
last_of (e ∷ []) = some e
last_of (e ∷ f ∷ es) = last_of (f ∷ es)

-- The restart point; its sequence is always absent.
pub last_point : ℤ → ℤ → InMemoryExecutionsDatastore → Option ℤ
unfolding last_of
last_point account market s = do last ← last_of (s.data_of account market); some last.timestamp

pub stable_sort_executions : List XExecution → List XExecution
stable_sort_executions es = sort_by le_replay es

pub upsert_all : List XExecution → InMemoryExecutionsDatastore → InMemoryExecutionsDatastore
upsert_all [] s = s
upsert_all (e ∷ es) s = upsert_all es (upsert e s)
