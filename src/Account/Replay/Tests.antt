-- ===== src/Account/Replay/Tests.antt =====
-- A store of two executions, its replay, and the theorems at it.
use rstrader.Base.{ℕ, ◌≡◌, refl, ◌↔◌, ◌⊎◌, inl, true, Option, none, some, List, [], ◌∷◌, arith}
use rstrader.Base.Int.{ℤ, pos, ◌≤ℤ◌, ◌<ℤ◌, ◌+ℤ◌, ◌-ℤ◌}
use rstrader.Base.Float.{F64, zero_f64, partial_cmp}
use rstrader.Base.Float.Exact.{num, exact}
use rstrader.Base.Bytes.{bytes_eq}
use rstrader.Base.Sort.{Mem, sort_by, insert_sorted}
use rstrader.Oms.{XExecution, buy, x_trade, o_status_filled, m_limit, tif_good_till_cancel}
use rstrader.Position.{
  trade_with_fee, trade, change_amount, increase_position, increment_average_price, snapped,
  base_fee, epsilon_units, new,
}
use rstrader.Account.{
  InMemoryExecutionsDatastore, empty_store, upsert, upsert_all, was_seen, put_bucket, cmp_bytes,
  newer_than, load_range, last_of, last_point, stable_sort_executions,
}
use rstrader.Account.Store.{
  IsOrdered, upsert-IsOrdered, upsert-idempotent, IsAdded, load_range-upsert, IsLatest,
  last_point-IsLatest,
}
use rstrader.Account.Replay.{
  MarketState, before_epoch, backfill, replayed, restart_point, drop_applied, apply_execution,
  apply_executions, start_market, go_online, on_live, restore, build_from_epoch, ensure_position,
  taken_online,
}
use rstrader.Account.Replay.Range.{replayed-Mem, start_market-taken_online}

abbrev bought : ℕ → ℕ → XExecution
bought id at = record {
  timestamp = pos at;
  rcv_timestamp = pos at;
  market_id = pos 7;
  account_id = pos 1;
  exec_type = x_trade;
  side = buy;
  native_ord_id = [];
  cl_ord_id = pos 0;
  orig_cl_ord_id = pos 0;
  ord_status = o_status_filled;
  last_qty = num 1;
  last_px = num 100;
  leaves_qty = zero_f64;
  ord_qty = num 1;
  ord_price = num 100;
  ord_mode = m_limit;
  tif = tif_good_till_cancel;
  fee = zero_f64;
  native_execution_id = id ∷ [];
  is_taker = true;
}

empty-IsOrdered : IsOrdered empty_store
unfolding empty_store
empty-IsOrdered a m = tt

abbrev two : InMemoryExecutionsDatastore
two = upsert (bought 2 20) (upsert (bought 3 30) empty_store)

two-IsOrdered : IsOrdered two
two-IsOrdered =
    upsert-IsOrdered (bought 2 20) (upsert (bought 3 30) empty_store)
      (upsert-IsOrdered (bought 3 30) empty_store empty-IsOrdered)

two_runs : load_range (pos 1) (pos 7) (pos 0) two ≡ bought 2 20 ∷ bought 3 30 ∷ []
unfolding load_range newer_than upsert was_seen put_bucket sort_by insert_sorted cmp_bytes
    empty_store bytes_eq
two_runs = refl

upsert-IsOrdered_runs : IsOrdered (upsert (bought 3 30) empty_store)
upsert-IsOrdered_runs = upsert-IsOrdered (bought 3 30) empty_store empty-IsOrdered

upsert-idempotent_runs : upsert (bought 4 25) (upsert (bought 4 25) two) ≡ upsert (bought 4 25) two
upsert-idempotent_runs = upsert-idempotent (bought 4 25) two

load_range-upsert_example :
    Mem (bought 4 25) (load_range (pos 1) (pos 7) (pos 20) (upsert (bought 4 25) two)) ↔ (
      Mem (bought 4 25) (load_range (pos 1) (pos 7) (pos 20) two)
      ⊎ (IsAdded (bought 4 25) two (pos 1) (pos 7)
          × (pos 20 <ℤ pos 25)
          × (bought 4 25 ≡ bought 4 25)))
load_range-upsert_example =
    load_range-upsert (bought 4 25) (bought 4 25) two (pos 1) (pos 7) (pos 20)

last_point-IsLatest_runs : IsLatest (two.data_of (pos 1) (pos 7)) (last_point (pos 1) (pos 7) two)
last_point-IsLatest_runs = last_point-IsLatest two (pos 1) (pos 7) two-IsOrdered

abbrev fresh : MarketState
fresh = record { store = empty_store; position = none; live_buffer = [] }

abbrev history : ℤ → List XExecution
history after = bought 2 20 ∷ []

abbrev started : MarketState
started = record {
  store = upsert (bought 2 20) empty_store;
  position = some (record {
    amount = num 1;
    avp = num 100;
    realized = zero_f64;
    fees = zero_f64;
    fee_percent = zero_f64;
    quote_volume = num 100;
    quote_volume2 = num 1;
    trades_count = 1;
    contract_size = num 1;
  });
  live_buffer = [];
}

start_runs :
    start_market exact zero_f64 (num 1) history (pos 1) (pos 7) (pos 10) fresh
    ≡ some (started, pos 20)
unfolding start_market ensure_position apply_executions apply_execution replayed backfill
    restart_point before_epoch stable_sort_executions load_range newer_than last_of last_point
    upsert upsert_all was_seen put_bucket sort_by insert_sorted cmp_bytes empty_store bytes_eq
    trade_with_fee trade change_amount increase_position increment_average_price snapped base_fee
    epsilon_units new partial_cmp ◌+ℤ◌ ◌-ℤ◌
start_runs = refl

abbrev buffered : List XExecution
buffered = bought 2 20 ∷ bought 3 30 ∷ []

replayed-Mem_example :
    Mem (bought 2 20) (replayed (pos 1) (pos 7) (pos 10) (record fresh { store = two }))
    ↔ (Mem (bought 2 20) (two.data_of (pos 1) (pos 7)) × (pos 10 ≤ℤ pos 20))
replayed-Mem_example =
    replayed-Mem (bought 2 20) (pos 1) (pos 7) (pos 10) (record fresh { store = two })
      (ground arith)

replayed_runs : replayed (pos 1) (pos 7) (pos 10) started ≡ bought 2 20 ∷ []
unfolding replayed before_epoch stable_sort_executions load_range newer_than upsert was_seen
    put_bucket sort_by insert_sorted empty_store ◌-ℤ◌
replayed_runs = refl

taken_runs : taken_online (pos 20) buffered started ≡ bought 3 30 ∷ []
unfolding taken_online drop_applied stable_sort_executions sort_by insert_sorted
taken_runs = refl

start_market-taken_online_example : pos 20 <ℤ pos 30
start_market-taken_online_example =
    start_market-taken_online exact zero_f64 (num 1) history (pos 1) (pos 7) (pos 10) (pos 20) fresh
      started buffered (bought 2 20) (bought 3 30) empty-IsOrdered start_runs (ground arith)
      (rw replayed_runs (inl refl)) (rw taken_runs (inl refl))

-- The amount held, and how many executions are stored of the market.
abbrev held : Option MarketState → Option F64
held none = none
held (some s) = elim s.position [ none ↦ none | some p ↦ some p.amount ]

abbrev bought_nothing : Option MarketState
bought_nothing = build_from_epoch exact zero_f64 (num 1) history (pos 1) (pos 7) (pos 10) fresh

build_runs : held bought_nothing ≡ some zero_f64
unfolding build_from_epoch apply_executions apply_execution replayed before_epoch
    stable_sort_executions load_range newer_than last_of last_point sort_by insert_sorted
    empty_store ensure_position new ◌-ℤ◌
build_runs = refl

online_runs : held (go_online exact zero_f64 (num 1) (pos 20) buffered started) ≡ some (num 2)
unfolding go_online taken_online ensure_position drop_applied apply_executions apply_execution
    stable_sort_executions sort_by insert_sorted cmp_bytes trade_with_fee trade change_amount
    increase_position increment_average_price snapped base_fee epsilon_units new partial_cmp ◌+ℤ◌
    ◌-ℤ◌
online_runs = refl

live_runs : held (on_live exact zero_f64 (num 1) (bought 3 30) started) ≡ some (num 2)
unfolding on_live apply_execution trade_with_fee trade change_amount increase_position
    increment_average_price snapped base_fee epsilon_units new partial_cmp ◌+ℤ◌ ◌-ℤ◌
live_runs = refl

restore_runs :
    held
      (restore exact zero_f64 (num 1) (λ after. bought 3 30 ∷ []) (pos 1) (pos 7) (pos 10) started)
    ≡ some (num 2)
unfolding restore ensure_position apply_executions apply_execution replayed backfill before_epoch
    stable_sort_executions load_range newer_than last_of last_point upsert upsert_all was_seen
    put_bucket sort_by insert_sorted cmp_bytes empty_store bytes_eq trade_with_fee trade
    change_amount increase_position increment_average_price snapped base_fee epsilon_units new
    partial_cmp ◌+ℤ◌ ◌-ℤ◌
restore_runs = refl
