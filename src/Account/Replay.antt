-- ===== src/Account/Replay.antt =====
-- src/trading/account_state/mod.rs: `AccountState` for one market: backfill, replay and the switch
-- to the live stream. The adapter's history is a function of the time it is asked after; a failed
-- assertion of the position is `none`. An error of the store or the adapter, which ends the
-- operation, is left out.
pub mod Range
mod Tests
use rstrader.Base.{
  ℕ, ◌^◌, ◌-◌, Bool, true, false, Option, none, some, List, [], ◌∷◌, ◌++◌, if◌then◌else◌,
}
use rstrader.Base.Options.{◌>>=◌}
use rstrader.Base.Int.{ℤ, pos, negsuc, ◌-ℤ◌, leb_ℤ, max_ℤ}
use rstrader.Base.Float.{F64, zero_f64, eqf, neg, abs, Rounded}
use rstrader.Oms.{Side, buy, sell, unknown, XExecution, is_position_change}
use rstrader.Position.{Position, new, trade_with_fee}
use rstrader.Account.{
  InMemoryExecutionsDatastore, upsert, upsert_all, load_range, last_point, last_of,
  stable_sort_executions,
}

pub record MarketState : Type 0 where
  pub store : InMemoryExecutionsDatastore
  pub position : Option Position
  pub live_buffer : List XExecution

-- `saturating_sub(1)` on i64.
pub before_epoch : ℤ → ℤ
before_epoch start = if leb_ℤ start (negsuc (2 ^ 63 - 1)) then start else start -ℤ pos 1

signed_qty : Side → F64 → F64
signed_qty buy q = abs q
signed_qty sell q = neg (abs q)
signed_qty unknown q = zero_f64

fee_override : F64 → Option F64
fee_override fee = if eqf fee zero_f64 then none else some fee

-- The store after the adapter's answer.
pub backfill : List XExecution → MarketState → MarketState
backfill history s = record s { store = upsert_all history s.store }

-- The executions from the epoch on, in the order of the replay.
pub replayed : ℤ → ℤ → ℤ → MarketState → List XExecution
replayed account market start s =
    stable_sort_executions (load_range account market (before_epoch start) s.store)

-- Where the history is asked for, at the start and after a disconnect.
pub restart_point : ℤ → ℤ → ℤ → MarketState → ℤ
restart_point account market start s = elim (last_point account market s.store) [
  | none ↦ start
  | some ts ↦ max_ℤ ts start
]

-- The front of the buffer up to the first execution that is later.
pub drop_applied : ℤ → List XExecution → List XExecution
drop_applied last [] = []
drop_applied last (e ∷ es) =
    let rest = drop_applied last es in if leb_ℤ e.timestamp last then rest else e ∷ es

-- What the switch to the live stream applies, of the buffer and of what arrived meanwhile.
pub taken_online : ℤ → List XExecution → MarketState → List XExecution
taken_online last arrived s = stable_sort_executions (drop_applied last (s.live_buffer ++ arrived))

-- The time of the last execution, and the epoch where there is none.
abbrev pub last_time : ℤ → List XExecution → ℤ
last_time start es = elim (last_of es) [ none ↦ start | some e ↦ e.timestamp ]

-- The fee rate is the source's `fee_bps / 10_000.0`.
module _ (r : Rounded) (fee_percent contract_size : F64) where
  ensure_position : Option Position → Position
  ensure_position none = new fee_percent contract_size
  ensure_position (some p) = p

  apply_trade : XExecution → F64 → Option Position → Option (Option Position)
  apply_trade e qty p = if eqf qty zero_f64 then some p else (do
    traded ← trade_with_fee r qty e.last_px (fee_override e.fee) (ensure_position p)
    some (some traded))

  pub apply_execution : XExecution → Option Position → Option (Option Position)
  unfolding apply_trade signed_qty ensure_position fee_override
  apply_execution e p =
      if is_position_change e.exec_type
      then apply_trade e (signed_qty e.side e.last_qty) p
      else some p

  pub apply_executions : List XExecution → Option Position → Option (Option Position)
  apply_executions [] p = some p
  apply_executions (e ∷ es) p = do next ← apply_execution e p; apply_executions es next

  -- The snapshot that is sent makes the position where there is none.
  with_position : MarketState → Option Position → MarketState
  unfolding ensure_position
  with_position s p = record s { position = some (ensure_position p) }

  -- The history is asked for only where something is stored.
  pub build_from_epoch : (ℤ → List XExecution) → ℤ → ℤ → ℤ → MarketState → Option MarketState
  unfolding with_position
  build_from_epoch history account market start s =
      let filled : MarketState = elim (last_point account market s.store) [
        | none ↦ s
        | some ts ↦ backfill (history (max_ℤ ts start)) s
      ] in
      (do
        p ← apply_executions (replayed account market start filled) filled.position
        some (with_position filled p))

  -- Steps 2 to 4 of `run_market`, and the time of the last execution applied.
  pub start_market : (ℤ → List XExecution) → ℤ → ℤ → ℤ → MarketState → Option (MarketState × ℤ)
  unfolding with_position
  start_market history account market start s =
      let filled = backfill (history (restart_point account market start s)) s in
      let executions = replayed account market start filled in
      (do
        p ← apply_executions executions filled.position
        some (with_position filled p, last_time start executions))

  -- Step 5: what arrived meanwhile.
  pub go_online : ℤ → List XExecution → MarketState → Option MarketState
  unfolding with_position taken_online
  go_online last arrived s = do
    p ← apply_executions (taken_online last arrived s) s.position
    some (record (with_position s p) { live_buffer = [] })

  pub on_live : XExecution → MarketState → Option MarketState
  on_live e s = do
    p ← apply_execution e s.position
    some (record s { store = upsert e s.store; position = p })

  -- The restore after a disconnect.
  pub restore : (ℤ → List XExecution) → ℤ → ℤ → ℤ → MarketState → Option MarketState
  unfolding with_position
  restore history account market start s =
      let filled : MarketState = elim (last_point account market s.store) [
        | none ↦ s
        | some ts ↦ backfill (history ts) s
      ] in
      (do
        p ←
            apply_executions (replayed account market start filled)
              (some (new fee_percent contract_size))
        some (with_position filled p))
