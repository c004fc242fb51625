-- ===== src/Binance/Rest/Parsed.antt =====
-- The snapshots that a response gives.
use rstrader.Base.{ℕ, Option, some, List, [], ◌∷◌, ◌≡◌, ◌↔◌, true, false, arith}
use rstrader.Base.Int.{ℤ}
use rstrader.Base.Float.{F64}
use rstrader.Base.Bytes.{Bytes}
use rstrader.Errors.{ok}
use rstrader.Types.{PriceLevel, OrderBookSnapshot}
use rstrader.Exchange.{binance_futures}
use rstrader.XMarketId.{make}
use rstrader.Binance.Rest.{
  Response, unsent, bad_status, bad_json, depth, parse_number, parse_price_level, parse_levels,
  snapshot_of, get_snapshot,
}

module _ (parse_f64 : Bytes → Option F64) where
  -- Each text is the number of the level at its place.
  abbrev pub Parses : List (Bytes × Bytes) → List PriceLevel → Type 0
  Parses [] [] = Unit
  Parses [] (v ∷ vs) = true ≡ false
  Parses (l ∷ ls) [] = true ≡ false
  Parses ((p, q) ∷ ls) (v ∷ vs) =
      (parse_f64 p ≡ some v.price) × (parse_f64 q ≡ some v.qty) × Parses ls vs

  parse_levels_iff :
      (ls : List (Bytes × Bytes)) (vs : List PriceLevel)
      → (parse_levels parse_f64 ls ≡ ok vs) ↔ Parses ls vs
  unfolding parse_levels parse_price_level parse_number
  parse_levels_iff [] vs = ground arith
  parse_levels_iff ((p, q) ∷ ls) [] = ground arith
  parse_levels_iff ((p, q) ∷ ls) (v ∷ vs) = ground (arith, parse_levels_iff ls vs)

  -- What the snapshot of a response holds.
  abbrev pub IsSnapshotOf : (Bytes → ℕ) → Bytes → ℤ → Response → OrderBookSnapshot → Type 0
  IsSnapshotOf hash symbol now (depth r) s =
      (s.market_id ≡ make hash binance_futures symbol)
      × (s.last_update_id ≡ r.last_update_id)
      × (s.timestamp ≡ now)
      × (s.sequence ≡ r.last_update_id)
      × Parses r.bids s.bids
      × Parses r.asks s.asks
  IsSnapshotOf hash symbol now _ s = true ≡ false

  -- The result is a snapshot exactly where the request succeeded and every price and quantity of
  -- the response parses; it has them in the response's order, under the market's id, with the
  -- response's update id as its id and its sequence.
  pub get_snapshot_iff :
      (hash : Bytes → ℕ) (symbol : Bytes) (now : ℤ) (r : Response) (s : OrderBookSnapshot)
      → (get_snapshot parse_f64 hash symbol now r ≡ ok s) ↔ IsSnapshotOf hash symbol now r s
  unfolding get_snapshot snapshot_of
  get_snapshot_iff hash symbol now (unsent e) s = ground arith
  get_snapshot_iff hash symbol now (bad_status e) s = ground arith
  get_snapshot_iff hash symbol now (bad_json e) s = ground arith
  get_snapshot_iff hash symbol now (depth r) s =
      ground (arith, parse_levels_iff r.bids s.bids, parse_levels_iff r.asks s.asks)
