-- ===== src/Binance/Rest.antt =====
-- src/exchanges/binance.rs: the snapshot over REST. The response and `fast_float::parse` are
-- arguments; error messages leave out the values they print.
pub mod Parsed
use rstrader.Base.{ℕ, Option, none, some, List, [], ◌∷◌, ◌++◌, ◌≡◌, refl, map, Bool, true, false}
use rstrader.Base.Int.{ℤ}
use rstrader.Base.Float.{F64}
use rstrader.Base.Bytes.{Bytes, ascii}
use rstrader.Errors.{AppError, Result, ok, err, ◌>>=◌, connection_error, parse_error, stream_error}
use rstrader.Types.{PriceLevel, OrderBookSnapshot}
use rstrader.Exchange.{binance_futures}
use rstrader.XMarketId.{make}

pub record BinanceDepthResponse : Type 0 where
  pub last_update_id : ℤ
  pub bids : List (Bytes × Bytes)
  pub asks : List (Bytes × Bytes)

-- What `send`, the status and `json` give.
pub data Response : Type 0 where
  unsent bad_status bad_json : Bytes → Response
  depth : BinanceDepthResponse → Response

module _ (parse_f64 : Bytes → Option F64) where
  parse_number : Bytes → Bytes → Result F64
  parse_number what text = elim (parse_f64 text) [ none ↦ err (parse_error what) | some x ↦ ok x ]

  pub parse_price_level : Bytes × Bytes → Result PriceLevel
  unfolding parse_number
  parse_price_level (p, q) = do
    price ← parse_number (ascii "Invalid price") p
    qty ← parse_number (ascii "Invalid quantity") q
    ok (record { price = price; qty = qty })

  -- The loop that pushes one level after another and stops at the first error.
  pub parse_levels : List (Bytes × Bytes) → Result (List PriceLevel)
  parse_levels [] = ok []
  parse_levels (l ∷ ls) = do
    level ← parse_price_level l
    levels ← parse_levels ls
    ok (level ∷ levels)

  module _ (hash : Bytes → ℕ) where
    snapshot_of : Bytes → ℤ → BinanceDepthResponse → Result OrderBookSnapshot
    snapshot_of symbol now response = do
      bids ← parse_levels response.bids
      asks ← parse_levels response.asks
      ok (record {
        market_id = make hash binance_futures symbol;
        last_update_id = response.last_update_id;
        timestamp = now;
        sequence = response.last_update_id;
        bids = bids;
        asks = asks;
      })

    -- At the clock's reading in milliseconds.
    pub get_snapshot : Bytes → ℤ → Response → Result OrderBookSnapshot
    unfolding snapshot_of
    get_snapshot symbol now (unsent e) = err (connection_error (ascii "Network error: " ++ e))
    get_snapshot symbol now (bad_status e) = err (stream_error (ascii "REST API error: " ++ e))
    get_snapshot symbol now (bad_json e) = err (connection_error (ascii "Network error: " ++ e))
    get_snapshot symbol now (depth response) = snapshot_of symbol now response
