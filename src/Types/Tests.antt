-- ===== src/Types/Tests.antt =====
-- A built update.
use rstrader.Base.{ℕ, ◌+◌, [], ◌∷◌}
use rstrader.Base.Int.{pos}
use rstrader.Base.Float.{fin}
use rstrader.Base.Bytes.{Bytes, ascii}
use rstrader.Exchange.{okx_swap}
use rstrader.Types.{OrderBookL2UpdateBuilder, build_bid, build_ask}
use rstrader.Types.Builders.{IsCoherent, build-IsCoherent}

abbrev byte_sum : Bytes → ℕ
byte_sum [] = 0
byte_sum (c ∷ s) = c + byte_sum s

abbrev builder : OrderBookL2UpdateBuilder
builder = record {
  timestamp = pos 1;
  rcv_timestamp = pos 2;
  exchange = okx_swap;
  ticker = ascii "BTC-USDT-SWAP";
  seq_id = pos 3;
  packet_id = pos 4;
  update_id = pos 5;
  first_update_id = pos 5;
}

build_runs :
    IsCoherent (build_bid byte_sum builder (fin (pos 9)) (fin (pos 0)))
    × IsCoherent (build_ask byte_sum builder (fin (pos 9)) (fin (pos 0)))
build_runs = build-IsCoherent byte_sum builder (fin (pos 9)) (fin (pos 0))
