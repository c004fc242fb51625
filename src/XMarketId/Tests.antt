-- ===== src/XMarketId/Tests.antt =====
-- Market ids over a stand-in for the hash.
use rstrader.Base.{ℕ, ◌+◌, ◌≡◌, refl, [], ◌∷◌}
use rstrader.Base.Bytes.{Bytes, ascii, trim, to_upper}
use rstrader.Exchange.{okx_spot, deribit, discriminant}
use rstrader.XMarketId.{normalize_symbol, make, exchange_from}
use rstrader.XMarketId.Fields.{exchange_from-make, make-eq_iff}

abbrev byte_sum : Bytes → ℕ
byte_sum [] = 0
byte_sum (c ∷ s) = c + byte_sum s

same_symbol : make byte_sum okx_spot (ascii " btcUSDT") ≡ make byte_sum okx_spot (ascii "BTCUSDT")
unfolding make normalize_symbol trim to_upper discriminant
same_symbol = refl

exchange_from-make_runs : exchange_from (make byte_sum deribit (ascii "BTC-PERPETUAL")) ≡ 4
unfolding discriminant
exchange_from-make_runs = exchange_from-make byte_sum deribit (ascii "BTC-PERPETUAL")

make-eq_iff_runs :
    make byte_sum okx_spot (ascii " btcUSDT") ≡ make byte_sum okx_spot (ascii "BTCUSDT")
unfolding normalize_symbol trim to_upper
make-eq_iff_runs =
    (make-eq_iff byte_sum okx_spot okx_spot (ascii " btcUSDT") (ascii "BTCUSDT")).1 (refl, refl)
