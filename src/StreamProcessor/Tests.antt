-- ===== src/StreamProcessor/Tests.antt =====
-- Runs of the stream processor.
use rstrader.Base.{ℕ, refl, Option, none, [], ◌∷◌}
use rstrader.Base.Int.{pos}
use rstrader.Base.Bytes.{ascii}
use rstrader.Processor.Consecutive.{Follows}
use rstrader.Deribit.Tests.{quote, silent, arithmetic, no_number, zero_hash, serde}
use rstrader.Binance.Processing.{DepthJson, BinanceTradeUpdate}
use rstrader.Binance.Processing as Binance
use rstrader.Okx.Processing.Trades.{TradeJson}
use rstrader.Okx.Processing.Trades as Okx
use rstrader.StreamProcessor.{Sender, run_stream_processor}
use rstrader.StreamProcessor.Sent.{Sends, all_updates, run_stream_processor-Sends}
use rstrader.StreamProcessor.Factory.{create_processor, Decoding, any_processor}
use rstrader.StreamProcessor.Factory.Sequence.{run_stream_processor-Follows}
use rstrader.Deribit.{DeribitOrderBookData}

abbrev decoding : Decoding (Option DeribitOrderBookData)
decoding = record {
  arithmetic = arithmetic;
  parse_f64 = no_number;
  hash = zero_hash;
  binance_depth = λ t. Binance.no_json;
  binance_trade = λ t. none;
  okx_message = λ t. none;
  okx_trades = λ t. Okx.no_json;
  deribit_message = serde;
}

abbrev channel : ℕ → Sender
channel n = record { sent = []; room = n }

run_stream_processor-Sends_example :
    Sends
      (all_updates
        (any_processor decoding)
        (create_processor none)
        (ascii "BTC")
        (quote ∷ silent ∷ quote ∷ [])
        none)
      (channel 3)
      (run_stream_processor
        (any_processor decoding)
        (create_processor none)
        (ascii "BTC")
        (quote ∷ silent ∷ quote ∷ [])
        none
        (channel 3))
run_stream_processor-Sends_example =
    run_stream_processor-Sends (any_processor decoding) (create_processor none) (ascii "BTC")
      (quote ∷ silent ∷ quote ∷ []) none (channel 3)

run_stream_processor-Follows_example :
    Follows
      (pos 0)
      (run_stream_processor
        (any_processor decoding)
        (create_processor none)
        (ascii "BTC")
        (quote ∷ silent ∷ quote ∷ [])
        none
        (channel 3)).0.sent
run_stream_processor-Follows_example =
    run_stream_processor-Follows decoding none (ascii "BTC") quote (silent ∷ quote ∷ []) 3 refl
