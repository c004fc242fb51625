-- ===== src/Subscription/Tests.antt =====
-- Runs of the parsing of subscriptions.
use rstrader.Base.{◌≡◌, none, some, [], ◌∷◌, arith}
use rstrader.Base.Bytes.{ascii}
use rstrader.Exchange.{StreamType, okx_swap, deribit}
use rstrader.Subscription.{SubscriptionSpec, parse_multiple}
use rstrader.Subscription.RoundTrip.Multiple.{format_all, parse_multiple-format_all}

abbrev book : SubscriptionSpec
book = record {
  stream_type = StreamType.l2;
  exchange = okx_swap;
  instrument = ascii "BTCUSDT";
  max_connections = some 3;
}

abbrev trades : SubscriptionSpec
trades = record {
  stream_type = StreamType.trade;
  exchange = deribit;
  instrument = ascii "BTC-PERPETUAL";
  max_connections = none;
}

parse_multiple-format_all_example :
    parse_multiple (format_all book (trades ∷ [])) ≡ some (book ∷ trades ∷ [])
parse_multiple-format_all_example = parse_multiple-format_all book (trades ∷ []) (ground arith)
