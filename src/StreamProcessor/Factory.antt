-- ===== src/StreamProcessor/Factory.antt =====
-- src/exchanges/mod.rs: the processors behind the trait and their factory. What serde and
-- `fast_float` make of the bytes, and the symbol hash, are arguments.
pub mod Sequence
use rstrader.Base.{ℕ, Option, none, List}
use rstrader.Base.Float.{F64}
use rstrader.Base.Bytes.{Bytes}
use rstrader.Errors.{Result}
use rstrader.Exchange.{ExchangeId, binance_futures, okx_swap, okx_spot, deribit}
use rstrader.Types.{OrderBookL2Update, TradeUpdate}
use rstrader.Metrics.{Arithmetic}
use rstrader.Processor.{BaseProcessor, Input, ExchangeProcessor}
use rstrader.Processor as Processor
use rstrader.Binance.Processing.{DepthJson, BinanceTradeUpdate, binance_processor}
use rstrader.Okx.{OkxMessage, InstrumentRegistry}
use rstrader.Okx.Processing.{OkxProcessor}
use rstrader.Okx.Processing as Okx
use rstrader.Okx.Processing.Trades.{TradeJson, okx_processor}
use rstrader.Deribit.{Parsing, deribit_processor}

-- A boxed processor of one of the exchanges.
pub data AnyProcessor : Type 0 where
  on_binance on_deribit : BaseProcessor → AnyProcessor
  on_okx : OkxProcessor → AnyProcessor

pub create_processor : Option InstrumentRegistry → ExchangeId → AnyProcessor
create_processor registry binance_futures = on_binance Processor.new
create_processor registry okx_swap = on_okx (Okx.new okx_swap registry)
create_processor registry okx_spot = on_okx (Okx.new okx_spot registry)
create_processor registry deribit = on_deribit Processor.new

pub record Decoding (V : Type 0) : Type 0 where
  pub arithmetic : Arithmetic
  pub parse_f64 : Bytes → Option F64
  pub hash : Bytes → ℕ
  pub binance_depth : Bytes → DepthJson
  pub binance_trade : Bytes → Option BinanceTradeUpdate
  pub okx_message : Bytes → Option OkxMessage
  pub okx_trades : Bytes → TradeJson
  pub deribit_message : Parsing V

module _ {V : Type 0} (d : Decoding V) where
  abbrev binance : ExchangeProcessor BaseProcessor
  binance = binance_processor d.arithmetic d.parse_f64 d.hash d.binance_depth d.binance_trade

  abbrev okx : ExchangeProcessor OkxProcessor
  okx = okx_processor d.arithmetic d.parse_f64 d.hash d.okx_message d.okx_trades

  abbrev pub deribit_one : ExchangeProcessor BaseProcessor
  deribit_one = deribit_processor d.arithmetic d.hash d.deribit_message

  process_message : Input → AnyProcessor → AnyProcessor × Result (List OrderBookL2Update)
  process_message i (on_binance p) = let (q, r) = binance.process_message i p in (on_binance q, r)
  process_message i (on_deribit p) =
      let (q, r) = deribit_one.process_message i p in (on_deribit q, r)
  process_message i (on_okx p) = let (q, r) = okx.process_message i p in (on_okx q, r)

  process_trade_message : Input → AnyProcessor → AnyProcessor × Result (List TradeUpdate)
  process_trade_message i (on_binance p) =
      let (q, r) = binance.process_trade_message i p in (on_binance q, r)
  process_trade_message i (on_deribit p) =
      let (q, r) = deribit_one.process_trade_message i p in (on_deribit q, r)
  process_trade_message i (on_okx p) = let (q, r) = okx.process_trade_message i p in (on_okx q, r)

  base_processor : AnyProcessor → BaseProcessor
  base_processor (on_binance p) = binance.base_processor p
  base_processor (on_deribit p) = deribit_one.base_processor p
  base_processor (on_okx p) = okx.base_processor p

  with_base : BaseProcessor → AnyProcessor → AnyProcessor
  with_base b (on_binance p) = on_binance (binance.with_base b p)
  with_base b (on_deribit p) = on_deribit (deribit_one.with_base b p)
  with_base b (on_okx p) = on_okx (okx.with_base b p)

  pub any_processor : ExchangeProcessor AnyProcessor
  unfolding process_message process_trade_message base_processor with_base
  any_processor = record {
    process_message = process_message;
    process_trade_message = process_trade_message;
    base_processor = base_processor;
    with_base = with_base;
  }
