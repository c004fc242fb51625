-- ===== src/Lib.antt =====
-- rstrader, a trading engine. Connectors read the messages of exchanges; processors turn them into
-- one set of records; order books, deduplication and arbitration work on those; sinks write them
-- out. Executions of an account are stored and replayed into positions for the strategies.
--
-- The parts modelled, their files, and the source each is about:
--   Errors         src/xcommons/error.rs, src/exchanges/mod.rs: the error values, `Result`
--   Exchange       src/xcommons/types.rs: `ExchangeId`, `StreamType`, their names and parsing
--   Subscription   src/xcommons/types.rs: the text of subscriptions
--   XMarketId      src/xcommons/xmarket_id.rs: `make`, `exchange_from`
--   MonoSeq        src/xcommons/monoseq.rs: `next` as rounds of `attempt`; threads that interleave
--                  between the load and the compare and exchange are in MonoSeq/Threads
--   Oms, Types     src/xcommons/oms.rs, src/xcommons/types.rs: the records and their builders;
--                  Oms/ClOrdId is the text of client order ids, Oms/Requests what a strategy asks
--                  of an account
--   Metrics        src/xcommons/types.rs: the counters and averages of a processor
--   OrderBook      src/md/orderbook.rs: `OrderBookManager`; OrderBook/Levels is the BTreeMap of a
--                  side, a list in the order of `OrderedFloat`
--   Deduper        src/md/deduper.rs: `insert`, `prune`, `enforce_capacity`
--   CircuitBreaker src/xcommons/circuit_breaker.rs: `can_execute`, `record_success`,
--                  `record_failure`, and sequences of calls
--   Binance        src/exchanges/binance.rs: the connector. Binance holds its state, the
--                  reconciliation with a snapshot and the replay, Binance/Session connecting and
--                  `next_message`, Binance/Scan the scan for update ids, Binance/Rest the snapshot,
--                  Binance/Processing the message processor
--   Processor      src/exchanges/mod.rs: `BaseProcessor` and the trait of the message processors;
--                  Processor/Loop is the loop over the levels of a book
--   Deribit        src/exchanges/deribit.rs: the message processor
--   StreamProcessor src/md/processor.rs: the stream from raw messages to a channel of updates;
--                  StreamProcessor/Factory has the processors of src/exchanges/mod.rs behind the
--                  trait and their factory
--   Okx            src/exchanges/okx.rs: the instruments and their registry; Okx/Symbols the symbols,
--                  Okx/Connector the connector and its streams, Okx/Rest the snapshot and the
--                  conversions of whole updates, Okx/Processing the message processor
--   Position       src/xcommons/position.rs: `trade` with its branches, and what is built on it
--   Account        src/trading/account_state/mod.rs: `InMemoryExecutionsDatastore`; Account/Replay
--                  is `AccountState` for one market, which uses the store and a Position
--   Strategy       src/strats/api.rs: the trait of the strategies and the loop that feeds one with
--                  batches of messages; what every handler keeps, the loop keeps (Strategy/Batches)
--   NaiveMm        src/strats/naive_mm/strategy.rs: the market maker as such a strategy; NaiveMm/Update
--                  is its decision pass
--   Base           numbers, lists, bytes, 64-bit words, decimal text, doubles, sorting, for all of these
--
-- How the code is read:
--   - A struct is a record; a method that changes it gives the new record, with its result. A failed
--     assertion and a wait that has not ended are `none`; an error is a value of `Result`.
--   - A double is NaN, an infinity, or a whole number of units of 2^-1074 (Base/Float). Comparison,
--     sign and absolute value are exact; +, -, * and / are the record `Rounded`, an argument, of which
--     some theorems assume what IEEE 754 says of zero and of opposite numbers. The two zeros are one.
--   - i64 arithmetic wraps (Base/Word) where it can leave the range. Update ids, times and market ids
--     are integers; a theorem that needs them to be i64 says so.
--   - Clocks, websocket frames, REST responses, parsed JSON, the adapter's history, generated ids and
--     the hash of symbols are arguments: the clock of MonoSeq is the list of its next readings, a
--     connection the list of its next frames. Loops recurse on these lists, so none needs fuel; a wait or a read ends where the
--     list does, and the theorem on `attempt` says which clocks are long enough.
--   - Text is a list of bytes. Log lines, the counters of the connectors and most values
--     printed into messages are left out.
--
-- Not modelled: JSON, whose values the processors take as arguments; the Deribit connector and the
-- account adapter; latency arbitration and the unified handler (tasks joined by channels); the
-- registrar of subscriptions and the tasks that StrategyRunner starts; the sinks for Parquet and
-- QuestDB; histograms and the exporters of metrics; the configuration and the start of the program;
-- the SQL store of executions, which runs in a remote database; `start_trade_stream` of Binance, and
-- `resolve_machine_id`, which hashes the environment.
pub mod Account
pub mod Base
pub mod Binance
pub mod CircuitBreaker
pub mod Deduper
pub mod Deribit
pub mod Errors
pub mod Exchange
pub mod Metrics
pub mod MonoSeq
pub mod NaiveMm
pub mod Okx
pub mod Oms
pub mod OrderBook
pub mod Position
pub mod Processor
pub mod Strategy
pub mod StreamProcessor
pub mod Subscription
pub mod Types
pub mod XMarketId
