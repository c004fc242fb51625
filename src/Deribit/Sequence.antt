-- ===== src/Deribit/Sequence.antt =====
-- The sequence numbers of the book updates of src/exchanges/deribit.rs.
use rstrader.Base.{ℕ, ◌≡◌, refl, ap, Option, none, some, List, [], ◌∷◌, ◌++◌, if_both, option_both}
use rstrader.Base.Int.{ℤ}
use rstrader.Base.Bytes.{Bytes, ascii}
use rstrader.Oms.{Side, buy, sell}
use rstrader.Types.{OrderBookL2Update}
use rstrader.Metrics.{Arithmetic, increment_received}
use rstrader.Processor.{BaseProcessor, next, on_metrics, next_sequence_id, Input}
use rstrader.Processor.Loop.{advance, number}
use rstrader.Processor.Consecutive.{
  IsConsecutive, number-IsConsecutive, append-IsConsecutive, Numbers,
}
use rstrader.Deribit.{
  DeribitNotification, DeribitLevel, DeribitOrderBookData, level_update, push_each,
  process_order_book_data, note_parsed, note_exchange, is_on, process_book, process_notification,
  process_message, Parsing, deribit_processor,
}

push_each-number :
    (build : ℤ → DeribitLevel → OrderBookL2Update) (ls : List DeribitLevel) (p : BaseProcessor)
    → push_each build ls p ≡ (
      record p { sequence_counter = advance p.sequence_counter ls },
      number build p.sequence_counter ls,
    )
unfolding push_each next_sequence_id
push_each-number build [] p = refl
push_each-number build (l ∷ ls) p =
    let q : BaseProcessor = record p { sequence_counter = next p.sequence_counter } in
    ap
      (λ (r : BaseProcessor × List OrderBookL2Update).
        (r.0, build (next p.sequence_counter) l ∷ r.1))
      (push_each-number build ls q)

-- A book: the updates of the bids and then of the asks, numbered from the counter on.
pub process_order_book_data-number :
    (hash : Bytes → ℕ) (i : Input) (d : DeribitOrderBookData) (p : BaseProcessor)
    → (let n = p.sequence_counter in
        process_order_book_data hash i d p ≡ (
          record p { sequence_counter = advance (advance n d.bids) d.asks },
          number (level_update hash i d buy) n d.bids
              ++ number (level_update hash i d sell) (advance n d.bids) d.asks,
        ))
unfolding process_order_book_data
process_order_book_data-number hash i d p =
    rw
      (
        push_each-number (level_update hash i d buy) d.bids p,
        push_each-number (level_update hash i d sell) d.asks
            (record p { sequence_counter = advance p.sequence_counter d.bids }),
      )
      refl

module _ (a : Arithmetic) (hash : Bytes → ℕ) where
  level_update-IsConsecutive :
      (i : Input) (d : DeribitOrderBookData) (side : Side) (n : ℤ) (ls : List DeribitLevel)
      → IsConsecutive n (advance n ls) (number (level_update hash i d side) n ls)
  unfolding level_update
  level_update-IsConsecutive i d side n ls =
      number-IsConsecutive (level_update hash i d side) (λ k l. refl) n ls

  process_order_book_data-IsConsecutive :
      (i : Input) (d : DeribitOrderBookData) (p : BaseProcessor)
      → (let out = process_order_book_data hash i d p in
          IsConsecutive p.sequence_counter out.0.sequence_counter out.1)
  process_order_book_data-IsConsecutive i d p =
      let n = p.sequence_counter in
      rw (process_order_book_data-number hash i d p) (
        append-IsConsecutive n (advance n d.bids) (advance (advance n d.bids) d.asks)
          (number (level_update hash i d buy) n d.bids)
          (number (level_update hash i d sell) (advance n d.bids) d.asks)
          (level_update-IsConsecutive i d buy n d.bids)
          (level_update-IsConsecutive i d sell (advance n d.bids) d.asks))

  process_book-Numbers :
      (i : Input) (d : DeribitOrderBookData) (p : BaseProcessor)
      → Numbers p (process_book a hash i d p)
  unfolding process_book
  process_book-Numbers i d p =
      process_order_book_data-IsConsecutive i d (on_metrics (note_exchange a i d.timestamp) p)

  module _ {V : Type 0} (parse_book : V → Option DeribitOrderBookData) where
    process_notification-Numbers :
        (i : Input) (n : DeribitNotification V) (p : BaseProcessor)
        → Numbers p (process_notification a hash parse_book i n p)
    unfolding process_notification
    process_notification-Numbers i n p =
        if_both (Numbers p) (is_on (ascii "book.") n)
          (option_both (Numbers p) (parse_book n.payload) refl (λ d. process_book-Numbers i d p))
          refl

    -- Whatever a message holds, its book updates are numbered on from the processor's counter,
    -- without a gap, and the counter is left at the last number; a message that is refused, or
    -- that is no book, uses no number.
    pub process_message-Numbers :
        (json : Option (DeribitNotification V)) (i : Input) (p : BaseProcessor)
        → Numbers p (process_message a hash parse_book json i p)
    unfolding process_message
    process_message-Numbers none i p = refl
    process_message-Numbers (some n) i p =
        process_notification-Numbers i n
          (on_metrics (note_parsed a i) (on_metrics increment_received p))

pub deribit_processor-Numbers :
    {V : Type 0} (a : Arithmetic) (hash : Bytes → ℕ) (serde : Parsing V) (i : Input)
    (p : BaseProcessor)
    → Numbers p ((deribit_processor a hash serde).process_message i p)
unfolding deribit_processor
deribit_processor-Numbers a hash serde i p =
    process_message-Numbers a hash serde.parse_book (serde.parse_notification i.raw_msg.data_bytes)
      i p
