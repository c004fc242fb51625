-- ===== src/StreamProcessor/Factory/Sequence.antt =====
-- The sequence numbers that src/md/processor.rs sends of a stream of src/exchanges/deribit.rs.
use mathlib.Core.Path.{subst}
use rstrader.Base.{ℕ, ◌≡◌, sym, ap, Option, none, some, List, [], ◌∷◌}
use rstrader.Base.Int.{pos}
use rstrader.Base.Bytes.{Bytes}
use rstrader.Exchange.{ExchangeId, deribit}
use rstrader.Okx.{InstrumentRegistry}
use rstrader.Processor.{BaseProcessor, new, next_packet_id, Input, count32}
use rstrader.Processor.Consecutive.{updates_of, Follows, append-Follows, take-Follows}
use rstrader.Deribit.{deribit_processor}
use rstrader.Deribit.Sequence.{deribit_processor-Numbers}
use rstrader.StreamProcessor.{Sender, process_raw_message, run_stream_processor}
use rstrader.StreamProcessor.Sent.{all_updates, run_stream_processor-Sends}
use rstrader.StreamProcessor.Factory.{
  on_deribit, create_processor, Decoding, deribit_one, any_processor,
}

created :
    (registry : Option InstrumentRegistry) (x : ExchangeId)
    → x ≡ deribit
    → create_processor registry x ≡ on_deribit new
unfolding create_processor
created registry x e = ap (create_processor registry) e

module _ {V : Type 0} (d : Decoding V) (registry : Option InstrumentRegistry) (symbol : Bytes) where
  all_updates-Follows :
      (is : List Input) (p : BaseProcessor)
      → Follows p.sequence_counter (
          all_updates (any_processor d) (create_processor registry) symbol is (some (on_deribit p)))
  unfolding process_raw_message any_processor deribit_processor next_packet_id
  all_updates-Follows [] p = tt
  all_updates-Follows (i ∷ is) p =
      let base = (next_packet_id p).0 in
      let j : Input = record i {
        symbol = symbol;
        packet_id = (next_packet_id p).1;
        message_bytes = count32 i.raw_msg.data_bytes;
      } in
      let out = (deribit_one d).process_message j base in
      append-Follows p.sequence_counter out.0.sequence_counter (updates_of out.1)
        (all_updates (any_processor d) (create_processor registry) symbol is
          (some (on_deribit out.0)))
        (deribit_processor-Numbers d.arithmetic d.hash d.deribit_message j base)
        (all_updates-Follows is out.0)

  new_updates-Follows :
      (is : List Input)
      → Follows (pos 0) (
          all_updates
            (any_processor d)
            (create_processor registry)
            symbol
            is
            (some (on_deribit new)))
  unfolding new
  new_updates-Follows is = all_updates-Follows is new

  first_updates-Follows :
      (i : Input) (is : List Input)
      → i.raw_msg.exchange_id ≡ deribit
      → Follows
          (pos 0)
          (all_updates (any_processor d) (create_processor registry) symbol (i ∷ is) none)
  first_updates-Follows i is e =
      subst
        (λ p.
          Follows (pos 0)
            (all_updates (any_processor d) (create_processor registry) symbol (i ∷ is) (some p)))
        (sym (created registry i.raw_msg.exchange_id e)) (new_updates-Follows (i ∷ is))

  -- On a stream that starts with a message of Deribit, whatever its messages hold, those refused
  -- and those sent by other exchanges included, and however long the receiver stays: the updates
  -- it is sent are numbered from one on, without a gap and without a repeat.
  pub run_stream_processor-Follows :
      (i : Input) (is : List Input) (room : ℕ)
      → i.raw_msg.exchange_id ≡ deribit
      → (let s : Sender = record { sent = []; room = room } in
          Follows
            (pos 0)
            (run_stream_processor
              (any_processor d)
              (create_processor registry)
              symbol
              (i ∷ is)
              none
              s).0.sent)
  run_stream_processor-Follows i is room e =
      let s : Sender = record { sent = []; room = room } in
      let us = all_updates (any_processor d) (create_processor registry) symbol (i ∷ is) none in
      rw
        ((run_stream_processor-Sends (any_processor d) (create_processor registry) symbol (i ∷ is)
          none s).0)
        (take-Follows (pos 0) room us (first_updates-Follows i is e))
