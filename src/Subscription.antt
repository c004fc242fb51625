-- ===== src/Subscription.antt =====
-- `SubscriptionSpec` of src/xcommons/types.rs. `none` stands for an error message.

pub mod RoundTrip
mod Tests
use rstrader.Base.{ℕ, ◌==◌, Bool, Option, none, some, List, [], ◌∷◌, if◌then◌else◌}
use rstrader.Base.Options.{◌>>=◌}
use rstrader.Base.Bytes.{Bytes, ascii, trim}
use rstrader.Base.Suffix.{strip_suffix}
use rstrader.Base.Split.{split, rsplit_once}
use rstrader.Base.Decimal.{read_u64}
use rstrader.Exchange.{ExchangeId, StreamType, exchange_from_str, stream_type_from_str}

pub record SubscriptionSpec : Type 0 where
  pub stream_type : StreamType
  pub exchange : ExchangeId
  pub instrument : Bytes
  pub max_connections : Option ℕ

-- Exactly two parts.
two_parts : List Bytes → Option (Bytes × Bytes)
two_parts [] = none
two_parts (a ∷ []) = none
two_parts (a ∷ b ∷ []) = some (a, b)
two_parts (a ∷ b ∷ c ∷ ps) = none

filled : Bytes → Option Bytes
filled [] = none
filled (c ∷ s) = some (c ∷ s)

parse_connections : Bytes → Option ℕ
parse_connections inside = do n ← read_u64 inside; if n == 0 then none else some n

-- The number of connections is in brackets at the end; without them all is the instrument.
parse_instrument : Bytes → Option (Bytes × Option ℕ)
unfolding filled parse_connections
parse_instrument raw = elim (rsplit_once b'[' raw) [
  | none ↦ some (raw, none)
  | some (base, after) ↦ elim (strip_suffix (ascii "]") after) [
    | none ↦ some (raw, none)
    | some inside ↦ do
      instrument ← filled base
      n ← parse_connections inside
      some (instrument, some n)
  ]
]

pub parse : Bytes → Option SubscriptionSpec
unfolding two_parts filled parse_instrument
parse input = do
  (stream_text, exchange_instrument) ← two_parts (split b':' input)
  stream_type ← stream_type_from_str stream_text
  (exchange_text, instrument_raw) ← two_parts (split b'@' exchange_instrument)
  exchange ← exchange_from_str exchange_text
  (base, max_connections) ← parse_instrument (trim instrument_raw)
  instrument ← filled base
  some (record {
    stream_type = stream_type;
    exchange = exchange;
    instrument = instrument;
    max_connections = max_connections;
  })

-- The entries between the commas; an empty one is passed over.
parse_entries : List Bytes → Option (List SubscriptionSpec)
unfolding parse
parse_entries [] = some []
parse_entries (s ∷ ss) =
    let rest = parse_entries ss in
    elim (trim s) [ [] ↦ rest | c ∷ t ↦ do spec ← parse (c ∷ t); specs ← rest; some (spec ∷ specs) ]

at_least_one : List SubscriptionSpec → Option (List SubscriptionSpec)
at_least_one [] = none
at_least_one (s ∷ ss) = some (s ∷ ss)

pub parse_multiple : Bytes → Option (List SubscriptionSpec)
unfolding parse_entries at_least_one
parse_multiple input = elim (trim input) [
  | [] ↦ none
  | c ∷ t ↦ parse_entries (split b',' input) >>= at_least_one
]
