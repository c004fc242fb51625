-- ===== src/Subscription/RoundTrip.antt =====
-- The text of a subscription of src/xcommons/types.rs is parsed back to it.
pub mod Multiple
use rstrader.Base.{
  ℕ, ◌+◌, ◌<◌, ◌^◌, ◌==◌, ◌≡◌, refl, ap, ◌∙◌, Bool, true, false, Option, none, some, List, [], ◌∷◌,
  ◌++◌, append-nil, map, All, All-append, All-weaken, arith,
}
use rstrader.Base.Options.{◌>>=◌}
use rstrader.Base.Bytes.{Bytes, ascii, is_blank, trim, trim_id}
use rstrader.Base.Suffix.{strip_suffix, strip_suffix-append}
use rstrader.Base.Split.{
  split, rsplit_once, Lacks, split_whole, split-append, rsplit_once-append, rsplit_none,
}
use rstrader.Base.Decimal.{print_u64, read_u64, read-print_u64, print_u64-All}
use rstrader.Exchange.{ExchangeId, binance_futures, okx_swap, okx_spot, deribit, exchange_name}
use rstrader.Exchange.{StreamType, l2, trade, obs}
use rstrader.Exchange.Names.{
  exchange_from_str-exchange_name, stream_name, stream_type_from_str-stream_name,
}
use rstrader.Subscription.{
  SubscriptionSpec, two_parts, filled, parse_connections, parse_instrument, parse, parse_entries,
  at_least_one, parse_multiple,
}

-- Not a blank and none of the characters at which the text is split.
abbrev pub IsQuiet : ℕ → Type 0
IsQuiet c =
    ((is_blank c ≡ false) × ((c == b':') ≡ false)) × (((c == b'@') ≡ false) × ((c == b',') ≡ false))

abbrev bracketed : Option ℕ → Bytes
bracketed none = []
bracketed (some n) = b'[' ∷ print_u64 n ++ ascii "]"

-- The text of a subscription, with the usual names.
abbrev place : SubscriptionSpec → Bytes
place s = s.instrument ++ bracketed s.max_connections

abbrev exchange_part : SubscriptionSpec → Bytes
exchange_part s = exchange_name s.exchange ++ b'@' ∷ place s

abbrev pub format : SubscriptionSpec → Bytes
format s = stream_name s.stream_type ++ b':' ∷ exchange_part s

abbrev IsFilled : Bytes → Type 0
IsFilled [] = true ≡ false
IsFilled (c ∷ s) = Unit

abbrev IsCount : Option ℕ → Type 0
IsCount none = Unit
IsCount (some n) = (0 < n) × (n < 2 ^ 64)

-- The instrument is a text that can stand there, and the number of connections a usize above zero.
abbrev pub IsSpec : SubscriptionSpec → Type 0
IsSpec s =
    IsFilled s.instrument
    × (All IsQuiet s.instrument × (Lacks b'[' s.instrument × IsCount s.max_connections))

stream_name-IsQuiet : (t : StreamType) → All IsQuiet (stream_name t)
stream_name-IsQuiet l2 = ground arith
stream_name-IsQuiet trade = ground arith
stream_name-IsQuiet obs = ground arith

exchange_name-IsQuiet : (x : ExchangeId) → All IsQuiet (exchange_name x)
unfolding exchange_name
exchange_name-IsQuiet binance_futures = ground arith
exchange_name-IsQuiet okx_swap = ground arith
exchange_name-IsQuiet okx_spot = ground arith
exchange_name-IsQuiet deribit = ground arith

print_u64-IsQuiet : (n : ℕ) → All IsQuiet (print_u64 n)
print_u64-IsQuiet n = print_u64-All IsQuiet n (λ d h. ground (arith, h))

bracketed-IsQuiet : (o : Option ℕ) → All IsQuiet (bracketed o)
bracketed-IsQuiet none = tt
bracketed-IsQuiet (some n) = (
  ground arith,
  All-append IsQuiet (print_u64 n) (ascii "]") (print_u64-IsQuiet n) (ground arith),
)

place-IsQuiet : (s : SubscriptionSpec) → IsSpec s → All IsQuiet (place s)
place-IsQuiet s h =
    All-append IsQuiet s.instrument (bracketed s.max_connections) h.1.0
      (bracketed-IsQuiet s.max_connections)

filled-IsFilled : (s : Bytes) → IsFilled s → filled s ≡ some s
unfolding filled
filled-IsFilled [] h = cc
filled-IsFilled (c ∷ s) h = refl

print_u64-Lacks : (n : ℕ) → Lacks b'[' (print_u64 n ++ ascii "]")
print_u64-Lacks n =
    All-append (λ c. (c == b'[') ≡ false) (print_u64 n) (ascii "]")
      (print_u64-All (λ c. (c == b'[') ≡ false) n (λ d h. ground (arith, h))) (ground arith)

parse_connections-print_u64 :
    (n : ℕ) → 0 < n → n < 2 ^ 64 → parse_connections (print_u64 n) ≡ some n
unfolding parse_connections
parse_connections-print_u64 n p b = rw (read-print_u64 n b) (ground (arith, p))

parse_instrument_plain :
    (base : Bytes) → Lacks b'[' base → parse_instrument base ≡ some (base, none)
unfolding parse_instrument
parse_instrument_plain base l = rw (rsplit_none b'[' base l, parse_instrument) refl

parse_instrument-bracketed :
    (base : Bytes) (o : Option ℕ)
    → IsFilled base
    → Lacks b'[' base
    → IsCount o
    → parse_instrument (base ++ bracketed o) ≡ some (base, o)
unfolding parse_instrument
parse_instrument-bracketed base none f l h =
    ap parse_instrument (append-nil base) ∙ parse_instrument_plain base l
parse_instrument-bracketed base (some n) f l (p, b) =
    rw
      (
        rsplit_once-append b'[' base (print_u64 n ++ ascii "]") (print_u64-Lacks n),
        strip_suffix-append (print_u64 n) (ascii "]"),
        filled-IsFilled base f,
        parse_connections-print_u64 n p b,
        parse_instrument,
      )
      refl

quiet_colon : (s : Bytes) → All IsQuiet s → Lacks b':' s
quiet_colon s h = All-weaken IsQuiet (λ c. (c == b':') ≡ false) (λ c q. q.0.1) s h

quiet_at : (s : Bytes) → All IsQuiet s → Lacks b'@' s
quiet_at s h = All-weaken IsQuiet (λ c. (c == b'@') ≡ false) (λ c q. q.1.0) s h

exchange_part-Lacks : (s : SubscriptionSpec) → IsSpec s → Lacks b':' (exchange_part s)
exchange_part-Lacks s h =
    All-append (λ c. (c == b':') ≡ false) (exchange_name s.exchange) (b'@' ∷ place s)
      (quiet_colon (exchange_name s.exchange) (exchange_name-IsQuiet s.exchange))
      (ground arith, quiet_colon (place s) (place-IsQuiet s h))

split_stream :
    (s : SubscriptionSpec)
    → IsSpec s
    → split b':' (format s) ≡ stream_name s.stream_type ∷ exchange_part s ∷ []
split_stream s h =
    split-append b':' (stream_name s.stream_type) (exchange_part s)
      (quiet_colon (stream_name s.stream_type) (stream_name-IsQuiet s.stream_type))
    ∙ ap (λ ps. stream_name s.stream_type ∷ ps)
        (split_whole b':' (exchange_part s) (exchange_part-Lacks s h))

split_exchange :
    (s : SubscriptionSpec)
    → IsSpec s
    → split b'@' (exchange_part s) ≡ exchange_name s.exchange ∷ place s ∷ []
split_exchange s h =
    split-append b'@' (exchange_name s.exchange) (place s)
      (quiet_at (exchange_name s.exchange) (exchange_name-IsQuiet s.exchange))
    ∙ ap (λ ps. exchange_name s.exchange ∷ ps)
        (split_whole b'@' (place s) (quiet_at (place s) (place-IsQuiet s h)))

trim-place : (s : SubscriptionSpec) → IsSpec s → trim (place s) ≡ place s
trim-place s h =
    trim_id (place s)
      (All-weaken IsQuiet (λ c. is_blank c ≡ false) (λ c q. q.0.0) (place s) (place-IsQuiet s h))

pub parse-format : (s : SubscriptionSpec) → IsSpec s → parse (format s) ≡ some s
unfolding parse two_parts
parse-format s h =
    rw
      (
        split_stream s h,
        stream_type_from_str-stream_name s.stream_type,
        split_exchange s h,
        exchange_from_str-exchange_name s.exchange,
        trim-place s h,
        parse_instrument-bracketed s.instrument s.max_connections h.0 h.1.1.0 h.1.1.1,
        filled-IsFilled s.instrument h.0,
      )
      refl
