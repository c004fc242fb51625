-- ===== src/Subscription/RoundTrip/Multiple.antt =====
-- The text of several subscriptions of src/xcommons/types.rs is parsed back to them.
use rstrader.Base.{
  ℕ, ◌==◌, ◌≡◌, refl, ap, ◌∙◌, false, some, List, [], ◌∷◌, ◌++◌, map, All, All-append, All-weaken,
  arith,
}
use rstrader.Base.Options.{◌>>=◌}
use rstrader.Base.Bytes.{Bytes, is_blank, trim, trim_id}
use rstrader.Base.Split.{split, Lacks, split_whole, split-append}
use rstrader.Exchange.{exchange_name}
use rstrader.Exchange.Names.{stream_name}
use rstrader.Subscription.{SubscriptionSpec, parse, parse_entries, at_least_one, parse_multiple}
use rstrader.Subscription.RoundTrip.{
  IsQuiet, place, exchange_part, format, IsFilled, IsSpec, stream_name-IsQuiet,
  exchange_name-IsQuiet, place-IsQuiet, parse-format,
}

-- The texts of some subscriptions, with commas between them.
abbrev pub format_all : SubscriptionSpec → List SubscriptionSpec → Bytes
format_all s [] = format s
format_all s (t ∷ ts) = format s ++ b',' ∷ format_all t ts

format-All :
    (P : ℕ → Type 0) (s : SubscriptionSpec)
    → ((c : ℕ) → IsQuiet c → P c)
    → P b':'
    → P b'@'
    → IsSpec s
    → All P (format s)
format-All P s q colon at_ h =
    All-append P (stream_name s.stream_type) (b':' ∷ exchange_part s)
      (All-weaken IsQuiet P q (stream_name s.stream_type) (stream_name-IsQuiet s.stream_type))
      (
        colon,
        All-append P (exchange_name s.exchange) (b'@' ∷ place s)
            (All-weaken IsQuiet P q (exchange_name s.exchange) (exchange_name-IsQuiet s.exchange))
            (at_, All-weaken IsQuiet P q (place s) (place-IsQuiet s h)),
      )

format-Lacks : (s : SubscriptionSpec) → IsSpec s → Lacks b',' (format s)
format-Lacks s h =
    format-All (λ c. (c == b',') ≡ false) s (λ c q. q.1.1) (ground arith) (ground arith) h

trim-format : (s : SubscriptionSpec) → IsSpec s → trim (format s) ≡ format s
trim-format s h =
    trim_id (format s)
      (format-All (λ c. is_blank c ≡ false) s (λ c q. q.0.0) (ground arith) (ground arith) h)

split-format_all :
    (s : SubscriptionSpec) (ts : List SubscriptionSpec)
    → All IsSpec (s ∷ ts)
    → split b',' (format_all s ts) ≡ map format (s ∷ ts)
split-format_all s [] (h, hs) = split_whole b',' (format s) (format-Lacks s h)
split-format_all s (t ∷ ts) (h, hs) =
    split-append b',' (format s) (format_all t ts) (format-Lacks s h)
    ∙ ap (λ ps. format s ∷ ps) (split-format_all t ts hs)

IsFilled-append : (x : ℕ) (s t : Bytes) → IsFilled (s ++ x ∷ t)
IsFilled-append x [] t = tt
IsFilled-append x (c ∷ s) t = tt

IsFilled-format : (s : SubscriptionSpec) → IsFilled (format s)
IsFilled-format s = IsFilled-append b':' (stream_name s.stream_type) (exchange_part s)

-- One entry that is parsed, before the others.
parse_entry :
    (x : Bytes) (s : SubscriptionSpec) (xs : List Bytes)
    → trim x ≡ x
    → IsFilled x
    → parse x ≡ some s
    → parse_entries (x ∷ xs) ≡ (parse_entries xs >>= λ specs. some (s ∷ specs))
unfolding parse_entries
parse_entry [] s xs e f p = cc
parse_entry (c ∷ t) s xs e f p = rw (e, p, parse_entries) refl

parse_entries-format :
    (ss : List SubscriptionSpec) → All IsSpec ss → parse_entries (map format ss) ≡ some ss
unfolding parse_entries
parse_entries-format [] h = refl
parse_entries-format (s ∷ ss) (h, hs) =
    parse_entry (format s) s (map format ss) (trim-format s h) (IsFilled-format s)
      (parse-format s h)
    ∙ ap (λ o. o >>= λ specs. some (s ∷ specs)) (parse_entries-format ss hs)

format_all-unblank :
    (s : SubscriptionSpec) (ts : List SubscriptionSpec)
    → All IsSpec (s ∷ ts)
    → All (λ c. is_blank c ≡ false) (format_all s ts)
format_all-unblank s [] (h, hs) =
    format-All (λ c. is_blank c ≡ false) s (λ c q. q.0.0) (ground arith) (ground arith) h
format_all-unblank s (t ∷ ts) (h, hs) =
    All-append (λ c. is_blank c ≡ false) (format s) (b',' ∷ format_all t ts)
      (format-All (λ c. is_blank c ≡ false) s (λ c q. q.0.0) (ground arith) (ground arith) h)
      (ground arith, format_all-unblank t ts hs)

format_all-IsFilled :
    (s : SubscriptionSpec) (ts : List SubscriptionSpec) → IsFilled (format_all s ts)
format_all-IsFilled s [] = IsFilled-format s
format_all-IsFilled s (t ∷ ts) = IsFilled-append b',' (format s) (format_all t ts)

parse_multiple_filled :
    (x : Bytes)
    → trim x ≡ x
    → IsFilled x
    → parse_multiple x ≡ (parse_entries (split b',' x) >>= at_least_one)
unfolding parse_multiple
parse_multiple_filled [] e f = cc
parse_multiple_filled (c ∷ t) e f = rw (e, parse_multiple) refl

-- The text of at least one subscription, each of a stream, an exchange, an instrument without
-- blanks and the characters `:@,[`, and no number of connections or one from 1 to 2^64 - 1 in
-- brackets, with commas between them, is parsed to these subscriptions, in their order.
pub parse_multiple-format_all :
    (s : SubscriptionSpec) (ts : List SubscriptionSpec)
    → All IsSpec (s ∷ ts)
    → parse_multiple (format_all s ts) ≡ some (s ∷ ts)
unfolding at_least_one
parse_multiple-format_all s ts h =
    parse_multiple_filled (format_all s ts) (trim_id (format_all s ts) (format_all-unblank s ts h))
      (format_all-IsFilled s ts)
    ∙ ap (λ ps. parse_entries ps >>= at_least_one) (split-format_all s ts h)
    ∙ ap (λ o. o >>= at_least_one) (parse_entries-format (s ∷ ts) h)
