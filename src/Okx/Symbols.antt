-- ===== src/Okx/Symbols.antt =====
-- src/exchanges/okx.rs: symbols, in the standard form and in that of OKX.
use rstrader.Base.{
  ℕ, ◌≡◌, refl, sym, ap, ◌∙◌, false, none, some, [], ◌∷◌, ◌++◌, ◌==◌, All, append_assoc,
  option_split, Option-cases, inl, inr,
}
use rstrader.Base.Bytes.{Bytes, ascii}
use rstrader.Base.Suffix.{
  strip_suffix, strip_suffix-append, strip_suffix_sound, remove, remove_id, remove-append,
}
use rstrader.Exchange.{ExchangeId, binance_futures, okx_swap, okx_spot, deribit}

-- The base of the symbol is put before the form that OKX has for its quote currency.
requote : Bytes → Bytes → Bytes → Bytes
requote usdt usd symbol = elim (strip_suffix (ascii "USDT") symbol) [
  | some base ↦ base ++ usdt
  | none ↦ elim (strip_suffix (ascii "USD") symbol) [ some base ↦ base ++ usd | none ↦ symbol ]
]

pub convert_symbol : ExchangeId → Bytes → Bytes
unfolding requote
convert_symbol okx_swap symbol = requote (ascii "-USDT-SWAP") (ascii "-USD-SWAP") symbol
convert_symbol okx_spot symbol = requote (ascii "-USDT") (ascii "-USD") symbol
convert_symbol _ symbol = symbol

pub convert_symbol_from_okx : ExchangeId → Bytes → Bytes
convert_symbol_from_okx okx_swap symbol = elim (strip_suffix (ascii "-SWAP") symbol) [
  | some base ↦ remove b'-' base
  | none ↦ remove b'-' symbol
]
convert_symbol_from_okx okx_spot symbol = remove b'-' symbol
convert_symbol_from_okx _ symbol = symbol

abbrev pub HasNoDash : Bytes → Type 0
HasNoDash s = All (λ c. (c == b'-') ≡ false) s

All-prefix : (P : ℕ → Type 0) (s t : Bytes) → All P (s ++ t) → All P s
All-prefix P [] t h = tt
All-prefix P (c ∷ s) t (h, k) = (h, All-prefix P s t k)

All-suffix : (P : ℕ → Type 0) (s t : Bytes) → All P (s ++ t) → All P t
All-suffix P [] t h = h
All-suffix P (c ∷ s) t (h, k) = All-suffix P s t k

-- A symbol without dashes does not end in a suffix that starts with one.
no_suffix : (suffix s : Bytes) → HasNoDash s → strip_suffix (b'-' ∷ suffix) s ≡ none
no_suffix suffix s h = elim (Option-cases (strip_suffix (b'-' ∷ suffix) s)) [
  | inl e ↦ e
  | inr (base, e) ↦
      let k =
        All-suffix (λ c. (c == b'-') ≡ false) base (b'-' ∷ suffix)
          (rw (strip_suffix_sound (b'-' ∷ suffix) s base e) at h) in
      absurd (cc)
]

-- What the dashes leave of a base and its quote.
from_parts :
    (base quote : Bytes)
    → HasNoDash (base ++ quote)
    → remove b'-' (base ++ b'-' ∷ quote) ≡ base ++ quote
unfolding remove
from_parts base quote h =
    remove-append b'-' base (b'-' ∷ quote)
    ∙ ap (λ t. t ++ remove b'-' quote)
        (remove_id b'-' base (All-prefix (λ c. (c == b'-') ≡ false) base quote h))
    ∙ ap (λ t. base ++ t)
        (remove_id b'-' quote (All-suffix (λ c. (c == b'-') ≡ false) base quote h))

swap_parts :
    (base quote : Bytes)
    → HasNoDash (base ++ quote)
    → convert_symbol_from_okx okx_swap (base ++ (b'-' ∷ quote ++ ascii "-SWAP")) ≡ base ++ quote
unfolding convert_symbol_from_okx
swap_parts base quote h =
    let e =
      ap (strip_suffix (ascii "-SWAP")) (sym (append_assoc base (b'-' ∷ quote) (ascii "-SWAP")))
      ∙ strip_suffix-append (base ++ b'-' ∷ quote) (ascii "-SWAP") in
    rw (convert_symbol_from_okx, e) (from_parts base quote h)

no_parts : (s : Bytes) → HasNoDash s → convert_symbol_from_okx okx_swap s ≡ s
unfolding convert_symbol_from_okx
no_parts s h = rw (convert_symbol_from_okx, no_suffix (ascii "SWAP") s h) (remove_id b'-' s h)

-- A symbol without dashes comes back from its form on either OKX exchange, whatever its quote
-- currency.
pub convert_symbol_from_okx-convert_symbol :
    (ex : ExchangeId) (s : Bytes)
    → HasNoDash s
    → convert_symbol_from_okx ex (convert_symbol ex s) ≡ s
unfolding convert_symbol requote convert_symbol_from_okx
convert_symbol_from_okx-convert_symbol binance_futures s h = refl
convert_symbol_from_okx-convert_symbol deribit s h = refl
convert_symbol_from_okx-convert_symbol okx_swap s h =
    let P : Bytes → Type 0 = λ x. convert_symbol_from_okx okx_swap x ≡ s in
    option_split P (strip_suffix (ascii "USDT") s)
      (λ n.
        option_split P (strip_suffix (ascii "USD") s) (λ m. no_parts s h)
          (λ base e.
            let k = strip_suffix_sound (ascii "USD") s base e in
            swap_parts base (ascii "USD") (rw k at h) ∙ sym k))
      (λ base e.
        let k = strip_suffix_sound (ascii "USDT") s base e in
        swap_parts base (ascii "USDT") (rw k at h) ∙ sym k)
convert_symbol_from_okx-convert_symbol okx_spot s h =
    let P : Bytes → Type 0 = λ x. remove b'-' x ≡ s in
    option_split P (strip_suffix (ascii "USDT") s)
      (λ n.
        option_split P (strip_suffix (ascii "USD") s) (λ m. remove_id b'-' s h)
          (λ base e.
            let k = strip_suffix_sound (ascii "USD") s base e in
            from_parts base (ascii "USD") (rw k at h) ∙ sym k))
      (λ base e.
        let k = strip_suffix_sound (ascii "USDT") s base e in
        from_parts base (ascii "USDT") (rw k at h) ∙ sym k)
