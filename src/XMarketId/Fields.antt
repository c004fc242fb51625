-- ===== src/XMarketId/Fields.antt =====
-- The two fields of a market id do not disturb one another.
use rstrader.Base.{ℕ, ◌+◌, ◌*◌, ◌%◌, ◌^◌, ◌≤◌, ◌≡◌, sym, ◌∙◌, arith, ◌↔◌}
use rstrader.Base.Int.{pos}
use rstrader.Base.Bits.{bit_or-shifted, bit_and-mask}
use rstrader.Base.Bytes.{Bytes}
use rstrader.Exchange.{ExchangeId, binance_futures, okx_swap, okx_spot, deribit, discriminant}
use rstrader.XMarketId.{normalize_symbol, make, exchange_from}

discriminant_bounds : (x : ExchangeId) → (1 ≤ discriminant x) × (discriminant x ≤ 4)
unfolding discriminant
discriminant_bounds binance_futures = omega arith
discriminant_bounds okx_swap = omega arith
discriminant_bounds okx_spot = omega arith
discriminant_bounds deribit = omega arith

discriminant_injective : (x y : ExchangeId) → discriminant x ≡ discriminant y → x ≡ y
unfolding discriminant
discriminant_injective x y h = ground arith

-- The id is the sum of its fields, and never negative.
pub make_value :
    (hash : Bytes → ℕ) (x : ExchangeId) (s : Bytes)
    → make hash x s ≡ pos (discriminant x * 2 ^ 56 + hash (normalize_symbol s) % 2 ^ 56)
unfolding make
make_value hash x s =
    let d = discriminant_bounds x in
    let h = hash (normalize_symbol s) in
    let small : discriminant x * 2 ^ 56 % 2 ^ 64 ≡ discriminant x * 2 ^ 56 = omega arith in
    rw (bit_and-mask 56 h, small, bit_or-shifted 56 (discriminant x) (h % 2 ^ 56) (omega arith))
      (ground arith)

-- The exchange is read back from the id of any of its symbols, whatever the hash.
pub exchange_from-make :
    (hash : Bytes → ℕ) (x : ExchangeId) (s : Bytes) → exchange_from (make hash x s) ≡ discriminant x
unfolding exchange_from
exchange_from-make hash x s = rw (make_value hash x s) (omega (arith, discriminant_bounds x))

-- Ids of different exchanges never meet, and on one exchange two ids meet exactly when the low 56
-- bits of the hashes do.
pub make-eq_iff :
    (hash : Bytes → ℕ) (x y : ExchangeId) (s t : Bytes)
    → (make hash x s ≡ make hash y t)
      ↔ ((x ≡ y) × (hash (normalize_symbol s) % 2 ^ 56 ≡ hash (normalize_symbol t) % 2 ^ 56))
make-eq_iff hash x y s t = (apart, together)
  where
    together :
        (x ≡ y) × (hash (normalize_symbol s) % 2 ^ 56 ≡ hash (normalize_symbol t) % 2 ^ 56)
        → make hash x s ≡ make hash y t
    together (e, h) = rw (make_value hash x s, make_value hash y t, e, h)

    apart :
        make hash x s ≡ make hash y t
        → (x ≡ y) × (hash (normalize_symbol s) % 2 ^ 56 ≡ hash (normalize_symbol t) % 2 ^ 56)
    apart e =
        let same = sym (make_value hash x s) ∙ e ∙ make_value hash y t in
        let top : discriminant x ≡ discriminant y = ground arith in
        (discriminant_injective x y top, ground arith)
