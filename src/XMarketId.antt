-- ===== src/XMarketId.antt =====
-- src/xcommons/xmarket_id.rs: the exchange in the top byte of the id, a hash of the symbol below.
-- The hash, xxh3_64_with_seed at the source's seed, is a parameter; its values are u64.
pub mod Fields
mod Tests
use Prim.Native.Nat.{bit_or, bit_and}
use rstrader.Base.{ℕ, ◌-◌, ◌*◌, ◌/◌, ◌%◌, ◌^◌}
use rstrader.Base.Int.{ℤ}
use rstrader.Base.Word.{bits64, signed64}
use rstrader.Base.Bytes.{Bytes, trim, to_upper}
use rstrader.Exchange.{ExchangeId, discriminant}

pub normalize_symbol : Bytes → Bytes
normalize_symbol s = to_upper (trim s)

pub make : (Bytes → ℕ) → ExchangeId → Bytes → ℤ
make hash exchange symbol =
    let low56 = bit_and (hash (normalize_symbol symbol)) (2 ^ 56 - 1) in
    signed64 (bit_or (discriminant exchange * 2 ^ 56 % 2 ^ 64) low56)

pub exchange_from : ℤ → ℕ
exchange_from id = bits64 id / 2 ^ 56 % 2 ^ 8
