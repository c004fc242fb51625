-- ===== src/Errors.antt =====
-- src/xcommons/error.rs and the error type of src/exchanges/mod.rs. Messages are bytes; the error
-- values of other libraries (parquet, arrow, io, serde, reqwest, tungstenite) are left out of
-- their constructors.
mod Tests
use rstrader.Base.{Bool, true, false, ◌≡◌, refl}
use rstrader.Base.Bytes.{Bytes}

pub data ExchangeError : Type 0 where
  connection authentication : Bytes → ExchangeError
  network web_socket : ExchangeError
  parse protocol : Bytes → ExchangeError
  rate_limit : ExchangeError
  symbol api unsupported : Bytes → ExchangeError
  io : ExchangeError

pub data AppError : Type 0 where
  cli config : Bytes → AppError
  exchange : ExchangeError → AppError
  pipeline output : Bytes → AppError
  parquet arrow io serde : AppError
  channel timeout fatal : Bytes → AppError

-- The constructors of `impl AppError`.
abbrev pub connection_error : Bytes → AppError
connection_error m = AppError.exchange (ExchangeError.connection m)

abbrev pub validation_error : Bytes → AppError
validation_error m = AppError.exchange (ExchangeError.symbol m)

abbrev pub parse_error : Bytes → AppError
parse_error m = AppError.exchange (ExchangeError.parse m)

abbrev pub stream_error : Bytes → AppError
stream_error m = AppError.exchange (ExchangeError.protocol m)

abbrev pub internal_error : Bytes → AppError
internal_error m = AppError.fatal m

exchange_recoverable : ExchangeError → Bool
exchange_recoverable (ExchangeError.authentication m) = false
exchange_recoverable (ExchangeError.symbol m) = false
exchange_recoverable (ExchangeError.unsupported m) = false
exchange_recoverable _ = true

pub is_recoverable : AppError → Bool
unfolding exchange_recoverable
is_recoverable (AppError.cli m) = false
is_recoverable (AppError.config m) = false
is_recoverable (AppError.fatal m) = false
is_recoverable (AppError.exchange e) = exchange_recoverable e
is_recoverable _ = true

-- `Result<T>`.
pub data Result {ℓ} (A : Type ℓ) : Type ℓ where
  ok : A → Result A
  err : AppError → Result A

infixl 5 ◌>>=◌
abbrev pub ◌>>=◌ {ℓ κ} : {A : Type ℓ} {B : Type κ} → Result A → (A → Result B) → Result B
ok a >>= f = f a
err e >>= f = err e

-- What a successful chain went through.
pub >>=-eq-ok :
    (m : Result (Unit {0})) (f : Unit {0} → Result (Unit {0})) (b : Unit {0})
    → (m >>= f) ≡ ok b
    → (a : Unit {0}) × (m ≡ ok a) × (f a ≡ ok b)
>>=-eq-ok (ok a) f b h = (a, refl, h)
>>=-eq-ok (err e) f b h = cc

-- What both continuations have, the one that a result takes has.
pub result_both {ℓ κ ι} :
    {A : Type ℓ} {B : Type κ} (P : B → Type ι) (r : Result A) {f : AppError → B} {g : A → B}
    → ((e : AppError) → P (f e))
    → ((a : A) → P (g a))
    → P (elim r [ err e ↦ f e | ok a ↦ g a ])
result_both P (err e) p q = p e
result_both P (ok a) p q = q a
