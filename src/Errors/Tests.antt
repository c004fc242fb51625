-- ===== src/Errors/Tests.antt =====
-- The source's tests of `is_recoverable`.
use rstrader.Base.{◌≡◌, refl, true, false}
use rstrader.Base.Bytes.{ascii}
use rstrader.Errors.{AppError, is_recoverable, stream_error, validation_error}

fatal_stops : is_recoverable (AppError.fatal (ascii "Critical system failure")) ≡ false
unfolding is_recoverable
fatal_stops = refl

stream_retries : is_recoverable (stream_error (ascii "Gap in order book updates detected")) ≡ true
unfolding is_recoverable
stream_retries = refl

validation_stops : is_recoverable (validation_error (ascii "unknown symbol")) ≡ false
unfolding is_recoverable
validation_stops = refl
