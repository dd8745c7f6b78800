-- ===== src/Executor/Errors.antt =====
-- hamerkop/src/error.rs: the error of a buffer that is not provided, which gives the buffer back. An
-- `io::Error` is its code.
use hamerkop.Base.{ℕ}
use hamerkop.FixedVec.Ops.{FixedVec, with_capacity}

pub record ProvideBuffersError : Type 0 where
  pub error : ℕ
  pub buffer : FixedVec ℕ

unfoldable pub new_error : ℕ → FixedVec ℕ → ProvideBuffersError
new_error error buffer = record { error = error; buffer = buffer }

-- the buffer, and the error that keeps an empty one
unfoldable pub take_buffer : ProvideBuffersError → FixedVec ℕ × ProvideBuffersError
take_buffer e = (e.buffer, record e { buffer = with_capacity 0 })

unfoldable pub into_buffer : ProvideBuffersError → FixedVec ℕ
into_buffer e = e.buffer

-- `From<ProvideBuffersError> for io::Error`
unfoldable pub into_io_error : ProvideBuffersError → ℕ
into_io_error e = e.error
