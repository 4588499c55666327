-- ===== src/Error.antt =====
-- http2.go and util.go: the errors of the package, without their texts.
use http.Prelude.{ℕ}

-- `conn_error c` is a `ConnError` of code `c`, `stream_error c id` a `StreamError`. The others are
-- `errors.New` and `fmt.Errorf` values, named after what they report.
pub data Error : Type 0 where
  conn_error : ℕ → Error
  stream_error : ℕ → ℕ → Error
  window_size_overflow : Error
  stream_closed : Error
  closed : Error
  already_closed : Error
  malformed : Error
  bad_stream_state : Error
  eof : Error
  unexpected_eof : Error
