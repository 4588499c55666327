-- ===== src/Hpack/Error.antt =====
-- hpack/hpack.go: the errors of a decoder.
use http.Prelude.{ℕ, List}

-- `errors.New` and `DecodingError` values, and what the caller's handler returns.
pub data DecodeError : Type 0 where
  header_fields_too_large : DecodeError
  needs_more : DecodeError
  header_table_size_update_required : DecodeError
  header_table_size_update : DecodeError
  truncated : DecodeError
  bad_header_block : DecodeError
  bad_header_table_size : DecodeError
  bad_index_value : DecodeError
  integer_overflow : DecodeError
  handler_error : List ℕ → DecodeError
