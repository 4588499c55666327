-- ===== src/Frame/Types.antt =====
-- http2.go: error codes, constants, frame types and flags.
use http.Prelude.{ℕ, ◌-◌, ◌^◌, Bool, ◌==◌, if◌then◌else◌, bit_and}

pub data FrameType : Type 0 where
  data_type headers_type priority_type rst_stream_type settings_type : FrameType
  push_promise_type ping_type go_away_type window_update_type continuation_type : FrameType
  other_type : ℕ → FrameType

-- `FrameType` is a uint8 with names for ten of its values.
unfoldable pub frame_type_of : ℕ → FrameType
frame_type_of n =
    if n == 0
    then data_type
    else (if n == 1
        then headers_type
        else (if n == 2
            then priority_type
            else (if n == 3
                then rst_stream_type
                else (if n == 4
                    then settings_type
                    else (if n == 5
                        then push_promise_type
                        else (if n == 6
                            then ping_type
                            else (if n == 7
                                then go_away_type
                                else (if n == 8
                                    then window_update_type
                                    else (if n == 9
                                        then continuation_type
                                        else other_type n)))))))))

unfoldable pub frame_type_code : FrameType → ℕ
frame_type_code data_type = 0
frame_type_code headers_type = 1
frame_type_code priority_type = 2
frame_type_code rst_stream_type = 3
frame_type_code settings_type = 4
frame_type_code push_promise_type = 5
frame_type_code ping_type = 6
frame_type_code go_away_type = 7
frame_type_code window_update_type = 8
frame_type_code continuation_type = 9
frame_type_code (other_type n) = n

-- `ErrCode` is a uint32 with these names.
abbrev pub err_code_no : ℕ
err_code_no = 0x0

abbrev pub err_code_protocol : ℕ
err_code_protocol = 0x1

abbrev pub err_code_internal : ℕ
err_code_internal = 0x2

abbrev pub err_code_flow_control : ℕ
err_code_flow_control = 0x3

abbrev pub err_code_stream_closed : ℕ
err_code_stream_closed = 0x5

abbrev pub err_code_frame_size : ℕ
err_code_frame_size = 0x6

abbrev pub err_code_refused_stream : ℕ
err_code_refused_stream = 0x7

abbrev pub err_code_compression : ℕ
err_code_compression = 0x9

abbrev pub err_code_enhance_your_calm : ℕ
err_code_enhance_your_calm = 0xb

abbrev pub max_concurrent_streams : ℕ
max_concurrent_streams = 2 ^ 31 - 1

abbrev pub max_initial_window_size : ℕ
max_initial_window_size = 2 ^ 31 - 1

abbrev pub max_frame_size_lower_bound : ℕ
max_frame_size_lower_bound = 2 ^ 14

abbrev pub max_frame_size_upper_bound : ℕ
max_frame_size_upper_bound = 2 ^ 24 - 1

abbrev pub default_header_table_size : ℕ
default_header_table_size = 4096

abbrev pub default_enable_push : ℕ
default_enable_push = 1

abbrev pub default_initial_window_size : ℕ
default_initial_window_size = 65535

abbrev pub flag_end_stream : ℕ
flag_end_stream = 0x1

abbrev pub flag_end_headers : ℕ
flag_end_headers = 0x4

abbrev pub flag_ack : ℕ
flag_ack = 0x1

abbrev pub flag_padded : ℕ
flag_padded = 0x8

abbrev pub flag_priority : ℕ
flag_priority = 0x20

-- `(f & v) == v`.
unfoldable pub has : ℕ → ℕ → Bool
has f v = bit_and f v == v
