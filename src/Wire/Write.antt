-- ===== src/Wire/Write.antt =====
-- write.go: `frameWriter` and the `writeTo` methods of the frames without a header block. Each
-- method builds the frame's head in `buf`, which it overwrites first, so `buf` is a local value.
pub mod Control
pub mod Data
pub mod Chunks
pub mod Split
use http.Prelude.{
  ℕ, zero, suc, ◌+◌, ◌-◌, ◌*◌, ◌/◌, ◌%◌, ◌^◌, Bool, true, false, not, ◌&&◌, ◌||◌, ◌==◌, ltb, leb,
}
use http.Prelude.{
  if◌then◌else◌, List, [], ◌∷◌, ◌++◌, length, take, drop, replicate, Option, none, some,
}
use http.Prelude.{bit_and, bit_or}
use http.Prelude.Int.{ℤ, pos, negsuc, pos_part}
use http.Settings.{Setting}
use http.Frame.Types.{
  frame_type_of, flag_end_stream, flag_ack, flag_padded, max_initial_window_size, err_code_no,
}
use http.Frame.Frames.{
  DataFrame, Priority, PriorityFrame, RstStreamFrame, SettingsFrame, PingFrame, GoAwayFrame,
  WindowUpdateFrame, UnknownFrame,
}
use http.Wire.Bytes.{byte, put_u16, put_u32}

-- The errors that a `writeTo` returns, and those of the `io.Writer` and of `io.CopyN`.
pub data WriteError : Type 0 where
  bad_stream_id bad_stream_dependency bad_promised_stream_id bad_data bad_payload : WriteError
  malformed_header header_fields_too_large : WriteError
  ack_with_settings bad_window_size_increment : WriteError
  short_payload write_failed : WriteError

-- `out` is what the `io.Writer` took; `accepts` is the number of bytes after which it fails, if any.
pub record FrameWriter : Type 0 where
  pub out : List ℕ
  pub accepts : Option ℕ
  pub max_frame_size : ℕ
  pub err : Option WriteError

abbrev accept : List ℕ → FrameWriter → Option ℕ → FrameWriter
accept src w none = record w { out = w.out ++ src }
accept src w (some k) =
    if leb (length src) k
    then record w { out = w.out ++ src; accepts = some (k - length src) }
    else record w { out = w.out ++ take k src; accepts = some 0; err = some write_failed }

abbrev unless_failed : FrameWriter → FrameWriter → Option WriteError → FrameWriter
unless_failed w w' none = w'
unless_failed w w' (some e) = w

-- `frameWriter.Write`: nothing after the first error.
unfoldable pub write : List ℕ → FrameWriter → FrameWriter
write src w = unless_failed w (accept src w w.accepts) w.err

-- `writeFrameHeader`.
unfoldable pub frame_header : ℕ → ℕ → ℕ → ℕ → List ℕ
frame_header payload_len frame_type flags stream_id =
    byte (payload_len / 2 ^ 16)
    ∷ byte (payload_len / 2 ^ 8)
    ∷ byte payload_len
    ∷ byte frame_type
    ∷ byte flags
    ∷ put_u32 stream_id

-- `streamID != 0 && streamID&(1<<31) == 0`.
unfoldable pub valid_stream_id : ℕ → Bool
valid_stream_id id = not (id == 0) && bit_and id (2 ^ 31) == 0

-- The stream dependency with the exclusive bit.
unfoldable pub dependency_bits : Priority → ℕ
dependency_bits p = if p.exclusive then bit_or p.stream_dependency (2 ^ 31) else p.stream_dependency

-- The writer behind a `writeTo`, and the error that it returns.
abbrev pub Written : Type 0
Written = FrameWriter × Option WriteError

abbrev pub finish : FrameWriter → Written
finish w = (w, w.err)

unfoldable pub write_priority : PriorityFrame → FrameWriter → Written
unfolding write frame_header
write_priority f w =
    if not (valid_stream_id f.stream_id)
    then (w, some bad_stream_id)
    else (if not (valid_stream_id f.priority.stream_dependency)
        then (w, some bad_stream_dependency)
        else finish (
            write
              (frame_header 5 2 0 f.stream_id
                ++ (put_u32 (dependency_bits f.priority) ++ (byte f.priority.weight ∷ [])))
              w))

unfoldable pub write_rst_stream : RstStreamFrame → FrameWriter → Written
unfolding write frame_header
write_rst_stream f w =
    if not (valid_stream_id f.stream_id)
    then (w, some bad_stream_id)
    else finish (write (frame_header 4 3 0 f.stream_id ++ put_u32 f.err_code) w)

-- The loop over `f.Settings`.
unfoldable pub put_settings : List Setting → List ℕ
put_settings [] = []
put_settings (x ∷ xs) = put_u16 x.id ++ (put_u32 x.value ++ put_settings xs)

unfoldable pub write_settings : SettingsFrame → FrameWriter → Written
unfolding write frame_header put_settings
write_settings f w =
    if f.ack
    then (if ltb 0 (length f.settings)
        then (w, some ack_with_settings)
        else finish (write (frame_header 0 4 flag_ack 0) w))
    else finish
        (write (frame_header (6 * length f.settings % 2 ^ 32) 4 0 0 ++ put_settings f.settings) w)

unfoldable pub write_ping : PingFrame → FrameWriter → Written
unfolding write frame_header
write_ping f w = finish (
    write f.payload (write (frame_header (length f.payload) 6 (if f.ack then flag_ack else 0) 0) w))

unfoldable pub write_go_away : GoAwayFrame → FrameWriter → Written
unfolding write frame_header
write_go_away f w = finish (
    write f.debug_data (
      write
        (frame_header ((8 + length f.debug_data) % 2 ^ 32) 7 0 0
          ++ (put_u32 (bit_and f.last_stream_id (2 ^ 31 - 1)) ++ put_u32 f.err_code))
        w))

unfoldable pub write_window_update : WindowUpdateFrame → FrameWriter → Written
unfolding write frame_header
write_window_update f w =
    if f.window_size_increment == 0 || ltb max_initial_window_size f.window_size_increment
    then (w, some bad_window_size_increment)
    else finish (write (frame_header 4 8 0 f.stream_id ++ put_u32 f.window_size_increment) w)

-- `io.CopyN(w.Writer, r, n)` reads up to `n` bytes and is short where `r` ends before. It writes to
-- the `io.Writer` itself, and its result replaces `w.err`.
abbrev copied : ℕ → List ℕ → FrameWriter → FrameWriter → FrameWriter
copied n src w w' = record w' {
  err = elim (w'.err) [
    | some e ↦ some e
    | none ↦ if ltb (length src) n then some short_payload else none
  ];
}

unfoldable pub copy_n : ℕ → List ℕ → FrameWriter → FrameWriter
copy_n n src w =
    let w' = record w { err = none } in copied n src w (accept (take n src) w' w.accepts)

abbrev contents : Option (List ℕ) → List ℕ
contents none = []
contents (some bytes) = bytes

-- `n < 0 || (n > 0 && r == nil)`.
abbrev pub bad_reader : ℤ → Option (List ℕ) → Bool
bad_reader (negsuc n) r = true
bad_reader (pos n) none = ltb 0 n
bad_reader (pos n) (some r) = false

unfoldable pub write_unknown : UnknownFrame → FrameWriter → Written
unfolding write frame_header copy_n
write_unknown f w =
    if bad_reader f.payload_len f.payload
    then (w, some bad_payload)
    else (let n = pos_part f.payload_len in
        let w' = write (frame_header (n % 2 ^ 32) f.frame_type f.flags f.stream_id) w in
        finish (if ltb 0 n then copy_n n (contents f.payload) w' else w'))

-- The state of the loop of `DataFrame.writeTo`: the data not yet read, and what remains to be sent.
pub record DataLoop : Type 0 where
  pub writer : FrameWriter
  pub source : List ℕ
  pub remaining_data : ℕ
  pub padding : ℕ

-- `padLen` of a round.
unfoldable pub round_pad : ℕ → ℕ → ℕ → ℕ
round_pad max data_len padding =
    let room = max - data_len in
    let room' = if ltb 0 room then room - 1 else room in
    if ltb padding room' then padding else room'

-- The writes of a round: the head, the data and the padding.
unfoldable pub send_round : List ℕ → ℕ → List ℕ → ℕ → FrameWriter → FrameWriter
unfolding write copy_n
send_round head data_len source pad_len w =
    let w1 = write head w in
    let w2 = if ltb 0 data_len then copy_n data_len source w1 else w1 in
    write (replicate pad_len 0) w2

-- One round of the loop, and whether it sent the last frame.
unfoldable pub data_round : ℕ → Bool → DataLoop → DataLoop × Bool
unfolding send_round frame_header round_pad
data_round id end_stream s =
    let w = s.writer in
    let data_len =
      if ltb w.max_frame_size s.remaining_data then w.max_frame_size else s.remaining_data in
    let pad_len = round_pad w.max_frame_size data_len s.padding in
    let remaining = s.remaining_data - data_len in
    let padding = s.padding - pad_len in
    let last = remaining == 0 && padding == 0 in
    let flags = if end_stream && last then flag_end_stream else 0 in
    let head =
      if ltb 0 pad_len
      then frame_header (data_len + pad_len + 1) 0 (bit_or flags flag_padded) id
        ++ (byte pad_len ∷ [])
      else frame_header data_len 0 flags id in
    (
      record {
        writer = send_round head data_len s.source pad_len w;
        source = if ltb 0 data_len then drop data_len s.source else s.source;
        remaining_data = remaining;
        padding = padding;
      },
      last,
    )

abbrev pub failed : FrameWriter → Bool
failed w = elim (w.err) [ none ↦ false | some e ↦ true ]

-- `for !lastFrame && w.err == nil`, with fuel; `none` means that the fuel ran out.
unfoldable pub data_loop : ℕ → ℕ → Bool → DataLoop × Bool → Option FrameWriter
data_loop zero id end_stream (s, last) = none
data_loop (suc fuel) id end_stream (s, last) =
    let again = data_loop fuel id end_stream (data_round id end_stream s) in
    if last || failed s.writer then some s.writer else again

-- The fuel is one round for each byte of data and of padding, and two more.
unfoldable pub write_data : DataFrame → FrameWriter → Option Written
unfolding data_loop data_round
write_data f w =
    if not (valid_stream_id f.stream_id)
    then some (w, some bad_stream_id)
    else (if bad_reader f.data_len f.payload
        then some (w, some bad_data)
        else (let n = pos_part f.data_len % 2 ^ 32 in
            elim (data_loop (n + f.pad_len + 2) f.stream_id f.end_stream (
              record {
                writer = w;
                source = contents f.payload;
                remaining_data = n;
                padding = f.pad_len;
              },
              false,
            )) [ none ↦ none | some w' ↦ some (finish w') ]))
