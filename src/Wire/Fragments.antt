-- ===== src/Wire/Fragments.antt =====
-- read.go: the `readFrom` methods of HEADERS and PUSH_PROMISE frames, for the frame itself and for the
-- CONTINUATION frames behind it, and `ReadFrame`. The two methods have the same loop over the block.
-- `fault` is also a panic of the decoder or of `Header.add`, and a loop without a round.
pub mod Loop
pub mod Start
pub mod Assembly
pub mod Next
pub mod Continued
pub mod Accepted
pub mod Values
pub mod RoundTrip
pub mod Open
pub mod Order
pub mod EmptyName
use http.Prelude.{
  ℕ, zero, suc, ◌+◌, ◌-◌, ◌/◌, ◌^◌, Bool, true, false, not, ◌&&◌, ◌==◌, ltb, leb, bit_and,
}
use http.Prelude.{if◌then◌else◌, codes, List, [], ◌∷◌, ◌++◌, length, take, drop, Option, none, some}
use http.Error.{Error, conn_error, eof, malformed}
use http.Frame.Types.{
  flag_end_stream, flag_end_headers, flag_padded, flag_priority, has, err_code_protocol,
  err_code_frame_size, err_code_compression, err_code_enhance_your_calm,
}
use http.Frame.Frames.{
  Header, HeadersFrame, PushPromiseFrame, Priority, DataFrame, UnknownFrame, Frame, data_frame,
  headers_frame, push_promise_frame, unknown_frame,
}
use http.Headers.{Added, added, add_header}
use http.Headers as Headers
use http.Hpack.Error.{DecodeError, header_fields_too_large, needs_more, handler_error}
use http.Hpack.Decoder.{Decoder, reset}
use http.Hpack.Decode.{Handler, decode}
use http.Wire.Read.{
  Read, got, failed, fault, ◌>>=◌, ◌>>◌, reject_if, FrameHead, read_head, read_u32, read_byte,
  discard, Lazy, read_priority_fields, read_data, read_unknown, read_control, Stale,
}

-- A HEADERS or PUSH_PROMISE frame whose block is not complete.
pub data Pending : Type 0 where
  nothing : Pending
  headers : HeadersFrame → Pending
  push_promise : PushPromiseFrame → Pending

-- `last_payload` is the number of bytes of `lastPayload` that are still to be discarded, and `stale`
-- what the buffer holds behind the input, should it end within a SETTINGS frame.
pub record FrameReader : Type 0 where
  pub decoder : Decoder
  pub buf_size : ℕ
  pub max_frame_size : ℕ
  pub max_header_list_size : ℕ
  pub pending : Pending
  pub last_payload : ℕ
  pub stale : Stale

-- `Header.add` as the decoder's handler; the state `none` is a panic.
abbrev pub taken : Header → Added → Option Header × Option (List ℕ)
taken h (added h') = (some h', none)
taken h Headers.malformed = (some h, some (codes "invalid header field"))
taken h Headers.panics = (none, some [])

abbrev pub add_field : Handler (Option Header)
add_field none name value sensitive = (none, some [])
add_field (some h) name value sensitive = taken h (add_header name value h)

-- How `ReadFrame` reports an error of the decoder.
unfoldable pub decode_error : DecodeError → Error
decode_error header_fields_too_large = conn_error err_code_enhance_your_calm
decode_error (handler_error m) = malformed
decode_error _ = conn_error err_code_compression

abbrev pub decoded : Option (Decoder × Option Header × Option DecodeError) → Read (Decoder × Header)
decoded none = fault
decoded (some (dec, none, e)) = fault
decoded (some (dec, some h, some e)) = failed (decode_error e)
decoded (some (dec, some h, none)) = got (dec, h)

-- The loop over the block: `n` bytes are left of it. The first argument is fuel.
unfoldable pub fragment_loop :
    ℕ → FrameReader → ℕ → List ℕ → Decoder → Header → Read (Decoder × Header × List ℕ)
unfolding decode_error
fragment_loop rounds r zero src dec h = got (dec, h, src)
fragment_loop zero r (suc n) src dec h = fault
fragment_loop (suc rounds) r (suc n) src dec h =
    let chunk = if ltb r.buf_size (suc n) then r.buf_size else suc n in
    let next : Decoder × Header → Read (Decoder × Header × List ℕ) =
      λ d. fragment_loop rounds r (suc n - chunk) (drop chunk src) d.0 d.1 in
    if ltb (length src) chunk
    then failed eof
    else decoded (decode (some add_field) r.max_header_list_size (take chunk src) dec (some h))
      >>= next

abbrev unless_truncated : FrameReader → Option DecodeError → Read FrameReader
unless_truncated r none = got r
unless_truncated r (some e) = failed (decode_error e)

-- The end of both methods.
unfoldable pub end_headers : FrameReader → FrameHead → Decoder → Pending → Read FrameReader
end_headers r head dec frame =
    let (dec', e) = reset dec in
    if has head.flags flag_end_headers
    then unless_truncated (record r { decoder = dec'; pending = nothing }) e
    else got (record r { decoder = dec; pending = frame })

abbrev pub no_priority : Priority
no_priority = record { stream_dependency = 0; weight = 0; exclusive = false }

abbrev pub priority_of : Bool → List ℕ → Read (Priority × List ℕ)
priority_of true src = read_priority_fields src
priority_of false src = got (no_priority, src)

-- `HeadersFrame.readFrom` in front of the block: the frame, the length of the fragment, the input.
unfoldable pub headers_start : FrameHead → List ℕ → Read (HeadersFrame × ℕ × List ℕ)
unfolding has read_byte
headers_start head src = do
  reject_if (head.stream_id == 0) (conn_error err_code_protocol)
  let padded = has head.flags flag_padded
  let prioritised = has head.flags flag_priority
  let (pad_len, rest) = if padded then read_byte src else (0, src)
  (priority, rest') ← priority_of prioritised rest
  let used = (if padded then pad_len + 1 else 0) + (if prioritised then 5 else 0)
  reject_if (ltb head.payload_len used) (conn_error err_code_protocol)
  got (
    record {
      stream_id = head.stream_id;
      header = [];
      priority = priority;
      pad_len = pad_len;
      end_stream = has head.flags flag_end_stream;
    },
    head.payload_len - used,
    rest',
  )

-- The block in the first frame, with the padding behind it.
unfoldable pub read_headers :
    FrameReader → FrameHead → List ℕ → Read (HeadersFrame × FrameReader × List ℕ)
unfolding headers_start fragment_loop end_headers
read_headers r head src = do
  (f, n, rest) ← headers_start head src
  (dec, h, rest') ← fragment_loop n r n rest r.decoder f.header
  let f' = record f { header = h }
  r' ← end_headers r head dec (headers f')
  got (f', r', drop f.pad_len rest')

-- A CONTINUATION frame.
unfoldable pub continue_headers :
    FrameReader → FrameHead → HeadersFrame → List ℕ → Read (HeadersFrame × FrameReader × List ℕ)
unfolding fragment_loop end_headers
continue_headers r head f src = do
  reject_if (head.stream_id == 0) (conn_error err_code_protocol)
  reject_if (not (head.stream_id == f.stream_id)) (conn_error err_code_protocol)
  (dec, h, rest) ← fragment_loop head.payload_len r head.payload_len src r.decoder f.header
  let f' = record f { header = h }
  r' ← end_headers r head dec (headers f')
  got (f', r', rest)

-- `PushPromiseFrame.readFrom` in front of the block. A length below 0 ends the loop at once.
unfoldable pub push_promise_start : FrameHead → List ℕ → Read (PushPromiseFrame × ℕ × List ℕ)
unfolding has read_byte read_u32
push_promise_start head src = do
  reject_if (head.stream_id == 0) (conn_error err_code_protocol)
  let padded = has head.flags flag_padded
  let (pad_len, rest) = if padded then read_byte src else (0, src)
  reject_if (padded && leb head.payload_len pad_len) (conn_error err_code_protocol)
  (v, rest') ← read_u32 rest
  let used = (if padded then pad_len + 1 else 0) + 4
  got (
    record {
      stream_id = head.stream_id;
      promised_stream_id = bit_and v (2 ^ 31 - 1);
      header = [];
      pad_len = pad_len;
    },
    head.payload_len - used,
    rest',
  )

unfoldable pub read_push_promise :
    FrameReader → FrameHead → List ℕ → Read (PushPromiseFrame × FrameReader × List ℕ)
unfolding push_promise_start fragment_loop end_headers
read_push_promise r head src = do
  (f, n, rest) ← push_promise_start head src
  (dec, h, rest') ← fragment_loop n r n rest r.decoder f.header
  let f' = record f { header = h }
  r' ← end_headers r head dec (push_promise f')
  got (f', r', drop f.pad_len rest')

unfoldable pub continue_push_promise :
    FrameReader
    → FrameHead
    → PushPromiseFrame
    → List ℕ
    → Read (PushPromiseFrame × FrameReader × List ℕ)
unfolding fragment_loop end_headers
continue_push_promise r head f src = do
  reject_if (head.stream_id == 0) (conn_error err_code_protocol)
  reject_if (not (head.stream_id == f.stream_id)) (conn_error err_code_protocol)
  (dec, h, rest) ← fragment_loop head.payload_len r head.payload_len src r.decoder f.header
  let f' = record f { header = h }
  r' ← end_headers r head dec (push_promise f')
  got (f', r', rest)

-- What `ReadFrame` returns or goes on with: a frame, the reader and the input.
abbrev pub FrameRead : Type 0
FrameRead = Read (Frame × FrameReader × List ℕ)

abbrev pub as_headers : Read (HeadersFrame × FrameReader × List ℕ) → FrameRead
as_headers m = m >>= λ x. got (headers_frame x.0, x.1, x.2)

abbrev pub as_push_promise : Read (PushPromiseFrame × FrameReader × List ℕ) → FrameRead
as_push_promise m = m >>= λ x. got (push_promise_frame x.0, x.1, x.2)

-- A frame whose payload stays in the input.
abbrev as_lazy : {A : Type 0} → (A → Frame) → FrameReader → Read (Lazy A × List ℕ) → FrameRead
as_lazy make r m = m >>= λ x. got (make x.0.frame, record r { last_payload = x.0.pending }, x.1)

abbrev as_whole : FrameReader → Option (Read (Frame × List ℕ)) → FrameRead → FrameRead
as_whole r none otherwise = otherwise
as_whole r (some m) otherwise = m >>= λ x. got (x.0, r, x.1)

-- The frame by its type, and `frame.readFrom(r)`.
unfoldable pub read_first : FrameReader → FrameHead → List ℕ → FrameRead
unfolding read_data read_unknown read_control read_headers read_push_promise
read_first r head src =
    if head.frame_type == 0
    then as_lazy data_frame r (read_data head src)
    else (if head.frame_type == 1
        then as_headers (read_headers r head src)
        else (if head.frame_type == 5
            then as_push_promise (read_push_promise r head src)
            else as_whole r (read_control r.stale head src)
                (as_lazy unknown_frame r (read_unknown head src))))

unfoldable pub read_continuation : FrameReader → Pending → FrameHead → List ℕ → FrameRead
unfolding continue_headers continue_push_promise
read_continuation r nothing head src = failed (conn_error err_code_protocol)
read_continuation r (headers f) head src = as_headers (continue_headers r head f src)
read_continuation r (push_promise f) head src = as_push_promise (continue_push_promise r head f src)

abbrev pub is_pending : Pending → Bool
is_pending nothing = false
is_pending (headers f) = true
is_pending (push_promise f) = true

-- From the test of the length on, up to the end of `readFrom`.
unfoldable pub read_body : FrameReader → FrameHead → List ℕ → FrameRead
unfolding read_first read_continuation
read_body r head src = do
  reject_if (ltb r.max_frame_size head.payload_len) (conn_error err_code_frame_size)
  reject_if (is_pending r.pending && not (head.frame_type == 9)) (conn_error err_code_protocol)
  if head.frame_type == 9 then read_continuation r r.pending head src else read_first r head src

-- The `goto again` loop. The first argument is fuel.
unfoldable pub read_again : ℕ → FrameReader → List ℕ → FrameRead
unfolding read_head read_body
read_again zero r src = fault
read_again (suc rounds) r src = do
  (head, rest) ← read_head src
  (f, r', rest') ← read_body r head rest
  let again = read_again rounds r' rest'
  if is_pending r'.pending then again else got (f, r', rest')

-- `ReadFrame`. Each round takes nine bytes at least.
unfoldable pub read_frame : FrameReader → List ℕ → FrameRead
unfolding read_again discard
read_frame r src = do
  rest ← discard r.last_payload src
  read_again (length src + 1) (record r { last_payload = 0 }) rest
