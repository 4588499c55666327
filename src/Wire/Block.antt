-- ===== src/Wire/Block.antt =====
-- write.go: the `writeTo` methods of HEADERS and PUSH_PROMISE frames, which send the header block
-- in the frame itself and in CONTINUATION frames. The two have the same text but for the fields in
-- front of the block, so the loops are shared. A map is iterated in the order of its list, and
-- `pseudoHeader` in the order of an argument, `pseudo`. `none` is a panic or a loop without a round.
pub mod Frames
pub mod Drain
pub mod Keys
pub mod Loop
pub mod Whole
pub mod Silent
use http.Prelude.{
  ℕ, zero, suc, ◌+◌, ◌-◌, ◌%◌, ◌^◌, Bool, true, false, not, ◌&&◌, ◌||◌, ◌==◌, ltb, leb,
}
use http.Prelude.{
  if◌then◌else◌, str_eq, List, [], ◌∷◌, ◌++◌, length, take, drop, replicate, Option, none, some,
  bit_or,
}
use http.Frame.Types.{flag_end_stream, flag_end_headers, flag_padded, flag_priority, has}
use http.Frame.Frames.{Header, HeadersFrame, PushPromiseFrame, has_priority}
use http.Headers.{header_len, is_pseudo, starts_pseudo}
use http.Headers.Keys.{canonical_key}
use http.Hpack.Encoder.{Encoder, encode_header_field}
use http.Wire.Bytes.{byte, put_u32}
use http.Wire.Write.{
  FrameWriter, WriteError, bad_stream_id, bad_stream_dependency, bad_promised_stream_id,
  malformed_header, header_fields_too_large, write, frame_header, valid_stream_id, dependency_bits,
  failed,
}

-- What the two methods differ in: the type of the first frame, its flags, its padding, and the
-- fields between the byte for the padding and the block.
pub record Lead : Type 0 where
  pub frame_type : ℕ
  pub stream_id : ℕ
  pub flags : ℕ
  pub pad_len : ℕ
  pub fields : List ℕ
  pub non_fragment_len : ℕ

-- `hpackBuf` and the variables of the loops, with the writer and its encoder.
pub record BlockState : Type 0 where
  pub writer : FrameWriter
  pub encoder : Encoder
  pub buf : List ℕ
  pub written : ℕ
  pub remaining : ℕ
  pub first_sent : Bool

abbrev pub Sent : Type 0
Sent = Option (BlockState × Option WriteError)

infixl 5 ◌>>=◌
abbrev pub ◌>>=◌ : Sent → (BlockState → Sent) → Sent
none >>= f = none
some (s, some e) >>= f = some (s, some e)
some (s, none) >>= f = f s

-- What is in `w.buf` before the fragment of the first frame.
unfoldable pub lead_bytes : Lead → ℕ → ℕ → List ℕ
unfolding frame_header has
lead_bytes k len flags =
    frame_header len k.frame_type flags k.stream_id
    ++ ((if has flags flag_padded then byte k.pad_len ∷ [] else []) ++ k.fields)

abbrev pub with_end : Bool → ℕ → ℕ
with_end last flags = if last then bit_or flags flag_end_headers else flags

-- The writes of one pass from the label `write` on.
unfoldable pub send_fragment : Lead → Bool → Bool → List ℕ → FrameWriter → FrameWriter
unfolding lead_bytes frame_header write
send_fragment k true last fragment w =
    write fragment (write (frame_header (length fragment) 9 (with_end last 0) k.stream_id) w)
send_fragment k false last fragment w =
    let len = (length fragment + k.non_fragment_len) % 2 ^ 32 in
    write (replicate k.pad_len 0)
      (write fragment (write (lead_bytes k len (with_end last k.flags)) w))

-- The room for a fragment, in uint32.
unfoldable pub room_for : Lead → Bool → ℕ → ℕ
room_for k true max = max
room_for k false max = (max + 2 ^ 32 - k.non_fragment_len) % 2 ^ 32

unfoldable pub send_once : Lead → BlockState → BlockState
unfolding send_fragment room_for
send_once k s =
    let n = length s.buf % 2 ^ 32 in
    let room = room_for k s.first_sent s.writer.max_frame_size in
    let len = if ltb room n then room else n in
    let last = not (ltb room n) && s.remaining == 0 in
    record s {
      writer = send_fragment k s.first_sent last (take len s.buf) s.writer;
      buf = take (n - len) (drop len s.buf);
      first_sent = true;
    }

-- The `goto write` loop. The first argument is fuel.
unfoldable pub send_loop : ℕ → Lead → BlockState → Sent
send_loop zero k s = none
send_loop (suc rounds) k s =
    let s' = send_once k s in
    let again = send_loop rounds k s' in
    if failed s'.writer
    then some (s', s'.writer.err)
    else (if leb s'.writer.max_frame_size (length s'.buf)
          || (s'.remaining == 0 && ltb 0 (length s'.buf))
        then again
        else some (s', none))

-- `EncodeHeaderField` of one value, which is counted.
abbrev counted : BlockState → Option (Encoder × ℕ × List ℕ) → Option BlockState
counted s none = none
counted s (some (enc, n, buf)) =
    let written = (s.written + n) % 2 ^ 32 in
    some (record s { encoder = enc; buf = buf; written = written; remaining = s.remaining - 1 })

unfoldable pub encode_value : List ℕ → List ℕ → BlockState → Option BlockState
encode_value key value s = counted s (encode_header_field s.encoder s.buf key value false)

-- The test of `maxHeaderListSize`, behind each value.
abbrev pub checked : ℕ → (BlockState → Sent) → Option BlockState → Sent
checked limit next none = none
checked limit next (some s) =
    if not (limit == 0) && ltb limit s.written
    then some (s, some header_fields_too_large)
    else next s

-- The loop over the values of a key.
unfoldable pub values_loop : ℕ → List ℕ → List (List ℕ) → BlockState → Sent
unfolding encode_value
values_loop limit key [] s = some (s, none)
values_loop limit key (v ∷ values) s =
    checked limit (values_loop limit key values) (encode_value key v s)

-- Behind the values of a key: more keys are encoded first, or what there is is sent.
unfoldable pub flush : Lead → BlockState → Sent
unfolding send_loop
flush k s =
    if ltb 0 s.remaining && ltb (length s.buf % 2 ^ 32) s.writer.max_frame_size
    then some (s, none)
    else send_loop (length s.buf + 2) k s

-- The loop over the header map.
unfoldable pub keys_loop : (List ℕ → List ℕ) → Lead → ℕ → Header → BlockState → Sent
unfolding values_loop flush is_pseudo starts_pseudo
keys_loop unicode k limit [] s = some (s, none)
keys_loop unicode k limit ((key, values) ∷ h) s =
    let rest = keys_loop unicode k limit h in
    if is_pseudo key
    then rest s
    else (if length key == 0 || starts_pseudo key
        then some (s, some malformed_header)
        else (values_loop limit (canonical_key unicode key) values s >>= flush k >>= rest))

abbrev pub values_at : List ℕ → Header → Option (List (List ℕ))
values_at key [] = none
values_at key ((k, values) ∷ h) = if str_eq k key then some values else values_at key h

abbrev pub unlimited : (BlockState → Sent) → Option BlockState → Sent
unlimited next none = none
unlimited next (some s) = next s

-- The values of one of the keys of `pseudoHeader`: `vv[0]` panics where there is none.
abbrev pub pseudo_value : List ℕ → (BlockState → Sent) → BlockState → Option (List (List ℕ)) → Sent
pseudo_value key next s none = next s
pseudo_value key next s (some []) = none
pseudo_value key next s (some (v ∷ [])) = unlimited next (encode_value key v s)
pseudo_value key next s (some (v ∷ v' ∷ values)) = some (s, some malformed_header)

-- The loop over `pseudoHeader`.
unfoldable pub pseudo_loop : Header → List (List ℕ) → BlockState → Sent
unfolding encode_value
pseudo_loop h [] s = some (s, none)
pseudo_loop h (key ∷ keys) s = pseudo_value key (pseudo_loop h keys) s (values_at key h)

pub record BlockWriter : Type 0 where
  pub writer : FrameWriter
  pub encoder : Encoder
  pub max_header_list_size : ℕ

abbrev pub written_block : BlockWriter → Sent → Option (BlockWriter × Option WriteError)
written_block b none = none
written_block b (some (s, e)) = some (record b { writer = s.writer; encoder = s.encoder }, e)

-- From `remainingHeader` on.
unfoldable pub write_block :
    (List ℕ → List ℕ)
    → List (List ℕ)
    → Lead
    → Header
    → BlockWriter
    → Option (BlockWriter × Option WriteError)
unfolding lead_bytes write header_len pseudo_loop keys_loop
write_block unicode pseudo k h b =
    let head = lead_bytes k k.non_fragment_len (with_end true k.flags) in
    let w' = write (replicate k.pad_len 0) (write head b.writer) in
    let s : BlockState = record {
      writer = b.writer;
      encoder = b.encoder;
      buf = [];
      written = 0;
      remaining = header_len h;
      first_sent = false;
    } in
    if header_len h == 0
    then some (record b { writer = w' }, w'.err)
    else written_block b (pseudo_loop h pseudo s >>= keys_loop unicode k b.max_header_list_size h)

-- The flag of a frame that is padded, or has the other property.
abbrev pub flag_if : Bool → ℕ → ℕ → ℕ
flag_if c flag flags = if c then bit_or flags flag else flags

unfoldable pub headers_lead : HeadersFrame → Lead
unfolding has_priority dependency_bits
headers_lead f =
    let padded = ltb 0 f.pad_len in
    let priority = has_priority f in
    record {
      frame_type = 1;
      stream_id = f.stream_id;
      flags =
          flag_if f.end_stream flag_end_stream
            (flag_if priority flag_priority (flag_if padded flag_padded 0));
      pad_len = f.pad_len;
      fields =
          if priority
          then put_u32 (dependency_bits f.priority) ++ (byte f.priority.weight ∷ [])
          else [];
      non_fragment_len = (if padded then f.pad_len + 1 else 0) + (if priority then 5 else 0);
    }

unfoldable pub write_headers :
    (List ℕ → List ℕ)
    → List (List ℕ)
    → HeadersFrame
    → BlockWriter
    → Option (BlockWriter × Option WriteError)
unfolding headers_lead write_block valid_stream_id
write_headers unicode pseudo f b =
    if not (valid_stream_id f.stream_id)
    then some (b, some bad_stream_id)
    else (if has_priority f && not (valid_stream_id f.priority.stream_dependency)
        then some (b, some bad_stream_dependency)
        else write_block unicode pseudo (headers_lead f) f.header b)

unfoldable pub push_promise_lead : PushPromiseFrame → Lead
push_promise_lead f =
    let padded = ltb 0 f.pad_len in
    record {
      frame_type = 5;
      stream_id = f.stream_id;
      flags = flag_if padded flag_padded 0;
      pad_len = f.pad_len;
      fields = put_u32 f.promised_stream_id;
      non_fragment_len = 4 + (if padded then f.pad_len + 1 else 0);
    }

unfoldable pub write_push_promise :
    (List ℕ → List ℕ)
    → List (List ℕ)
    → PushPromiseFrame
    → BlockWriter
    → Option (BlockWriter × Option WriteError)
unfolding push_promise_lead write_block valid_stream_id
write_push_promise unicode pseudo f b =
    if not (valid_stream_id f.stream_id)
    then some (b, some bad_stream_id)
    else (if not (valid_stream_id f.promised_stream_id)
        then some (b, some bad_promised_stream_id)
        else write_block unicode pseudo (push_promise_lead f) f.header b)
