-- ===== src/Tests/Blocks.antt =====
-- write.go and read.go at concrete inputs: header blocks in their frames.
use http.Prelude.{
  ℕ, ◌≡◌, refl, ap, ◌∙◌, All, arith, str_eq, map_get, dec_lt, true, false, str_eq_iff, inl, inr,
}
use http.Prelude.{◌<◌, length}
use http.Wire.Bytes.{u24}
use http.Hpack.Decode.{decode}
use http.Prelude.Order.{lt_wf}
use http.Prelude.{List, [], ◌∷◌, ◌++◌, none, some, codes}
use http.Frame.Frames.{Header, HeadersFrame, PushPromiseFrame, has_priority, headers_frame}
use http.Headers.{add_header, is_pseudo, header_len, starts_pseudo, valid_header_key, valid_bytes}
use http.Headers.Laws.{values_of}
use http.Hpack.Table.Eviction.{IsValid}
use http.Hpack.Encoder.{Encoder, max_uint32, encode_header_field, announce, encode_field}
use http.Hpack.Literal.{huff_false, enc_literal, enc_string_literal, enc_indexed}
use http.Hpack.Integer.{dec_integer, enc_integer, enc_groups}
use http.Hpack.Static.{strcmp, strcmp_loop, static_table, put_names}
use http.Hpack.Table.{
  entry, find, index, index_from, static_map, index_loop, table_index, table_index_loop,
}
use http.Headers.Keys.{canonical_key, common_key, to_lower, is_ascii, lower_byte}
use http.Hpack.Decoder.{reset, Decoder, new_decoder}
use http.Hpack.Sync.Blocks.{SentField, Allowed, encode_fields}
use http.Wire.Write.{valid_stream_id}
use http.Wire.Block.{BlockWriter, headers_lead, push_promise_lead, write_block, write_headers}
use http.Wire.Block.Frames.{Frames, HasRoom, sent_to}
use http.Wire.Block.Whole.{IsOrder, IsSendable, block_fields, write_block-Frames}
use http.Wire.Block.Silent.{write_block_silent}
use http.Wire.Read.{got, fault, FrameHead}
use http.Wire.Fragments.EmptyName.{empty_name, decode-empty_name}
use http.Wire.Fragments.{add_field, decoded}
use http.Hpack.Sync.Blocks.{Accepts}
use http.Headers.{append_value}
use http.Wire.Fragments.Order.{Reads, InOrder, read_frame-InOrder}
use http.Wire.Fragments.{FrameReader, nothing, read_frame, read_again, read_body}
use http.Wire.Fragments.RoundTrip.{
  IsSent, Connected, sent_block, read_block, read_frame-write_headers,
}

abbrev pseudo_keys : List (List ℕ)
pseudo_keys =
    codes ":method" ∷ codes ":scheme" ∷ codes ":authority" ∷ codes ":path" ∷ codes ":status" ∷ []

pseudo_keys-IsOrder : IsOrder pseudo_keys
unfolding is_pseudo
pseudo_keys-IsOrder key = ground (
  arith,
  str_eq_iff key (codes ":method"),
  str_eq_iff key (codes ":scheme"),
  str_eq_iff key (codes ":authority"),
  str_eq_iff key (codes ":path"),
  str_eq_iff key (codes ":status"),
)

-- No name here is other than ASCII.
abbrev same_string : List ℕ → List ℕ
same_string s = s

abbrev encoder : Encoder
encoder = record {
  table = record { entries = []; size = 0; max_size = 0 };
  min_size = max_uint32;
  size_changed = false;
  i = true;
  h = huff_false;
}

-- Frames of six bytes at most.
abbrev block_writer : BlockWriter
block_writer = record {
  writer = record { out = []; accepts = none; max_frame_size = 6; err = none };
  encoder = encoder;
  max_header_list_size = 0;
}

abbrev frame_reader : FrameReader
frame_reader = record {
  decoder = new_decoder 0;
  buf_size = 4;
  max_frame_size = 16384;
  max_header_list_size = 0;
  pending = nothing;
  last_payload = 0;
  stale = λ n. [];
}

-- Two values for `via`, and a status.
abbrev answer : Header
answer = (codes "via", (120 ∷ []) ∷ (121 ∷ []) ∷ []) ∷ (codes ":status", codes "200" ∷ []) ∷ []

abbrev answer_frame : HeadersFrame
answer_frame = record {
  stream_id = 3;
  header = answer;
  priority = record { stream_dependency = 0; weight = 0; exclusive = false };
  pad_len = 0;
  end_stream = true;
}

answer-IsSendable : IsSendable pseudo_keys answer
unfolding is_pseudo starts_pseudo str_eq
answer-IsSendable = record {
  order = pseudo_keys-IsOrder;
  distinct = (refl, (refl, tt));
  single = (tt, (tt, (tt, (tt, (tt, tt)))));
  may = (inr (refl, refl, omega arith), (inl refl, tt));
  some_field = omega arith;
}

-- An index for the status, and two literals.
abbrev answer_block : List ℕ
answer_block = 136 ∷ 15 ∷ 45 ∷ 1 ∷ 120 ∷ 15 ∷ 45 ∷ 1 ∷ 121 ∷ []

abbrev answer_fields : List SentField
answer_fields =
    record { name = codes ":status"; value = codes "200"; sensitive = false }
    ∷ record { name = codes "via"; value = 120 ∷ []; sensitive = false }
    ∷ record { name = codes "via"; value = 121 ∷ []; sensitive = false }
    ∷ []

answer_fields_lem : block_fields same_string pseudo_keys answer ≡ answer_fields
unfolding is_pseudo canonical_key common_key to_lower is_ascii lower_byte str_eq
answer_fields_lem = refl

fields_encoded : encode_fields encoder [] answer_fields ≡ some (encoder, answer_block)
unfolding encode_fields encode_header_field announce encode_field enc_literal enc_string_literal
    enc_indexed enc_integer enc_groups find index index_from static_map index_loop table_index
    table_index_loop strcmp strcmp_loop static_table put_names str_eq map_get lt_wf dec_lt
fields_encoded = refl

answer_encoded :
    encode_fields encoder [] (block_fields same_string pseudo_keys answer)
    ≡ some (encoder, answer_block)
answer_encoded = ap (encode_fields encoder []) answer_fields_lem ∙ fields_encoded

answer-IsSent : IsSent same_string pseudo_keys answer_frame
unfolding valid_stream_id has_priority valid_header_key valid_bytes
answer-IsSent = record {
  fits = record {
    some_stream = omega arith;
    stream_fits = omega arith;
    pad_fits = omega arith;
    dependency_fits = omega arith;
    weight_fits = omega arith;
  };
  valid_id = refl;
  valid_dependency = refl;
  sendable = answer-IsSendable;
  keys = (refl, (refl, tt));
  allowed = rw answer_fields_lem (
    (
      (
        (
          omega arith,
          (
            omega arith,
            (omega arith, (omega arith, (omega arith, (omega arith, (omega arith, tt))))),
          ),
        ),
        omega arith,
      ),
      ((omega arith, (omega arith, (omega arith, tt))), omega arith),
      omega arith,
    ),
    (
      (
        ((omega arith, (omega arith, (omega arith, tt))), omega arith),
        ((omega arith, tt), omega arith),
        omega arith,
      ),
      (
        (
          ((omega arith, (omega arith, (omega arith, tt))), omega arith),
          ((omega arith, tt), omega arith),
          omega arith,
        ),
        tt,
      ),
    ),
  );
}

small_table-IsValid : IsValid encoder.table
small_table-IsValid = record { sized = refl; within = omega arith; bounded = omega arith }

ends-Connected : Connected block_writer frame_reader
unfolding new_decoder
ends-Connected = record {
  healthy = record { unlimited = refl; no_error = refl };
  valid = small_table-IsValid;
  unchanged = refl;
  ready = record { same = refl; no_error = refl; no_rest = refl; unchanged = refl };
  none_open = refl;
  no_payload = refl;
  buf = omega arith;
  not_limited = refl;
  accepts_all = refl;
  size_fits = omega arith;
  bounded = omega arith;
}

answer-HasRoom : HasRoom (headers_lead answer_frame) 6
unfolding headers_lead has_priority
answer-HasRoom = record { some_room = omega arith; fields_fit = omega arith; bounded = omega arith }

-- The start of another frame.
abbrev next_bytes : List ℕ
next_bytes = 0 ∷ 0 ∷ 4 ∷ []

read_frame-write_headers_example :
    (bytes : List ℕ) × (dec' : Decoder) × (h' : Header) × (write_headers same_string pseudo_keys
        answer_frame block_writer
      ≡ some (sent_block block_writer bytes encoder, none))
    × (read_frame frame_reader (bytes ++ next_bytes)
        ≡ got (
          headers_frame (record answer_frame { header = h' }),
          read_block frame_reader dec',
          next_bytes,
        ))
    × ((key : List ℕ) → values_of key h' ≡ values_of key answer)
    × Connected (sent_block block_writer bytes encoder) (read_block frame_reader dec')
read_frame-write_headers_example =
    read_frame-write_headers same_string pseudo_keys answer_frame block_writer frame_reader
      next_bytes encoder answer_block answer-IsSent ends-Connected answer-HasRoom answer_encoded
      (omega arith)

-- The same block behind a PUSH_PROMISE.
abbrev promise : PushPromiseFrame
promise = record { stream_id = 3; promised_stream_id = 4; header = answer; pad_len = 0 }

promise-HasRoom : HasRoom (push_promise_lead promise) 6
unfolding push_promise_lead
promise-HasRoom = record {
  some_room = omega arith;
  fields_fit = omega arith;
  bounded = omega arith;
}

write_block-Frames_example :
    (bytes : List ℕ) × (write_block same_string pseudo_keys
        (push_promise_lead promise)
        answer
        block_writer
      ≡ some (
        record block_writer { writer = sent_to block_writer.writer bytes; encoder = encoder },
        none,
      ))
    × Frames (push_promise_lead promise) 6 false answer_block bytes
write_block-Frames_example =
    write_block-Frames same_string pseudo_keys (push_promise_lead promise) answer block_writer
      encoder answer_block answer-IsSendable promise-HasRoom ends-Connected.healthy refl
      small_table-IsValid refl answer-IsSent.allowed answer_encoded (omega arith)

-- An answer that is a status alone.
abbrev status_only : Header
status_only = (codes ":status", codes "200" ∷ []) ∷ []

status-Allowed : All Allowed (block_fields same_string pseudo_keys status_only)
unfolding is_pseudo str_eq
status-Allowed = (
  (
    (
      (
        omega arith,
        (
          omega arith,
          (omega arith, (omega arith, (omega arith, (omega arith, (omega arith, tt))))),
        ),
      ),
      omega arith,
    ),
    ((omega arith, (omega arith, (omega arith, tt))), omega arith),
    omega arith,
  ),
  tt,
)

status_encoded :
    encode_fields encoder [] (block_fields same_string pseudo_keys status_only)
    ≡ some (encoder, 136 ∷ [])
unfolding encode_fields encode_header_field announce encode_field enc_indexed enc_integer find index
    index_from static_map index_loop strcmp strcmp_loop static_table put_names str_eq map_get
    is_pseudo
status_encoded = refl

write_block_silent_example :
    write_block same_string pseudo_keys (headers_lead answer_frame) status_only block_writer
    ≡ some (record block_writer { encoder = encoder }, none)
unfolding is_pseudo str_eq header_len
write_block_silent_example =
    write_block_silent same_string pseudo_keys (headers_lead answer_frame) status_only block_writer
      encoder (136 ∷ []) (tt, (tt, (tt, (tt, (tt, tt))))) (inl refl, tt) refl (omega arith) refl
      small_table-IsValid refl status-Allowed status_encoded

-- A status in a HEADERS frame, and an empty CONTINUATION frame.
abbrev two_frames : List ℕ
two_frames = 0 ∷ 0 ∷ 1 ∷ 1 ∷ 0 ∷ 0 ∷ 0 ∷ 0 ∷ 3 ∷ 136 ∷ 0 ∷ 0 ∷ 0 ∷ 9 ∷ 4 ∷ 0 ∷ 0 ∷ 0 ∷ 3 ∷ []

abbrev status_frame : HeadersFrame
status_frame = record answer_frame { header = status_only; end_stream = false }

two_frames_read :
    read_frame frame_reader two_frames
    ≡ got (headers_frame status_frame, read_block frame_reader (new_decoder 0), [])
unfolding read_frame read_again read_body u24 decode new_decoder dec_integer entry static_table
    add_header str_eq valid_bytes reset
two_frames_read = refl

read_frame-InOrder_example :
    (heads : List FrameHead) × Reads frame_reader two_frames heads
      (read_block frame_reader (new_decoder 0))
      []
    × InOrder none heads
    × (0 < length heads)
read_frame-InOrder_example =
    read_frame-InOrder frame_reader (read_block frame_reader (new_decoder 0)) two_frames []
      (headers_frame status_frame) two_frames_read

-- A field of an empty name, behind a status.
abbrev status_field : List SentField
status_field = record { name = codes ":status"; value = codes "200"; sensitive = false } ∷ []

status_field-Allowed : All Allowed status_field
status_field-Allowed = (
  (
    (
      (
        omega arith,
        (
          omega arith,
          (omega arith, (omega arith, (omega arith, (omega arith, (omega arith, tt))))),
        ),
      ),
      omega arith,
    ),
    ((omega arith, (omega arith, (omega arith, tt))), omega arith),
    omega arith,
  ),
  tt,
)

status-Accepts : Accepts add_field (some []) status_field (some status_only)
unfolding add_header valid_header_key valid_bytes append_value starts_pseudo is_pseudo str_eq
status-Accepts = (some status_only, refl, refl)

decode-empty_name_example :
    (enc' : Encoder) × (block : List ℕ) × (encode_fields encoder []
        (status_field ++ (empty_name (120 ∷ []) false ∷ []))
      ≡ some (enc', block))
    × ((rest : List ℕ)
        → decoded (decode (some add_field) 0 (block ++ rest) (new_decoder 0) (some [])) ≡ fault)
unfolding new_decoder
decode-empty_name_example =
    decode-empty_name encoder (new_decoder 0) status_field (120 ∷ []) false [] status_only
      small_table-IsValid refl
      (record { same = refl; no_error = refl; no_rest = refl; unchanged = refl })
      status_field-Allowed status-Accepts
      ((tt, omega arith), ((omega arith, tt), omega arith), omega arith)
