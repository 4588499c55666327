-- ===== src/Wire/Fragments/RoundTrip.antt =====
-- write.go and read.go: HEADERS frames, from a writer to a reader.
use http.Prelude.{
  ℕ, ◌+◌, ◌^◌, ◌≤◌, ◌<◌, ◌≡◌, refl, ap, sym, ◌∙◌, arith, All, true, false, not, ◌&&◌,
}
use http.Prelude.{List, [], ◌++◌, length, length-append, none, some}
use http.Frame.Frames.{Header, HeadersFrame, headers_frame, has_priority}
use http.Headers.{valid_header_key}
use http.Headers.Laws.{values_of}
use http.Hpack.Table.{HeaderTable}
use http.Hpack.Table.Eviction.{IsValid}
use http.Hpack.Encoder.{Encoder}
use http.Hpack.Decoder.{Decoder, reset}
use http.Hpack.Decode.{decode}
use http.Hpack.Sync.Blocks.{
  Allowed, Ready, encode_fields, encode_fields-Encodes, same_code, decode-encode_block,
}
use http.Wire.Write.{valid_stream_id}
use http.Wire.Write.Control.{IsHealthy}
use http.Wire.Block.{BlockWriter, headers_lead, write_block, write_headers}
use http.Wire.Block.Frames.{HasRoom, sent_to, sent_to-IsHealthy}
use http.Wire.Block.Whole.{block_fields, IsSendable, write_block-Frames}
use http.Wire.Read.{got, discard, ◌>>=◌}
use http.Wire.Fragments.{FrameReader, nothing, add_field, read_again, read_frame}
use http.Wire.Fragments.Assembly.{IsHeaders}
use http.Wire.Fragments.Continued.{read_again-Frames}
use http.Wire.Fragments.Accepted.{added_all, block_fields-Taken}
use http.Wire.Fragments.Values.{values_of-block_fields}

-- A frame that may be sent.
pub record IsSent (unicode : List ℕ → List ℕ) (pseudo : List (List ℕ)) (f : HeadersFrame)
    : Type 0 where
  pub fits : IsHeaders f
  pub valid_id : valid_stream_id f.stream_id ≡ true
  pub valid_dependency :
      (has_priority f && not (valid_stream_id f.priority.stream_dependency)) ≡ false
  pub sendable : IsSendable pseudo f.header
  pub keys : All (λ e. valid_header_key e.0 ≡ true) f.header
  pub allowed : All Allowed (block_fields unicode pseudo f.header)

-- A writer and a reader of two ends, between two frames, whose header tables are the same. Neither
-- has a limit for the header list.
pub record Connected (b : BlockWriter) (r : FrameReader) : Type 0 where
  pub healthy : IsHealthy b.writer
  pub valid : IsValid b.encoder.table
  pub unchanged : b.encoder.size_changed ≡ false
  pub ready : Ready r.decoder b.encoder.table
  pub none_open : r.pending ≡ nothing
  pub no_payload : r.last_payload ≡ 0
  pub buf : 0 < r.buf_size
  pub not_limited : b.max_header_list_size ≡ 0
  pub accepts_all : r.max_header_list_size ≡ 0
  pub size_fits : b.writer.max_frame_size ≤ r.max_frame_size
  pub bounded : r.max_frame_size < 2 ^ 24

-- The two ends behind a block.
abbrev pub sent_block : BlockWriter → List ℕ → Encoder → BlockWriter
sent_block b bytes enc' = record b { writer = sent_to b.writer bytes; encoder = enc' }

abbrev pub read_block : FrameReader → Decoder → FrameReader
read_block r dec' = record r { decoder = dec'; pending = nothing }

write_headers-write_block :
    (unicode : List ℕ → List ℕ) (pseudo : List (List ℕ)) (f : HeadersFrame) (b : BlockWriter)
    → IsSent unicode pseudo f
    → write_headers unicode pseudo f b ≡ write_block unicode pseudo (headers_lead f) f.header b
unfolding write_headers
write_headers-write_block unicode pseudo f b sent = rw (sent.valid_id, sent.valid_dependency) refl

discard_none : (n : ℕ) (src : List ℕ) → n ≡ 0 → discard n src ≡ got src
unfolding discard
discard_none n src e = ground (arith, e)

read_frame-read_again :
    (r : FrameReader) (src : List ℕ)
    → r.last_payload ≡ 0
    → read_frame r src ≡ read_again (length src + 1) r src
unfolding read_frame
read_frame-read_again r src e =
    ap (λ m. m >>= λ rest. read_again (length src + 1) (record r { last_payload = 0 }) rest)
      (discard_none r.last_payload src e)
    ∙ ap (λ (n : ℕ). read_again (length src + 1) (record r { last_payload = n }) src) (sym e)

reset-Ready : (dec : Decoder) (t : HeaderTable) → Ready dec t → Ready (reset dec).0 t
unfolding reset
reset-Ready dec t ready = record {
  same = ready.same;
  no_error = refl;
  no_rest = refl;
  unchanged = ready.unchanged;
}

-- Between two ends that stand between two frames, have the same valid header table, with a bound
-- below 2 ^ 31 and no change of it to announce, set no limit for the header list and accept the
-- frame sizes of the other, a HEADERS frame is sent whole, cut into frames of at most the writer's
-- size, and `ReadFrame` reads from these the frame back, with the same values for every key of its
-- header map, and leaves what follows. The ends are in the same condition again, so that the next
-- frame may follow. It holds for a writer that takes every byte, a frame with valid stream
-- identifiers whose fields fit theirs, header fields of bytes with sizes of 32 bits and a block
-- below 2 ^ 32 bytes, where what stands in front of the block fits a frame; the keys of the map are
-- distinct and valid, one of them is no pseudo-header field, those have a value each, and a
-- pseudo-header field has one value.
pub read_frame-write_headers :
    (unicode : List ℕ → List ℕ) (pseudo : List (List ℕ)) (f : HeadersFrame) (b : BlockWriter)
    (r : FrameReader) (rest : List ℕ) (enc' : Encoder) (block : List ℕ)
    → IsSent unicode pseudo f
    → Connected b r
    → HasRoom (headers_lead f) b.writer.max_frame_size
    → encode_fields b.encoder [] (block_fields unicode pseudo f.header) ≡ some (enc', block)
    → length block < 2 ^ 32
    → (bytes : List ℕ) × (dec' : Decoder) × (h' : Header) × (write_headers unicode pseudo f b
        ≡ some (sent_block b bytes enc', none))
      × (read_frame r (bytes ++ rest)
          ≡ got (headers_frame (record f { header = h' }), read_block r dec', rest))
      × ((key : List ℕ) → values_of key h' ≡ values_of key f.header)
      × Connected (sent_block b bytes enc') (read_block r dec')
read_frame-write_headers unicode pseudo f b r rest enc' block sent ends room codes short =
    let fs = block_fields unicode pseudo f.header in
    let s = sent.sendable in
    let (enc1, dec1, block1, wrote, decoded, valid', unchanged', ready') =
      decode-encode_block add_field b.encoder r.decoder fs (some []) (some (added_all [] fs))
        ends.valid ends.unchanged ends.ready sent.allowed
        (block_fields-Taken unicode pseudo f.header s.order s.may sent.keys) in
    let (same_enc, same_block) =
      same_code enc1 enc' block1 block
        (sym (encode_fields-Encodes fs b.encoder enc1 [] block1 wrote) ∙ codes) in
    let decoded' : decode (some add_field) r.max_header_list_size block r.decoder (some [])
        ≡ some (dec1, some (added_all [] fs), none) =
      rw (sym ends.accepts_all, same_block) at decoded in
    let (bytes, run, frames) =
      write_block-Frames unicode pseudo (headers_lead f) f.header b enc' block s room ends.healthy
        ends.not_limited ends.valid ends.unchanged sent.allowed codes short in
    (
      bytes,
      (reset dec1).0,
      added_all [] fs,
      write_headers-write_block unicode pseudo f b sent ∙ run,
      read_frame-read_again r (bytes ++ rest) ends.no_payload
          ∙ read_again-Frames r f sent.fits ends.buf frames (length (bytes ++ rest) + 1) rest dec1
              (added_all [] fs) refl ends.none_open ends.size_fits ends.bounded
              (record { no_error = ends.ready.no_error; still = ends.ready.unchanged }) decoded'
              ready'.no_rest (omega (arith, length-append bytes rest)),
      λ key.
          values_of-block_fields unicode pseudo f.header key s.order s.single s.may sent.keys
            s.distinct,
      record {
        healthy = sent_to-IsHealthy b.writer bytes ends.healthy;
        valid = rw same_enc at valid';
        unchanged = rw same_enc at unchanged';
        ready = rw same_enc at (reset-Ready dec1 enc1.table ready');
        none_open = refl;
        no_payload = ends.no_payload;
        buf = ends.buf;
        not_limited = ends.not_limited;
        accepts_all = ends.accepts_all;
        size_fits = ends.size_fits;
        bounded = ends.bounded;
      },
    )
