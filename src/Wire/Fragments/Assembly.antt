-- ===== src/Wire/Fragments/Assembly.antt =====
-- read.go: a HEADERS frame and its CONTINUATION frames, read back from the frames of a block.
use http.Prelude.{
  ℕ, suc, ◌+◌, ◌%◌, ◌^◌, ◌≤◌, ◌<◌, ◌≡◌, refl, ap, sym, ◌∙◌, arith, Bool, true, false,
}
use http.Prelude.{ltb, ◌==◌, if◌then◌else◌}
use http.Prelude.{
  List, [], ◌++◌, length, length-replicate, drop, drop-append, replicate, none, some,
}
use http.Frame.Types.{flag_end_headers, has}
use http.Frame.Frames.{Header, HeadersFrame, Frame, headers_frame, has_priority}
use http.Hpack.Decoder.{Decoder, reset}
use http.Hpack.Decode.{decode}
use http.Wire.Write.{frame_header}
use http.Wire.Block.{lead_bytes, headers_lead}
use http.Wire.Block.Frames.{frame_bytes}
use http.Wire.Read.{got, ◌>>=◌, FrameHead, read_head}
use http.Wire.Read.RoundTrip.{read_head-frame_header}
use http.Wire.Fragments.{
  FrameReader, nothing, headers, add_field, fragment_loop, end_headers, unless_truncated,
  no_priority, read_headers, headers_start, read_first, read_body, read_again, is_pending,
  as_headers,
}
use http.Wire.Fragments.Loop.{fragment_loop-decode}
use http.Wire.Fragments.Start.{flags_of, flags_of_lem, pad_bytes, priority_bytes, fields_read}
use mathlib.Core.List.{append_assoc}

-- A HEADERS frame whose fields fit theirs.
pub record IsHeaders (f : HeadersFrame) : Type 0 where
  pub some_stream : 0 < f.stream_id
  pub stream_fits : f.stream_id < 2 ^ 31
  pub pad_fits : f.pad_len < 256
  pub dependency_fits : f.priority.stream_dependency < 2 ^ 31
  pub weight_fits : f.priority.weight < 256

-- A decoder between two calls of `Decode`, and one at the end of a block.
pub record GoesOn (dec : Decoder) : Type 0 where
  pub no_error : dec.error ≡ none
  pub still : dec.size_changed ≡ false

abbrev pub with_header : HeadersFrame → Header → HeadersFrame
with_header f h = record f { header = h }

-- The reader inside a block, and behind it.
abbrev pub inside : FrameReader → Decoder → HeadersFrame → Header → FrameReader
inside r dec f h = record r { decoder = dec; pending = headers (with_header f h) }

abbrev pub behind : FrameReader → Decoder → FrameReader
behind r dec = record r { decoder = (reset dec).0; pending = nothing }

abbrev pub after : Bool → FrameReader → Decoder → HeadersFrame → Header → FrameReader
after true r dec f h = behind r dec
after false r dec f h = inside r dec f h

reset_whole : (dec : Decoder) → dec.b ≡ [] → (reset dec).1 ≡ none
unfolding reset
reset_whole dec e = rw e refl

pub end_headers-after :
    (last : Bool) (r : FrameReader) (head : FrameHead) (dec : Decoder) (f : HeadersFrame)
    (h : Header)
    → has head.flags flag_end_headers ≡ last
    → (last ≡ true → dec.b ≡ [])
    → end_headers r head dec (headers (with_header f h)) ≡ got (after last r dec f h)
unfolding end_headers
end_headers-after true r head dec f h e whole =
    rw e (ap (unless_truncated (behind r dec)) (reset_whole dec (whole refl)))
end_headers-after false r head dec f h e whole = rw e refl

pub read_again_step :
    (rounds : ℕ) (r r' : FrameReader) (head : FrameHead) (src src' rest : List ℕ) (f : Frame)
    → read_head src ≡ got (head, src')
    → read_body r head src' ≡ got (f, r', rest)
    → read_again (suc rounds) r src
      ≡ (if is_pending r'.pending then read_again rounds r' rest else got (f, r', rest))
unfolding read_again
read_again_step rounds r r' head src src' rest f e run =
    ap
      (λ m. m >>= λ x. read_body r x.0 x.1 >>= λ y.
        if is_pending y.1.pending then read_again rounds y.1 y.2 else got (y.0, y.1, y.2))
      e
    ∙ ap
        (λ m. m >>= λ y.
          if is_pending y.1.pending then read_again rounds y.1 y.2 else got (y.0, y.1, y.2))
        run

-- The parts of the input behind the header of a first frame.
module _ (r : FrameReader) (f : HeadersFrame) (valid : IsHeaders f) (buf : 0 < r.buf_size) where
  abbrev padded : Bool
  padded = ltb 0 f.pad_len

  abbrev first_head : Bool → List ℕ → FrameHead
  first_head last fragment = record {
    payload_len = length fragment + (headers_lead f).non_fragment_len;
    frame_type = 1;
    flags = flags_of padded (has_priority f) f.end_stream last;
    stream_id = f.stream_id;
  }

  no_padding : padded ≡ false → f.pad_len ≡ 0
  no_padding e = ground arith

  plain_priority : has_priority f ≡ false → f.priority ≡ no_priority
  unfolding has_priority
  plain_priority e = ground arith

  first_fields :
      (last : Bool) (fragment tail : List ℕ)
      → headers_start
          (first_head last fragment)
          (pad_bytes padded f.pad_len ++ (priority_bytes (has_priority f) f.priority ++ tail))
        ≡ got (with_header f [], length fragment, tail)
  unfolding headers_lead
  first_fields last fragment tail =
      let (e1, e2, e3, e4, small) = flags_of_lem padded (has_priority f) f.end_stream last in
      let named : (f.stream_id == 0) ≡ false = ground (arith, valid.some_stream) in
      fields_read padded (has_priority f) (first_head last fragment) f.pad_len (length fragment)
        f.priority f.end_stream tail named e1 e2 e3 refl valid.pad_fits no_padding
        valid.dependency_fits valid.weight_fits plain_priority

  first_read :
      (last : Bool) (fragment rest : List ℕ) (dec' : Decoder) (h' : Header)
      → GoesOn r.decoder
      → decode (some add_field) r.max_header_list_size fragment r.decoder (some [])
        ≡ some (dec', some h', none)
      → (last ≡ true → dec'.b ≡ [])
      → read_headers r (first_head last fragment) (
          pad_bytes padded f.pad_len
          ++ (priority_bytes (has_priority f) f.priority
              ++ (fragment ++ (replicate f.pad_len 0 ++ rest))))
        ≡ got (with_header f h', after last r dec' f h', rest)
  unfolding read_headers
  first_read last fragment rest dec' h' ok run whole =
      let (e1, e2, e3, e4, small) = flags_of_lem padded (has_priority f) f.end_stream last in
      let tail = replicate f.pad_len 0 ++ rest in
      let head = first_head last fragment in
      let padding : drop f.pad_len tail ≡ rest =
        ap (λ (n : ℕ). drop n tail) (sym (length-replicate f.pad_len 0))
        ∙ drop-append (replicate f.pad_len 0) rest in
      ap
        (λ m. m >>= λ x. fragment_loop x.1 r x.1 x.2 r.decoder x.0.header >>= λ d.
          end_headers r head d.0 (headers (with_header x.0 d.1)) >>= λ r'.
          got (with_header x.0 d.1, r', drop x.0.pad_len d.2))
        (first_fields last fragment (fragment ++ tail))
      ∙ ap
          (λ m. m >>= λ d. end_headers r head d.0 (headers (with_header f d.1)) >>= λ r'.
            got (with_header f d.1, r', drop f.pad_len d.2))
          (fragment_loop-decode (length fragment) r fragment tail r.decoder dec' [] h' (omega arith)
            buf ok.no_error ok.still run)
      ∙ ap (λ m. m >>= λ r'. got (with_header f h', r', drop f.pad_len tail))
          (end_headers-after last r head dec' f h' e4 whole)
      ∙ ap (λ (s : List ℕ). got (with_header f h', after last r dec' f h', s)) padding

  lead_as_sent :
      (last : Bool) (fragment rest : List ℕ)
      → length fragment + (headers_lead f).non_fragment_len < 2 ^ 24
      → frame_bytes (headers_lead f) false last fragment ++ rest
        ≡ frame_header
            (length fragment + (headers_lead f).non_fragment_len)
            1
            (flags_of padded (has_priority f) f.end_stream last)
            f.stream_id
          ++ (pad_bytes padded f.pad_len
              ++ (priority_bytes (has_priority f) f.priority
                  ++ (fragment ++ (replicate f.pad_len 0 ++ rest))))
  unfolding headers_lead lead_bytes
  lead_as_sent last fragment rest small =
      let (e1, e2, e3, e4, byte_sized) = flags_of_lem padded (has_priority f) f.end_stream last in
      let n = length fragment + (headers_lead f).non_fragment_len in
      let len : n % 2 ^ 32 ≡ n = omega (arith, small) in rw (len, e1) (simp append_assoc)

  first_body :
      (last : Bool) (fragment src : List ℕ)
      → r.pending ≡ nothing
      → length fragment + (headers_lead f).non_fragment_len ≤ r.max_frame_size
      → read_body r (first_head last fragment) src
        ≡ as_headers (read_headers r (first_head last fragment) src)
  unfolding read_body read_first
  first_body last fragment src fresh fits =
      let short : ltb r.max_frame_size (length fragment + (headers_lead f).non_fragment_len)
          ≡ false =
        ground (arith, fits) in
      rw (short, fresh) refl

  pub first_frame :
      (rounds : ℕ) (last : Bool) (fragment rest : List ℕ) (dec' : Decoder) (h' : Header)
      → r.pending ≡ nothing
      → length fragment + (headers_lead f).non_fragment_len ≤ r.max_frame_size
      → r.max_frame_size < 2 ^ 24
      → GoesOn r.decoder
      → decode (some add_field) r.max_header_list_size fragment r.decoder (some [])
        ≡ some (dec', some h', none)
      → (last ≡ true → dec'.b ≡ [])
      → read_again (suc rounds) r (frame_bytes (headers_lead f) false last fragment ++ rest) ≡ (
          if is_pending (after last r dec' f h').pending
          then read_again rounds (after last r dec' f h') rest
          else got (headers_frame (with_header f h'), after last r dec' f h', rest))
  first_frame rounds last fragment rest dec' h' fresh fits bound ok run whole =
      let (e1, e2, e3, e4, byte_sized) = flags_of_lem padded (has_priority f) f.end_stream last in
      let src' =
        pad_bytes padded f.pad_len
        ++ (priority_bytes (has_priority f) f.priority
            ++ (fragment ++ (replicate f.pad_len 0 ++ rest))) in
      let n = length fragment + (headers_lead f).non_fragment_len in
      let small : n < 2 ^ 24 = omega (arith, fits, bound) in
      ap (read_again (suc rounds) r) (lead_as_sent last fragment rest small)
      ∙ read_again_step rounds r (after last r dec' f h') (first_head last fragment) _ src' rest
          (headers_frame (with_header f h'))
          (read_head-frame_header n 1 (flags_of padded (has_priority f) f.end_stream last)
            f.stream_id src' small (omega arith) byte_sized valid.stream_fits)
          (first_body last fragment src' fresh fits
            ∙ ap as_headers (first_read last fragment rest dec' h' ok run whole))
