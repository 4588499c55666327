-- ===== src/Wire/Fragments/Next.antt =====
-- read.go: a CONTINUATION frame of a HEADERS frame, read back.
use http.Prelude.{ℕ, suc, ◌^◌, ◌≤◌, ◌<◌, ◌≡◌, refl, ap, ◌∙◌, arith, Bool, true, false}
use http.Prelude.{ltb, ◌==◌, if◌then◌else◌}
use http.Prelude.{List, [], ◌++◌, length, none, some}
use http.Frame.Types.{flag_end_headers, has}
use http.Frame.Frames.{Header, HeadersFrame, headers_frame}
use http.Hpack.Decoder.{Decoder}
use http.Hpack.Decode.{decode}
use http.Wire.Write.{frame_header}
use http.Wire.Block.{Lead, with_end}
use http.Wire.Block.Frames.{frame_bytes}
use http.Wire.Read.{Read, got, ◌>>=◌, FrameHead}
use http.Wire.Read.RoundTrip.{read_head-frame_header}
use http.Wire.Fragments.{
  FrameReader, headers, add_field, end_headers, continue_headers, read_continuation, read_body,
  read_again, is_pending, as_headers,
}
use http.Wire.Fragments.Loop.{fragment_loop-decode}
use mathlib.Core.List.{append_assoc}
use http.Wire.Fragments.Assembly.{
  IsHeaders, GoesOn, with_header, inside, after, end_headers-after, read_again_step,
}

-- The input behind the header of a CONTINUATION frame.
module _ (r : FrameReader) (f : HeadersFrame) (valid : IsHeaders f) (buf : 0 < r.buf_size) where
  abbrev next_head : Bool → List ℕ → FrameHead
  next_head last fragment = record {
    payload_len = length fragment;
    frame_type = 9;
    flags = with_end last 0;
    stream_id = f.stream_id;
  }

  -- A CONTINUATION frame.
  next_read :
      (last : Bool) (fragment rest : List ℕ) (dec dec' : Decoder) (h h' : Header)
      → GoesOn dec
      → decode (some add_field) r.max_header_list_size fragment dec (some h)
        ≡ some (dec', some h', none)
      → (last ≡ true → dec'.b ≡ [])
      → continue_headers
          (inside r dec f h)
          (next_head last fragment)
          (with_header f h)
          (fragment ++ rest)
        ≡ got (with_header f h', after last r dec' f h', rest)
  unfolding continue_headers has
  next_read last fragment rest dec dec' h h' ok run whole =
      let named : (f.stream_id == 0) ≡ false = ground (arith, valid.some_stream) in
      let same : (f.stream_id == f.stream_id) ≡ true = ground arith in
      let r1 = inside r dec f h in
      rw (named, same)
        (ap
            (λ m. m >>= λ d.
              end_headers r1 (next_head last fragment) d.0 (headers (with_header f d.1)) >>= λ r'.
              got (with_header f d.1, r', d.2))
            (fragment_loop-decode (length fragment) r1 fragment rest dec dec' h h' (omega arith) buf
              ok.no_error ok.still run)
          ∙ ap (λ m. m >>= λ r'. got (with_header f h', r', rest))
              (end_headers-after last r1 (next_head last fragment) dec' f h' (ended last) whole)
          ∙ same_after last)
    where
      ended : (l : Bool) → has (with_end l 0) flag_end_headers ≡ l
      ended true = refl
      ended false = refl

      same_after :
          (l : Bool)
          → ◌≡◌ {A = Read (HeadersFrame × FrameReader × List ℕ)}
              (got (with_header f h', after l (inside r dec f h) dec' f h', rest))
              (got (with_header f h', after l r dec' f h', rest))
      same_after true = refl
      same_after false = refl

  next_body :
      (last : Bool) (fragment src : List ℕ) (dec : Decoder) (h : Header)
      → length fragment ≤ r.max_frame_size
      → read_body (inside r dec f h) (next_head last fragment) src
        ≡ as_headers
            (continue_headers (inside r dec f h) (next_head last fragment) (with_header f h) src)
  unfolding read_body read_continuation
  next_body last fragment src dec h fits =
      let short : ltb r.max_frame_size (length fragment) ≡ false = ground (arith, fits) in
      rw short refl

  pub next_frame :
      (rounds : ℕ) (k : Lead) (last : Bool) (fragment rest : List ℕ) (dec dec' : Decoder)
      (h h' : Header)
      → k.stream_id ≡ f.stream_id
      → length fragment ≤ r.max_frame_size
      → r.max_frame_size < 2 ^ 24
      → GoesOn dec
      → decode (some add_field) r.max_header_list_size fragment dec (some h)
        ≡ some (dec', some h', none)
      → (last ≡ true → dec'.b ≡ [])
      → read_again (suc rounds) (inside r dec f h) (frame_bytes k true last fragment ++ rest) ≡ (
          if is_pending (after last r dec' f h').pending
          then read_again rounds (after last r dec' f h') rest
          else got (headers_frame (with_header f h'), after last r dec' f h', rest))
  next_frame rounds k last fragment rest dec dec' h h' same fits bound ok run whole =
      ap (read_again (suc rounds) (inside r dec f h)) (
        append_assoc (frame_header (length fragment) 9 (with_end last 0) k.stream_id) fragment rest
        ∙ ap (λ (i : ℕ). frame_header (length fragment) 9 (with_end last 0) i ++ (fragment ++ rest))
            same)
      ∙ read_again_step rounds (inside r dec f h) (after last r dec' f h') (next_head last fragment)
          _ (fragment ++ rest) rest (headers_frame (with_header f h'))
          (read_head-frame_header (length fragment) 9 (with_end last 0) f.stream_id
            (fragment ++ rest) (omega (arith, fits, bound)) (omega arith) (end_small last)
            valid.stream_fits)
          (next_body last fragment (fragment ++ rest) dec h fits
            ∙ ap as_headers (next_read last fragment rest dec dec' h h' ok run whole))
    where
      end_small : (l : Bool) → with_end l 0 < 256
      end_small true = omega arith
      end_small false = omega arith
