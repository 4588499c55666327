-- ===== src/Wire/Fragments/Continued.antt =====
-- read.go: the CONTINUATION frames of a HEADERS frame, and all the frames of a block.
use http.Prelude.{
  ℕ, zero, suc, ◌+◌, ◌%◌, ◌^◌, ◌≤◌, ◌<◌, ◌≡◌, refl, ap, sym, ◌∙◌, arith, Bool, true, false,
}
use http.Prelude.{List, [], ◌++◌, length, length-append, replicate, none, some}
use http.Frame.Frames.{Header, HeadersFrame, headers_frame}
use http.Hpack.Decoder.{Decoder}
use http.Hpack.Decode.{decode}
use http.Hpack.Decode.Parts.{decode-Parts}
use http.Wire.Write.{frame_header}
use http.Wire.Block.{Lead, lead_bytes, with_end, headers_lead}
use http.Wire.Block.Frames.{Frames, closing, then_more, frame_bytes, overhead}
use http.Wire.Read.{got}
use http.Wire.Fragments.{FrameReader, nothing, add_field, read_again}
use http.Wire.Fragments.Loop.{not_panicked}
use mathlib.Core.List.{append_assoc}
use http.Wire.Fragments.Assembly.{IsHeaders, GoesOn, with_header, inside, behind, first_frame}
use http.Wire.Fragments.Next.{next_frame}

at_start :
    (k : Lead) (started : Bool) (max n : ℕ)
    → started ≡ true
    → n + overhead k started ≤ max
    → n ≤ max
at_start k true max n e small = omega (arith, small)
at_start k false max n e small = absurd (cc)

at_fresh :
    (k : Lead) (started : Bool) (max n : ℕ)
    → started ≡ false
    → n + overhead k started ≤ max
    → n + k.non_fragment_len ≤ max
at_fresh k true max n e small = absurd (cc)
at_fresh k false max n e small = small

-- A frame takes a byte at least.
some_bytes :
    (k : Lead) (fragment later : List ℕ)
    → length later < length (frame_bytes k false false fragment ++ later)
unfolding lead_bytes frame_header
some_bytes k fragment later = omega (
  arith,
  length-append (frame_bytes k false false fragment) later,
  length-append
      (lead_bytes k ((length fragment + k.non_fragment_len) % 2 ^ 32) (with_end false k.flags))
      (fragment ++ replicate k.pad_len 0),
)

module _ (r : FrameReader) (f : HeadersFrame) (valid : IsHeaders f) (buf : 0 < r.buf_size) where
  -- The header of a frame whose bytes are there takes a byte at least.
  some_byte :
      (k : Lead) (last : Bool) (fragment later : List ℕ)
      → length later < length (frame_bytes k true last fragment ++ later)
  unfolding frame_header
  some_byte k last fragment later = omega (
    arith,
    length-append (frame_header (length fragment) 9 (with_end last 0) k.stream_id ++ fragment)
        later,
    length-append (frame_header (length fragment) 9 (with_end last 0) k.stream_id) fragment,
  )

  abbrev Assembled : ℕ → FrameReader → List ℕ → List ℕ → Decoder → Header → Type 0
  Assembled rounds r1 bytes rest dec' h' =
      read_again rounds r1 (bytes ++ rest)
      ≡ got (headers_frame (with_header f h'), behind r dec', rest)

  -- The CONTINUATION frames up to the one with END_HEADERS.
  continuations :
      {k : Lead} {max : ℕ} {started : Bool} {block bytes : List ℕ}
      (frames : Frames k max started block bytes) (rounds : ℕ) (rest : List ℕ) (dec dec' : Decoder)
      (h h' : Header)
      → started ≡ true
      → k.stream_id ≡ f.stream_id
      → max ≤ r.max_frame_size
      → r.max_frame_size < 2 ^ 24
      → GoesOn dec
      → decode (some add_field) r.max_header_list_size block dec (some h)
        ≡ some (dec', some h', none)
      → dec'.b ≡ []
      → length bytes < rounds
      → Assembled rounds (inside r dec f h) bytes rest dec' h'
  continuations frames zero rest dec dec' h h' is same fits bound ok run whole enough =
      absurd (omega arith)
  continuations {k} {max} (closing started fragment bytes small sent) (suc rounds) rest dec dec' h
        h' is same fits bound ok run whole enough =
      let small' = at_start k started max (length fragment) is small in
      ap (λ b. read_again (suc rounds) (inside r dec f h) (b ++ rest))
        (sent ∙ ap (λ c. frame_bytes k c true fragment) is)
      ∙ next_frame r f valid buf rounds k true fragment rest dec dec' h h' same
          (omega (arith, small', fits)) bound ok run (λ e. whole)
  continuations {k} {max} (then_more started fragment left block later bytes small parts sent more)
        (suc rounds) rest dec dec' h h' is same fits bound ok run whole enough =
      let small' = at_start k started max (length fragment) is small in
      let sent' : bytes ≡ frame_bytes k true false fragment ++ later =
        sent ∙ ap (λ c. frame_bytes k c false fragment ++ later) is in
      let (dec1, s1, first, second, no_error, still) =
        decode-Parts add_field r.max_header_list_size fragment left dec dec' (some h) (some h')
          ok.no_error ok.still
          (ap (λ b. decode (some add_field) r.max_header_list_size b dec (some h)) (sym parts)
            ∙ run) in
      let (h1, there) =
        not_panicked r.max_header_list_size left dec1 dec' s1 h' no_error still second in
      ap (λ b. read_again (suc rounds) (inside r dec f h) (b ++ rest)) sent'
      ∙ ap (read_again (suc rounds) (inside r dec f h))
          (append_assoc (frame_bytes k true false fragment) later rest)
      ∙ next_frame r f valid buf rounds k false fragment (later ++ rest) dec dec1 h h1 same
          (omega (arith, small', fits)) bound ok (first ∙ ap (λ s. some (dec1, s, none)) there)
          (λ e. absurd (cc))
      ∙ continuations more rounds rest dec1 dec' h1 h' refl same fits bound
          (record { no_error = no_error; still = still })
          (ap (decode (some add_field) r.max_header_list_size left dec1) (sym there) ∙ second) whole
          (omega
            (arith, some_byte k false fragment later, ap (λ (b : List ℕ). length b) sent', enough))

  -- All the frames of a block.
  pub read_again-Frames :
      {max : ℕ} {started : Bool} {block bytes : List ℕ}
      (frames : Frames (headers_lead f) max started block bytes) (rounds : ℕ) (rest : List ℕ)
      (dec' : Decoder) (h' : Header)
      → started ≡ false
      → r.pending ≡ nothing
      → max ≤ r.max_frame_size
      → r.max_frame_size < 2 ^ 24
      → GoesOn r.decoder
      → decode (some add_field) r.max_header_list_size block r.decoder (some [])
        ≡ some (dec', some h', none)
      → dec'.b ≡ []
      → length bytes < rounds
      → Assembled rounds r bytes rest dec' h'
  unfolding headers_lead
  read_again-Frames frames zero rest dec' h' fresh none_open fits bound ok run whole enough =
      absurd (omega arith)
  read_again-Frames {max} (closing started fragment bytes small sent) (suc rounds) rest dec' h'
        fresh none_open fits bound ok run whole enough =
      let small' = at_fresh (headers_lead f) started max (length fragment) fresh small in
      ap (λ b. read_again (suc rounds) r (b ++ rest))
        (sent ∙ ap (λ c. frame_bytes (headers_lead f) c true fragment) fresh)
      ∙ first_frame r f valid buf rounds true fragment rest dec' h' none_open
          (omega (arith, small', fits)) bound ok run (λ e. whole)
  read_again-Frames {max} (then_more started fragment left block later bytes small parts sent more)
        (suc rounds) rest dec' h' fresh none_open fits bound ok run whole enough =
      let k = headers_lead f in
      let small' = at_fresh k started max (length fragment) fresh small in
      let sent' : bytes ≡ frame_bytes k false false fragment ++ later =
        sent ∙ ap (λ c. frame_bytes k c false fragment ++ later) fresh in
      let (dec1, s1, first, second, no_error, still) =
        decode-Parts add_field r.max_header_list_size fragment left r.decoder dec' (some [])
          (some h') ok.no_error ok.still
          (ap (λ b. decode (some add_field) r.max_header_list_size b r.decoder (some []))
              (sym parts)
            ∙ run) in
      let (h1, there) =
        not_panicked r.max_header_list_size left dec1 dec' s1 h' no_error still second in
      ap (λ b. read_again (suc rounds) r (b ++ rest)) sent'
      ∙ ap (read_again (suc rounds) r)
          (append_assoc (frame_bytes k false false fragment) later rest)
      ∙ first_frame r f valid buf rounds false fragment (later ++ rest) dec1 h1 none_open
          (omega (arith, small', fits)) bound ok (first ∙ ap (λ s. some (dec1, s, none)) there)
          (λ e. absurd (cc))
      ∙ continuations more rounds rest dec1 dec' h1 h' refl refl fits bound
          (record { no_error = no_error; still = still })
          (ap (decode (some add_field) r.max_header_list_size left dec1) (sym there) ∙ second) whole
          (omega (arith, some_bytes k fragment later, ap (λ (b : List ℕ). length b) sent', enough))
