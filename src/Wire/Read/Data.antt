-- ===== src/Wire/Read/Data.antt =====
-- read.go and write.go: DATA frames.
use http.Prelude.{
  ℕ, ◌+◌, ◌-◌, ◌^◌, ◌<◌, ◌≡◌, refl, ap, ◌∙◌, Bool, true, false, arith, ◌&&◌, ◌==◌, ltb, leb,
}
use http.Prelude.{
  if◌then◌else◌, List, [], ◌∷◌, ◌++◌, length, take, replicate, some, Bool-cases, inl, inr, bit_or,
}
use http.Prelude.Int.{pos}
use http.Frame.Types.{flag_end_stream, flag_padded}
use http.Frame.Frames.{DataFrame}
use http.Wire.Bytes.{byte}
use http.Wire.Write.{frame_header}
use http.Wire.Write.Chunks.{Chunk, payload_len, chunk_bytes}
use http.Wire.Read.{Read, got, ◌>>=◌, FrameHead, Lazy, read_data}
use http.Wire.Read.RoundTrip.{read_as, read_head-frame_header}
use mathlib.Core.List.{append_assoc}

take_front : (xs ys : List ℕ) → take (length xs) (xs ++ ys) ≡ xs
take_front [] ys = refl
take_front (x ∷ xs) ys = ap (λ (o : List ℕ). x ∷ o) (take_front xs ys)

-- The frame that a reader makes of it, with the bytes that the next frame is behind.
abbrev pub data_frame : ℕ → Bool → List ℕ → ℕ → Lazy DataFrame
data_frame id ends content pad = record {
  frame = record {
    stream_id = id;
    payload = some content;
    data_len = pos (length content);
    pad_len = pad;
    end_stream = ends;
  };
  pending = length content + pad;
}

end_flag : Bool → ℕ
end_flag b = if b then flag_end_stream else 0

read_plain :
    (id : ℕ) (last : Bool) (content rest : List ℕ)
    → 0 < id
    → read_data
        (record {
          payload_len = length content;
          frame_type = 0;
          flags = end_flag last;
          stream_id = id;
        })
        (content ++ rest)
      ≡ got (data_frame id last content 0, content ++ rest)
unfolding read_data end_flag
read_plain id true content rest valid =
    let z : (id == 0) ≡ false = ground arith in rw (z, take_front content rest) refl
read_plain id false content rest valid =
    let z : (id == 0) ≡ false = ground arith in rw (z, take_front content rest) refl

read_padded :
    (id pad : ℕ) (last : Bool) (content rest : List ℕ)
    → 0 < id
    → 0 < pad
    → read_data
        (record {
          payload_len = length content + pad + 1;
          frame_type = 0;
          flags = bit_or (end_flag last) flag_padded;
          stream_id = id;
        })
        (pad ∷ (content ++ rest))
      ≡ got (data_frame id last content pad, content ++ rest)
unfolding read_data end_flag
read_padded id pad true content rest valid some_pad =
    let z : (id == 0) ≡ false = ground arith in
    let n = length content in
    let room : leb (n + pad + 1) pad ≡ false = ground arith in
    let left : n + pad + 1 - (pad + 1) ≡ n = omega arith in
    rw (z, room, left, take_front content rest) refl
read_padded id pad false content rest valid some_pad =
    let z : (id == 0) ≡ false = ground arith in
    let n = length content in
    let room : leb (n + pad + 1) pad ≡ false = ground arith in
    let left : n + pad + 1 - (pad + 1) ≡ n = omega arith in
    rw (z, room, left, take_front content rest) refl

flags_small : (last : Bool) → (end_flag last < 256) × (bit_or (end_flag last) flag_padded < 256)
unfolding end_flag
flags_small true = (omega arith, omega arith)
flags_small false = (omega arith, omega arith)

after_head :
    (n flags id : ℕ) (body rest : List ℕ)
    → n < 2 ^ 24
    → flags < 256
    → id < 2 ^ 31
    → read_as read_data ((frame_header n 0 flags id ++ body) ++ rest)
      ≡ read_data
          (record { payload_len = n; frame_type = 0; flags = flags; stream_id = id })
          (body ++ rest)
after_head n flags id body rest short small hi =
    ap (read_as read_data) (append_assoc (frame_header n 0 flags id) body rest)
    ∙ ap (λ (m : Read (FrameHead × List ℕ)). m >>= λ r. read_data r.0 r.1)
        (read_head-frame_header n 0 flags id (body ++ rest) short (omega arith) small hi)

-- A DATA frame of a stream below 2 ^ 31, with less than 256 bytes of padding and a payload that
-- fits 24 bits, is read back: its data, its padding, and END_STREAM where the frame has it; the
-- input that is left starts with the data, and what is pending counts the data and the padding.
pub read_data-chunk_bytes :
    (id : ℕ) (es : Bool) (c : Chunk) (rest : List ℕ)
    → 0 < id
    → id < 2 ^ 31
    → c.pad < 256
    → payload_len c < 2 ^ 24
    → read_as read_data (chunk_bytes id es c ++ rest)
      ≡ got
          (data_frame id (es && c.final) c.content c.pad, c.content ++ (replicate c.pad 0 ++ rest))
unfolding chunk_bytes payload_len end_flag
read_data-chunk_bytes id es c rest lo hi pad_byte short = elim (Bool-cases (ltb 0 c.pad)) [
  | inl some_pad ↦
      let last = es && c.final in
      let zeros : List ℕ = replicate c.pad 0 in
      let flags = bit_or (end_flag last) flag_padded in
      let n = length c.content + c.pad + 1 in
      let same : byte c.pad ≡ c.pad = omega arith in
      let fits : n < 2 ^ 24 = rw some_pad at short in
      rw (some_pad, same)
        (after_head n flags id (c.pad ∷ (c.content ++ zeros)) rest fits ((flags_small last).1) hi
          ∙ ap
              (λ (o : List ℕ).
                read_data
                  (record { payload_len = n; frame_type = 0; flags = flags; stream_id = id })
                  (c.pad ∷ o))
              (append_assoc c.content zeros rest)
          ∙ read_padded id c.pad last c.content (zeros ++ rest) lo (ground arith))
  | inr no_pad ↦
      let last = es && c.final in
      let none_left : c.pad ≡ 0 = ground arith in
      let fits : length c.content < 2 ^ 24 = rw no_pad at short in
      rw (no_pad, none_left)
        (after_head (length c.content) (end_flag last) id c.content rest fits ((flags_small last).0)
            hi
          ∙ read_plain id last c.content rest lo)
]
