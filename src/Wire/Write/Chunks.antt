-- ===== src/Wire/Write/Chunks.antt =====
-- write.go: the frames that `DataFrame.writeTo` cuts the data and the padding into.
use http.Prelude.{
  ℕ, zero, suc, ◌+◌, ◌-◌, ◌≤◌, ◌≡◌, refl, sym, ap, ◌∙◌, Bool, true, false, not, arith, ◌&&◌, ◌==◌,
  ltb,
}
use http.Prelude.{
  if◌then◌else◌, List, [], ◌∷◌, ◌++◌, length, take, drop, replicate, Bool-cases, inl, inr, bit_or,
  length-take,
}
use http.Frame.Types.{flag_end_stream, flag_padded}
use http.Wire.Bytes.{byte}
use http.Wire.Write.{
  FrameWriter, write, copy_n, send_round, frame_header, DataLoop, round_pad, data_round,
}
use http.Wire.Write.Control.{IsHealthy, write-IsHealthy}
use mathlib.Core.List.{append_assoc, append-nil}

-- A DATA frame on the wire: its content, the number of bytes of padding, and whether it is the last one.
pub record Chunk : Type 0 where
  pub content : List ℕ
  pub pad : ℕ
  pub final : Bool

-- The length of its payload, with the length of the padding where there is one.
unfoldable pub payload_len : Chunk → ℕ
payload_len c = if ltb 0 c.pad then length c.content + c.pad + 1 else length c.content

-- A DATA frame of RFC 7540, section 6.1.
unfoldable pub chunk_bytes : ℕ → Bool → Chunk → List ℕ
unfolding payload_len
chunk_bytes id end_stream c =
    let flags = if end_stream && c.final then flag_end_stream else 0 in
    if ltb 0 c.pad
    then frame_header (payload_len c) 0 (bit_or flags flag_padded) id
      ++ (byte c.pad ∷ (c.content ++ replicate c.pad 0))
    else frame_header (payload_len c) 0 flags id ++ c.content

unfoldable pub stream_bytes : ℕ → Bool → List Chunk → List ℕ
stream_bytes id end_stream [] = []
stream_bytes id end_stream (c ∷ cs) = chunk_bytes id end_stream c ++ stream_bytes id end_stream cs

unfoldable pub data_of : List Chunk → List ℕ
data_of [] = []
data_of (c ∷ cs) = c.content ++ data_of cs

unfoldable pub padding_of : List Chunk → ℕ
padding_of [] = 0
padding_of (c ∷ cs) = c.pad + padding_of cs

-- The last frame is marked, and no other.
unfoldable pub ends_once : List Chunk → Bool
ends_once [] = false
ends_once (c ∷ []) = c.final
ends_once (c ∷ d ∷ cs) = not c.final && ends_once (d ∷ cs)

abbrev pub round_len : ℕ → ℕ → ℕ
round_len max remaining = if ltb max remaining then max else remaining

copy_n-IsHealthy :
    (n : ℕ) (src : List ℕ) (w : FrameWriter)
    → IsHealthy w
    → n ≤ length src
    → copy_n n src w ≡ record w { out = w.out ++ take n src }
unfolding copy_n
copy_n-IsHealthy n src w h enough = ground (arith, h.unlimited, h.no_error)

copy_some :
    (n : ℕ) (src : List ℕ) (w : FrameWriter)
    → IsHealthy w
    → n ≤ length src
    → (if ltb 0 n then copy_n n src w else w) ≡ record w { out = w.out ++ take n src }
copy_some zero src w h enough = ap (λ (o : List ℕ). record w { out = o }) (sym (append-nil w.out))
copy_some (suc n) src w h enough =
    let b : ltb 0 (suc n) ≡ true = ground arith in rw b (copy_n-IsHealthy (suc n) src w h enough)

-- A round sends one frame, as far as a writer that takes every byte goes.
send_round-IsHealthy :
    (head : List ℕ) (n : ℕ) (src : List ℕ) (pad : ℕ) (w : FrameWriter)
    → IsHealthy w
    → n ≤ length src
    → send_round head n src pad w
      ≡ record w { out = w.out ++ (head ++ (take n src ++ replicate pad 0)) }
unfolding send_round
send_round-IsHealthy head n src pad w h enough =
    let w1 = write head w in
    let e1 : w1 ≡ record w { out = w.out ++ head } = write-IsHealthy head w h in
    let body = take n src in
    let zeros = replicate pad 0 in
    let mid : FrameWriter = record w { out = w.out ++ head ++ body } in
    let e2 : (if ltb 0 n then copy_n n src w1 else w1) ≡ mid =
      ap (λ (v : FrameWriter). if ltb 0 n then copy_n n src v else v) e1
      ∙ copy_some n src (record w { out = w.out ++ head })
          (record { unlimited = h.unlimited; no_error = h.no_error }) enough in
    let h2 : IsHealthy mid = record { unlimited = h.unlimited; no_error = h.no_error } in
    ap (write zeros) e2
    ∙ write-IsHealthy zeros mid h2
    ∙ ap (λ (o : List ℕ). record w { out = o }) (simp append_assoc refl)

length-take_enough : (n : ℕ) (src : List ℕ) → n ≤ length src → length (take n src) ≡ n
length-take_enough n src enough = omega (arith, length-take n src)

-- The head that a round writes.
unfoldable pub round_head : ℕ → Bool → Bool → ℕ → ℕ → List ℕ
round_head id es last n pad =
    let flags = if es && last then flag_end_stream else 0 in
    if ltb 0 pad
    then frame_header (n + pad + 1) 0 (bit_or flags flag_padded) id ++ (byte pad ∷ [])
    else frame_header n 0 flags id

chunk_bytes_lem :
    (id : ℕ) (es last : Bool) (n pad : ℕ) (src : List ℕ)
    → n ≤ length src
    → round_head id es last n pad ++ (take n src ++ replicate pad 0)
      ≡ chunk_bytes id es (record { content = take n src; pad = pad; final = last })
unfolding round_head chunk_bytes payload_len
chunk_bytes_lem id es last n pad src enough = elim (Bool-cases (ltb 0 pad)) [
  | inl some_pad ↦ rw (some_pad, length-take_enough n src enough) (simp append_assoc refl)
  | inr no_pad ↦
      let e : pad ≡ 0 = ground arith in
      rw (no_pad, length-take_enough n src enough, e)
        (ap (λ (o : List ℕ). frame_header n 0 (if es && last then flag_end_stream else 0) id ++ o)
          (append-nil (take n src)))
]

pub round_len_fits : (max remaining len : ℕ) → remaining ≤ len → round_len max remaining ≤ len
round_len_fits max remaining len enough = ground arith

drop_some : (n : ℕ) (src : List ℕ) → (if ltb 0 n then drop n src else src) ≡ drop n src
drop_some zero src = refl
drop_some (suc n) src = let b : ltb 0 (suc n) ≡ true = ground arith in rw b refl

-- What a round with a writer that takes every byte makes of the state.
pub data_round-IsHealthy :
    (id : ℕ) (es : Bool) (s : DataLoop)
    → IsHealthy s.writer
    → s.remaining_data ≤ length s.source
    → let w = s.writer in
      let n = round_len w.max_frame_size s.remaining_data in
      let pad = round_pad w.max_frame_size n s.padding in
      let last = s.remaining_data - n == 0 && s.padding - pad == 0 in
      let c : Chunk = record { content = take n s.source; pad = pad; final = last } in
      data_round id es s ≡ (
        record {
          writer = record w { out = w.out ++ chunk_bytes id es c };
          source = drop n s.source;
          remaining_data = s.remaining_data - n;
          padding = s.padding - pad;
        },
        last,
      )
unfolding data_round round_head
data_round-IsHealthy id es s h enough =
    let w = s.writer in
    let n = round_len w.max_frame_size s.remaining_data in
    let pad = round_pad w.max_frame_size n s.padding in
    let last = s.remaining_data - n == 0 && s.padding - pad == 0 in
    let fits : n ≤ length s.source =
      round_len_fits w.max_frame_size s.remaining_data (length s.source) enough in
    let state : FrameWriter → List ℕ → DataLoop × Bool = λ v rest. (
      record {
        writer = v;
        source = rest;
        remaining_data = s.remaining_data - n;
        padding = s.padding - pad;
      },
      last,
    ) in
    let sent = send_round-IsHealthy (round_head id es last n pad) n s.source pad w h fits in
    let bytes = chunk_bytes_lem id es last n pad s.source fits in
    ap (λ (v : FrameWriter). state v (if ltb 0 n then drop n s.source else s.source)) sent
    ∙ ap
        (λ (o : List ℕ).
          state (record w { out = w.out ++ o }) (if ltb 0 n then drop n s.source else s.source))
        bytes
    ∙ ap
        (state (record w {
          out =
              w.out
              ++ chunk_bytes id es (record { content = take n s.source; pad = pad; final = last });
        }))
        (drop_some n s.source)
