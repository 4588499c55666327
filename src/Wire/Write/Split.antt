-- ===== src/Wire/Write/Split.antt =====
-- write.go: what `DataFrame.writeTo` sends.
use http.Prelude.{
  ℕ, zero, suc, ◌+◌, ◌-◌, ◌^◌, ◌%◌, ◌≤◌, ◌<◌, ◌≡◌, refl, sym, ap, ◌∙◌, Bool, true, false, arith,
  ◌&&◌, ◌==◌,
}
use http.Prelude.{
  List, [], ◌∷◌, ◌++◌, length, take, drop, some, Bool-cases, inl, inr, All, length-drop,
  length-take,
}
use http.Prelude.Int.{pos}
use http.Frame.Frames.{DataFrame}
use http.Wire.Write.{
  FrameWriter, valid_stream_id, failed, DataLoop, round_pad, data_loop, write_data,
}
use http.Wire.Write.Control.{IsHealthy, sends}
use http.Wire.Write.Chunks.{
  Chunk, payload_len, chunk_bytes, stream_bytes, data_of, padding_of, ends_once, round_len,
  data_round-IsHealthy,
}
use mathlib.Core.List.{append_assoc, append-nil}

-- The frames carry this data and this padding, none exceeds `max`, and only the last one is marked.
pub record IsSplit (max : ℕ) (content : List ℕ) (padding : ℕ) (cs : List Chunk) : Type 0 where
  pub carries : data_of cs ≡ content
  pub pads : padding_of cs ≡ padding
  pub fits : All (λ c. payload_len c ≤ max) cs
  pub ends : ends_once cs ≡ true

failed_lem : (w : FrameWriter) → IsHealthy w → failed w ≡ false
failed_lem w h = ground (arith, h.no_error)

ends_once_more :
    (c : Chunk) (cs : List Chunk)
    → c.final ≡ false
    → ends_once cs ≡ true
    → ends_once (c ∷ cs) ≡ true
unfolding ends_once
ends_once_more c [] e h = absurd cc
ends_once_more c (d ∷ cs) e h = rw e h

take_nil : (n : ℕ) → take {A = ℕ} n [] ≡ []
take_nil zero = refl
take_nil (suc n) = refl

take-take-drop : (m n : ℕ) (src : List ℕ) → take m src ++ take n (drop m src) ≡ take (m + n) src
take-take-drop zero n src = ap (λ (k : ℕ). take k src) (omega arith)
take-take-drop (suc m) n [] = take_nil n ∙ sym (take_nil (suc m + n))
take-take-drop (suc m) n (x ∷ src) =
    let e : suc m + n ≡ suc (m + n) = omega arith in
    rw e (ap (λ (o : List ℕ). x ∷ o) (take-take-drop m n src))

-- The frame of a round.
abbrev round_chunk : DataLoop → Chunk
round_chunk s =
    let n = round_len s.writer.max_frame_size s.remaining_data in
    let pad = round_pad s.writer.max_frame_size n s.padding in
    record {
      content = take n s.source;
      pad = pad;
      final = s.remaining_data - n == 0 && s.padding - pad == 0;
    }

round_chunk_fits :
    (s : DataLoop)
    → 2 ≤ s.writer.max_frame_size
    → s.remaining_data ≤ length s.source
    → payload_len (round_chunk s) ≤ s.writer.max_frame_size
unfolding payload_len round_pad
round_chunk_fits s room enough =
    let n = round_len s.writer.max_frame_size s.remaining_data in
    ground (arith, length-take n s.source)

-- What a round leaves, next to its frame.
abbrev round_rest : ℕ → Bool → DataLoop → DataLoop
round_rest id es s =
    let n = round_len s.writer.max_frame_size s.remaining_data in
    record {
      writer = record s.writer { out = s.writer.out ++ chunk_bytes id es (round_chunk s) };
      source = drop n s.source;
      remaining_data = s.remaining_data - n;
      padding = s.padding - round_pad s.writer.max_frame_size n s.padding;
    }

round_shorter :
    (id : ℕ) (es : Bool) (s : DataLoop)
    → 2 ≤ s.writer.max_frame_size
    → (round_chunk s).final ≡ false
    → (round_rest id es s).remaining_data + (round_rest id es s).padding
      < s.remaining_data + s.padding
unfolding round_pad
round_shorter id es s room more = ground arith

round_len_le : (max remaining : ℕ) → round_len max remaining ≤ remaining
round_len_le max remaining = ground arith

round_pad_le : (max n padding : ℕ) → round_pad max n padding ≤ padding
unfolding round_pad
round_pad_le max n padding = ground arith

loop_step :
    (fuel id : ℕ) (es : Bool) (s : DataLoop)
    → IsHealthy s.writer
    → s.remaining_data ≤ length s.source
    → data_loop (suc fuel) id es (s, false)
      ≡ data_loop fuel id es (round_rest id es s, (round_chunk s).final)
unfolding data_loop
loop_step fuel id es s h enough =
    rw (failed_lem s.writer h) (ap (data_loop fuel id es) (data_round-IsHealthy id es s h enough))

loop_done :
    (fuel id : ℕ) (es : Bool) (s : DataLoop) → data_loop (suc fuel) id es (s, true) ≡ some s.writer
unfolding data_loop
loop_done fuel id es s = refl

-- The last round.
last-IsSplit :
    (s : DataLoop)
    → 2 ≤ s.writer.max_frame_size
    → s.remaining_data ≤ length s.source
    → (round_chunk s).final ≡ true
    → IsSplit s.writer.max_frame_size
        (take s.remaining_data s.source)
        s.padding
        (round_chunk s ∷ [])
unfolding data_of padding_of ends_once
last-IsSplit s room enough done =
    let n = round_len s.writer.max_frame_size s.remaining_data in
    let all_data : n ≡ s.remaining_data =
      ground (arith, round_len_le s.writer.max_frame_size s.remaining_data) in
    let all_pad : (round_chunk s).pad ≡ s.padding =
      ground (arith, round_pad_le s.writer.max_frame_size n s.padding) in
    record {
      carries = append-nil (take n s.source) ∙ ap (λ (k : ℕ). take k s.source) all_data;
      pads = omega (arith, all_pad);
      fits = (round_chunk_fits s room enough, tt);
      ends = done;
    }

-- A round before it.
more-IsSplit :
    (id : ℕ) (es : Bool) (s : DataLoop) (cs : List Chunk)
    → 2 ≤ s.writer.max_frame_size
    → s.remaining_data ≤ length s.source
    → (round_chunk s).final ≡ false
    → let s' = round_rest id es s in
      IsSplit s.writer.max_frame_size (take s'.remaining_data s'.source) s'.padding cs
      → IsSplit s.writer.max_frame_size
          (take s.remaining_data s.source)
          s.padding
          (round_chunk s ∷ cs)
unfolding data_of padding_of
more-IsSplit id es s cs room enough more rest =
    let max = s.writer.max_frame_size in
    let n = round_len max s.remaining_data in
    let sum : n + (s.remaining_data - n) ≡ s.remaining_data =
      omega (arith, round_len_le max s.remaining_data) in
    record {
      carries =
          ap (λ (o : List ℕ). take n s.source ++ o) rest.carries
          ∙ take-take-drop n (s.remaining_data - n) s.source
          ∙ ap (λ (k : ℕ). take k s.source) sum;
      pads = omega (arith, rest.pads, round_pad_le max n s.padding);
      fits = (round_chunk_fits s room enough, rest.fits);
      ends = ends_once_more (round_chunk s) cs more rest.ends;
    }

data_loop-IsSplit :
    (fuel id : ℕ) (es : Bool) (s : DataLoop)
    → IsHealthy s.writer
    → 2 ≤ s.writer.max_frame_size
    → s.remaining_data ≤ length s.source
    → s.remaining_data + s.padding + 2 ≤ fuel
    → (cs : List Chunk) × (data_loop fuel id es (s, false)
        ≡ some (record s.writer { out = s.writer.out ++ stream_bytes id es cs }))
      × IsSplit s.writer.max_frame_size (take s.remaining_data s.source) s.padding cs
unfolding stream_bytes
data_loop-IsSplit zero id es s h room enough fuel_enough = absurd (omega arith)
data_loop-IsSplit (suc zero) id es s h room enough fuel_enough = absurd (omega arith)
data_loop-IsSplit (suc (suc fuel)) id es s h room enough fuel_enough =
    let w = s.writer in
    let c = round_chunk s in
    let s' = round_rest id es s in
    let step = loop_step (suc fuel) id es s h enough in
    elim (Bool-cases c.final) [
      | inl done ↦ (
        c ∷ [],
        step
            ∙ ap (λ (b : Bool). data_loop (suc fuel) id es (s', b)) done
            ∙ loop_done fuel id es s'
            ∙ ap (λ (o : List ℕ). some (record w { out = w.out ++ o }))
                (sym (append-nil (chunk_bytes id es c))),
        last-IsSplit s room enough done,
      )
      | inr more ↦
          let less = round_shorter id es s room more in
          let (cs, e, split) =
            data_loop-IsSplit (suc fuel) id es s'
              (record { unlimited = h.unlimited; no_error = h.no_error }) room
              (omega (arith, length-drop (round_len w.max_frame_size s.remaining_data) s.source))
              (omega (arith, less)) in
          (
            c ∷ cs,
            step
                ∙ ap (λ (b : Bool). data_loop (suc fuel) id es (s', b)) more
                ∙ e
                ∙ ap (λ (o : List ℕ). some (record w { out = o }))
                    (append_assoc w.out (chunk_bytes id es c) (stream_bytes id es cs)),
            more-IsSplit id es s cs room enough more split,
          )
    ]

write_data-loop :
    (f : DataFrame) (src : List ℕ) (n : ℕ) (w : FrameWriter) (sent : List ℕ)
    → IsHealthy w
    → valid_stream_id f.stream_id ≡ true
    → f.payload ≡ some src
    → f.data_len ≡ pos n
    → n < 2 ^ 32
    → let start : DataLoop = record {
      writer = w;
      source = src;
      remaining_data = n;
      padding = f.pad_len;
    } in
      data_loop (n + f.pad_len + 2) f.stream_id f.end_stream (start, false)
        ≡ some (record w { out = w.out ++ sent })
      → write_data f w ≡ some (sends sent w)
unfolding write_data
write_data-loop f src n w sent h valid given size fits e =
    let small : n % 2 ^ 32 ≡ n = omega arith in rw (valid, given, size, small, e, h.no_error) refl

-- On a writer that takes every byte, with a frame size limit of at least 2, a DATA frame of a valid
-- stream identifier, whose data has n bytes, below 2 ^ 32, that its reader gives, is sent as a list
-- of frames: their data is those n bytes, their padding is the padding of the frame, no payload
-- exceeds the limit, and the last frame alone is marked as such, which is where END_STREAM stands.
pub write_data-IsSplit :
    (f : DataFrame) (src : List ℕ) (n : ℕ) (w : FrameWriter)
    → IsHealthy w
    → 2 ≤ w.max_frame_size
    → valid_stream_id f.stream_id ≡ true
    → f.payload ≡ some src
    → f.data_len ≡ pos n
    → n ≤ length src
    → n < 2 ^ 32
    → (cs : List Chunk) × (write_data f w
        ≡ some (sends (stream_bytes f.stream_id f.end_stream cs) w))
      × IsSplit w.max_frame_size (take n src) f.pad_len cs
write_data-IsSplit f src n w h room valid given size enough fits =
    let start : DataLoop = record {
      writer = w;
      source = src;
      remaining_data = n;
      padding = f.pad_len;
    } in
    let (cs, e, split) =
      data_loop-IsSplit (n + f.pad_len + 2) f.stream_id f.end_stream start h room enough
        (omega arith) in
    (
      cs,
      write_data-loop f src n w (stream_bytes f.stream_id f.end_stream cs) h valid given size fits
          e,
      split,
    )
