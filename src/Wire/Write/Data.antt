-- ===== src/Wire/Write/Data.antt =====
-- write.go: how the loop of `DataFrame.writeTo` ends.
use http.Prelude.{
  ℕ, zero, suc, ◌+◌, ◌^◌, ◌%◌, ◌≤◌, ◌<◌, ◌≡◌, refl, ◌∙◌, Bool, true, false, arith, ◌||◌, ltb,
}
use http.Prelude.{if◌then◌else◌, List, replicate, some, Bool-cases, inl, inr, ◌⊎◌}
use http.Prelude.Int.{pos_part}
use http.Frame.Frames.{DataFrame}
use http.Wire.Write.{
  FrameWriter, Written, write, copy_n, send_round, valid_stream_id, bad_reader, failed, DataLoop,
  round_pad, data_round, data_loop, write_data, contents, finish, bad_stream_id, bad_data,
}

write-max_frame_size :
    (src : List ℕ) (w : FrameWriter) → (write src w).max_frame_size ≡ w.max_frame_size
unfolding write
write-max_frame_size src w = ground arith

copy_n-max_frame_size :
    (n : ℕ) (src : List ℕ) (w : FrameWriter) → (copy_n n src w).max_frame_size ≡ w.max_frame_size
unfolding copy_n
copy_n-max_frame_size n src w = ground arith

if-max_frame_size :
    (b : Bool) (v w : FrameWriter) (n : ℕ)
    → v.max_frame_size ≡ n
    → w.max_frame_size ≡ n
    → (if b then v else w).max_frame_size ≡ n
if-max_frame_size true v w n p q = p
if-max_frame_size false v w n p q = q

send_round-max_frame_size :
    (head : List ℕ) (n : ℕ) (source : List ℕ) (pad : ℕ) (w : FrameWriter)
    → (send_round head n source pad w).max_frame_size ≡ w.max_frame_size
unfolding send_round
send_round-max_frame_size head n source pad w =
    let w1 = write head w in
    let e1 = write-max_frame_size head w in
    let w2 = if ltb 0 n then copy_n n source w1 else w1 in
    write-max_frame_size (replicate pad 0) w2
    ∙ if-max_frame_size (ltb 0 n) (copy_n n source w1) w1 w.max_frame_size
        (copy_n-max_frame_size n source w1 ∙ e1) e1

data_round-max_frame_size :
    (id : ℕ) (es : Bool) (s : DataLoop)
    → (data_round id es s).0.writer.max_frame_size ≡ s.writer.max_frame_size
unfolding data_round
data_round-max_frame_size id es s = send_round-max_frame_size _ _ _ _ s.writer

-- With room for a byte of data or of padding, a round is the last one or shortens what remains.
data_round-progress :
    (id : ℕ) (es : Bool) (s : DataLoop)
    → 2 ≤ s.writer.max_frame_size
    → ((data_round id es s).1 ≡ true)
      ⊎ ((data_round id es s).0.remaining_data + (data_round id es s).0.padding
          < s.remaining_data + s.padding)
unfolding data_round round_pad
data_round-progress id es s room = ground arith

-- The loop ends when there is a round for each byte and two more.
data_loop_enough :
    (fuel id : ℕ) (es : Bool) (s : DataLoop) (last : Bool)
    → 2 ≤ s.writer.max_frame_size
    → ((last ≡ true) × (1 ≤ fuel)) ⊎ (s.remaining_data + s.padding + 2 ≤ fuel)
    → (w : FrameWriter) × (data_loop fuel id es (s, last) ≡ some w)
unfolding data_loop
data_loop_enough zero id es s last room (inl (l, h)) = absurd (omega arith)
data_loop_enough zero id es s last room (inr h) = absurd (omega arith)
data_loop_enough (suc fuel) id es s last room h =
    let (s', last') = data_round id es s in
    elim (Bool-cases (last || failed s.writer)) [
      | inl d ↦ (s.writer, rw d refl)
      | inr d ↦ elim h [
        | inl (l, k) ↦ absurd (ground arith)
        | inr k ↦
            let next =
              data_loop_enough fuel id es s' last' (rw (data_round-max_frame_size id es s) room)
                (elim (data_round-progress id es s room) [
                  | inl done ↦ inl (done, omega arith)
                  | inr less ↦ inr (omega arith)
                ]) in
            (next.0, rw d (next.1))
      ]
    ]

-- `DataFrame.writeTo` returns for every frame and every writer, one that fails included, whose
-- frame size limit is at least 2.
pub write_data_returns :
    (f : DataFrame) (w : FrameWriter)
    → 2 ≤ w.max_frame_size
    → (r : Written) × (write_data f w ≡ some r)
unfolding write_data
write_data_returns f w room =
    let n = pos_part f.data_len % 2 ^ 32 in
    let start : DataLoop = record {
      writer = w;
      source = contents f.payload;
      remaining_data = n;
      padding = f.pad_len;
    } in
    let (w', e) =
      data_loop_enough (n + f.pad_len + 2) f.stream_id f.end_stream start false room
        (inr (omega arith)) in
    elim (Bool-cases (valid_stream_id f.stream_id)) [
      | inr v ↦ ((w, some bad_stream_id), rw v refl)
      | inl v ↦ elim (Bool-cases (bad_reader f.data_len f.payload)) [
        | inl b ↦ ((w, some bad_data), rw (v, b) refl)
        | inr b ↦ (finish w', rw (v, b, e) refl)
      ]
    ]
