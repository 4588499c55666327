-- ===== src/Wire/Block/Frames.antt =====
-- write.go: the frames that a header block is cut into, and one pass from the label `write` on.
use http.Prelude.{ℕ, ◌+◌, ◌-◌, ◌%◌, ◌^◌, ◌≤◌, ◌<◌, ◌≡◌, refl, ap, ◌∙◌, arith}
use http.Prelude.{Bool, true, false, not, ◌&&◌, ltb, ◌==◌, if◌then◌else◌}
use http.Prelude.{List, ◌++◌, length, length-drop, take, drop, take_all, replicate}
use http.Wire.Write.{FrameWriter, write, frame_header}
use http.Wire.Write.Control.{IsHealthy, write-IsHealthy}
use http.Wire.Block.{Lead, BlockState, lead_bytes, with_end, send_fragment, room_for, send_once}
use mathlib.Core.List.{append_assoc}

-- The bytes of a frame: the first one, or a CONTINUATION frame. `last` is END_HEADERS.
abbrev pub frame_bytes : Lead → Bool → Bool → List ℕ → List ℕ
frame_bytes k true last fragment =
    frame_header (length fragment) 9 (with_end last 0) k.stream_id ++ fragment
frame_bytes k false last fragment =
    lead_bytes k ((length fragment + k.non_fragment_len) % 2 ^ 32) (with_end last k.flags)
    ++ (fragment ++ replicate k.pad_len 0)

-- The bytes of a payload that are not of the fragment.
abbrev pub overhead : Lead → Bool → ℕ
overhead k started = if started then 0 else k.non_fragment_len

-- `Frames k max started block bytes`: the bytes are frames with payloads of at most `max` bytes whose
-- fragments make up the block. All but the first are CONTINUATION frames, as the first is where the
-- block has started already, and the last one alone has END_HEADERS.
pub data Frames (k : Lead) (max : ℕ) : Bool → List ℕ → List ℕ → Type 0 where
  closing :
      (started : Bool) (fragment bytes : List ℕ)
      → length fragment + overhead k started ≤ max
      → bytes ≡ frame_bytes k started true fragment
      → Frames k max started fragment bytes
  then_more :
      (started : Bool) (fragment rest block later bytes : List ℕ)
      → length fragment + overhead k started ≤ max
      → block ≡ fragment ++ rest
      → bytes ≡ frame_bytes k started false fragment ++ later
      → Frames k max true rest later
      → Frames k max started block bytes

pub Frames-at :
    {k : Lead} {max : ℕ} {started : Bool} {block block' bytes : List ℕ}
    → block ≡ block'
    → Frames k max started block bytes
    → Frames k max started block' bytes
Frames-at e f = rw e at f

abbrev pub sent_to : FrameWriter → List ℕ → FrameWriter
sent_to w bytes = record w { out = w.out ++ bytes }

pub sent_to-IsHealthy :
    (w : FrameWriter) (bytes : List ℕ) → IsHealthy w → IsHealthy (sent_to w bytes)
sent_to-IsHealthy w bytes h = record { unlimited = h.unlimited; no_error = h.no_error }

pub sent_to_twice : (w : FrameWriter) (a b : List ℕ) → sent_to (sent_to w a) b ≡ sent_to w (a ++ b)
sent_to_twice w a b = ap (λ o. record w { out = o }) (append_assoc w.out a b)

write_twice :
    (w : FrameWriter) (a b : List ℕ) → IsHealthy w → write b (write a w) ≡ sent_to w (a ++ b)
write_twice w a b h =
    ap (write b) (write-IsHealthy a w h)
    ∙ write-IsHealthy b (sent_to w a) (sent_to-IsHealthy w a h)
    ∙ sent_to_twice w a b

send_fragment-sent_to :
    (k : Lead) (started last : Bool) (fragment : List ℕ) (w : FrameWriter)
    → IsHealthy w
    → send_fragment k started last fragment w ≡ sent_to w (frame_bytes k started last fragment)
unfolding send_fragment
send_fragment-sent_to k true last fragment w h =
    write_twice w (frame_header (length fragment) 9 (with_end last 0) k.stream_id) fragment h
send_fragment-sent_to k false last fragment w h =
    let len = (length fragment + k.non_fragment_len) % 2 ^ 32 in
    let head = lead_bytes k len (with_end last k.flags) in
    ap (write (replicate k.pad_len 0)) (write_twice w head fragment h)
    ∙ write-IsHealthy (replicate k.pad_len 0) (sent_to w (head ++ fragment))
        (sent_to-IsHealthy w (head ++ fragment) h)
    ∙ sent_to_twice w (head ++ fragment) (replicate k.pad_len 0)
    ∙ ap (sent_to w) (append_assoc head fragment (replicate k.pad_len 0))

-- What is assumed of the sizes: the limit leaves room for the fields of the first frame.
pub record HasRoom (k : Lead) (max : ℕ) : Type 0 where
  pub some_room : 0 < max
  pub fields_fit : k.non_fragment_len ≤ max
  pub bounded : max < 2 ^ 32

room_for_lem :
    (k : Lead) (started : Bool) (max : ℕ)
    → HasRoom k max
    → room_for k started max ≡ max - overhead k started
unfolding room_for
room_for_lem k true max h = omega arith
room_for_lem k false max h = omega (arith, h.fields_fit, h.bounded)

abbrev pub room : Lead → BlockState → ℕ
room k s = s.writer.max_frame_size - overhead k s.first_sent

-- The state after a frame with the first `len` bytes of the buffer.
abbrev pub sent_frame : Lead → BlockState → Bool → ℕ → BlockState
sent_frame k s last len = record s {
  writer = sent_to s.writer (frame_bytes k s.first_sent last (take len s.buf));
  buf = drop len s.buf;
  first_sent = true;
}

pass_lem :
    (k : Lead) (s : BlockState) (last : Bool) (n len : ℕ)
    → IsHealthy s.writer
    → n ≡ length s.buf
    → record s {
      writer = send_fragment k s.first_sent last (take len s.buf) s.writer;
      buf = take (n - len) (drop len s.buf);
      first_sent = true;
    }
      ≡ sent_frame k s last len
pass_lem k s last n len h e =
    let m : n - len ≡ length (drop len s.buf) = omega (arith, length-drop len s.buf) in
    let kept : take (n - len) (drop len s.buf) ≡ drop len s.buf =
      ap (λ (i : ℕ). take i (drop len s.buf)) m ∙ take_all (drop len s.buf) in
    ap (λ w. record s { writer = w; buf = take (n - len) (drop len s.buf); first_sent = true })
      (send_fragment-sent_to k s.first_sent last (take len s.buf) s.writer h)
    ∙ ap
        (λ b. record s {
          writer = sent_to s.writer (frame_bytes k s.first_sent last (take len s.buf));
          buf = b;
          first_sent = true;
        })
        kept

abbrev pass : Lead → BlockState → ℕ → ℕ → BlockState
pass k s n room =
    let len = if ltb room n then room else n in
    let last = not (ltb room n) && s.remaining == 0 in
    record s {
      writer = send_fragment k s.first_sent last (take len s.buf) s.writer;
      buf = take (n - len) (drop len s.buf);
      first_sent = true;
    }

send_once-pass :
    (k : Lead) (s : BlockState)
    → HasRoom k s.writer.max_frame_size
    → length s.buf < 2 ^ 32
    → send_once k s ≡ pass k s (length s.buf) (room k s)
unfolding send_once
send_once-pass k s fits short =
    let n : length s.buf % 2 ^ 32 ≡ length s.buf = omega arith in
    ap (λ i. pass k s i (room_for k s.first_sent s.writer.max_frame_size)) n
    ∙ ap (pass k s (length s.buf)) (room_for_lem k s.first_sent s.writer.max_frame_size fits)

-- More than there is room for: as much as fits is sent.
pub send_once_full :
    (k : Lead) (s : BlockState)
    → HasRoom k s.writer.max_frame_size
    → IsHealthy s.writer
    → length s.buf < 2 ^ 32
    → ltb (room k s) (length s.buf) ≡ true
    → send_once k s ≡ sent_frame k s false (room k s)
send_once_full k s fits h short full =
    send_once-pass k s fits short
    ∙ ap
        (λ c.
          let len = if c then room k s else length s.buf in
          let last = not c && s.remaining == 0 in
          record s {
            writer = send_fragment k s.first_sent last (take len s.buf) s.writer;
            buf = take (length s.buf - len) (drop len s.buf);
            first_sent = true;
          })
        full
    ∙ pass_lem k s false (length s.buf) (room k s) h refl

-- All is sent.
pub send_once_rest :
    (k : Lead) (s : BlockState)
    → HasRoom k s.writer.max_frame_size
    → IsHealthy s.writer
    → length s.buf < 2 ^ 32
    → ltb (room k s) (length s.buf) ≡ false
    → send_once k s ≡ sent_frame k s (s.remaining == 0) (length s.buf)
send_once_rest k s fits h short room_left =
    send_once-pass k s fits short
    ∙ ap
        (λ c.
          let len = if c then room k s else length s.buf in
          let last = not c && s.remaining == 0 in
          record s {
            writer = send_fragment k s.first_sent last (take len s.buf) s.writer;
            buf = take (length s.buf - len) (drop len s.buf);
            first_sent = true;
          })
        room_left
    ∙ pass_lem k s (s.remaining == 0) (length s.buf) (length s.buf) h refl
