-- ===== src/Wire/Read/RoundTrip.antt =====
-- read.go and write.go: PRIORITY, RST_STREAM, WINDOW_UPDATE, PING and GOAWAY frames.
use http.Prelude.{ℕ, ◌+◌, ◌-◌, ◌%◌, ◌^◌, ◌<◌, ◌≡◌, refl, Bool, true, false, ◌||◌, arith}
use http.Prelude.{List, [], ◌∷◌, ◌++◌, length, take-append, drop-append, bit_and}
use http.Prelude.{ltb, ◌==◌, if◌then◌else◌, length-append}
use http.Prelude.Bits.{bit_and_ones}
use http.Frame.Types.{has, flag_ack, max_initial_window_size}
use http.Frame.Frames.{PriorityFrame, RstStreamFrame, PingFrame, GoAwayFrame, WindowUpdateFrame}
use http.Wire.Bytes.{byte, put_u32, u32_bytes, u24_bytes}
use http.Wire.Write.{
  FrameWriter, frame_header, valid_stream_id, dependency_bits, write_priority, write_rst_stream,
  write_ping, write_go_away, write_window_update,
}
use http.Wire.Write.Control.{
  IsHealthy, sends, finish-write, finish-write_both, valid_stream_id_bounds, dependency_bits_lem,
}
use http.Wire.Read.{
  Read, got, ◌>>=◌, FrameHead, read_head, read_u32, read_full, read_priority, read_rst_stream,
  read_ping, read_go_away, read_window_update,
}

-- Reads a header and then a frame of the type that the caller expects.
abbrev pub read_as {ℓ} :
    {A : Type ℓ} → (FrameHead → List ℕ → Read (A × List ℕ)) → List ℕ → Read (A × List ℕ)
read_as reader src = read_head src >>= λ r. reader r.0 r.1

pub read_head-frame_header :
    (n t g id : ℕ) (rest : List ℕ)
    → n < 2 ^ 24
    → t < 256
    → g < 256
    → id < 2 ^ 31
    → read_head (frame_header n t g id ++ rest)
      ≡ got (record { payload_len = n; frame_type = t; flags = g; stream_id = id }, rest)
unfolding read_head frame_header
read_head-frame_header n t g id rest hn ht hg hi =
    ground (arith, u24_bytes n hn, u32_bytes id, bit_and_ones 31 id)

read_u32-put : (v : ℕ) (rest : List ℕ) → v < 2 ^ 32 → read_u32 (put_u32 v ++ rest) ≡ got (v, rest)
unfolding read_u32
read_u32-put v rest h = ground (arith, u32_bytes v h)

-- On a writer that takes every byte, a RST_STREAM frame of a valid stream identifier of 32 bits
-- with a code below 2 ^ 32 is sent whole and read back from what was sent, whatever follows it.
pub read_rst_stream-write :
    (f : RstStreamFrame) (w : FrameWriter) (rest : List ℕ)
    → IsHealthy w
    → valid_stream_id f.stream_id ≡ true
    → f.stream_id < 2 ^ 32
    → f.err_code < 2 ^ 32
    → (sent : List ℕ) × (write_rst_stream f w ≡ sends sent w)
      × (read_as read_rst_stream (sent ++ rest) ≡ got (f, rest))
unfolding write_rst_stream read_rst_stream
read_rst_stream-write f w rest h v b c =
    let body = put_u32 f.err_code in
    let sent = frame_header 4 3 0 f.stream_id ++ body in
    let (lo, hi) = valid_stream_id_bounds f.stream_id v b in
    let head =
      read_head-frame_header 4 3 0 f.stream_id (body ++ rest) (omega arith) (omega arith)
        (omega arith) hi in
    (sent, rw v (finish-write sent w h), rw head (ground (arith, u32_bytes f.err_code c)))

-- On a writer that takes every byte, a PRIORITY frame with two valid stream identifiers of 32 bits
-- and a weight of one byte is sent whole and read back from what was sent, whatever follows it.
pub read_priority-write :
    (f : PriorityFrame) (w : FrameWriter) (rest : List ℕ)
    → IsHealthy w
    → valid_stream_id f.stream_id ≡ true
    → f.stream_id < 2 ^ 32
    → valid_stream_id f.priority.stream_dependency ≡ true
    → f.priority.stream_dependency < 2 ^ 32
    → f.priority.weight < 256
    → (sent : List ℕ) × (write_priority f w ≡ sends sent w)
      × (read_as read_priority (sent ++ rest) ≡ got (f, rest))
unfolding write_priority read_priority
read_priority-write f w rest h v b vd bd bw =
    let p = f.priority in
    let body = put_u32 (dependency_bits p) ++ (byte p.weight ∷ []) in
    let sent = frame_header 5 2 0 f.stream_id ++ body in
    let (lo, hi) = valid_stream_id_bounds f.stream_id v b in
    let (lo', hi') = valid_stream_id_bounds p.stream_dependency vd bd in
    let (fits, low, set, unset) = dependency_bits_lem p hi' in
    let head =
      read_head-frame_header 5 2 0 f.stream_id (body ++ rest) (omega arith) (omega arith)
        (omega arith) hi in
    (
      sent,
      rw (v, vd) (finish-write sent w h),
      rw head (ground (arith, u32_bytes (dependency_bits p) fits)),
    )

-- On a writer that takes every byte, a WINDOW_UPDATE frame of a stream below 2 ^ 31 with an
-- increment from 1 to 2 ^ 31 - 1 is sent whole and read back from what was sent, whatever follows
-- it.
pub read_window_update-write :
    (f : WindowUpdateFrame) (w : FrameWriter) (rest : List ℕ)
    → IsHealthy w
    → f.stream_id < 2 ^ 31
    → 0 < f.window_size_increment
    → f.window_size_increment < 2 ^ 31
    → (sent : List ℕ) × (write_window_update f w ≡ sends sent w)
      × (read_as read_window_update (sent ++ rest) ≡ got (f, rest))
unfolding write_window_update read_window_update
read_window_update-write f w rest h hi lo b =
    let n = f.window_size_increment in
    let body = put_u32 n in
    let sent = frame_header 4 8 0 f.stream_id ++ body in
    let head =
      read_head-frame_header 4 8 0 f.stream_id (body ++ rest) (omega arith) (omega arith)
        (omega arith) hi in
    let legal : (n == 0 || ltb max_initial_window_size n) ≡ false = ground arith in
    (
      sent,
      rw legal (finish-write sent w h),
      rw head (ground (arith, u32_bytes n (omega arith), bit_and_ones 31 n)),
    )

read_full-append :
    (a rest : List ℕ) (n : ℕ) → length a ≡ n → read_full n (a ++ rest) ≡ got (a, rest)
unfolding read_full
read_full-append a rest n e =
    rw (← e) (ground (arith, take-append a rest, drop-append a rest, length-append a rest))

pub ack_flag : Bool → ℕ
ack_flag ack = if ack then flag_ack else 0

has-ack_flag : (ack : Bool) → (ack_flag ack < 256) × (has (ack_flag ack) flag_ack ≡ ack)
unfolding has ack_flag
has-ack_flag true = (omega arith, refl)
has-ack_flag false = (omega arith, refl)

-- On a writer that takes every byte, a PING frame of eight bytes, an acknowledgement or not, is
-- sent whole and read back from what was sent, whatever follows it.
pub read_ping-write :
    (f : PingFrame) (w : FrameWriter) (rest : List ℕ)
    → IsHealthy w
    → length f.payload ≡ 8
    → (sent : List ℕ) × (write_ping f w ≡ sends sent w)
      × (read_as read_ping (sent ++ rest) ≡ got (f, rest))
unfolding write_ping read_ping ack_flag
read_ping-write f w rest h e =
    let head = frame_header (length f.payload) 6 (ack_flag f.ack) 0 in
    let (small, ack) = has-ack_flag f.ack in
    let parsed =
      read_head-frame_header (length f.payload) 6 (ack_flag f.ack) 0 (f.payload ++ rest)
        (omega arith) (omega arith) small (omega arith) in
    (
      head ++ f.payload,
      finish-write_both head f.payload w h,
      rw parsed (ground (arith, read_full-append f.payload rest 8 e, ack)),
    )

-- On a writer that takes every byte, a GOAWAY frame with a last stream below 2 ^ 31, a code below 2
-- ^ 32 and a payload short enough for a 24-bit length is sent whole and read back from what was
-- sent, whatever follows it.
pub read_go_away-write :
    (f : GoAwayFrame) (w : FrameWriter) (rest : List ℕ)
    → IsHealthy w
    → f.last_stream_id < 2 ^ 31
    → f.err_code < 2 ^ 32
    → 8 + length f.debug_data < 2 ^ 24
    → (sent : List ℕ) × (write_go_away f w ≡ sends sent w)
      × (read_as read_go_away (sent ++ rest) ≡ got (f, rest))
unfolding write_go_away read_go_away
read_go_away-write f w rest h hi b fits =
    let n = 8 + length f.debug_data in
    let last : bit_and f.last_stream_id (2 ^ 31 - 1) ≡ f.last_stream_id =
      omega (arith, bit_and_ones 31 f.last_stream_id) in
    let small : n % 2 ^ 32 ≡ n = omega arith in
    let body = put_u32 (bit_and f.last_stream_id (2 ^ 31 - 1)) ++ put_u32 f.err_code in
    let head = frame_header (n % 2 ^ 32) 7 0 0 in
    let parsed =
      read_head-frame_header (n % 2 ^ 32) 7 0 0 (body ++ (f.debug_data ++ rest)) (omega arith)
        (omega arith) (omega arith) (omega arith) in
    (
      (head ++ body) ++ f.debug_data,
      finish-write_both (head ++ body) f.debug_data w h,
      rw parsed (
          ground (
            arith,
            last,
            small,
            u32_bytes f.last_stream_id (omega arith),
            u32_bytes f.err_code b,
            read_full-append f.debug_data rest (n - 8) (omega arith),
          )),
    )
