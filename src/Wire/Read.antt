-- ===== src/Wire/Read.antt =====
-- read.go: the frame header and the `readFrom` methods of the frames without a header block. The
-- input is the list of the bytes that the connection still gives before it ends.
pub mod RoundTrip
pub mod Settings
pub mod Framing
pub mod Data
pub mod Cut
use http.Prelude.{
  ℕ, zero, suc, ◌+◌, ◌-◌, ◌*◌, ◌/◌, ◌%◌, ◌^◌, Bool, true, false, not, ◌&&◌, ◌||◌, ◌==◌, ltb, leb,
}
use http.Prelude.{
  if◌then◌else◌, List, [], ◌∷◌, ◌++◌, length, take, drop, Option, none, some, bit_and,
}
use http.Prelude.Int.{ℤ, pos}
use http.Prelude.Results.{Result, ok, err}
use http.Error.{Error, conn_error, stream_error, eof, unexpected_eof}
use http.Settings.{Setting, SettingError, set_value, initial_window_size_id, max_frame_size_id}
use http.Frame.Types.{
  flag_end_stream, flag_ack, flag_padded, has, err_code_protocol, err_code_frame_size,
  err_code_flow_control,
}
use http.Frame.Frames.{
  DataFrame, Priority, PriorityFrame, RstStreamFrame, SettingsFrame, PingFrame, GoAwayFrame,
  WindowUpdateFrame, UnknownFrame, Frame, priority_frame, rst_stream_frame, settings_frame,
  ping_frame, go_away_frame, window_update_frame,
}
use http.Wire.Bytes.{u16, u24, u32}

-- A result of a read. `fault` is the panic of an index past the bytes that a short `Peek` returned,
-- whose error the source drops.
pub data Read {ℓ} (A : Type ℓ) : Type ℓ where
  got : A → Read A
  failed : Error → Read A
  fault : Read A

infixl 5 ◌>>=◌ ◌>>◌
abbrev pub ◌>>=◌ {ℓ κ} : {A : Type ℓ} {B : Type κ} → Read A → (A → Read B) → Read B
got a >>= f = f a
failed e >>= f = failed e
fault >>= f = fault

abbrev pub ◌>>◌ {ℓ} : {B : Type ℓ} → Read (Unit {0}) → Read B → Read B
m >> k = m >>= λ _. k

-- `if bad { return e }`.
abbrev pub reject_if : Bool → Error → Read (Unit {0})
reject_if true e = failed e
reject_if false e = got tt

pub record FrameHead : Type 0 where
  pub payload_len : ℕ
  pub frame_type : ℕ
  pub flags : ℕ
  pub stream_id : ℕ

-- The head of `ReadFrame`, up to `Discard(frameHeaderLen)`.
unfoldable pub read_head : List ℕ → Read (FrameHead × List ℕ)
read_head (a ∷ b ∷ c ∷ t ∷ g ∷ i ∷ j ∷ k ∷ l ∷ rest) = got (
  record {
    payload_len = u24 a b c;
    frame_type = t;
    flags = g;
    stream_id = bit_and (u32 i j k l) (2 ^ 31 - 1);
  },
  rest,
)
read_head _ = failed eof

-- `readUint32`.
unfoldable pub read_u32 : List ℕ → Read (ℕ × List ℕ)
read_u32 (a ∷ b ∷ c ∷ d ∷ rest) = got (u32 a b c d, rest)
read_u32 _ = fault

-- `ReadByte`, its error dropped.
unfoldable pub read_byte : List ℕ → ℕ × List ℕ
read_byte [] = (0, [])
read_byte (b ∷ rest) = (b, rest)

-- `Discard(n)`.
unfoldable pub discard : ℕ → List ℕ → Read (List ℕ)
discard n src = if ltb (length src) n then failed eof else got (drop n src)

-- `io.ReadFull` of `n` bytes.
unfoldable pub read_full : ℕ → List ℕ → Read (List ℕ × List ℕ)
read_full n src =
    if leb n (length src)
    then got (take n src, drop n src)
    else (if length src == 0 then failed eof else failed unexpected_eof)

-- A frame whose payload stays in the input, with the number of its bytes that the next `ReadFrame`
-- discards: the payload and the padding.
pub record Lazy (A : Type 0) : Type 0 where
  pub frame : A
  pub pending : ℕ

unfoldable pub read_data : FrameHead → List ℕ → Read (Lazy DataFrame × List ℕ)
unfolding has read_byte
read_data h src = do
  reject_if (h.stream_id == 0) (conn_error err_code_protocol)
  let padded = has h.flags flag_padded
  let (pad_len, rest) = if padded then read_byte src else (0, src)
  reject_if (padded && leb h.payload_len pad_len) (conn_error err_code_protocol)
  let data_len = if padded then h.payload_len - (pad_len + 1) else h.payload_len
  got (
    record {
      frame = record {
        stream_id = h.stream_id;
        payload = some (take data_len rest);
        data_len = pos data_len;
        pad_len = pad_len;
        end_stream = has h.flags flag_end_stream;
      };
      pending = data_len + pad_len;
    },
    rest,
  )

-- The stream dependency, its exclusive bit and the weight.
unfoldable pub read_priority_fields : List ℕ → Read (Priority × List ℕ)
unfolding read_u32 read_byte
read_priority_fields src = do
  (v, rest) ← read_u32 src
  let (weight, rest') = read_byte rest
  let dependency = bit_and v 0x7fff_ffff
  got (
    record { stream_dependency = dependency; weight = weight; exclusive = not (dependency == v) },
    rest',
  )

unfoldable pub read_priority : FrameHead → List ℕ → Read (PriorityFrame × List ℕ)
unfolding read_priority_fields discard
read_priority h src = do
  reject_if (h.stream_id == 0) (conn_error err_code_protocol)
  let fields = read_priority_fields src
  let bad = discard h.payload_len src
  if h.payload_len == 5
      then (fields >>= λ r. got (record { stream_id = h.stream_id; priority = r.0 }, r.1))
      else (bad >>= λ _. failed (stream_error err_code_frame_size h.stream_id))

unfoldable pub read_rst_stream : FrameHead → List ℕ → Read (RstStreamFrame × List ℕ)
unfolding read_u32
read_rst_stream h src = do
  reject_if (h.stream_id == 0) (conn_error err_code_protocol)
  reject_if (not (h.payload_len == 4)) (conn_error err_code_frame_size)
  (v, rest) ← read_u32 src
  got (record { stream_id = h.stream_id; err_code = v }, rest)

-- The `switch` over the identifier of a value that `SetValue` refuses.
unfoldable pub setting_error : ℕ → Error
setting_error id =
    if id == initial_window_size_id
    then conn_error err_code_flow_control
    else (if id == max_frame_size_id
        then conn_error err_code_frame_size
        else conn_error err_code_protocol)

abbrev set_or_fail : ℕ → Result SettingError (List Setting) → Read (List Setting)
set_or_fail id (ok s) = got s
set_or_fail id (err e) = failed (setting_error id)

-- The bytes that the buffer of the `bufio.Reader` holds, within its capacity, behind those that are
-- left of the input, when so many settings are still to be read.
abbrev pub Stale : Type 0
Stale = ℕ → List ℕ

-- The two slices of what `Peek(6)` returns, its error dropped. Where that is shorter, a slice reaches
-- into what is behind it in the buffer, and panics only behind the capacity.
unfoldable pub peeked : {A : Type 0} → (ℕ → ℕ → Read A) → List ℕ → Read A
peeked next (a ∷ b ∷ c ∷ d ∷ e ∷ f ∷ _) = next (u16 a b) (u32 c d e f)
peeked next _ = fault

-- The loop over the settings, for the number of them that is left. `Discard(6)` drops what there is.
unfoldable pub read_settings_loop : Stale → ℕ → List Setting → List ℕ → Read (List Setting × List ℕ)
unfolding set_value setting_error peeked
read_settings_loop stale zero s src = got (s, src)
read_settings_loop stale (suc n) s src =
    let next : List Setting → Read (List Setting × List ℕ) =
      λ s'. read_settings_loop stale n s' (drop 6 src) in
    peeked (λ id v. set_or_fail id (set_value id v s) >>= next) (src ++ stale (suc n))

unfoldable pub read_settings : Stale → FrameHead → List ℕ → Read (SettingsFrame × List ℕ)
unfolding has read_settings_loop
read_settings stale h src = do
  reject_if (not (h.stream_id == 0)) (conn_error err_code_protocol)
  let ack = has h.flags flag_ack
  reject_if (ack && ltb 0 h.payload_len) (conn_error err_code_frame_size)
  reject_if (not ack && not (h.payload_len % 6 == 0)) (conn_error err_code_frame_size)
  let settings = read_settings_loop stale (h.payload_len / 6) [] src
  if ack
      then got (record { ack = true; settings = [] }, src)
      else (settings >>= λ r. got (record { ack = false; settings = r.0 }, r.1))

unfoldable pub read_ping : FrameHead → List ℕ → Read (PingFrame × List ℕ)
unfolding has read_full
read_ping h src = do
  reject_if (not (h.stream_id == 0)) (conn_error err_code_protocol)
  reject_if (not (h.payload_len == 8)) (conn_error err_code_frame_size)
  (bytes, rest) ← read_full 8 src
  got (record { ack = has h.flags flag_ack; payload = bytes }, rest)

unfoldable pub read_go_away : FrameHead → List ℕ → Read (GoAwayFrame × List ℕ)
unfolding read_u32 read_full
read_go_away h src = do
  reject_if (not (h.stream_id == 0)) (conn_error err_code_protocol)
  reject_if (ltb h.payload_len 8) (conn_error err_code_protocol)
  (last, rest) ← read_u32 src
  (code, rest') ← read_u32 rest
  (bytes, rest'') ← read_full (h.payload_len - 8) rest'
  got (
    record { last_stream_id = bit_and last (2 ^ 31 - 1); err_code = code; debug_data = bytes },
    rest'',
  )

unfoldable pub read_window_update : FrameHead → List ℕ → Read (WindowUpdateFrame × List ℕ)
unfolding read_u32
read_window_update h src = do
  reject_if (not (h.payload_len == 4)) (conn_error err_code_frame_size)
  (v, rest) ← read_u32 src
  let increment = bit_and v 0x7fff_ffff
  reject_if (increment == 0) (
      if h.stream_id == 0
      then conn_error err_code_protocol
      else stream_error err_code_protocol h.stream_id)
  got (record { stream_id = h.stream_id; window_size_increment = increment }, rest)

unfoldable pub read_unknown : FrameHead → List ℕ → Read (Lazy UnknownFrame × List ℕ)
read_unknown h src = got (
  record {
    frame = record {
      frame_type = h.frame_type;
      stream_id = h.stream_id;
      flags = h.flags;
      payload = some (take h.payload_len src);
      payload_len = pos h.payload_len;
    };
    pending = h.payload_len;
  },
  src,
)

abbrev as_frame {ℓ} : {A : Type ℓ} → (A → Frame) → Read (A × List ℕ) → Read (Frame × List ℕ)
as_frame make m = m >>= λ r. got (make r.0, r.1)

-- `frameCtor[r.frameType]` and `frame.readFrom(r)` for the frames that are read whole; `none` for the
-- types whose payload stays in the input or is a header block.
unfoldable pub read_control : Stale → FrameHead → List ℕ → Option (Read (Frame × List ℕ))
read_control stale h src =
    if h.frame_type == 2
    then some (as_frame priority_frame (read_priority h src))
    else (if h.frame_type == 3
        then some (as_frame rst_stream_frame (read_rst_stream h src))
        else (if h.frame_type == 4
            then some (as_frame settings_frame (read_settings stale h src))
            else (if h.frame_type == 6
                then some (as_frame ping_frame (read_ping h src))
                else (if h.frame_type == 7
                    then some (as_frame go_away_frame (read_go_away h src))
                    else (if h.frame_type == 8
                        then some (as_frame window_update_frame (read_window_update h src))
                        else none)))))
