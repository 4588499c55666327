-- ===== src/Wire/Fragments/Start.antt =====
-- read.go and write.go: the fields of HEADERS and PUSH_PROMISE frames in front of the block.
use http.Prelude.{ℕ, ◌+◌, ◌-◌, ◌^◌, ◌<◌, ◌≡◌, refl, arith, Bool, true, false}
use http.Prelude.{ltb, ◌==◌, if◌then◌else◌}
use http.Prelude.{List, [], ◌∷◌, ◌++◌}
use http.Frame.Types.{flag_end_stream, flag_end_headers, flag_padded, flag_priority, has}
use http.Frame.Frames.{Priority}
use http.Wire.Bytes.{byte, put_u32, u32_bytes}
use http.Wire.Write.{dependency_bits}
use http.Wire.Write.Control.{dependency_bits_lem}
use http.Wire.Block.{with_end, flag_if}
use http.Wire.Read.{got, FrameHead, read_priority_fields}
use http.Wire.Fragments.{headers_start, no_priority}

-- The flags of a HEADERS frame.
abbrev pub flags_of : Bool → Bool → Bool → Bool → ℕ
flags_of padded priority ends last =
    with_end last
      (flag_if ends flag_end_stream (flag_if priority flag_priority (flag_if padded flag_padded 0)))

-- What a reader finds in them.
pub flags_of_lem :
    (padded priority ends last : Bool)
    → (has (flags_of padded priority ends last) flag_padded ≡ padded)
      × (has (flags_of padded priority ends last) flag_priority ≡ priority)
      × (has (flags_of padded priority ends last) flag_end_stream ≡ ends)
      × (has (flags_of padded priority ends last) flag_end_headers ≡ last)
      × (flags_of padded priority ends last < 256)
unfolding has
flags_of_lem padded priority ends last = ground arith

priority_fields-put :
    (p : Priority) (tail : List ℕ)
    → p.stream_dependency < 2 ^ 31
    → p.weight < 256
    → read_priority_fields ((put_u32 (dependency_bits p) ++ (byte p.weight ∷ [])) ++ tail)
      ≡ got (p, tail)
unfolding read_priority_fields
priority_fields-put p tail hi small =
    let (fits, low, set, unset) = dependency_bits_lem p hi in
    ground (arith, u32_bytes (dependency_bits p) fits)

abbrev pub pad_bytes : Bool → ℕ → List ℕ
pad_bytes padded pad = if padded then byte pad ∷ [] else []

abbrev pub priority_bytes : Bool → Priority → List ℕ
priority_bytes c p = if c then put_u32 (dependency_bits p) ++ (byte p.weight ∷ []) else []

abbrev pub used_bytes : Bool → ℕ → Bool → ℕ
used_bytes b pad c = (if b then pad + 1 else 0) + (if c then 5 else 0)

-- Padding and a priority, where the frame has them.
pub fields_read :
    (b c : Bool) (head : FrameHead) (pad n : ℕ) (p : Priority) (ends : Bool) (tail : List ℕ)
    → (head.stream_id == 0) ≡ false
    → has head.flags flag_padded ≡ b
    → has head.flags flag_priority ≡ c
    → has head.flags flag_end_stream ≡ ends
    → head.payload_len ≡ n + used_bytes b pad c
    → pad < 256
    → (b ≡ false → pad ≡ 0)
    → p.stream_dependency < 2 ^ 31
    → p.weight < 256
    → (c ≡ false → p ≡ no_priority)
    → headers_start head (pad_bytes b pad ++ (priority_bytes c p ++ tail))
      ≡ got (
        record {
          stream_id = head.stream_id;
          header = [];
          priority = p;
          pad_len = pad;
          end_stream = ends;
        },
        n,
        tail,
      )
unfolding headers_start
fields_read true true head pad n p ends tail id e1 e2 e3 len small no_pad dep weight no_p =
    let enough : ltb (n + used_bytes true pad true) (pad + 1 + 5) ≡ false = ground arith in
    let left : n + used_bytes true pad true - (pad + 1 + 5) ≡ n = omega arith in
    let pad' : byte pad ≡ pad = omega arith in
    rw (id, e1, e2, e3, len, pad', priority_fields-put p tail dep weight, enough, left) refl
fields_read true false head pad n p ends tail id e1 e2 e3 len small no_pad dep weight no_p =
    let enough : ltb (n + used_bytes true pad false) (pad + 1 + 0) ≡ false = ground arith in
    let left : n + used_bytes true pad false - (pad + 1 + 0) ≡ n = omega arith in
    let pad' : byte pad ≡ pad = omega arith in
    rw (id, e1, e2, e3, len, pad', enough, left, no_p refl) refl
fields_read false true head pad n p ends tail id e1 e2 e3 len small no_pad dep weight no_p =
    let enough : ltb (n + used_bytes false pad true) (0 + 5) ≡ false = ground arith in
    let left : n + used_bytes false pad true - (0 + 5) ≡ n = omega arith in
    rw (id, e1, e2, e3, len, priority_fields-put p tail dep weight, enough, left, no_pad refl) refl
fields_read false false head pad n p ends tail id e1 e2 e3 len small no_pad dep weight no_p =
    let enough : ltb (n + used_bytes false pad false) (0 + 0) ≡ false = ground arith in
    let left : n + used_bytes false pad false - (0 + 0) ≡ n = omega arith in
    rw (id, e1, e2, e3, len, enough, left, no_pad refl, no_p refl) refl
