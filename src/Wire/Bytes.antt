-- ===== src/Wire/Bytes.antt =====
-- write.go and encoding/binary: numbers in big-endian order.
use http.Prelude.{ℕ, ◌+◌, ◌*◌, ◌/◌, ◌%◌, ◌^◌, ◌<◌, ◌≡◌, bit_or, List, [], ◌∷◌, arith}
use http.Prelude.Bits.{bit_or_fields}

-- `byte(v)`.
abbrev pub byte : ℕ → ℕ
byte v = v % 256

-- The bytes that `writeUint16` appends.
abbrev pub put_u16 : ℕ → List ℕ
put_u16 v = byte (v / 2 ^ 8) ∷ byte v ∷ []

-- The bytes that `writeUint32` appends.
abbrev pub put_u32 : ℕ → List ℕ
put_u32 v = byte (v / 2 ^ 24) ∷ byte (v / 2 ^ 16) ∷ byte (v / 2 ^ 8) ∷ byte v ∷ []

-- `binary.BigEndian.Uint16` and `Uint32`.
abbrev pub u16 : ℕ → ℕ → ℕ
u16 a b = a * 2 ^ 8 + b

abbrev pub u32 : ℕ → ℕ → ℕ → ℕ → ℕ
u32 a b c d = a * 2 ^ 24 + b * 2 ^ 16 + c * 2 ^ 8 + d

-- `uint32(a)<<16 | uint32(b)<<8 | uint32(c)`.
unfoldable pub u24 : ℕ → ℕ → ℕ → ℕ
u24 a b c = bit_or (bit_or (a * 2 ^ 16) (b * 2 ^ 8)) c

pub u24_lem : (a b c : ℕ) → b < 256 → c < 256 → u24 a b c ≡ a * 2 ^ 16 + b * 2 ^ 8 + c
unfolding u24
u24_lem a b c hb hc =
    let high : bit_or (a * 2 ^ 16) (b * 2 ^ 8) ≡ (a * 2 ^ 8 + b) * 2 ^ 8 =
      omega (arith, bit_or_fields 16 a (b * 2 ^ 8) (omega arith)) in
    rw high (omega (arith, bit_or_fields 8 (a * 2 ^ 8 + b) c hc))

pub u32_bytes :
    (v : ℕ)
    → v < 2 ^ 32
    → u32 (byte (v / 2 ^ 24)) (byte (v / 2 ^ 16)) (byte (v / 2 ^ 8)) (byte v) ≡ v
u32_bytes v h = omega arith

pub u24_bytes : (v : ℕ) → v < 2 ^ 24 → u24 (byte (v / 2 ^ 16)) (byte (v / 2 ^ 8)) (byte v) ≡ v
u24_bytes v h = omega (arith, u24_lem (byte (v / 2 ^ 16)) (byte (v / 2 ^ 8)) (byte v))

pub u16_bytes : (v : ℕ) → v < 2 ^ 16 → u16 (byte (v / 2 ^ 8)) (byte v) ≡ v
u16_bytes v h = omega arith
