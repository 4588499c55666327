-- ===== src/Hpack/Literal.antt =====
-- hpack/hpack.go: string literals, and the parts of a header field as the encoder writes them.
pub mod RoundTrip
pub mod Field
pub mod Extended
pub mod Input
use http.Prelude.{ℕ, ◌+◌, ◌%◌, ◌^◌, Bool, true, false, not, ltb, ◌==◌, if◌then◌else◌, bit_and}
use http.Prelude.{List, [], ◌∷◌, ◌++◌, length, take, drop}
use http.Prelude.Results.{Result, ok, err}
use http.Hpack.Error.{DecodeError, needs_more}
use http.Hpack.Outcome.{Outcome, fails, gives, ◌>>=◌, or_panic}
use http.Hpack.Static.{header_entry_overhead}
use http.Hpack.Integer.{enc_integer, dec_integer}
use http.Hpack.Huffman.{huffman_encode, huffman_encoded_len}
use http.Hpack.Huffman.Decode.{huffman_decode}

-- `indexType`.
pub data IndexType : Type 0 where
  indexed_true : IndexType
  indexed_false : IndexType
  indexed_never : IndexType

-- The type `huffman`.
pub data HuffmanUse : Type 0 where
  huff_force_true : HuffmanUse
  huff_true : HuffmanUse
  huff_false : HuffmanUse

abbrev pub coded : List ℕ → List ℕ → List ℕ
coded dst s = huffman_encode (enc_integer dst 0x80 7 (huffman_encoded_len s)) s

abbrev pub plain : List ℕ → List ℕ → List ℕ
plain dst s = enc_integer dst 0x00 7 (length s) ++ s

unfoldable pub enc_string_literal : List ℕ → List ℕ → HuffmanUse → List ℕ
enc_string_literal dst s huff_force_true = coded dst s
enc_string_literal dst s huff_true =
    if ltb (huffman_encoded_len s) (length s) then coded dst s else plain dst s
enc_string_literal dst s huff_false = plain dst s

-- The mask and the length of the prefix.
abbrev pub literal_mask : IndexType → ℕ
literal_mask indexed_true = 0x40
literal_mask indexed_false = 0x00
literal_mask indexed_never = 0x10

abbrev pub literal_prefix : IndexType → ℕ
literal_prefix indexed_true = 6
literal_prefix indexed_false = 4
literal_prefix indexed_never = 4

abbrev pub literal_size : List ℕ → List ℕ → ℕ → ℕ
literal_size name value idx =
    let from_name = if idx == 0 then length name % 2 ^ 32 else 0 in
    (from_name + (length value + header_entry_overhead) % 2 ^ 32) % 2 ^ 32

unfoldable pub enc_literal : List ℕ → List ℕ → List ℕ → IndexType → ℕ → HuffmanUse → ℕ × List ℕ
enc_literal dst name value idx_type idx h =
    let first = enc_integer dst (literal_mask idx_type) (literal_prefix idx_type) idx in
    let named = if idx == 0 then enc_string_literal first name h else first in
    (literal_size name value idx, enc_string_literal named value h)

unfoldable pub enc_indexed : List ℕ → ℕ → List ℕ
enc_indexed dst idx = enc_integer dst 0x80 7 idx

unfoldable pub enc_dynamic_table_size_update : List ℕ → ℕ → List ℕ
enc_dynamic_table_size_update dst size = enc_integer dst 0x20 5 size

-- What follows the length `l`: `h` is the first bit of the literal.
abbrev pub string_at : Bool → Result DecodeError (ℕ × List ℕ) → Outcome (List ℕ × List ℕ)
string_at h (err e) = fails e
string_at h (ok (l, rest)) =
    let decoded = or_panic (huffman_decode [] (take l rest)) >>= λ s. gives (s, drop l rest) in
    let bytes = gives (take l rest, drop l rest) in
    if ltb (length rest) l then fails needs_more else (if h then decoded else bytes)

-- The string, and the bytes behind the literal.
unfoldable pub dec_string_literal : List ℕ → Outcome (List ℕ × List ℕ)
dec_string_literal [] = fails needs_more
dec_string_literal (b ∷ input) = string_at (not (bit_and b 128 == 0)) (dec_integer 7 (b ∷ input))
