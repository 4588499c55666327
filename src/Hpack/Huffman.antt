-- ===== src/Hpack/Huffman.antt =====
-- hpack/huffman.go: `HuffmanEncode` and `HuffmanEncodedLen`.
pub mod Decode
pub mod Walk
pub mod Machine
pub mod Finish
pub mod Symbols
pub mod Content
pub mod Put
pub mod RoundTrip
pub mod Front
pub mod Length
use http.Prelude.{ℕ, zero, suc, ◌+◌, ◌-◌, ◌*◌, ◌/◌, ◌%◌, ◌^◌, ltb, ◌==◌, if◌then◌else◌, bit_or}
use http.Prelude.{List, [], ◌∷◌, ◌++◌, get_elem?, Option, none, some}
use http.Hpack.Codes.{HuffmanCode, huffman, ascii_codes, other_codes}

abbrev or_none : Option HuffmanCode → HuffmanCode
or_none none = huffman 0 0
or_none (some c) = c

-- `huffmanCodes[i]`; no byte is out of its range.
unfoldable pub huffman_code : ℕ → HuffmanCode
unfolding ascii_codes other_codes
huffman_code i = or_none (get_elem? (ascii_codes ++ other_codes) i)

-- `dst[len(dst)-1] |= t`; the callers have appended a byte before.
unfoldable pub or_last : ℕ → List ℕ → List ℕ
or_last t [] = []
or_last t (x ∷ []) = bit_or x t ∷ []
or_last t (x ∷ y ∷ xs) = x ∷ or_last t (y ∷ xs)

-- The inner loop, which puts `nbits` bits into the last byte, with `space` free bits, and into new
-- ones: the bytes and the free bits of the last one. The first argument is fuel.
unfoldable pub put_loop : ℕ → List ℕ → ℕ → ℕ → ℕ → List ℕ × ℕ
unfolding or_last
put_loop zero dst space code nbits = (dst, space)
put_loop (suc rounds) dst space code nbits =
    let filled = or_last (code / 2 ^ (nbits - space) % 2 ^ 8) dst in
    let rest = put_loop rounds (filled ++ (0 ∷ [])) 8 code (nbits - space) in
    if ltb nbits space
    then (or_last (code * 2 ^ (space - nbits) % 2 ^ 8) dst, space - nbits)
    else (if nbits - space == 0 then (filled, 8) else rest)

-- One round of the loop over the string.
unfoldable pub put_byte : List ℕ × ℕ → ℕ → List ℕ × ℕ
put_byte (dst, space) b =
    let huff = huffman_code b in
    put_loop 5 (if space == 8 then dst ++ (0 ∷ []) else dst) space huff.code huff.bits

unfoldable pub encode_loop : List ℕ × ℕ → List ℕ → List ℕ × ℕ
encode_loop r [] = r
encode_loop r (b ∷ s) = encode_loop (put_byte r b) s

-- The last byte is filled up with the first bits of the end of the string.
abbrev pub fill_up : List ℕ × ℕ → List ℕ
fill_up (dst, space) =
    let eos = huffman_code 256 in
    if ltb space 8 then or_last (eos.code / 2 ^ (eos.bits - space) % 2 ^ 8) dst else dst

unfoldable pub huffman_encode : List ℕ → List ℕ → List ℕ
huffman_encode dst s = fill_up (encode_loop (dst, 8) s)

-- The loop of `HuffmanEncodedLen`.
unfoldable pub bits_loop : ℕ → List ℕ → ℕ
bits_loop x [] = x
bits_loop x (b ∷ s) = let huff = huffman_code b in bits_loop ((x + huff.bits) % 2 ^ 64) s

unfoldable pub huffman_encoded_len : List ℕ → ℕ
unfolding bits_loop
huffman_encoded_len s = (bits_loop 0 s + 7) % 2 ^ 64 / 2 ^ 3
