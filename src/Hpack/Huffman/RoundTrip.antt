-- ===== src/Hpack/Huffman/RoundTrip.antt =====
-- hpack/huffman.go: `HuffmanDecode` of what `HuffmanEncode` makes.
use http.Prelude.{ℕ, zero, suc, ◌-◌, ◌*◌, ◌/◌, ◌%◌, ◌^◌, ◌≤◌, ◌<◌, ◌≡◌, refl, arith}
use http.Prelude.{ap, sym, ◌∙◌, All, inl, inr, every_from, every_from_lem}
use http.Prelude.{Bool, true, false, ◌&&◌, ltb, leb, ◌==◌, some}
use http.Prelude.{List, [], ◌∷◌, ◌++◌, replicate}
use http.Prelude.BitStrings.{bits}
use http.Hpack.Codes.{ascii_codes, other_codes}
use http.Hpack.Tree.{root_children}
use http.Hpack.Huffman.{huffman_code, put_byte, encode_loop, fill_up, huffman_encode, or_last}
use http.Hpack.Huffman.Decode.{huffman_decode}
use http.Hpack.Huffman.Machine.{byte_bits}
use http.Hpack.Huffman.Finish.{huffman_decode-walk}
use http.Hpack.Huffman.Walk.{walk}
use http.Hpack.Huffman.Symbols.{symbol-walk, ones-walk}
use http.Hpack.Huffman.Put.{put_loop-Holds}
use http.Hpack.Huffman.Content.{Holds, append-Open, put-Open, close}
use mathlib.Core.List.{append_assoc, append-nil}
use native.Mathlib.Nat.{one-le-pow}

codes_in_range :
    every_from
      (λ i.
        leb 5 ((huffman_code i).bits)
        && leb ((huffman_code i).bits) 30
        && ltb ((huffman_code i).code) (2 ^ (huffman_code i).bits))
      0
      256
    ≡ true
unfolding every_from huffman_code ascii_codes other_codes
codes_in_range = refl

code_in_range :
    (b : ℕ)
    → b < 256
    → (5 ≤ (huffman_code b).bits)
      × ((huffman_code b).bits ≤ 30)
      × ((huffman_code b).code < 2 ^ (huffman_code b).bits)
code_in_range b h =
    let test =
      every_from_lem
        (λ i.
          leb 5 ((huffman_code i).bits)
          && leb ((huffman_code i).bits) 30
          && ltb ((huffman_code i).code) (2 ^ (huffman_code i).bits))
        0 256 b codes_in_range (omega arith) (omega arith) in
    ground arith

put_byte-Holds :
    (b : ℕ) (r : List ℕ × ℕ) (p : List Bool)
    → b < 256
    → Holds r p
    → Holds (put_byte r b) (p ++ bits (huffman_code b).bits (huffman_code b).code)
unfolding put_byte Holds
put_byte-Holds b (dst, space) p byte (inl (o, lo, hi)) =
    let (five, thirty, below) = code_in_range b byte in
    let test : (space == 8) ≡ false = ground arith in
    rw test (
      put_loop-Holds 5 dst space (huffman_code b).code (huffman_code b).bits p o lo (omega arith)
        (omega (arith, five)) (omega (arith, thirty)) (inl below))
put_byte-Holds b (dst, space) p byte (inr (whole, bytes, content)) =
    let (five, thirty, below) = code_in_range b byte in
    rw whole (
      put_loop-Holds 5 (dst ++ (0 ∷ [])) 8 (huffman_code b).code (huffman_code b).bits p
        (append-Open dst p bytes content) (omega arith) (omega arith) (omega (arith, five))
        (omega (arith, thirty)) (inl below))

-- The codes of a string, one after the other.
unfoldable pub code_bits : List ℕ → List Bool
code_bits [] = []
code_bits (b ∷ s) = bits (huffman_code b).bits (huffman_code b).code ++ code_bits s

encode_loop-Holds :
    (s : List ℕ) (r : List ℕ × ℕ) (p : List Bool)
    → All (λ b. b < 256) s
    → Holds r p
    → Holds (encode_loop r s) (p ++ code_bits s)
unfolding encode_loop code_bits
encode_loop-Holds [] r p bytes h = rw (append-nil p) h
encode_loop-Holds (b ∷ s) r p (byte, bytes) h =
    let c = bits (huffman_code b).bits (huffman_code b).code in
    rw (append_assoc p c (code_bits s)) at
      (encode_loop-Holds s (put_byte r b) (p ++ c) bytes (put_byte-Holds b r p byte h))

-- The bytes, and the ones behind the codes.
abbrev pub Filled : List ℕ → List Bool → Type 0
Filled dst p = (j : ℕ) × (j < 8) × All (λ b. b < 256) dst × (byte_bits dst ≡ p ++ replicate j true)

eos_ones :
    (space : ℕ)
    → 1 ≤ space
    → space < 8
    → ((huffman_code 256).code / 2 ^ ((huffman_code 256).bits - space) % 2 ^ 8 ≡ 2 ^ space - 1)
      × (bits space (2 ^ space - 1) ≡ replicate space true)
unfolding huffman_code ascii_codes other_codes bits
eos_ones zero lo hi = absurd (omega arith)
eos_ones (suc zero) lo hi = (refl, refl)
eos_ones (suc (suc zero)) lo hi = (refl, refl)
eos_ones (suc (suc (suc zero))) lo hi = (refl, refl)
eos_ones (suc (suc (suc (suc zero)))) lo hi = (refl, refl)
eos_ones (suc (suc (suc (suc (suc zero))))) lo hi = (refl, refl)
eos_ones (suc (suc (suc (suc (suc (suc zero)))))) lo hi = (refl, refl)
eos_ones (suc (suc (suc (suc (suc (suc (suc zero))))))) lo hi = (refl, refl)
eos_ones (suc (suc (suc (suc (suc (suc (suc (suc j)))))))) lo hi = absurd (omega arith)

fill_up-Filled : (r : List ℕ × ℕ) (p : List Bool) → Holds r p → Filled (fill_up r) p
unfolding Holds
fill_up-Filled (dst, space) p (inl (o, lo, hi)) =
    let (e, ones) = eos_ones space lo hi in
    let test : ltb space 8 ≡ true = ground arith in
    let nothing : space - space ≡ 0 = omega arith in
    let one : (2 ^ space - 1) * 2 ^ 0 ≡ 2 ^ space - 1 = omega arith in
    let put =
      put-Open dst space space (2 ^ space - 1) p o (omega arith) (omega arith)
        (omega (arith, one-le-pow space 2)) in
    let (bytes, content) =
      close (or_last (2 ^ space - 1) dst) (p ++ bits space (2 ^ space - 1))
        (rw (nothing, one) at put) in
    rw (test, e) (space, hi, bytes, content ∙ ap (◌++◌ p) ones)
fill_up-Filled (dst, space) p (inr (whole, bytes, content)) =
    rw whole (0, omega arith, bytes, content ∙ sym (append-nil p))

-- What `HuffmanEncode` makes: the codes of the string, and fewer than eight ones.
pub huffman_encode-Filled :
    (dst s : List ℕ)
    → All (λ b. b < 256) dst
    → All (λ b. b < 256) s
    → Filled (huffman_encode dst s) (byte_bits dst ++ code_bits s)
unfolding huffman_encode Holds
huffman_encode-Filled dst s whole bytes =
    fill_up-Filled (encode_loop (dst, 8) s) (byte_bits dst ++ code_bits s)
      (encode_loop-Holds s (dst, 8) (byte_bits dst) bytes (inr (refl, whole, refl)))

code_bits-walk :
    (s dst : List ℕ) (q : List Bool)
    → All (λ b. b < 256) s
    → walk 0 dst root_children (code_bits s ++ q) ≡ walk 0 (dst ++ s) root_children q
unfolding code_bits
code_bits-walk [] dst q bytes = ap (λ d. walk 0 d root_children q) (sym (append-nil dst))
code_bits-walk (b ∷ s) dst q (byte, bytes) =
    let c = bits (huffman_code b).bits (huffman_code b).code in
    let (five, thirty, below) = code_in_range b byte in
    ap (walk 0 dst root_children) (append_assoc c (code_bits s) q)
    ∙ symbol-walk b dst (code_bits s ++ q) byte (omega (arith, five))
    ∙ code_bits-walk s (dst ++ (b ∷ [])) q bytes
    ∙ ap (λ d. walk 0 d root_children q) (append_assoc dst (b ∷ []) s)

-- `HuffmanDecode` appends to its buffer the string of bytes that `HuffmanEncode` was called with.
pub huffman_decode-huffman_encode :
    (dst s : List ℕ)
    → All (λ b. b < 256) s
    → huffman_decode dst (huffman_encode [] s) ≡ some (dst ++ s)
unfolding byte_bits
huffman_decode-huffman_encode dst s bytes =
    let (j, few, encoded, content) = huffman_encode-Filled [] s tt bytes in
    huffman_decode-walk dst (huffman_encode [] s) encoded
    ∙ ap (walk 0 dst root_children) content
    ∙ code_bits-walk s dst (replicate j true) bytes
    ∙ ones-walk j (dst ++ s) few
