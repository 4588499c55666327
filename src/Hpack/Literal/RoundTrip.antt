-- ===== src/Hpack/Literal/RoundTrip.antt =====
-- hpack/hpack.go: `decStringLiteral` of what `encStringLiteral` writes.
use http.Prelude.{ℕ, ◌+◌, ◌-◌, ◌*◌, ◌%◌, ◌^◌, ◌<◌, ◌≡◌, refl, ap, sym, ◌∙◌, arith}
use http.Prelude.{
  Bool, true, false, not, ltb, ◌==◌, if◌then◌else◌, inl, inr, Bool-cases, bit_and, All,
}
use http.Prelude.{List, [], ◌∷◌, ◌++◌, length, length-append, take-append, drop-append}
use http.Prelude.Bits.{bit_and_bit, bit_or_fields}
use http.Prelude.Results.{ok}
use http.Hpack.Outcome.{gives, or_panic, ◌>>=◌}
use http.Hpack.Integer.{enc_integer, dec_integer}
use http.Hpack.Integer.RoundTrip.{groups, encoding, enc_integer-encoding, dec_integer-encoding}
use http.Hpack.Huffman.{huffman_encode, huffman_encoded_len}
use http.Hpack.Huffman.Decode.{huffman_decode}
use http.Hpack.Huffman.Front.{huffman_encode-append}
use http.Hpack.Huffman.Length.{length-huffman_encode}
use http.Hpack.Huffman.RoundTrip.{huffman_decode-huffman_encode}
use http.Hpack.Literal.{
  HuffmanUse, huff_force_true, huff_true, huff_false, enc_string_literal, dec_string_literal,
  string_at, plain, coded,
}
use mathlib.Core.List.{append_assoc}
use native.Mathlib.Nat.{one-le-pow}

-- A string of bytes whose code has a length of 64 bits.
abbrev pub IsString : List ℕ → Type 0
IsString s = All (λ b. b < 256) s × (30 * length s + 7 < 2 ^ 63)

-- The first byte of an integer behind the flags `q`.
pub encoding_first :
    (q n i : ℕ)
    → (v : ℕ) × (rest : List ℕ) × (v < 2 ^ n) × (encoding q n i ≡ (q * 2 ^ n + v) ∷ rest)
unfolding encoding
encoding_first q n i = elim (Bool-cases (ltb i (2 ^ n - 1))) [
  | inl short ↦
      let small : i < 2 ^ n = ground (arith, one-le-pow n 2) in
      rw short (i, [], small, ap (λ b. b ∷ []) (bit_or_fields n q i small))
  | inr long ↦
      let small : 2 ^ n - 1 < 2 ^ n = omega (arith, one-le-pow n 2) in
      rw long (
        2 ^ n - 1,
        groups 8 (i - (2 ^ n - 1)),
        small,
        ap (λ b. b ∷ groups 8 (i - (2 ^ n - 1))) (bit_or_fields n q (2 ^ n - 1) small),
      )
]

string_at_content :
    (h : Bool) (s rest : List ℕ)
    → string_at h (ok (length s, s ++ rest))
      ≡ (if h then or_panic (huffman_decode [] s) >>= (λ d. gives (d, rest)) else gives (s, rest))
string_at_content h s rest =
    let long : ltb (length (s ++ rest)) (length s) ≡ false = ground (arith, length-append s rest) in
    rw (long, take-append s rest, drop-append s rest) refl

-- A literal of the flag `q`, which announces a content and has it.
dec_string_with :
    (q l : ℕ) (s rest : List ℕ)
    → l ≡ length s
    → l < 2 ^ 63
    → dec_string_literal ((encoding q 7 l ++ s) ++ rest) ≡ (
        if not (q % 2 * 128 == 0)
        then or_panic (huffman_decode [] s) >>= (λ d. gives (d, rest))
        else gives (s, rest))
unfolding dec_string_literal
dec_string_with q l s rest size small =
    let (v, tail, low, e) = encoding_first q 7 l in
    let flag : bit_and (q * 2 ^ 7 + v) 128 ≡ q % 2 * 128 =
      omega (arith, bit_and_bit 7 (q * 2 ^ 7 + v)) in
    let read : dec_integer 7 ((encoding q 7 l ++ s) ++ rest) ≡ ok (length s, s ++ rest) =
      ap (dec_integer 7) (append_assoc (encoding q 7 l) s rest)
      ∙ dec_integer-encoding q 7 l (s ++ rest) (omega arith) small
      ∙ ap (λ i. ok (i, s ++ rest)) size in
    let first : dec_integer 7 ((q * 2 ^ 7 + v) ∷ ((tail ++ s) ++ rest)) ≡ ok (length s, s ++ rest) =
      sym (ap (λ c. dec_integer 7 ((c ++ s) ++ rest)) e) ∙ read in
    ap (λ c. dec_string_literal ((c ++ s) ++ rest)) e
    ∙ ap (string_at (not (bit_and (q * 2 ^ 7 + v) 128 == 0))) first
    ∙ string_at_content (not (bit_and (q * 2 ^ 7 + v) 128 == 0)) s rest
    ∙ ap
        (λ f.
          if not (f == 0)
          then or_panic (huffman_decode [] s) >>= (λ d. gives (d, rest))
          else gives (s, rest))
        flag

-- The literal that `encStringLiteral` appends.
abbrev pub string_code : List ℕ → Bool → List ℕ
string_code s true = encoding 1 7 (huffman_encoded_len s) ++ huffman_encode [] s
string_code s false = encoding 0 7 (length s) ++ s

encoded_len_bound : (s : List ℕ) → huffman_encoded_len s < 2 ^ 63
unfolding huffman_encoded_len
encoded_len_bound s = omega arith

coded_code : (dst s : List ℕ) → coded dst s ≡ dst ++ string_code s true
coded_code dst s =
    huffman_encode-append (enc_integer dst 0x80 7 (huffman_encoded_len s)) s
    ∙ ap (λ d. d ++ huffman_encode [] s)
        (enc_integer-encoding dst 1 7 (huffman_encoded_len s) (omega arith) (encoded_len_bound s))
    ∙ append_assoc dst (encoding 1 7 (huffman_encoded_len s)) (huffman_encode [] s)

plain_code : (dst s : List ℕ) → length s < 2 ^ 63 → plain dst s ≡ dst ++ string_code s false
plain_code dst s small =
    ap (λ d. d ++ s) (enc_integer-encoding dst 0 7 (length s) (omega arith) small)
    ∙ append_assoc dst (encoding 0 7 (length s)) s

dec_string_code :
    (s rest : List ℕ) (b : Bool)
    → IsString s
    → dec_string_literal (string_code s b ++ rest) ≡ gives (s, rest)
dec_string_code s rest false (bytes, short) = dec_string_with 0 (length s) s rest refl (omega arith)
dec_string_code s rest true (bytes, short) =
    dec_string_with 1 (huffman_encoded_len s) (huffman_encode [] s) rest
      (omega (arith, length-huffman_encode [] s bytes (omega arith))) (encoded_len_bound s)
    ∙ ap (λ o. or_panic o >>= (λ d. gives (d, rest))) (huffman_decode-huffman_encode [] s bytes)

-- Whatever the use of the Huffman code, for a string of bytes whose code has a length of 63 bits,
-- `encStringLiteral` appends the same code to any buffer, and `decStringLiteral` reads from it the
-- string that was written, and leaves what follows.
pub dec_string_literal-enc_string_literal :
    (s : List ℕ) (h : HuffmanUse)
    → IsString s
    → (code : List ℕ) × ((dst : List ℕ) → enc_string_literal dst s h ≡ dst ++ code)
      × ((rest : List ℕ) → dec_string_literal (code ++ rest) ≡ gives (s, rest))
unfolding enc_string_literal
dec_string_literal-enc_string_literal s huff_force_true valid =
    (string_code s true, λ dst. coded_code dst s, λ rest. dec_string_code s rest true valid)
dec_string_literal-enc_string_literal s huff_false valid = (
  string_code s false,
  λ dst. plain_code dst s (omega (arith, valid.1)),
  λ rest. dec_string_code s rest false valid,
)
dec_string_literal-enc_string_literal s huff_true valid =
    elim (Bool-cases (ltb (huffman_encoded_len s) (length s))) [
      | inl shorter ↦ (
        string_code s true,
        λ dst. rw shorter (coded_code dst s),
        λ rest. dec_string_code s rest true valid,
      )
      | inr longer ↦ (
        string_code s false,
        λ dst. rw longer (plain_code dst s (omega (arith, valid.1))),
        λ rest. dec_string_code s rest false valid,
      )
    ]
