-- ===== src/Hpack/Huffman/Length.antt =====
-- hpack/huffman.go: the length of what `HuffmanEncode` appends.
use http.Prelude.{
  ℕ, zero, suc, ◌+◌, ◌-◌, ◌*◌, ◌/◌, ◌%◌, ◌^◌, ◌≤◌, ◌<◌, ◌≡◌, refl, true, false, ◌&&◌, arith, All,
}
use http.Prelude.{ltb, leb, ◌==◌, if◌then◌else◌, Bool-cases, inl, inr, every_from, every_from_lem}
use http.Prelude.{List, [], ◌∷◌, ◌++◌, length, length-append}
use http.Hpack.Codes.{ascii_codes, other_codes}
use http.Hpack.Huffman.{
  huffman_code, or_last, put_loop, put_byte, encode_loop, fill_up, huffman_encode, bits_loop,
  huffman_encoded_len,
}

ltb_lt : (m n : ℕ) → ltb m n ≡ true → m < n
ltb_lt m n h = ground arith

ltb_ge : (m n : ℕ) → ltb m n ≡ false → n ≤ m
ltb_ge m n h = ground arith

eq_zero : (n : ℕ) → (n == 0) ≡ true → n ≡ 0
eq_zero n h = ground arith

bits_in_range :
    every_from (λ i. leb 5 ((huffman_code i).bits) && leb ((huffman_code i).bits) 30) 0 256 ≡ true
unfolding every_from huffman_code ascii_codes other_codes
bits_in_range = refl

huffman_code_bits : (b : ℕ) → b < 256 → (5 ≤ (huffman_code b).bits) × ((huffman_code b).bits ≤ 30)
huffman_code_bits b h =
    let test =
      every_from_lem (λ i. leb 5 ((huffman_code i).bits) && leb ((huffman_code i).bits) 30) 0 256 b
        bits_in_range (omega arith) (omega arith) in
    ground arith

pub length-or_last : (t : ℕ) (xs : List ℕ) → length (or_last t xs) ≡ length xs
unfolding or_last
length-or_last t [] = refl
length-or_last t (x ∷ []) = refl
length-or_last t (x ∷ y ∷ xs) = omega (arith, length-or_last t (y ∷ xs))

-- What the inner loop puts: just its bits, and no byte more than they need.
put_loop-length :
    (rounds : ℕ) (dst : List ℕ) (space code nbits : ℕ)
    → 1 ≤ space
    → space ≤ 8
    → 1 ≤ nbits
    → nbits + 8 ≤ space + 8 * rounds
    → let (dst', space') = put_loop rounds dst space code nbits in
      (8 * length dst' + space ≡ 8 * length dst + nbits + space' % 8) × (1 ≤ space') × (space' ≤ 8)
unfolding put_loop
put_loop-length zero dst space code nbits lo hi some_bits enough = absurd (omega arith)
put_loop-length (suc rounds) dst space code nbits lo hi some_bits enough =
    let t = code * 2 ^ (space - nbits) % 2 ^ 8 in
    let filled = or_last (code / 2 ^ (nbits - space) % 2 ^ 8) dst in
    let same : length filled ≡ length dst =
      length-or_last (code / 2 ^ (nbits - space) % 2 ^ 8) dst in
    let longer : length (filled ++ (0 ∷ [])) ≡ length filled + 1 = length-append filled (0 ∷ []) in
    elim (Bool-cases (ltb nbits space)) [
      | inl fits ↦ rw fits (omega (arith, length-or_last t dst, ltb_lt nbits space fits))
      | inr over ↦ elim (Bool-cases (nbits - space == 0)) [
        | inl full ↦
            rw (over, full)
              (omega (arith, same, ltb_ge nbits space over, eq_zero (nbits - space) full))
        | inr more ↦
            let left : 1 ≤ nbits - space = ground arith in
            let rest =
              put_loop-length rounds (filled ++ (0 ∷ [])) 8 code (nbits - space) (omega arith)
                (omega arith) left (omega (arith, left)) in
            rw (over, more) (omega (arith, rest, same, longer, left))
      ]
    ]

-- The bits of the codes of a string.
unfoldable pub total_bits : List ℕ → ℕ
total_bits [] = 0
total_bits (b ∷ s) = (huffman_code b).bits + total_bits s

-- The bytes so far have `used` bits.
abbrev Uses : ℕ → List ℕ × ℕ → Type 0
Uses used (dst, space) = (8 * length dst ≡ used + space % 8) × (1 ≤ space) × (space ≤ 8)

-- With the byte that is appended where the last one is full.
open_byte :
    (used space : ℕ) (dst : List ℕ)
    → Uses used (dst, space)
    → 8 * length (if space == 8 then dst ++ (0 ∷ []) else dst) ≡ used + space
open_byte used space dst (e, lo, hi) = ground (arith, length-append dst (0 ∷ []))

put_byte-Uses :
    (used b : ℕ) (r : List ℕ × ℕ)
    → b < 256
    → Uses used r
    → Uses (used + (huffman_code b).bits) (put_byte r b)
unfolding put_byte
put_byte-Uses used b (dst, space) small u =
    let (five, thirty) = huffman_code_bits b small in
    let (e, lo, hi) = u in
    let c = huffman_code b in
    let dst' = if space == 8 then dst ++ (0 ∷ []) else dst in
    omega (
      arith,
      open_byte used space dst u,
      put_loop-length 5 dst' space c.code c.bits lo hi (omega (arith, five))
          (omega (arith, thirty)),
    )

encode_loop-Uses :
    (s : List ℕ) (used : ℕ) (r : List ℕ × ℕ)
    → All (λ b. b < 256) s
    → Uses used r
    → Uses (used + total_bits s) (encode_loop r s)
unfolding encode_loop total_bits
encode_loop-Uses [] used r bytes u = let e : used ≡ used + 0 = omega arith in rw e at u
encode_loop-Uses (b ∷ s) used r (small, bytes) u =
    let e : used + (huffman_code b).bits + total_bits s ≡ used + total_bits (b ∷ s) = omega arith in
    rw e at (
      encode_loop-Uses s (used + (huffman_code b).bits) (put_byte r b) bytes
        (put_byte-Uses used b r small u))

bits_loop-add :
    (s : List ℕ) (x : ℕ)
    → All (λ b. b < 256) s
    → x + 30 * length s < 2 ^ 64
    → (bits_loop x s ≡ x + total_bits s) × (total_bits s ≤ 30 * length s)
unfolding bits_loop total_bits
bits_loop-add [] x bytes fits = omega arith
bits_loop-add (b ∷ s) x (small, bytes) fits =
    let (five, thirty) = huffman_code_bits b small in
    let same : (x + (huffman_code b).bits) % 2 ^ 64 ≡ x + (huffman_code b).bits =
      omega (arith, thirty) in
    rw same (
      omega
        (arith, thirty, bits_loop-add s (x + (huffman_code b).bits) bytes (omega (arith, thirty))))

length-fill_up : (r : List ℕ × ℕ) → length (fill_up r) ≡ length r.0
length-fill_up (dst, space) =
    let eos = huffman_code 256 in
    elim (Bool-cases (ltb space 8)) [
      | inl part ↦ rw part (length-or_last (eos.code / 2 ^ (eos.bits - space) % 2 ^ 8) dst)
      | inr full ↦ rw full refl
    ]

-- What `HuffmanEncode` appends for a string of bytes has as many bytes as `HuffmanEncodedLen` says,
-- when 30 bits for each byte, and 7 more, fit 64 bits.
pub length-huffman_encode :
    (dst s : List ℕ)
    → All (λ b. b < 256) s
    → 30 * length s + 7 < 2 ^ 64
    → length (huffman_encode dst s) ≡ length dst + huffman_encoded_len s
unfolding huffman_encode huffman_encoded_len
length-huffman_encode dst s bytes fits =
    let start : Uses (8 * length dst) (dst, 8) = omega arith in
    let r = encode_loop (dst, 8) s in
    let whole : 8 * length r.0 ≡ 8 * length dst + total_bits s + r.1 % 8 =
      (encode_loop-Uses s (8 * length dst) (dst, 8) bytes start).0 in
    omega (arith, whole, length-fill_up r, bits_loop-add s 0 bytes (omega arith))
