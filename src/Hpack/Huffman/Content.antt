-- ===== src/Hpack/Huffman/Content.antt =====
-- hpack/huffman.go: the bits that `HuffmanEncode` puts into its bytes.
use http.Prelude.{ℕ, ◌+◌, ◌-◌, ◌*◌, ◌/◌, ◌^◌, ◌≤◌, ◌<◌, ◌≡◌, ◌⊎◌, refl, arith}
use http.Prelude.{ap, sym, ◌∙◌, All, All-append, bit_or}
use http.Prelude.{Bool}
use http.Prelude.{List, [], ◌∷◌, ◌++◌}
use http.Prelude.Bits.{bit_or_fields}
use http.Prelude.BitStrings.{bits, bits_shifted, bits-add, pow_add}
use http.Hpack.Huffman.{or_last}
use http.Hpack.Huffman.Machine.{byte_bits}
use mathlib.Core.List.{append_assoc, append-nil}
use native.Mathlib.Nat.{
  mul-add-div_right, div-eq_of_lt, mul-le-mul_right, mul_comm, one-le-pow, mul-lt-mul_of_pos_right,
  add-mul, mul_assoc,
}

-- The last byte has `space` free bits, and the ones before are `p`.
pub record Open (dst : List ℕ) (space : ℕ) (p : List Bool) : Type 0 where
  front : List ℕ
  top : ℕ
  last : dst ≡ front ++ (top * 2 ^ space ∷ [])
  small : top < 2 ^ (8 - space)
  bytes : All (λ b. b < 256) front
  content : p ≡ byte_bits front ++ bits (8 - space) top

-- The state between two bytes: `p` fills the bytes, or the last one has free bits.
unfoldable pub Holds : List ℕ × ℕ → List Bool → Type 0
Holds (dst, space) p =
    (Open dst space p × (1 ≤ space) × (space < 8))
    ⊎ ((space ≡ 8) × All (λ b. b < 256) dst × (byte_bits dst ≡ p))

byte_bits-append : (xs ys : List ℕ) → byte_bits (xs ++ ys) ≡ byte_bits xs ++ byte_bits ys
unfolding byte_bits
byte_bits-append [] ys = refl
byte_bits-append (x ∷ xs) ys =
    ap (◌++◌ (bits 8 x)) (byte_bits-append xs ys)
    ∙ sym (append_assoc (bits 8 x) (byte_bits xs) (byte_bits ys))

byte_bits_one :
    (front : List ℕ) (x : ℕ) → byte_bits (front ++ (x ∷ [])) ≡ byte_bits front ++ bits 8 x
unfolding byte_bits bits
byte_bits_one front x = byte_bits-append front (x ∷ [])

or_last-append :
    (t x : ℕ) (front : List ℕ) → or_last t (front ++ (x ∷ [])) ≡ front ++ (bit_or x t ∷ [])
unfolding or_last
or_last-append t x [] = refl
or_last-append t x (y ∷ []) = refl
or_last-append t x (y ∷ z ∷ front) = ap (◌∷◌ y) (or_last-append t x (z ∷ front))

-- Bits below a field.
bits_fields : (a b v t : ℕ) → t < 2 ^ b → bits (a + b) (v * 2 ^ b + t) ≡ bits a v ++ bits b t
bits_fields a b v t small =
    let top : (v * 2 ^ b + t) / 2 ^ b ≡ v =
      mul-add-div_right (one-le-pow b 2 (omega arith)) v t
      ∙ (let e : t / 2 ^ b ≡ 0 = div-eq_of_lt small in rw e (omega arith)) in
    let swap : v * 2 ^ b + t ≡ t + v * 2 ^ b = omega arith in
    bits-add a b (v * 2 ^ b + t)
    ∙ ap (λ i. bits a i ++ bits b (v * 2 ^ b + t)) top
    ∙ ap (◌++◌ (bits a v)) (ap (bits b) swap ∙ bits_shifted b t v)

below_field : (a b v t : ℕ) → v < 2 ^ a → t < 2 ^ b → v * 2 ^ b + t < 2 ^ (a + b)
below_field a b v t hv ht =
    let h : (v + 1) * 2 ^ b ≤ 2 ^ a * 2 ^ b = mul-le-mul_right (2 ^ b) (omega arith) in
    let e : (v + 1) * 2 ^ b ≡ v * 2 ^ b + 2 ^ b = omega arith in
    let m : 2 ^ (a + b) ≡ 2 ^ a * 2 ^ b = pow_add a b ∙ mul_comm (2 ^ b) (2 ^ a) in omega arith

-- A field that is put into the free bits; it may leave some below it.
pub put-Open :
    (dst : List ℕ) (space k t : ℕ) (p : List Bool)
    → Open dst space p
    → k ≤ space
    → space ≤ 8
    → t < 2 ^ k
    → Open (or_last (t * 2 ^ (space - k)) dst) (space - k) (p ++ bits k t)
put-Open dst space k t p o fits hi ht =
    let j = space - k in
    let split : space ≡ k + j = omega arith in
    let rest : 8 - j ≡ 8 - space + k = omega arith in
    let power : 2 ^ space ≡ 2 ^ k * 2 ^ j =
      ap (λ i. 2 ^ i) split ∙ pow_add k j ∙ mul_comm (2 ^ j) (2 ^ k) in
    let low : t * 2 ^ j < 2 ^ space =
      rw power (mul-lt-mul_of_pos_right ht (one-le-pow j 2 (omega arith))) in
    let joined : bit_or (o.top * 2 ^ space) (t * 2 ^ j) ≡ (o.top * 2 ^ k + t) * 2 ^ j =
      bit_or_fields space o.top (t * 2 ^ j) low
      ∙ ap (λ i. o.top * i + t * 2 ^ j) power
      ∙ ap (λ i. i + t * 2 ^ j) (sym (mul_assoc o.top (2 ^ k) (2 ^ j)))
      ∙ sym (add-mul (o.top * 2 ^ k) t (2 ^ j)) in
    record {
      front = o.front;
      top = o.top * 2 ^ k + t;
      last =
          ap (or_last (t * 2 ^ j)) o.last
          ∙ or_last-append (t * 2 ^ j) (o.top * 2 ^ space) o.front
          ∙ ap (λ i. o.front ++ (i ∷ [])) joined;
      small = rw rest (below_field (8 - space) k o.top t o.small ht);
      bytes = o.bytes;
      content =
          ap (λ q. q ++ bits k t) o.content
          ∙ append_assoc (byte_bits o.front) (bits (8 - space) o.top) (bits k t)
          ∙ ap (◌++◌ (byte_bits o.front)) (
              sym
                (ap (λ i. bits i (o.top * 2 ^ k + t)) rest ∙ bits_fields (8 - space) k o.top t ht));
    }

-- A full last byte.
pub close :
    (dst : List ℕ) (p : List Bool) → Open dst 0 p → All (λ b. b < 256) dst × (byte_bits dst ≡ p)
close dst p o =
    let e : o.top * 2 ^ 0 ≡ o.top = omega arith in
    let whole : dst ≡ o.front ++ (o.top ∷ []) = o.last ∙ ap (λ i. o.front ++ (i ∷ [])) e in
    (
      rw whole (All-append (λ b. b < 256) o.front (o.top ∷ []) o.bytes (o.small, tt)),
      ap byte_bits whole ∙ byte_bits_one o.front o.top ∙ sym o.content,
    )

-- A new last byte.
pub append-Open :
    (dst : List ℕ) (p : List Bool)
    → All (λ b. b < 256) dst
    → byte_bits dst ≡ p
    → Open (dst ++ (0 ∷ [])) 8 p
unfolding bits
append-Open dst p bytes e = record {
  front = dst;
  top = 0;
  last = refl;
  small = omega arith;
  bytes = bytes;
  content = sym e ∙ sym (append-nil (byte_bits dst));
}
