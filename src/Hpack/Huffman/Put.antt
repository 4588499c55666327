-- ===== src/Hpack/Huffman/Put.antt =====
-- hpack/huffman.go: the inner loop of `HuffmanEncode` and the bits of a code.
use http.Prelude.{ℕ, zero, suc, ◌+◌, ◌-◌, ◌*◌, ◌/◌, ◌%◌, ◌^◌, ◌≤◌, ◌<◌, ◌≡◌, ◌⊎◌, refl, arith}
use http.Prelude.{ap, sym, ◌∙◌, All, inl, inr, Bool-cases}
use http.Prelude.{Bool, ltb, ◌==◌}
use http.Prelude.{List, [], ◌∷◌, ◌++◌}
use http.Prelude.Bits.{two_pow_mono}
use http.Prelude.BitStrings.{bits, bits-low, bits-add, pow_add, shift_mod}
use http.Hpack.Huffman.{or_last, put_loop}
use http.Hpack.Huffman.Machine.{byte_bits}
use mathlib.Core.List.{append_assoc, append-nil}
use native.Mathlib.Nat.{
  mul_comm, div-lt_iff_lt-mul, mod-lt, mod-eq_of_lt, one-le-pow, mul-lt-mul_of_pos_right,
}
use http.Hpack.Huffman.Content.{Open, Holds, put-Open, close, append-Open}

-- The code is below its length, or the part of it that is left is cut by `uint8`.
abbrev Fitting : ℕ → ℕ → ℕ → Type 0
Fitting code nbits space = (code < 2 ^ nbits) ⊎ (space ≡ 8)

shifted_left :
    (code nbits space : ℕ)
    → Fitting code nbits space
    → nbits ≤ space
    → space ≤ 8
    → code * 2 ^ (space - nbits) % 2 ^ 8 ≡ code % 2 ^ nbits * 2 ^ (space - nbits)
shifted_left code nbits space (inl below) fits hi =
    let j = space - nbits in
    let power : 2 ^ space ≡ 2 ^ nbits * 2 ^ j =
      ap (λ i. 2 ^ i) (let e : space ≡ nbits + j = omega arith in e)
      ∙ pow_add nbits j
      ∙ mul_comm (2 ^ j) (2 ^ nbits) in
    let low : code * 2 ^ j < 2 ^ nbits * 2 ^ j =
      mul-lt-mul_of_pos_right below (one-le-pow j 2 (omega arith)) in
    let byte : 2 ^ space ≤ 2 ^ 8 = two_pow_mono space 8 hi in
    mod-eq_of_lt (omega arith) ∙ ap (λ i. i * 2 ^ j) (sym (mod-eq_of_lt below))
shifted_left code nbits space (inr whole) fits hi =
    let e : 8 ≡ nbits + (space - nbits) = omega arith in
    ap (λ i. code * 2 ^ (space - nbits) % 2 ^ i) e ∙ shift_mod nbits (space - nbits) code

shifted_right :
    (code nbits space : ℕ)
    → Fitting code nbits space
    → space ≤ nbits
    → space ≤ 8
    → code / 2 ^ (nbits - space) % 2 ^ 8 ≡ code / 2 ^ (nbits - space) % 2 ^ space
shifted_right code nbits space (inl below) over hi =
    let j = nbits - space in
    let e : nbits ≡ space + j = omega arith in
    let power : 2 ^ nbits ≡ 2 ^ space * 2 ^ j =
      ap (λ i. 2 ^ i) e ∙ pow_add space j ∙ mul_comm (2 ^ j) (2 ^ space) in
    let low : code / 2 ^ j < 2 ^ space =
      (div-lt_iff_lt-mul (one-le-pow j 2 (omega arith))).1 (omega arith) in
    let byte : 2 ^ space ≤ 2 ^ 8 = two_pow_mono space 8 hi in
    mod-eq_of_lt (omega arith) ∙ sym (mod-eq_of_lt low)
shifted_right code nbits space (inr whole) over hi =
    ap (λ i. code / 2 ^ (nbits - space) % 2 ^ i) (sym whole)

-- The code goes into the free bits.
put_fits :
    (dst : List ℕ) (space code nbits : ℕ) (p : List Bool)
    → Open dst space p
    → nbits < space
    → space ≤ 8
    → Fitting code nbits space
    → Open (or_last (code * 2 ^ (space - nbits) % 2 ^ 8) dst) (space - nbits) (p ++ bits nbits code)
put_fits dst space code nbits p o fits hi top =
    rw (shifted_left code nbits space top (omega arith) hi, sym (bits-low nbits code))
      (put-Open dst space nbits (code % 2 ^ nbits) p o (omega arith) hi
        (mod-lt code (one-le-pow nbits 2 (omega arith))))

-- The first bits of the code fill the last byte.
put_over :
    (dst : List ℕ) (space code nbits : ℕ) (p : List Bool)
    → Open dst space p
    → space ≤ nbits
    → space ≤ 8
    → Fitting code nbits space
    → let filled = or_last (code / 2 ^ (nbits - space) % 2 ^ 8) dst in
      All (λ b. b < 256) filled
      × (byte_bits filled ++ bits (nbits - space) code ≡ p ++ bits nbits code)
put_over dst space code nbits p o over hi top =
    let c = code / 2 ^ (nbits - space) in
    let nothing : space - space ≡ 0 = omega arith in
    let one : c % 2 ^ space * 2 ^ 0 ≡ c % 2 ^ 8 =
      omega (arith, shifted_right code nbits space top over hi) in
    let whole : space + (nbits - space) ≡ nbits = omega arith in
    let put =
      put-Open dst space space (c % 2 ^ space) p o (omega arith) hi
        (mod-lt c (one-le-pow space 2 (omega arith))) in
    let (bytes, content) =
      close (or_last (c % 2 ^ 8) dst) (p ++ bits space (c % 2 ^ space))
        (rw (nothing, one) at put) in
    (
      bytes,
      ap (λ q. q ++ bits (nbits - space) code) content
          ∙ ap (λ q. (p ++ q) ++ bits (nbits - space) code) (bits-low space c)
          ∙ append_assoc p (bits space c) (bits (nbits - space) code)
          ∙ ap (◌++◌ p) (sym (bits-add space (nbits - space) code) ∙ ap (λ i. bits i code) whole),
    )

-- What `put_loop` adds: the low bits of the code.
pub put_loop-Holds :
    (rounds : ℕ) (dst : List ℕ) (space code nbits : ℕ) (p : List Bool)
    → Open dst space p
    → 1 ≤ space
    → space ≤ 8
    → 1 ≤ nbits
    → nbits + 8 ≤ space + 8 * rounds
    → (code < 2 ^ nbits) ⊎ (space ≡ 8)
    → Holds (put_loop rounds dst space code nbits) (p ++ bits nbits code)
unfolding put_loop Holds bits
put_loop-Holds zero dst space code nbits p o lo hi some_bits enough top = absurd (omega arith)
put_loop-Holds (suc rounds) dst space code nbits p o lo hi some_bits enough top =
    elim (Bool-cases (ltb nbits space)) [
      | inl fits ↦ rw fits (
          inl (put_fits dst space code nbits p o (ground arith) hi top, ground arith, ground arith))
      | inr over ↦
          let (bytes, content) = put_over dst space code nbits p o (ground arith) hi top in
          elim (Bool-cases (nbits - space == 0)) [
            | inl full ↦
                let done : nbits - space ≡ 0 = ground arith in
                let e : byte_bits (or_last (code / 2 ^ (nbits - space) % 2 ^ 8) dst)
                    ≡ p ++ bits nbits code =
                  sym (append-nil _)
                  ∙ sym (
                      ap
                        (λ i.
                          byte_bits (or_last (code / 2 ^ (nbits - space) % 2 ^ 8) dst)
                          ++ bits i code)
                        done)
                  ∙ content in
                rw (over, full) (inr (refl, bytes, e))
            | inr more ↦
                let filled = or_last (code / 2 ^ (nbits - space) % 2 ^ 8) dst in
                let left : 1 ≤ nbits - space = ground arith in
                let rest =
                  put_loop-Holds rounds (filled ++ (0 ∷ [])) 8 code (nbits - space)
                    (byte_bits filled) (append-Open filled (byte_bits filled) bytes refl)
                    (omega arith) (omega arith) left (omega (arith, left)) (inr refl) in
                rw (over, more) (rw content at rest)
          ]
    ]
