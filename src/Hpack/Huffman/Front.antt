-- ===== src/Hpack/Huffman/Front.antt =====
-- hpack/huffman.go: `HuffmanEncode` and the bytes that `dst` has before.
use http.Prelude.{ℕ, zero, suc, ◌-◌, ◌*◌, ◌/◌, ◌%◌, ◌^◌, ◌≤◌, ◌≡◌, refl, ap, sym, ◌∙◌, arith}
use http.Prelude.{ltb, ◌==◌, inl, inr, ◌⊎◌, Bool-cases}
use http.Prelude.{List, [], ◌∷◌, ◌++◌, length, length-append}
use http.Hpack.Huffman.{
  huffman_code, or_last, put_loop, put_byte, encode_loop, fill_up, huffman_encode,
}
use http.Hpack.Huffman.Length.{length-or_last}
use mathlib.Core.List.{append_assoc, append-nil}

or_last_front :
    (t : ℕ) (front ys : List ℕ) → 1 ≤ length ys → or_last t (front ++ ys) ≡ front ++ or_last t ys
unfolding or_last
or_last_front t front [] h = absurd (omega arith)
or_last_front t [] (y ∷ ys) h = refl
or_last_front t (x ∷ []) (y ∷ ys) h = refl
or_last_front t (x ∷ z ∷ front) (y ∷ ys) h = ap (◌∷◌ x) (or_last_front t (z ∷ front) (y ∷ ys) h)

abbrev behind : List ℕ → List ℕ × ℕ → List ℕ × ℕ
behind front (dst, space) = (front ++ dst, space)

-- A full last byte, or one that is there.
abbrev Started : List ℕ × ℕ → Type 0
Started (dst, space) = (1 ≤ length dst) ⊎ (space ≡ 8)

put_loop_front :
    (rounds : ℕ) (front ys : List ℕ) (space code nbits : ℕ)
    → 1 ≤ length ys
    → (put_loop rounds (front ++ ys) space code nbits
        ≡ behind front (put_loop rounds ys space code nbits))
      × (1 ≤ length (put_loop rounds ys space code nbits).0)
unfolding put_loop
put_loop_front zero front ys space code nbits h = (refl, h)
put_loop_front (suc rounds) front ys space code nbits h =
    let t = code * 2 ^ (space - nbits) % 2 ^ 8 in
    let t' = code / 2 ^ (nbits - space) % 2 ^ 8 in
    elim (Bool-cases (ltb nbits space)) [
      | inl fits ↦ rw fits (
        ap (λ d. (d, space - nbits)) (or_last_front t front ys h),
        omega (arith, length-or_last t ys),
      )
      | inr over ↦ elim (Bool-cases (nbits - space == 0)) [
        | inl full ↦
            rw (over, full)
              (ap (λ d. (d, 8)) (or_last_front t' front ys h), omega (arith, length-or_last t' ys))
        | inr more ↦
            let filled = or_last t' ys in
            let e : or_last t' (front ++ ys) ++ (0 ∷ []) ≡ front ++ (filled ++ (0 ∷ [])) =
              ap (λ d. d ++ (0 ∷ [])) (or_last_front t' front ys h)
              ∙ append_assoc front filled (0 ∷ []) in
            rw (over, more, e)
              (put_loop_front rounds front (filled ++ (0 ∷ [])) 8 code (nbits - space)
                (omega (arith, length-append filled (0 ∷ []))))
      ]
    ]

put_byte_front :
    (b : ℕ) (front : List ℕ) (r : List ℕ × ℕ)
    → Started r
    → (put_byte (behind front r) b ≡ behind front (put_byte r b)) × Started (put_byte r b)
unfolding put_byte
put_byte_front b front (dst, space) started =
    let huff = huffman_code b in
    elim (Bool-cases (space == 8)) [
      | inl whole ↦
          let (e, h) =
            put_loop_front 5 front (dst ++ (0 ∷ [])) space huff.code huff.bits
              (omega (arith, length-append dst (0 ∷ []))) in
          rw whole (rw (append_assoc front dst (0 ∷ [])) e, inl h)
      | inr part ↦
          let (e, h) = put_loop_front 5 front dst space huff.code huff.bits (ground arith) in
          rw part (e, inl h)
    ]

encode_loop_front :
    (s front : List ℕ) (r : List ℕ × ℕ)
    → Started r
    → (encode_loop (behind front r) s ≡ behind front (encode_loop r s)) × Started (encode_loop r s)
unfolding encode_loop
encode_loop_front [] front r started = (refl, started)
encode_loop_front (b ∷ s) front r started =
    let (e, started') = put_byte_front b front r started in
    rw e (encode_loop_front s front (put_byte r b) started')

fill_up_front :
    (front : List ℕ) (r : List ℕ × ℕ) → Started r → fill_up (behind front r) ≡ front ++ fill_up r
fill_up_front front (dst, space) started =
    let eos = huffman_code 256 in
    elim (Bool-cases (ltb space 8)) [
      | inl part ↦
          rw part
            (or_last_front (eos.code / 2 ^ (eos.bits - space) % 2 ^ 8) front dst (ground arith))
      | inr whole ↦ rw whole refl
    ]

-- The bytes before are kept, and what is appended does not depend on them.
pub huffman_encode-append : (dst s : List ℕ) → huffman_encode dst s ≡ dst ++ huffman_encode [] s
unfolding huffman_encode
huffman_encode-append dst s =
    let (e, started) = encode_loop_front s dst ([], 8) (inr refl) in
    ap (λ d. fill_up (encode_loop (d, 8) s)) (sym (append-nil dst))
    ∙ ap fill_up e
    ∙ fill_up_front dst (encode_loop ([], 8) s) started
