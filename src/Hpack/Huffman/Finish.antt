-- ===== src/Hpack/Huffman/Finish.antt =====
-- hpack/huffman.go: the end of `HuffmanDecode`, for the bits behind the last whole code.
use http.Prelude.{ℕ, zero, suc, ◌+◌, ◌-◌, ◌*◌, ◌/◌, ◌%◌, ◌^◌, ◌≤◌, ◌<◌, ◌≡◌, arith}
use http.Prelude.{ap, sym, ◌∙◌, All, length-append}
use http.Prelude.{true, false, ltb, if◌then◌else◌, inl, inr, Bool-cases}
use http.Prelude.{List, [], ◌∷◌, ◌++◌, length, take, replicate, none, some}
use http.Prelude.BitStrings.{
  bits, number, length-bits, bits_shifted, bits-zero, take-replicate, bits-add, number-bits,
}
use http.Hpack.Tree.{Node, leaf, inner, root_children}
use http.Hpack.Huffman.Decode.{
  DecodeState, emit, and_then, tail_step, or_break, tail_loop, huffman_decode,
}
use http.Hpack.Huffman.Walk.{
  IsSome, walk-IsSome, window, walk, Full, Full-Looked, root_children-Full, walk_leaf, walk_short,
  walk_partial,
}
use mathlib.Core.List.{append_assoc}
use native.Mathlib.Nat.{mul-div_left, one-le-pow}
use http.Hpack.Huffman.Machine.{byte_bits, pending-drop, decode_loop-RunsOver}

-- The window of the bits that are left at the end.
tail_window :
    (nbits cur : ℕ) → nbits < 8 → window (bits nbits cur ++ []) ≡ cur * 2 ^ (8 - nbits) % 2 ^ 8
tail_window nbits cur few =
    let m = 8 - nbits in
    let x = cur * 2 ^ m in
    let eight : 8 ≡ nbits + m = omega arith in
    let eight' : 8 ≡ m + nbits = omega arith in
    let zero_plus : x ≡ 0 + x = omega arith in
    let up : x / 2 ^ m ≡ cur = mul-div_left cur (one-le-pow m 2 (omega arith)) in
    let low : bits m x ≡ replicate m false =
      ap (bits m) zero_plus ∙ bits_shifted m 0 cur ∙ bits-zero m in
    let whole : bits 8 x ≡ bits nbits cur ++ replicate m false =
      ap (λ i. bits i x) eight
      ∙ bits-add nbits m x
      ∙ ap (λ p. p ++ bits m x) (ap (bits nbits) up)
      ∙ ap (◌++◌ (bits nbits cur)) low in
    let cut : take 8 ((bits nbits cur ++ []) ++ replicate 8 false)
        ≡ bits nbits cur ++ replicate m false =
      ap (take 8) (append_assoc (bits nbits cur) [] (replicate 8 false))
      ∙ ap (λ i. take i (bits nbits cur ++ replicate 8 false))
          (eight ∙ ap (λ i. i + m) (sym (length-bits nbits cur)))
      ∙ ap (λ i. take (length (bits nbits cur) + m) (bits nbits cur ++ replicate i false)) eight'
      ∙ take-replicate (bits nbits cur) m nbits in
    ap (number 0) (cut ∙ sym whole) ∙ number-bits 0 8 x ∙ omega arith

tail_loop_stop :
    (rounds : ℕ) (st : DecodeState)
    → ltb 0 st.nbits ≡ false
    → tail_loop (suc rounds) st ≡ some st.dst
unfolding tail_loop
tail_loop_stop rounds st stop =
    ap
      (λ b.
        if b
        then and_then (tail_step (st.n (st.cur * 2 ^ (8 - st.nbits) % 2 ^ 8)) st)
            (or_break st.dst (tail_loop rounds))
        else some st.dst)
      stop

tail_loop_more :
    (rounds : ℕ) (st : DecodeState) (x : Node)
    → ltb 0 st.nbits ≡ true
    → st.n (st.cur * 2 ^ (8 - st.nbits) % 2 ^ 8) ≡ x
    → tail_loop (suc rounds) st ≡ and_then (tail_step x st) (or_break st.dst (tail_loop rounds))
unfolding tail_loop
tail_loop_more rounds st x more e =
    ap
      (λ b.
        if b
        then and_then (tail_step (st.n (st.cur * 2 ^ (8 - st.nbits) % 2 ^ 8)) st)
            (or_break st.dst (tail_loop rounds))
        else some st.dst)
      more
    ∙ ap (λ y. and_then (tail_step y st) (or_break st.dst (tail_loop rounds))) e

tail_round :
    (rounds : ℕ) (st : DecodeState)
    → Full st.n
    → st.nbits < 8
    → ltb 0 st.nbits ≡ true
    → ((s k : ℕ)
        → 1 ≤ k
        → k ≤ st.nbits
        → let st' = emit s k st in
          tail_loop rounds st' ≡ walk 0 st'.dst st'.n (bits st'.nbits st'.cur ++ []))
    → tail_loop (suc rounds) st ≡ walk 0 st.dst st.n (bits st.nbits st.cur ++ [])
tail_round rounds st full few more rest =
    let p = bits st.nbits st.cur ++ [] in
    let w = tail_window st.nbits st.cur few in
    let size : length p ≡ st.nbits =
      omega (arith, length-append (bits st.nbits st.cur) [], length-bits st.nbits st.cur) in
    elim (Full-Looked st.n (st.cur * 2 ^ (8 - st.nbits) % 2 ^ 8) full (omega arith))
      as (λ x. tail_loop (suc rounds) st ≡ walk 0 st.dst st.n p) [
        | inl (s, k, e, lo, hi) ↦
            elim (Bool-cases (ltb st.nbits k))
              as (λ x. tail_loop (suc rounds) st ≡ walk 0 st.dst st.n p) [
                | inl short ↦
                    tail_loop_more rounds st (leaf s k) more e
                    ∙ ap
                        (λ b.
                          and_then (some (if b then none else some (emit s k st)))
                            (or_break st.dst (tail_loop rounds)))
                        short
                    ∙ sym (walk_short st.dst st.n p s k (ap st.n w ∙ e) (ground (arith, size)))
                | inr long ↦
                    let fits : k ≤ st.nbits = ground arith in
                    let left : (st.nbits + 2 ^ 8 - k) % 2 ^ 8 ≡ st.nbits - k = omega arith in
                    tail_loop_more rounds st (leaf s k) more e
                    ∙ ap
                        (λ b.
                          and_then (some (if b then none else some (emit s k st)))
                            (or_break st.dst (tail_loop rounds)))
                        long
                    ∙ rest s k lo fits
                    ∙ rw left (
                        sym (
                          ap (walk 0 (st.dst ++ (s ∷ [])) root_children)
                            (pending-drop st k [] fits)))
                    ∙ sym (walk_leaf st.dst st.n p s k (ap st.n w ∙ e) lo (omega (arith, size)))
              ]
        | inr (f, e, below) ↦
            tail_loop_more rounds st (inner f) more e
            ∙ sym (walk_partial st.dst st.n f p (ap st.n w ∙ e) (omega (arith, size)))
      ]

tail_loop-walk :
    (rounds : ℕ) (st : DecodeState)
    → Full st.n
    → st.nbits ≤ rounds
    → st.nbits < 8
    → tail_loop (suc rounds) st ≡ walk 0 st.dst st.n (bits st.nbits st.cur ++ [])
unfolding walk bits
tail_loop-walk zero st full enough few =
    let none_left : st.nbits ≡ 0 = omega arith in
    tail_loop_stop 0 st (ground arith)
    ∙ sym (ap (λ i. walk 0 st.dst st.n (bits i st.cur ++ [])) none_left)
tail_loop-walk (suc rounds) st full enough few =
    elim (Bool-cases (ltb 0 st.nbits))
      as (λ x. tail_loop (suc (suc rounds)) st ≡ walk 0 st.dst st.n (bits st.nbits st.cur ++ [])) [
        | inr stop ↦
            let none_left : st.nbits ≡ 0 = ground arith in
            tail_loop_stop (suc rounds) st stop
            ∙ sym (ap (λ i. walk 0 st.dst st.n (bits i st.cur ++ [])) none_left)
        | inl more ↦ tail_round (suc rounds) st full few more (λ s k lo hi.
            tail_loop-walk rounds (emit s k st) root_children-Full (omega arith) (omega arith))
      ]

-- On any bytes, `HuffmanDecode` is the walk of their bits down the decoding tree, one bit after the
-- other.
pub huffman_decode-walk :
    (dst src : List ℕ)
    → All (λ b. b < 256) src
    → huffman_decode dst src ≡ walk 0 dst root_children (byte_bits src)
unfolding huffman_decode bits
huffman_decode-walk dst src bytes =
    let (st, run, full, few, same) =
      decode_loop-RunsOver src (record { dst = dst; n = root_children; cur = 0; nbits = 0 })
        root_children-Full (omega arith) bytes in
    ap (λ o. and_then o (tail_loop 8)) run ∙ tail_loop-walk 7 st full (omega arith) few ∙ sym same

-- `HuffmanDecode` does not panic, whatever the bytes, and none of its loops runs out of rounds.
pub huffman_decode-IsSome :
    (dst src : List ℕ) → All (λ b. b < 256) src → IsSome (huffman_decode dst src)
huffman_decode-IsSome dst src bytes =
    let (out, run) = walk-IsSome 0 dst root_children (byte_bits src) root_children-Full in
    (out, huffman_decode-walk dst src bytes ∙ run)
