-- ===== src/Hpack/Huffman/Machine.antt =====
-- hpack/huffman.go: `HuffmanDecode` and the walk over the bits of its input.
use http.Prelude.{ℕ, zero, suc, ◌+◌, ◌-◌, ◌*◌, ◌/◌, ◌%◌, ◌^◌, ◌≤◌, ◌<◌, ◌≡◌, refl, arith}
use http.Prelude.{ap, sym, ◌∙◌, All, length-append, drop-append}
use http.Prelude.{Bool, true, false, leb, if◌then◌else◌, inl, inr, Bool-cases}
use http.Prelude.{List, [], ◌∷◌, ◌++◌, length, drop, some}
use http.Prelude.{bit_or}
use http.Prelude.Bits.{bit_or_fields}
use http.Prelude.BitStrings.{bits, length-bits, bits_shifted, bits-mod, bits-add, number-bits}
use http.Hpack.Tree.{Node, root_children}
use http.Hpack.Huffman.Decode.{
  DecodeState, inner_loop, emit, step_down, and_then, take_in, decode_loop,
}
use http.Hpack.Huffman.Walk.{
  window, walk, Full, Full-Looked, root_children-Full, walk_leaf, walk_inner,
}
use mathlib.Core.List.{append_assoc}

-- The bits of a string of bytes.
unfoldable pub byte_bits : List ℕ → List Bool
byte_bits [] = []
byte_bits (b ∷ s) = bits 8 b ++ byte_bits s

pub window_byte : (a cur : ℕ) (q : List Bool) → window (bits (8 + a) cur ++ q) ≡ cur / 2 ^ a % 2 ^ 8
unfolding bits
window_byte a cur q = rw (bits-add 8 a cur) (number-bits 0 8 (cur / 2 ^ a) ∙ omega arith)

pub drop_bits : (k m cur : ℕ) (q : List Bool) → drop k (bits (k + m) cur ++ q) ≡ bits m cur ++ q
drop_bits k m cur q =
    let whole : bits (k + m) cur ++ q ≡ bits k (cur / 2 ^ m) ++ (bits m cur ++ q) =
      ap (λ p. p ++ q) (bits-add k m cur) ∙ append_assoc (bits k (cur / 2 ^ m)) (bits m cur) q in
    rw whole (
      ap (λ i. drop i (bits k (cur / 2 ^ m) ++ (bits m cur ++ q)))
        (sym (length-bits k (cur / 2 ^ m)))
      ∙ drop-append (bits k (cur / 2 ^ m)) (bits m cur ++ q))

-- The walk gives the same at the two states, whatever bits follow.
abbrev SameWalk : DecodeState → DecodeState → Type 0
SameWalk st st' =
    (q : List Bool)
    → walk 0 st.dst st.n (bits st.nbits st.cur ++ q)
      ≡ walk 0 st'.dst st'.n (bits st'.nbits st'.cur ++ q)

abbrev child : DecodeState → Node
child st = st.n (st.cur / 2 ^ (st.nbits - 8) % 2 ^ 8)

-- One round: a state with fewer bits, and the same walk.
abbrev Steps : DecodeState → Type 0
Steps st =
    (st' : DecodeState) × (step_down (child st) st ≡ some st')
    × Full st'.n
    × (st'.nbits < st.nbits)
    × (SameWalk st st')

pending :
    (st : DecodeState) (q : List Bool)
    → 8 ≤ st.nbits
    → window (bits st.nbits st.cur ++ q) ≡ st.cur / 2 ^ (st.nbits - 8) % 2 ^ 8
pending st q enough =
    let e : st.nbits ≡ 8 + (st.nbits - 8) = omega arith in
    ap (λ i. window (bits i st.cur ++ q)) e ∙ window_byte (st.nbits - 8) st.cur q

pub pending-drop :
    (st : DecodeState) (k : ℕ) (q : List Bool)
    → k ≤ st.nbits
    → drop k (bits st.nbits st.cur ++ q) ≡ bits (st.nbits - k) st.cur ++ q
pending-drop st k q enough =
    let e : st.nbits ≡ k + (st.nbits - k) = omega arith in
    ap (λ i. drop k (bits i st.cur ++ q)) e ∙ drop_bits k (st.nbits - k) st.cur q

pending-length : (st : DecodeState) (q : List Bool) → st.nbits ≤ length (bits st.nbits st.cur ++ q)
pending-length st q =
    omega (arith, length-append (bits st.nbits st.cur) q, length-bits st.nbits st.cur)

step_down-Steps : (st : DecodeState) → Full st.n → 8 ≤ st.nbits → st.nbits < 16 → Steps st
step_down-Steps st full more small =
    elim (Full-Looked st.n (st.cur / 2 ^ (st.nbits - 8) % 2 ^ 8) full (omega arith))
      as (λ x. Steps st) [
        | inl (s, k, e, lo, hi) ↦
            let left : (st.nbits + 2 ^ 8 - k) % 2 ^ 8 ≡ st.nbits - k = omega arith in
            (
              emit s k st,
              ap (λ x. step_down x st) e,
              root_children-Full,
              omega (arith, left),
              λ q.
                  walk_leaf st.dst st.n (bits st.nbits st.cur ++ q) s k
                    (ap st.n (pending st q more) ∙ e) lo (omega (arith, pending-length st q))
                  ∙ rw left (
                      ap (walk 0 (st.dst ++ (s ∷ [])) root_children)
                        (pending-drop st k q (omega arith))),
            )
        | inr (f, e, below) ↦ (
          record st { n = f; nbits = st.nbits - 8 },
          ap (λ x. step_down x st) e,
          below,
          omega arith,
          λ q.
              walk_inner st.dst st.n f (bits st.nbits st.cur ++ q) (ap st.n (pending st q more) ∙ e)
                (omega (arith, pending-length st q))
              ∙ ap (walk 0 st.dst f) (pending-drop st 8 q more),
        )
      ]

-- The rest of the loop.
abbrev Runs : ℕ → DecodeState → Type 0
Runs rounds st =
    (st' : DecodeState) × (inner_loop rounds st ≡ some st')
    × Full st'.n
    × (st'.nbits < 8)
    × (SameWalk st st')

inner_loop_stop :
    (rounds : ℕ) (st : DecodeState) → leb 8 st.nbits ≡ false → inner_loop (suc rounds) st ≡ some st
unfolding inner_loop
inner_loop_stop rounds st stop =
    ap (λ b. if b then and_then (step_down (child st) st) (inner_loop rounds) else some st) stop

inner_loop_more :
    (rounds : ℕ) (st st' : DecodeState)
    → leb 8 st.nbits ≡ true
    → step_down (child st) st ≡ some st'
    → inner_loop (suc rounds) st ≡ inner_loop rounds st'
unfolding inner_loop
inner_loop_more rounds st st' more e =
    ap (λ b. if b then and_then (step_down (child st) st) (inner_loop rounds) else some st) more
    ∙ ap (λ o. and_then o (inner_loop rounds)) e

inner_loop-Runs :
    (rounds : ℕ) (st : DecodeState)
    → Full st.n
    → st.nbits ≤ rounds + 7
    → st.nbits < 16
    → Runs (suc rounds) st
inner_loop-Runs zero st full enough small =
    (st, inner_loop_stop 0 st (ground arith), full, omega arith, λ q. refl)
inner_loop-Runs (suc rounds) st full enough small =
    elim (Bool-cases (leb 8 st.nbits)) as (λ x. Runs (suc (suc rounds)) st) [
      | inr stop ↦ (st, inner_loop_stop (suc rounds) st stop, full, ground arith, λ q. refl)
      | inl more ↦
          let (st1, down, full1, fewer, same1) = step_down-Steps st full (ground arith) small in
          let (st2, run, full2, few, same2) =
            inner_loop-Runs rounds st1 full1 (omega (arith, fewer)) (omega (arith, fewer)) in
          (
            st2,
            inner_loop_more (suc rounds) st st1 more down ∙ run,
            full2,
            few,
            λ q. same1 q ∙ same2 q,
          )
    ]

-- The bits of the next byte behind those that are left.
take_in_bits :
    (nbits cur b : ℕ) (q : List Bool)
    → nbits < 8
    → b < 256
    → bits ((nbits + 8) % 2 ^ 8) (bit_or (cur * 2 ^ 8 % 2 ^ 64) b) ++ q
      ≡ bits nbits cur ++ (bits 8 b ++ q)
take_in_bits nbits cur b q few byte =
    let x = cur % 2 ^ 56 in
    let n : (nbits + 8) % 2 ^ 8 ≡ nbits + 8 = omega arith in
    let c : cur * 2 ^ 8 % 2 ^ 64 ≡ x * 2 ^ 8 = omega arith in
    let o : bit_or (x * 2 ^ 8) b ≡ b + x * 2 ^ 8 = omega (arith, bit_or_fields 8 x b byte) in
    let h : (b + x * 2 ^ 8) / 2 ^ 8 ≡ x = omega arith in
    let w : 56 - nbits + nbits ≡ 56 = omega arith in
    let low : bits nbits x ≡ bits nbits cur =
      ap (λ i. bits nbits (cur % 2 ^ i)) (sym w) ∙ bits-mod nbits (56 - nbits) cur in
    ap (λ p. p ++ q)
      (ap (λ i. bits i (bit_or (cur * 2 ^ 8 % 2 ^ 64) b)) n
        ∙ ap (λ i. bits (nbits + 8) (bit_or i b)) c
        ∙ ap (bits (nbits + 8)) o
        ∙ bits-add nbits 8 (b + x * 2 ^ 8)
        ∙ ap (λ i. bits nbits i ++ bits 8 (b + x * 2 ^ 8)) h
        ∙ ap (λ p. p ++ bits 8 (b + x * 2 ^ 8)) low
        ∙ ap (◌++◌ (bits nbits cur)) (bits_shifted 8 b x))
    ∙ append_assoc (bits nbits cur) (bits 8 b) q

-- The bytes that are left, too.
abbrev pub RunsOver : DecodeState → List ℕ → Type 0
RunsOver st src =
    (st' : DecodeState) × (decode_loop st src ≡ some st')
    × Full st'.n
    × (st'.nbits < 8)
    × (walk 0 st.dst st.n (bits st.nbits st.cur ++ byte_bits src)
        ≡ walk 0 st'.dst st'.n (bits st'.nbits st'.cur ++ []))

pub decode_loop-RunsOver :
    (src : List ℕ) (st : DecodeState)
    → Full st.n
    → st.nbits < 8
    → All (λ b. b < 256) src
    → RunsOver st src
unfolding decode_loop byte_bits
decode_loop-RunsOver [] st full few bytes = (st, refl, full, few, refl)
decode_loop-RunsOver (b ∷ src) st full few (byte, bytes) =
    let (st1, run1, full1, few1, same1) =
      inner_loop-Runs 8 (take_in b st) full (omega arith) (omega arith) in
    let (st2, run2, full2, few2, same2) = decode_loop-RunsOver src st1 full1 few1 bytes in
    (
      st2,
      ap (λ o. and_then o (λ st'. decode_loop st' src)) run1 ∙ run2,
      full2,
      few2,
      ap (walk 0 st.dst st.n) (sym (take_in_bits st.nbits st.cur b (byte_bits src) few byte))
          ∙ same1 (byte_bits src)
          ∙ same2,
    )
