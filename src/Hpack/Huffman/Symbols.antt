-- ===== src/Hpack/Huffman/Symbols.antt =====
-- hpack/huffman.go: the decoding tree has every code of the table.
use http.Prelude.{ℕ, zero, suc, ◌+◌, ◌-◌, ◌*◌, ◌/◌, ◌%◌, ◌^◌, ◌≤◌, ◌<◌, ◌≡◌, refl, arith}
use http.Prelude.{ap, sym, ◌∙◌, length-append, drop-append, length-take, every_from, every_from_lem}
use http.Prelude.{Bool, true, false, ◌&&◌, ltb, ◌==◌, if◌then◌else◌, inl, inr, Bool-cases}
use http.Prelude.{List, [], ◌∷◌, ◌++◌, length, take, drop, replicate, some}
use http.Prelude.BitStrings.{
  bits, number, number_bounds, number-append, length-bits, number-bits, take-append_add, shift_mod,
}
use http.Hpack.Codes.{ascii_codes, other_codes}
use http.Hpack.Tree.{Node, absent, leaf, inner, root_children, fill, insert, insert_all}
use http.Hpack.Huffman.{huffman_code}
use http.Hpack.Huffman.Walk.{window, walk, walk_leaf, walk_inner}
use http.Hpack.Huffman.Machine.{window_byte, drop_bits}
use mathlib.Core.List.{append_assoc}

abbrev inner_and : ((ℕ → Node) → Bool) → Node → Bool
inner_and test absent = false
inner_and test (leaf sym k) = false
inner_and test (inner f) = test f

abbrev is_leaf : ℕ → ℕ → Node → Bool
is_leaf s k absent = false
is_leaf s k (leaf sym k') = (sym == s) && (k' == k)
is_leaf s k (inner f) = false

-- All that begins with the code leads to the symbol.
unfoldable finds : ℕ → (ℕ → Node) → ℕ → ℕ → ℕ → Bool
unfolding every_from
finds zero f code nbits s = false
finds (suc rounds) f code nbits s =
    if ltb 8 nbits
    then inner_and (λ g. finds rounds g code (nbits - 8) s) (f (code / 2 ^ (nbits - 8) % 2 ^ 8))
    else every_from (λ j. is_leaf s nbits (f j)) (code * 2 ^ (8 - nbits) % 2 ^ 8) (2 ^ (8 - nbits))

unfoldable finds_all : (ℕ → Node) → Bool
unfolding finds every_from huffman_code ascii_codes other_codes
finds_all f = every_from (λ i. finds 4 f ((huffman_code i).code) ((huffman_code i).bits) i) 0 256

tree_finds_all : finds_all root_children ≡ true
unfolding finds_all finds every_from root_children fill insert insert_all ascii_codes other_codes
    huffman_code
tree_finds_all = refl

inner_and-true :
    (test : (ℕ → Node) → Bool) (x : Node)
    → inner_and test x ≡ true
    → (f : ℕ → Node) × (x ≡ inner f) × (test f ≡ true)
inner_and-true test absent h = ground arith
inner_and-true test (leaf sym k) h = ground arith
inner_and-true test (inner f) h = (f, refl, h)

is_leaf-true : (s k : ℕ) (x : Node) → is_leaf s k x ≡ true → x ≡ leaf s k
is_leaf-true s k absent h = ground arith
is_leaf-true s k (leaf sym k') h = let e : (sym ≡ s) × (k' ≡ k) = ground arith in rw (e.0, e.1) refl
is_leaf-true s k (inner f) h = ground arith

-- The window on a short code has the code, and any bits behind it.
window_code :
    (k c : ℕ) (q : List Bool)
    → k ≤ 8
    → let w = window (bits k c ++ q) in
      (c * 2 ^ (8 - k) % 2 ^ 8 ≤ w) × (w < c * 2 ^ (8 - k) % 2 ^ 8 + 2 ^ (8 - k))
window_code k c q small =
    let m = 8 - k in
    let ys = q ++ replicate 8 false in
    let eight : 8 ≡ k + m = omega arith in
    let eight' : 8 ≡ m + k = omega arith in
    let cut : take 8 ((bits k c ++ q) ++ replicate 8 false) ≡ bits k c ++ take m ys =
      ap (take 8) (append_assoc (bits k c) q (replicate 8 false))
      ∙ ap (λ i. take i (bits k c ++ ys)) (eight ∙ ap (λ i. i + m) (sym (length-bits k c)))
      ∙ take-append_add (bits k c) ys m in
    let size : length (take m ys) ≡ m =
      omega (arith, length-take m ys, length-append q (replicate 8 false)) in
    let zero_plus : 0 * 2 ^ k + c % 2 ^ k ≡ c % 2 ^ k = omega arith in
    let w : window (bits k c ++ q) ≡ number (c % 2 ^ k) (take m ys) =
      ap (number 0) cut
      ∙ number-append 0 (bits k c) (take m ys)
      ∙ ap (λ i. number i (take m ys)) (number-bits 0 k c ∙ zero_plus) in
    let start : c * 2 ^ m % 2 ^ 8 ≡ c % 2 ^ k * 2 ^ m =
      ap (λ i. c * 2 ^ m % 2 ^ i) eight ∙ shift_mod k m c in
    let next : (c % 2 ^ k + 1) * 2 ^ m ≡ c % 2 ^ k * 2 ^ m + 2 ^ m = omega arith in
    let (lo, hi) = number_bounds (c % 2 ^ k) (take m ys) in
    rw (w, start) (rw size at lo, rw (size, next) at hi)

finds-walk :
    (rounds : ℕ) (f : ℕ → Node) (code k s : ℕ)
    → finds rounds f code k s ≡ true
    → 1 ≤ k
    → (dst : List ℕ) (q : List Bool)
    → walk 0 dst f (bits k code ++ q) ≡ walk 0 (dst ++ (s ∷ [])) root_children q
unfolding finds
finds-walk zero f code k s h some_bits dst q = ground arith
finds-walk (suc rounds) f code k s h some_bits dst q = elim (Bool-cases (ltb 8 k)) [
  | inl long ↦
      let test =
        ap
          (λ b.
            if b
            then inner_and (λ g. finds rounds g code (k - 8) s) (f (code / 2 ^ (k - 8) % 2 ^ 8))
            else every_from (λ j. is_leaf s k (f j)) (code * 2 ^ (8 - k) % 2 ^ 8) (2 ^ (8 - k)))
          long in
      let (g, e, below) =
        inner_and-true (λ g. finds rounds g code (k - 8) s) (f (code / 2 ^ (k - 8) % 2 ^ 8))
          (sym test ∙ h) in
      let split : k ≡ 8 + (k - 8) = ground arith in
      let w : window (bits k code ++ q) ≡ code / 2 ^ (k - 8) % 2 ^ 8 =
        ap (λ i. window (bits i code ++ q)) split ∙ window_byte (k - 8) code q in
      let rest : drop 8 (bits k code ++ q) ≡ bits (k - 8) code ++ q =
        ap (λ i. drop 8 (bits i code ++ q)) split ∙ drop_bits 8 (k - 8) code q in
      walk_inner dst f g (bits k code ++ q) (ap f w ∙ e)
        (ground (arith, length-append (bits k code) q, length-bits k code))
      ∙ ap (walk 0 dst g) rest
      ∙ finds-walk rounds g code (k - 8) s below (ground arith) dst q
  | inr short ↦
      let small : k ≤ 8 = ground arith in
      let test =
        ap
          (λ b.
            if b
            then inner_and (λ g. finds rounds g code (k - 8) s) (f (code / 2 ^ (k - 8) % 2 ^ 8))
            else every_from (λ j. is_leaf s k (f j)) (code * 2 ^ (8 - k) % 2 ^ 8) (2 ^ (8 - k)))
          short in
      let (lo, hi) = window_code k code q small in
      let e = is_leaf-true s k (f (window (bits k code ++ q))) (
        every_from_lem (λ j. is_leaf s k (f j)) (code * 2 ^ (8 - k) % 2 ^ 8) (2 ^ (8 - k))
          (window (bits k code ++ q)) (sym test ∙ h) lo hi) in
      walk_leaf dst f (bits k code ++ q) s k e some_bits
        (omega (arith, length-append (bits k code) q, length-bits k code))
      ∙ ap (walk 0 (dst ++ (s ∷ [])) root_children) (
          ap (λ i. drop i (bits k code ++ q)) (sym (length-bits k code))
          ∙ drop-append (bits k code) q)
]

-- The code of a byte, with any bits behind it, is decoded to the byte.
pub symbol-walk :
    (s : ℕ) (dst : List ℕ) (q : List Bool)
    → s < 256
    → 1 ≤ (huffman_code s).bits
    → walk 0 dst root_children (bits (huffman_code s).bits (huffman_code s).code ++ q)
      ≡ walk 0 (dst ++ (s ∷ [])) root_children q
unfolding finds_all
symbol-walk s dst q byte some_bits =
    let test =
      every_from_lem (λ i. finds 4 root_children ((huffman_code i).code) ((huffman_code i).bits) i)
        0 256 s tree_finds_all (omega arith) (omega arith) in
    finds-walk 4 root_children (huffman_code s).code (huffman_code s).bits s test some_bits dst q

-- Fewer than eight ones are no code.
pub ones-walk :
    (j : ℕ) (dst : List ℕ) → j < 8 → walk 0 dst root_children (replicate j true) ≡ some dst
unfolding walk number root_children fill insert insert_all ascii_codes other_codes
ones-walk zero dst h = refl
ones-walk (suc zero) dst h = refl
ones-walk (suc (suc zero)) dst h = refl
ones-walk (suc (suc (suc zero))) dst h = refl
ones-walk (suc (suc (suc (suc zero)))) dst h = refl
ones-walk (suc (suc (suc (suc (suc zero))))) dst h = refl
ones-walk (suc (suc (suc (suc (suc (suc zero)))))) dst h = refl
ones-walk (suc (suc (suc (suc (suc (suc (suc zero))))))) dst h = refl
ones-walk (suc (suc (suc (suc (suc (suc (suc (suc j)))))))) dst h = absurd (omega arith)
