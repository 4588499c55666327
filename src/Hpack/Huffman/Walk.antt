-- ===== src/Hpack/Huffman/Walk.antt =====
-- hpack/huffman.go: the walk of a string of bits down the decoding tree, one bit after the other,
-- and what the tree has for it.
use http.Prelude.{ℕ, zero, suc, ◌-◌, ◌≤◌, ◌<◌, ◌≡◌, refl, ap, ◌∙◌, arith}
use http.Prelude.{Bool, true, false, ◌&&◌, leb, if◌then◌else◌, ◌⊎◌, inl, inr}
use http.Prelude.{every_from, every_from_lem}
use http.Prelude.{List, [], ◌∷◌, ◌++◌, length, take, drop, replicate, Option, none, some}
use http.Prelude.{length-take}
use http.Prelude.Bits.{two_pow_mono}
use http.Prelude.BitStrings.{number, number_bounds}
use http.Hpack.Codes.{ascii_codes, other_codes}
use http.Hpack.Tree.{Node, absent, leaf, inner, root_children, fill, insert, insert_all}

-- The next eight bits as a number, with zeros where the string ends.
abbrev pub window : List Bool → ℕ
window p = number 0 (take 8 (p ++ replicate 8 false))

-- What follows a look-up with `left` bits left: a symbol, or a node further down.
abbrev found : Node → List ℕ → ℕ → (ℕ → List ℕ → (ℕ → Node) → Option (List ℕ)) → Option (List ℕ)
found absent dst left next = none
found (leaf sym k) dst left next =
    if leb k left then next k (dst ++ (sym ∷ [])) root_children else some dst
found (inner f) dst left next = if leb 8 left then next 8 dst f else some dst

-- What is left to skip of the bits that were looked up, the symbols so far, the children of the
-- node, and the bits left.
unfoldable pub walk : ℕ → List ℕ → (ℕ → Node) → List Bool → Option (List ℕ)
unfolding number
walk skip dst n [] = some dst
walk (suc skip) dst n (b ∷ p) = walk skip dst n p
walk zero dst n (b ∷ p) =
    found (n (window (b ∷ p))) dst (length (b ∷ p)) (λ k dst' f. walk (k - 1) dst' f p)

pub walk-drop :
    (k : ℕ) (dst : List ℕ) (n : ℕ → Node) (p : List Bool) → walk k dst n p ≡ walk 0 dst n (drop k p)
unfolding walk
walk-drop zero dst n p = refl
walk-drop (suc k) dst n [] = refl
walk-drop (suc k) dst n (b ∷ p) = walk-drop k dst n p

-- What a look-up finds: no nil node, a leaf of one to eight bits, or an inner node with `Below`.
abbrev pub good : ((ℕ → Node) → Bool) → Node → Bool
good below absent = false
good below (leaf sym k) = leb 1 k && leb k 8
good below (inner f) = below f

-- Every node below is good, down to the depth given.
unfoldable pub full : ℕ → (ℕ → Node) → Bool
unfolding every_from
full zero f = false
full (suc depth) f = every_from (λ j. good (full depth) (f j)) 0 256

pub Full : (ℕ → Node) → Type 0
Full f = (depth : ℕ) × (full depth f ≡ true)

abbrev pub Looked : Node → Type 0
Looked x =
    ((sym : ℕ) × (k : ℕ) × (x ≡ leaf sym k) × (1 ≤ k) × (k ≤ 8))
    ⊎ ((f : ℕ → Node) × (x ≡ inner f) × Full f)

good-Looked : (depth : ℕ) (x : Node) → good (full depth) x ≡ true → Looked x
unfolding Full
good-Looked depth absent h = ground arith
good-Looked depth (leaf sym k) h = inl (sym, k, refl, ground arith, ground arith)
good-Looked depth (inner f) h = inr (f, refl, (depth, h))

pub Full-Looked : (f : ℕ → Node) (j : ℕ) → Full f → j < 256 → Looked (f j)
unfolding Full full
Full-Looked f j (zero, h) small = ground arith
Full-Looked f j (suc depth, h) small =
    good-Looked depth (f j)
      (every_from_lem (λ i. good (full depth) (f i)) 0 256 j h (omega arith) (omega arith))

pub root_children-Full : Full root_children
unfolding Full full every_from root_children fill insert insert_all ascii_codes other_codes
root_children-Full = (4, refl)

lt→leb_false : (a b : ℕ) → a < b → leb b a ≡ false
lt→leb_false a b h = ground arith

-- One round of the walk, for what the look-up finds.
walk-found :
    (dst : List ℕ) (n : ℕ → Node) (b : Bool) (p : List Bool) (x : Node)
    → n (window (b ∷ p)) ≡ x
    → walk 0 dst n (b ∷ p) ≡ found x dst (length (b ∷ p)) (λ k dst' f. walk (k - 1) dst' f p)
unfolding walk
walk-found dst n b p x e =
    ap (λ y. found y dst (length (b ∷ p)) (λ k dst' f. walk (k - 1) dst' f p)) e

pub walk_leaf :
    (dst : List ℕ) (n : ℕ → Node) (p : List Bool) (sym k : ℕ)
    → n (window p) ≡ leaf sym k
    → 1 ≤ k
    → k ≤ length p
    → walk 0 dst n p ≡ walk 0 (dst ++ (sym ∷ [])) root_children (drop k p)
walk_leaf dst n [] sym k e some_bits enough = absurd (omega arith)
walk_leaf dst n (b ∷ p) sym zero e some_bits enough = absurd (omega arith)
walk_leaf dst n (b ∷ p) sym (suc k) e some_bits enough =
    let t : leb (suc k) (suc (length p)) ≡ true = ground arith in
    let e' : suc k - 1 ≡ k = omega arith in
    walk-found dst n b p (leaf sym (suc k)) e
    ∙ rw (t, e') (walk-drop k (dst ++ (sym ∷ [])) root_children p)

pub walk_inner :
    (dst : List ℕ) (n f : ℕ → Node) (p : List Bool)
    → n (window p) ≡ inner f
    → 8 ≤ length p
    → walk 0 dst n p ≡ walk 0 dst f (drop 8 p)
walk_inner dst n f [] e enough = absurd (omega arith)
walk_inner dst n f (b ∷ p) e enough =
    let t : leb 8 (suc (length p)) ≡ true = ground arith in
    walk-found dst n b p (inner f) e ∙ rw t (walk-drop 7 dst f p)

pub walk_short :
    (dst : List ℕ) (n : ℕ → Node) (p : List Bool) (sym k : ℕ)
    → n (window p) ≡ leaf sym k
    → length p < k
    → walk 0 dst n p ≡ some dst
unfolding walk
walk_short dst n [] sym k e short = refl
walk_short dst n (b ∷ p) sym k e short =
    walk-found dst n b p (leaf sym k) e ∙ rw (lt→leb_false (suc (length p)) k short) refl

pub walk_partial :
    (dst : List ℕ) (n f : ℕ → Node) (p : List Bool)
    → n (window p) ≡ inner f
    → length p < 8
    → walk 0 dst n p ≡ some dst
unfolding walk
walk_partial dst n f [] e short = refl
walk_partial dst n f (b ∷ p) e short =
    walk-found dst n b p (inner f) e ∙ rw (lt→leb_false (suc (length p)) 8 short) refl

window-lt : (p : List Bool) → window p < 256
window-lt p =
    let eight : length (take 8 (p ++ replicate 8 false)) ≤ 8 =
      omega (arith, length-take 8 (p ++ replicate 8 false)) in
    omega (
      arith,
      number_bounds 0 (take 8 (p ++ replicate 8 false)),
      two_pow_mono (length (take 8 (p ++ replicate 8 false))) 8 eight,
    )

abbrev pub IsSome : Option (List ℕ) → Type 0
IsSome o = (out : List ℕ) × (o ≡ some out)

if-IsSome :
    (b : Bool) (o : Option (List ℕ)) (dst : List ℕ) → IsSome o → IsSome (if b then o else some dst)
if-IsSome true o dst h = h
if-IsSome false o dst h = (dst, refl)

-- The walk meets no nil node.
pub walk-IsSome :
    (k : ℕ) (dst : List ℕ) (n : ℕ → Node) (p : List Bool) → Full n → IsSome (walk k dst n p)
unfolding walk
walk-IsSome k dst n [] full = (dst, refl)
walk-IsSome (suc k) dst n (b ∷ p) full = walk-IsSome k dst n p full
walk-IsSome zero dst n (b ∷ p) full =
    elim (Full-Looked n (window (b ∷ p)) full (window-lt (b ∷ p)))
      as (λ x. IsSome (walk 0 dst n (b ∷ p))) [
        | inl (s, k, e, lo, hi) ↦
            let (out, run) =
              if-IsSome (leb k (length (b ∷ p))) (walk (k - 1) (dst ++ (s ∷ [])) root_children p)
                dst (walk-IsSome (k - 1) (dst ++ (s ∷ [])) root_children p root_children-Full) in
            (out, walk-found dst n b p (leaf s k) e ∙ run)
        | inr (f, e, below) ↦
            let (out, run) =
              if-IsSome (leb 8 (length (b ∷ p))) (walk 7 dst f p) dst
                (walk-IsSome 7 dst f p below) in
            (out, walk-found dst n b p (inner f) e ∙ run)
      ]
