-- ===== src/Hpack/Tree.antt =====
-- hpack/huffman.go: the decoding tree. A slice of 256 children is a function of the index, and
-- `absent` a nil pointer.
use http.Prelude.{ℕ, zero, suc, ◌+◌, ◌-◌, ◌*◌, ◌/◌, ◌%◌, ◌^◌, ltb, ◌==◌, if◌then◌else◌}
use http.Prelude.{List, [], ◌∷◌, ◌++◌, Option, none, some}
use http.Hpack.Codes.{HuffmanCode, ascii_codes, other_codes}

-- A node whose `children` is nil is a `leaf`, with its `sym` and `bits`.
pub data Node : Type 0 where
  absent : Node
  leaf : ℕ → ℕ → Node
  inner : (ℕ → Node) → Node

abbrev pub no_children : ℕ → Node
no_children j = absent

-- `children[i] = x`.
abbrev pub set_child : (ℕ → Node) → ℕ → Node → ℕ → Node
set_child f i x j = if j == i then x else f j

-- The loop of `count` rounds from `start` on.
unfoldable pub fill : ℕ → ℕ → Node → (ℕ → Node) → ℕ → Node
fill zero start x f = f
fill (suc count) start x f = fill count (start + 1) x (set_child f start x)

-- The children of a node on the way, which is made where it is missing; `none` is the panic of an
-- index into the nil `children` of a leaf.
abbrev children_of : Node → Option (ℕ → Node)
children_of absent = some no_children
children_of (leaf sym bits) = none
children_of (inner f) = some f

abbrev put_back : (ℕ → Node) → ℕ → Option (ℕ → Node) → Option (ℕ → Node)
put_back f j none = none
put_back f j (some g) = some (set_child f j (inner g))

-- The body of the loop over the codes, for the children of `cur`: `for bits > 8 { ... }`, which has
-- `rounds` rounds at most, and the leaves. A code has up to 32 bits.
unfoldable pub insert : ℕ → ℕ → ℕ → ℕ → (ℕ → Node) → Option (ℕ → Node)
unfolding fill
insert zero code sym bits f = none
insert (suc rounds) code sym bits f =
    let j = code / 2 ^ (bits - 8) % 2 ^ 8 in
    let below : Option (ℕ → Node) = elim (children_of (f j)) [
      | none ↦ none
      | some g ↦ put_back f j (insert rounds code sym (bits - 8) g)
    ] in
    if ltb 8 bits
    then below
    else some (fill (2 ^ (8 - bits)) (code * 2 ^ (8 - bits) % 2 ^ 8) (leaf sym bits) f)

-- The loop over the codes; `i` is the index of the first one left.
unfoldable pub insert_all : ℕ → List HuffmanCode → (ℕ → Node) → Option (ℕ → Node)
unfolding insert
insert_all i [] f = some f
insert_all i (x ∷ xs) f = elim (insert 4 x.code (i % 2 ^ 8) x.bits f) [
  | none ↦ none
  | some g ↦ insert_all (i + 1) xs g
]

abbrev pub or_empty : Option (ℕ → Node) → ℕ → Node
or_empty none = no_children
or_empty (some f) = f

-- `newHuffmanTree()`: the children of the root.
unfoldable pub root_children : ℕ → Node
unfolding insert_all ascii_codes other_codes
root_children = or_empty (insert_all 0 (ascii_codes ++ other_codes) no_children)
