-- ===== src/Hpack/Huffman/Decode.antt =====
-- hpack/huffman.go: `HuffmanDecode`. `none` stands for a panic, a nil node, and for a loop that has
-- no round left.
use http.Prelude.{ℕ, zero, suc, ◌+◌, ◌-◌, ◌*◌, ◌/◌, ◌%◌, ◌^◌, ltb, leb, if◌then◌else◌, bit_or}
use http.Prelude.{List, [], ◌∷◌, ◌++◌, Option, none, some}
use http.Hpack.Tree.{Node, absent, leaf, inner, root_children}

-- The variables of the function; `n` is the children of the node, which is inner between the rounds.
pub record DecodeState : Type 0 where
  pub dst : List ℕ
  pub n : ℕ → Node
  pub cur : ℕ
  pub nbits : ℕ

-- `dst = append(dst, n.sym); nbits -= n.bits; n = rootHufmanNode`, on uint8.
abbrev pub emit : ℕ → ℕ → DecodeState → DecodeState
emit sym bits st = record st {
  dst = st.dst ++ (sym ∷ []);
  n = root_children;
  nbits = (st.nbits + 2 ^ 8 - bits) % 2 ^ 8;
}

abbrev pub and_then {ℓ κ} : {A : Type ℓ} {B : Type κ} → Option A → (A → Option B) → Option B
and_then none f = none
and_then (some a) f = f a

-- The round for the child that `n` becomes: a nil one has no `children`.
abbrev pub step_down : Node → DecodeState → Option DecodeState
step_down absent st = none
step_down (leaf sym bits) st = some (emit sym bits st)
step_down (inner f) st = some (record st { n = f; nbits = st.nbits - 8 })

-- `for nbits >= 8 { ... }`. The first argument is fuel.
unfoldable pub inner_loop : ℕ → DecodeState → Option DecodeState
inner_loop zero st = none
inner_loop (suc rounds) st =
    if leb 8 st.nbits
    then and_then (step_down (st.n (st.cur / 2 ^ (st.nbits - 8) % 2 ^ 8)) st) (inner_loop rounds)
    else some st

-- `cur = cur<<8 | uint(b); nbits += 8`.
abbrev pub take_in : ℕ → DecodeState → DecodeState
take_in b st = record st {
  cur = bit_or (st.cur * 2 ^ 8 % 2 ^ 64) b;
  nbits = (st.nbits + 8) % 2 ^ 8;
}

unfoldable pub decode_loop : DecodeState → List ℕ → Option DecodeState
unfolding inner_loop
decode_loop st [] = some st
decode_loop st (b ∷ src) = and_then (inner_loop 9 (take_in b st)) (λ st'. decode_loop st' src)

-- The round for the child that `n` becomes: `none` inside is `break`.
abbrev pub tail_step : Node → DecodeState → Option (Option DecodeState)
tail_step absent st = none
tail_step (leaf sym bits) st = some (if ltb st.nbits bits then none else some (emit sym bits st))
tail_step (inner f) st = some none

abbrev pub or_break :
    List ℕ → (DecodeState → Option (List ℕ)) → Option DecodeState → Option (List ℕ)
or_break dst next none = some dst
or_break dst next (some st) = next st

-- `for nbits > 0 { ... }`. The first argument is fuel.
unfoldable pub tail_loop : ℕ → DecodeState → Option (List ℕ)
tail_loop zero st = none
tail_loop (suc rounds) st =
    if ltb 0 st.nbits
    then and_then (tail_step (st.n (st.cur * 2 ^ (8 - st.nbits) % 2 ^ 8)) st)
        (or_break st.dst (tail_loop rounds))
    else some st.dst

unfoldable pub huffman_decode : List ℕ → List ℕ → Option (List ℕ)
unfolding decode_loop tail_loop
huffman_decode dst src =
    and_then (decode_loop (record { dst = dst; n = root_children; cur = 0; nbits = 0 }) src)
      (tail_loop 8)
