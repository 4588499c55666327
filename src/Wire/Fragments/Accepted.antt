-- ===== src/Wire/Fragments/Accepted.antt =====
-- read.go and util.go: the fields of a header map that was sent, as `Header.add` takes them.
use http.Prelude.{ℕ, ◌+◌, ◌≤◌, ◌≡◌, refl, ap, ◌∙◌, arith, All, true, false}
use http.Prelude.{ltb, if◌then◌else◌, inl, inr, codes, str_eq, str_eq_iff}
use http.Prelude.{List, [], ◌∷◌, length, Option, none, some}
use http.Frame.Frames.{Header}
use http.Headers.{
  header_len, is_pseudo, valid_bytes, valid_header_key, append_value, added, starts_pseudo,
  add_header,
}
use http.Headers.Laws.{header_len-append_value}
use http.Headers.Keys.{canonical_key, to_lower}
use http.Headers.Canonical.{canonical_key_lem}
use http.Hpack.Sync.Blocks.{SentField, Accepts}
use http.Wire.Block.{values_at}
use http.Wire.Block.Keys.{then_fields, regular_fields, MaySend}
use http.Wire.Block.Whole.{times, IsOrder, then_field, then_pseudo}
use http.Wire.Fragments.{add_field, taken}

-- The map with the fields added in their order.
abbrev pub added_all : Header → List SentField → Header
added_all h [] = h
added_all h (f ∷ fs) = added_all (append_value f.name f.value h) fs

-- A key that `Header.add` takes behind the pseudo-header fields.
abbrev IsRegular : List ℕ → Type 0
IsRegular key = (valid_header_key key ≡ true) × (starts_pseudo key ≡ false)

is_pseudo-valid : (key : List ℕ) → is_pseudo key ≡ true → valid_header_key key ≡ true
unfolding is_pseudo valid_header_key valid_bytes
is_pseudo-valid key h = ground (
  arith,
  str_eq_iff key (codes ":method"),
  str_eq_iff key (codes ":scheme"),
  str_eq_iff key (codes ":authority"),
  str_eq_iff key (codes ":path"),
  str_eq_iff key (codes ":status"),
)

add_header-regular :
    (key value : List ℕ) (h : Header)
    → IsRegular key
    → add_header key value h ≡ added (append_value key value h)
unfolding add_header valid_header_key
add_header-regular [] value h (valid, plain) = absurd (cc)
add_header-regular (c ∷ key) value h (valid, plain) = rw (plain, valid) refl

add_header-pseudo :
    (key value : List ℕ) (h : Header)
    → is_pseudo key ≡ true
    → valid_header_key key ≡ true
    → header_len h ≤ 5
    → add_header key value h ≡ added (append_value key value h)
unfolding add_header valid_header_key
add_header-pseudo [] value h pseudo valid few = absurd (cc)
add_header-pseudo (c ∷ key) value h pseudo valid few =
    let few' : ltb 5 (header_len h) ≡ false = ground arith in rw (few', pseudo, valid) (grind arith)

-- The handler takes the fields, and ends with the map that holds them.
abbrev pub Taken : Header → List SentField → Type 0
Taken h fs = Accepts add_field (some h) fs (some (added_all h fs))

then_fields-Taken :
    (key : List ℕ) (values : List (List ℕ)) (fs : List SentField)
    → IsRegular key
    → ((h : Header) → Taken h fs)
    → (h : Header) → Taken h (then_fields key values fs)
then_fields-Taken key [] fs regular next h = next h
then_fields-Taken key (v ∷ values) fs regular next h =
    let h' = append_value key v h in
    (
      some h',
      ap (taken h) (add_header-regular key v h regular),
      then_fields-Taken key values fs regular next h',
    )

pub canonical_valid :
    (unicode : List ℕ → List ℕ) (key : List ℕ)
    → valid_header_key key ≡ true
    → canonical_key unicode key ≡ key
canonical_valid unicode key valid =
    canonical_key_lem unicode key ∙ ap (λ c. if c then key else to_lower unicode key) valid

regular_fields-Taken :
    (unicode : List ℕ → List ℕ) (m : Header)
    → All MaySend m
    → All (λ e. valid_header_key e.0 ≡ true) m
    → (h : Header) → Taken h (regular_fields unicode m)
regular_fields-Taken unicode [] may valid h = refl
regular_fields-Taken unicode ((key, values) ∷ m) (inl pseudo, may) (v, valid) h =
    rw pseudo (regular_fields-Taken unicode m may valid h)
regular_fields-Taken unicode ((key, values) ∷ m) (inr (regular, named, some_value), may) (v, valid)
      h =
    rw (regular, canonical_valid unicode key v)
      (then_fields-Taken key values (regular_fields unicode m) (v, ground arith)
        (regular_fields-Taken unicode m may valid) h)

-- At most one field of each key of `pseudoHeader` is added, to a map with room for them.
then_field-Taken :
    (key : List ℕ) (o : Option (List (List ℕ))) (fs : List SentField) (n : ℕ) (h : Header)
    → is_pseudo key ≡ true
    → header_len h + (n + 1) ≤ 6
    → ((h' : Header) → header_len h' + n ≤ 6 → Taken h' fs)
    → Taken h (then_field key o fs)
then_field-Taken key none fs n h pseudo few next = next h (omega (arith, few))
then_field-Taken key (some []) fs n h pseudo few next = next h (omega (arith, few))
then_field-Taken key (some (v ∷ values)) fs n h pseudo few next =
    let h' = append_value key v h in
    (
      some h',
      ap (taken h)
          (add_header-pseudo key v h pseudo (is_pseudo-valid key pseudo) (omega (arith, few))),
      next h' (omega (arith, few, header_len-append_value key v h)),
    )

then_pseudo-Taken :
    (m : Header) (keys : List (List ℕ)) (fs : List SentField) (h : Header)
    → All (λ key. is_pseudo key ≡ true) keys
    → header_len h + length keys ≤ 6
    → ((h' : Header) → Taken h' fs)
    → Taken h (then_pseudo m keys fs)
then_pseudo-Taken m [] fs h pseudo few next = next h
then_pseudo-Taken m (key ∷ keys) fs h (first, pseudo) few next =
    then_field-Taken key (values_at key m) (then_pseudo m keys fs) (length keys) h first
      (omega (arith, few)) (λ h' few'. then_pseudo-Taken m keys fs h' pseudo few' next)

str_eq_sym : (a b : List ℕ) → str_eq a b ≡ str_eq b a
str_eq_sym a b = ground (arith, str_eq_iff a b, str_eq_iff b a)

order_keys :
    (pseudo keys : List (List ℕ))
    → IsOrder pseudo
    → ((key : List ℕ) → times key keys ≤ times key pseudo)
    → All (λ key. is_pseudo key ≡ true) keys
order_keys pseudo [] order within = tt
order_keys pseudo (key ∷ keys) order within =
    let self : str_eq key key ≡ true = (str_eq_iff key key).1 refl in
    (
      ground (arith, order key, within key, self),
      order_keys pseudo keys order (λ k. ground (arith, within k)),
    )

-- A list of keys of `pseudoHeader` is no longer than these are often in it.
length_pseudo :
    (keys : List (List ℕ))
    → All (λ key. is_pseudo key ≡ true) keys
    → length keys
      ≤ times (codes ":method") keys
        + times (codes ":scheme") keys
        + times (codes ":authority") keys
        + times (codes ":path") keys
        + times (codes ":status") keys
unfolding is_pseudo
length_pseudo [] all = omega arith
length_pseudo (key ∷ keys) (pseudo, all) = ground (
  arith,
  length_pseudo keys all,
  str_eq_sym key (codes ":method"),
  str_eq_sym key (codes ":scheme"),
  str_eq_sym key (codes ":authority"),
  str_eq_sym key (codes ":path"),
  str_eq_sym key (codes ":status"),
)

order_short : (pseudo : List (List ℕ)) → IsOrder pseudo → length pseudo ≤ 5
order_short pseudo order = omega (
  arith,
  length_pseudo pseudo (order_keys pseudo pseudo order (λ key. omega arith)),
  once (codes ":method"),
  once (codes ":scheme"),
  once (codes ":authority"),
  once (codes ":path"),
  once (codes ":status"),
)
  where
    once : (key : List ℕ) → times key pseudo ≤ 1
    once key = ground (arith, order key)

pub block_fields-Taken :
    (unicode : List ℕ → List ℕ) (pseudo : List (List ℕ)) (m : Header)
    → IsOrder pseudo
    → All MaySend m
    → All (λ e. valid_header_key e.0 ≡ true) m
    → Taken [] (then_pseudo m pseudo (regular_fields unicode m))
unfolding header_len
block_fields-Taken unicode pseudo m order may valid =
    then_pseudo-Taken m pseudo (regular_fields unicode m) []
      (order_keys pseudo pseudo order (λ key. omega arith))
      (omega (arith, order_short pseudo order)) (regular_fields-Taken unicode m may valid)
