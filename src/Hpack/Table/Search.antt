-- ===== src/Hpack/Table/Search.antt =====
-- hpack/table.go: the search of the static and the dynamic table against `entry`.
use http.Prelude.{ℕ, zero, suc, ◌+◌, ◌-◌, ◌≤◌, ◌<◌, ◌≡◌, refl, ap, sym, ◌∙◌, ◌↔◌, ◌⊎◌, inl, inr}
use http.Prelude.{Bool, true, false, ◌==◌, if◌then◌else◌, Bool-cases}
use http.Prelude.{
  List, [], ◌∷◌, ◌++◌, length, length-drop, length-append, get_elem?-append_left, get_elem?, drop,
  reverse, Option, none, some, dec_lt, arith,
}
use http.Prelude.{bit_or, bit_xor, str_eq, str_eq_iff, map_get}
use http.Prelude.Bits.{bit_or_zero_iff, bit_xor_zero_iff}
use mathlib.Core.List.{reverse-append}
use http.Hpack.Static.{HeaderField, field, strcmp_loop, strcmp, static_table, put_names}
use http.Hpack.Table.{
  HeaderTable, static_map, index_loop, index_from, table_index_loop, table_index,
}

strcmp_loop_iff :
    (c : ℕ) (a b : List ℕ) → length a ≡ length b → (strcmp_loop c a b ≡ 0) ↔ ((c ≡ 0) × (a ≡ b))
unfolding strcmp_loop
strcmp_loop_iff c [] [] h = ground arith
strcmp_loop_iff c [] (y ∷ b) h = absurd (omega arith)
strcmp_loop_iff c (x ∷ a) [] h = absurd (omega arith)
strcmp_loop_iff c (x ∷ a) (y ∷ b) h = ground (
  arith,
  strcmp_loop_iff (bit_or c (bit_xor x y)) a b (omega arith),
  bit_or_zero_iff c (bit_xor x y),
  bit_xor_zero_iff x y,
)

-- The comparison that reads every byte decides equality.
pub strcmp_iff : (a b : List ℕ) → (strcmp a b ≡ true) ↔ (a ≡ b)
unfolding strcmp
strcmp_iff a b = ground (arith, strcmp_loop_iff 0 a b)

pub get_elem?-drop {ℓ} :
    {A : Type ℓ} (n k : ℕ) (xs : List A) → get_elem? (drop n xs) k ≡ get_elem? xs (n + k)
get_elem?-drop zero k xs = ap (get_elem? xs) (omega arith)
get_elem?-drop (suc n) k [] = refl
get_elem?-drop (suc n) k (x ∷ xs) =
    let e : suc n + k ≡ suc (n + k) = omega arith in rw e (get_elem?-drop n k xs)

get_elem?-cons {ℓ} :
    {A : Type ℓ} (i j : ℕ) (x : A) (xs : List A)
    → i < j
    → get_elem? (x ∷ xs) (j - i) ≡ get_elem? xs (j - (i + 1))
get_elem?-cons i j x xs h = let e : j - i ≡ suc (j - (i + 1)) = omega arith in rw e

get_elem?-cons_zero {ℓ} :
    {A : Type ℓ} (i : ℕ) (x : A) (xs : List A) → get_elem? (x ∷ xs) (i - i) ≡ some x
get_elem?-cons_zero i x xs = let e : i - i ≡ 0 = omega arith in rw e

static_map_sound :
    (name : List ℕ) (i : ℕ) {k : ℕ} (xs : List HeaderField)
    → map_get name (put_names i xs) ≡ some k
    → (i ≤ k)
      × (k < i + length xs)
      × (x : HeaderField) × (get_elem? xs (k - i) ≡ some x)
      × (x.name ≡ name)
unfolding put_names map_get
static_map_sound name i [] h = cc
static_map_sound name i {k = k} (x ∷ xs) h = elim (Bool-cases (str_eq name x.name)) [
  | inl e ↦ (
    ground arith,
    ground arith,
    x,
    ground (arith, get_elem?-cons_zero i x xs),
    sym ((str_eq_iff name x.name).0 e),
  )
  | inr e ↦
      let (lo, hi, y, at, same) = static_map_sound name (i + 1) {k = k} xs (ground arith) in
      (omega arith, omega arith, y, ground (arith, get_elem?-cons i k x xs), same)
]

index_loop_sound :
    (name value : List ℕ) (idx i j : ℕ) (xs : List HeaderField)
    → index_loop name value idx i xs ≡ (j, true)
    → (i ≤ j) × (j < i + length xs) × (get_elem? xs (j - i) ≡ some (field name value))
unfolding index_loop
index_loop_sound name value idx i j [] h = cc
index_loop_sound name value idx i j (x ∷ xs) h = ground (
  arith,
  index_loop_sound name value idx (i + 1) j xs,
  get_elem?-cons i j x xs,
  get_elem?-cons_zero i x xs,
  strcmp_iff name x.name,
  strcmp_iff value x.value,
)

index_loop-false :
    (name value : List ℕ) (idx i j : ℕ) (xs : List HeaderField)
    → index_loop name value idx i xs ≡ (j, false)
    → j ≡ idx
unfolding index_loop
index_loop-false name value idx i j [] h = ground arith
index_loop-false name value idx i j (x ∷ xs) h =
    ground (arith, index_loop-false name value idx (i + 1) j xs)

pub length-static_table : length static_table ≡ 61
unfolding static_table
length-static_table = refl

-- The entry at index `i` of the static table, counted from 1.
abbrev pub static_at : ℕ → Option HeaderField
static_at i = get_elem? static_table (i - 1)

-- Where the method found a name, and the value with it if `matched` is true.
abbrev pub Found : ℕ → ℕ → (ℕ → Option HeaderField) → List ℕ → List ℕ → ℕ → Bool → Type 0
Found lo hi at name value j true = (lo ≤ j) × (j < hi) × (at j ≡ some (field name value))
Found lo hi at name value j false =
    (j ≡ 0) ⊎ ((lo ≤ j) × (j < hi) × (v : List ℕ) × (at j ≡ some (field name v)))

pub index_from-Found-true :
    (name value : List ℕ) (j : ℕ) (o : Option ℕ)
    → static_map name ≡ o
    → index_from name value o ≡ (j, true)
    → Found 1 62 static_at name value j true
unfolding index_from
index_from-Found-true name value j none e h = cc
index_from-Found-true name value j (some i) e h =
    let (lo, hi, x, at, same) =
      static_map_sound name 1 {k = i} static_table (unfold static_map in e) in
    let (le, lt, eq) = index_loop_sound name value i i j (drop (i - 1) static_table) h in
    (
      omega arith,
      omega (arith, length-static_table, length-drop (i - 1) static_table),
      ground (arith, get_elem?-drop (i - 1) (j - i) static_table),
    )

pub index_from-Found-false :
    (name value : List ℕ) (j : ℕ) (o : Option ℕ)
    → static_map name ≡ o
    → index_from name value o ≡ (j, false)
    → Found 1 62 static_at name value j false
unfolding index_from
index_from-Found-false name value j none e h = inl (ground arith)
index_from-Found-false name value j (some i) e h =
    let (lo, hi, x, at, same) =
      static_map_sound name 1 {k = i} static_table (unfold static_map in e) in
    let eq : j ≡ i = index_loop-false name value i i j (drop (i - 1) static_table) h in
    inr (omega arith, omega (arith, length-static_table), x.value, rw eq (ground arith))

table_index_loop-true :
    (name value : List ℕ) (idx k j : ℕ) (xs : List HeaderField)
    → table_index_loop name value idx k xs ≡ (j, true)
    → (k ≤ j) × (j < k + length xs) × (get_elem? xs (j - k) ≡ some (field name value))
unfolding table_index_loop
table_index_loop-true name value idx k j [] h = cc
table_index_loop-true name value idx k j (x ∷ xs) h = ground (
  arith,
  table_index_loop-true name value (if idx == 0 then k else idx) (k + 1) j xs,
  table_index_loop-true name value idx (k + 1) j xs,
  get_elem?-cons k j x xs,
  get_elem?-cons_zero k x xs,
  strcmp_iff name x.name,
  strcmp_iff value x.value,
)

-- Where the loop without a full match ends: at the first entry of that name, if there is one.
abbrev NamedAt : List ℕ → ℕ → ℕ → List HeaderField → Type 0
NamedAt name k j xs =
    (k ≤ j) × (j < k + length xs) × (v : List ℕ) × (get_elem? xs (j - k) ≡ some (field name v))

NamedAt-later :
    (name : List ℕ) (k j : ℕ) (x : HeaderField) (xs : List HeaderField)
    → NamedAt name (k + 1) j xs
    → NamedAt name k j (x ∷ xs)
NamedAt-later name k j x xs (lo, hi, v, at) =
    (omega arith, omega arith, v, ground (arith, get_elem?-cons k j x xs))

table_index_loop-false :
    (name value : List ℕ) (idx k j : ℕ) (xs : List HeaderField)
    → table_index_loop name value idx k xs ≡ (j, false)
    → (j ≡ idx) ⊎ NamedAt name k j xs
unfolding table_index_loop
table_index_loop-false name value idx k j [] h = inl (ground arith)
table_index_loop-false name value idx k j (x ∷ xs) h = elim (Bool-cases (strcmp name x.name)) [
  | inl e ↦
      elim (table_index_loop-false name value (if idx == 0 then k else idx) (k + 1) j xs
        (ground arith)) [
          | inl here ↦ elim (Bool-cases (idx == 0)) [
            | inl fresh ↦ inr (at_head (strcmp_iff name x.name) e (ground arith))
            | inr old ↦ inl (ground arith)
          ]
          | inr n ↦ inr (NamedAt-later name k j x xs n)
        ]
  | inr e ↦ later (table_index_loop-false name value idx (k + 1) j xs (ground arith))
]
  where
    later : (j ≡ idx) ⊎ NamedAt name (k + 1) j xs → (j ≡ idx) ⊎ NamedAt name k j (x ∷ xs)
    later (inl e) = inl e
    later (inr n) = inr (NamedAt-later name k j x xs n)

    at_head :
        ((strcmp name x.name ≡ true) ↔ (name ≡ x.name))
        → strcmp name x.name ≡ true
        → j ≡ k
        → NamedAt name k j (x ∷ xs)
    at_head iff e h =
        (omega arith, omega arith, x.value, rw h (ground (arith, get_elem?-cons_zero k x xs)))

reverse-cons {ℓ} : {A : Type ℓ} (x : A) (xs : List A) → reverse (x ∷ xs) ≡ reverse xs ++ (x ∷ [])
reverse-cons x xs = reverse-append (x ∷ []) xs

pub length-reverse {ℓ} : {A : Type ℓ} (xs : List A) → length (reverse xs) ≡ length xs
length-reverse [] = refl
length-reverse (x ∷ xs) =
    rw reverse-cons (omega (arith, length-append (reverse xs) (x ∷ []), length-reverse xs))

get_elem?-append_last {ℓ} :
    {A : Type ℓ} (xs : List A) (x : A) → get_elem? (xs ++ (x ∷ [])) (length xs) ≡ some x
get_elem?-append_last [] x = refl
get_elem?-append_last (y ∷ xs) x = get_elem?-append_last xs x

pub get_elem?-reverse {ℓ} :
    {A : Type ℓ} (xs : List A) (i : ℕ)
    → i < length xs
    → get_elem? (reverse xs) i ≡ get_elem? xs (length xs - (i + 1))
get_elem?-reverse [] i h = absurd (omega arith)
get_elem?-reverse (x ∷ xs) i h = rw reverse-cons (elim (dec_lt i (length xs)) [
  | yes p ↦
      let e : suc (length xs) - (i + 1) ≡ suc (length xs - (i + 1)) = omega arith in
      rw (e, get_elem?-append_left (reverse xs) (x ∷ []) i (omega (arith, length-reverse xs)))
        (get_elem?-reverse xs i p)
  | no p ↦
      let last : i ≡ length (reverse xs) = omega (arith, length-reverse xs) in
      let e : suc (length xs) - (i + 1) ≡ 0 = omega (arith, length-reverse xs) in
      rw (e, last) (get_elem?-append_last (reverse xs) x)
])

-- The dynamic entry number `i`, counted from 1 for the newest.
abbrev pub dynamic_at : HeaderTable → ℕ → Option HeaderField
dynamic_at t i = get_elem? t.entries (length t.entries - i)

newest_first :
    (t : HeaderTable) (j : ℕ)
    → 1 ≤ j
    → j < 1 + length (reverse t.entries)
    → get_elem? (reverse t.entries) (j - 1) ≡ dynamic_at t j
newest_first t j lo hi =
    let e : j - 1 + 1 ≡ j = omega arith in
    get_elem?-reverse t.entries (j - 1) (omega (arith, length-reverse t.entries))
    ∙ ap (λ (i : ℕ). dynamic_at t i) e

pub table_index-Found :
    (name value : List ℕ) (t : HeaderTable) (j : ℕ) (m : Bool)
    → table_index name value t ≡ (j, m)
    → Found 1 (length t.entries + 1) (dynamic_at t) name value j m
unfolding table_index
table_index-Found name value t j true h =
    let (lo, hi, at) = table_index_loop-true name value 0 1 j (reverse t.entries) h in
    (lo, omega (arith, length-reverse t.entries), sym (newest_first t j lo hi) ∙ at)
table_index-Found name value t j false h =
    elim (table_index_loop-false name value 0 1 j (reverse t.entries) h) [
      | inl e ↦ inl e
      | inr (lo, hi, v, at) ↦
          inr (lo, omega (arith, length-reverse t.entries), v, sym (newest_first t j lo hi) ∙ at)
    ]
