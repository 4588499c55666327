-- ===== src/Hpack/Table/Find.antt =====
-- hpack/table.go: `find` against `entry`.
use http.Prelude.{ℕ, zero, suc, ◌+◌, ◌-◌, ◌≤◌, ◌<◌, ◌≡◌, refl, ap, ◌∙◌, ◌≢◌, inl, inr}
use http.Prelude.{Bool, true, false, ◌==◌, if◌then◌else◌}
use http.Prelude.{List, [], ◌∷◌, length, get_elem?, reverse, Option, none, some, arith}
use http.Prelude.{every_from, every_from_lem, str_eq, map_get, dec_lt}
use http.Hpack.Static.{HeaderField, field, strcmp, static_table}
use mathlib.Core.Option
use http.Hpack.Table.{
  HeaderTable, entry, index, static_map, table_index_loop, table_index, find, find_from,
}
use http.Hpack.Table.Search.{
  Found, static_at, dynamic_at, index_from-Found-true, index_from-Found-false, table_index-Found,
  length-static_table, strcmp_iff, get_elem?-reverse,
}

entry_static : (i : ℕ) (t : HeaderTable) → 1 ≤ i → i < 62 → entry i t ≡ static_at i
unfolding entry
entry_static i t lo hi = ground (arith, length-static_table)

entry_dynamic :
    (i : ℕ) (t : HeaderTable) → 1 ≤ i → i < length t.entries + 1 → entry (i + 61) t ≡ dynamic_at t i
unfolding entry
entry_dynamic i t lo hi =
    let e : i + 61 - 61 ≡ i = omega arith in ground (arith, length-static_table)

index-Found-true :
    (name value : List ℕ) (j : ℕ)
    → index name value ≡ (j, true)
    → Found 1 62 static_at name value j true
unfolding index
index-Found-true name value j h = index_from-Found-true name value j (static_map name) refl h

index-Found-false :
    (name value : List ℕ) (j : ℕ)
    → index name value ≡ (j, false)
    → Found 1 62 static_at name value j false
unfolding index
index-Found-false name value j h = index_from-Found-false name value j (static_map name) refl h

find_from-true :
    (name value : List ℕ) (t : HeaderTable) (i : ℕ) (p q : ℕ × Bool)
    → index name value ≡ p
    → table_index name value t ≡ q
    → find_from p q ≡ (i, true)
    → entry i t ≡ some (field name value)
find_from-true name value t i (j, true) q hp hq h =
    let (lo, hi, at) = index-Found-true name value j hp in
    let e : j ≡ i = ground arith in rw e at (entry_static j t lo hi ∙ at)
find_from-true name value t i (j, false) (k, true) hp hq h =
    let (lo, hi, at) = table_index-Found name value t k true hq in
    let e : k + 61 ≡ i = ground (arith, length-static_table) in
    rw e at (entry_dynamic k t lo hi ∙ at)
find_from-true name value t i (j, false) (k, false) hp hq h = ground arith

find_from-false :
    (name value : List ℕ) (t : HeaderTable) (i : ℕ) (p q : ℕ × Bool)
    → index name value ≡ p
    → table_index name value t ≡ q
    → find_from p q ≡ (i, false)
    → i ≢ 0
    → (v : List ℕ) × (entry i t ≡ some (field name v))
find_from-false name value t i (j, true) q hp hq h z = cc
find_from-false name value t i (j, false) (k, true) hp hq h z = cc
find_from-false name value t i (j, false) (k, false) hp hq h z =
    elim (index-Found-false name value j hp) [
      | inl none_static ↦ elim (table_index-Found name value t k false hq) [
        | inl none_dynamic ↦ absurd (ground arith)
        | inr (lo, hi, v, at) ↦
            let e : k + 61 ≡ i = ground (arith, length-static_table) in
            (v, rw e at (entry_dynamic k t lo hi ∙ at))
      ]
      | inr (lo, hi, v, at) ↦
          let e : j ≡ i = ground arith in (v, rw e at (entry_static j t lo hi ∙ at))
    ]

-- When `find` reports a full match at an index, `entry` at that index of the same table is that
-- very field.
pub find-entry :
    (name value : List ℕ) (t : HeaderTable) {i : ℕ}
    → find name value t ≡ (i, true)
    → entry i t ≡ some (field name value)
unfolding find
find-entry name value t {i = i} h =
    find_from-true name value t i (index name value) (table_index name value t) refl refl h

-- When `find` reports an index other than 0 without a full match, `entry` at that index of the same
-- table is a field of that name.
pub find-entry_name :
    (name value : List ℕ) (t : HeaderTable) {i : ℕ}
    → find name value t ≡ (i, false)
    → i ≢ 0
    → (v : List ℕ) × (entry i t ≡ some (field name v))
unfolding find
find-entry_name name value t {i = i} h =
    find_from-false name value t i (index name value) (table_index name value t) refl refl h

table_index_loop_complete :
    (x : HeaderField) (idx k i : ℕ) (xs : List HeaderField)
    → get_elem? xs i ≡ some x
    → (table_index_loop x.name x.value idx k xs).1 ≡ true
unfolding table_index_loop
table_index_loop_complete x idx k i [] h = cc
table_index_loop_complete x idx k zero (y ∷ ys) h = ground (
  arith,
  strcmp_iff x.name y.name,
  strcmp_iff x.value y.value,
  ap (λ (o : Option HeaderField). Option.map (λ f. f.name) o) h,
  ap (λ (o : Option HeaderField). Option.map (λ f. f.value) o) h,
)
table_index_loop_complete x idx k (suc i) (y ∷ ys) h = ground (
  arith,
  table_index_loop_complete x (if idx == 0 then k else idx) (k + 1) i ys h,
  table_index_loop_complete x idx (k + 1) i ys h,
)

-- Each static field is found, by evaluation.
static_found : Option HeaderField → Bool
static_found none = false
static_found (some x) = (index x.name x.value).1

static_table_found : every_from (λ i. static_found (get_elem? static_table i)) 0 61 ≡ true
unfolding every_from static_found index static_table strcmp str_eq map_get
static_table_found = refl

find_from_dynamic : (p q : ℕ × Bool) → q.1 ≡ true → (find_from p q).1 ≡ true
find_from_dynamic (j, true) q h = refl
find_from_dynamic (j, false) (k, true) h = refl
find_from_dynamic (j, false) (k, false) h = cc

find_from_static : (p q : ℕ × Bool) → p.1 ≡ true → (find_from p q).1 ≡ true
find_from_static (j, true) q h = refl
find_from_static (j, false) q h = cc

static_complete :
    (i : ℕ) (x : HeaderField)
    → i < 61
    → get_elem? static_table i ≡ some x
    → (index x.name x.value).1 ≡ true
unfolding static_found
static_complete i x h e = rw e at (
    every_from_lem (λ i. static_found (get_elem? static_table i)) 0 61 i static_table_found
      (omega arith) (omega arith))

-- Every field that `entry` gives for some index is found by `find` with a full match.
pub find_complete :
    (i : ℕ) (t : HeaderTable) (x : HeaderField)
    → entry i t ≡ some x
    → (find x.name x.value t).1 ≡ true
unfolding entry find table_index
find_complete i t x h = elim (dec_lt i 62) [
  | yes p ↦ find_from_static (index x.name x.value) (table_index x.name x.value t) (
      static_complete (i - 1) x (ground (arith, length-static_table))
        (ground (arith, length-static_table)))
  | no p ↦
      let k = length t.entries - (i - 61) in
      let at : get_elem? t.entries k ≡ some x = ground (arith, length-static_table) in
      let short : i ≤ length t.entries + 61 = ground (arith, length-static_table) in
      let flip : length t.entries - (length t.entries - (k + 1) + 1) ≡ k = omega arith in
      find_from_dynamic (index x.name x.value) (table_index x.name x.value t) (
        table_index_loop_complete x 0 1 (length t.entries - (k + 1)) (reverse t.entries) (
          get_elem?-reverse t.entries (length t.entries - (k + 1)) (omega arith)
          ∙ ap (get_elem? t.entries) flip
          ∙ at))
]
