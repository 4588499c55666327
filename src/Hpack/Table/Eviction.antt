-- ===== src/Hpack/Table/Eviction.antt =====
-- hpack/table.go: eviction in `add` and `setMaxSize`.
use http.Prelude.{Bool, ℕ, ◌+◌, ◌^◌, ◌≤◌, ◌<◌, ◌≡◌, refl, not, leb, ◌==◌, if◌then◌else◌}
use http.Prelude.{List, [], ◌∷◌, ◌++◌, length, some, arith}
use http.Hpack.Static.{HeaderField, field, header_field_size}
use http.Hpack.Table.{HeaderTable, evict, set_max_size, add, sub_u32}

abbrev pub field_size : HeaderField → ℕ
field_size x = length x.name + length x.value + 32

abbrev pub total : List HeaderField → ℕ
total [] = 0
total (x ∷ xs) = field_size x + total xs

-- The specification: drop the oldest entries until the rest fits.
abbrev pub fit : ℕ → List HeaderField → List HeaderField
fit max [] = []
fit max (x ∷ xs) = if leb (total (x ∷ xs)) max then x ∷ xs else fit max xs

pub record IsValid (t : HeaderTable) : Type 0 where
  pub sized : t.size ≡ total t.entries
  pub within : t.size ≤ t.max_size
  pub bounded : t.max_size < 2 ^ 31

header_field_size-eq :
    (name value : List ℕ)
    → length name + length value + 32 < 2 ^ 32
    → header_field_size name value ≡ length name + length value + 32
unfolding header_field_size
header_field_size-eq name value h = omega arith

pub total-append : (xs ys : List HeaderField) → total (xs ++ ys) ≡ total xs + total ys
total-append [] ys = omega arith
total-append (x ∷ xs) ys = omega (arith, total-append xs ys)

total-fit-le : (max : ℕ) (xs : List HeaderField) → total (fit max xs) ≤ max
total-fit-le max [] = omega arith
total-fit-le max (x ∷ xs) = ground (arith, total-fit-le max xs)

-- The loop never reads an empty slice, and keeps the longest tail of the entries that fits.
evict-fit :
    (max size : ℕ) (xs : List HeaderField)
    → size ≡ total xs
    → total xs < 2 ^ 32
    → evict max size xs ≡ some (fit max xs, total (fit max xs))
unfolding evict
evict-fit max size [] h b = ground arith
evict-fit max size (x ∷ xs) h b = ground (
  arith,
  header_field_size-eq x.name x.value,
  evict-fit max (sub_u32 size (header_field_size x.name x.value)) xs,
)

fit-nil :
    (max : ℕ) (xs : List HeaderField) (x : HeaderField)
    → max < field_size x
    → fit max (xs ++ (x ∷ [])) ≡ []
fit-nil max [] x h = ground arith
fit-nil max (y ∷ ys) x h = ground (arith, fit-nil max ys x, total-append ys (x ∷ []))

fit_all : (max : ℕ) (xs : List HeaderField) → total xs ≤ max → fit max xs ≡ xs
fit_all max [] h = refl
fit_all max (x ∷ xs) h = ground arith

-- The table of bound `max` that the specification asks for.
abbrev pub fitted : ℕ → List HeaderField → HeaderTable
fitted max xs = record { entries = fit max xs; size = total (fit max xs); max_size = max }

-- Whatever the entries, such a table is valid.
pub fitted-IsValid : (max : ℕ) (xs : List HeaderField) → max < 2 ^ 31 → IsValid (fitted max xs)
fitted-IsValid max xs h = record { sized = refl; within = total-fit-le max xs; bounded = h }

-- On a valid table and a field whose size fits 32 bits, `add` does not panic. The table it leaves
-- holds the longest tail of the old entries and the new field, newest last, whose size is within
-- the bound, with its size and bound recorded; the Boolean it returns is true exactly when the
-- field alone fits the bound.
pub add-fit :
    (name value : List ℕ) (t : HeaderTable)
    → IsValid t
    → length name + length value + 32 < 2 ^ 32
    → add name value t
      ≡ some (
        fitted t.max_size (t.entries ++ (field name value ∷ [])),
        leb (length name + length value + 32) t.max_size,
      )
unfolding add
add-fit name value t v h =
    let new : List HeaderField = field name value ∷ [] in
    ground (
      arith,
      header_field_size-eq name value,
      fit-nil t.max_size t.entries (field name value),
      total-append t.entries new,
      evict-fit t.max_size (t.size + header_field_size name value) (t.entries ++ new),
    )

-- On a valid table `setMaxSize` does not panic, for every bound. The table it leaves holds the
-- longest tail of the entries whose size is within the new bound, with its size and the new bound
-- recorded; the Boolean says whether the bound changed.
pub set_max_size-fit :
    (max : ℕ) (t : HeaderTable)
    → IsValid t
    → set_max_size max t ≡ some (fitted max t.entries, not (max == t.max_size))
unfolding set_max_size
set_max_size-fit max t v =
    ground
      (arith, evict-fit max t.size t.entries, fit_all max t.entries, total-fit-le max t.entries)

-- On a valid table and a field whose size fits 32 bits, `add` returns a valid table and a Boolean:
-- its size is that of its entries and within its bound.
pub add-IsValid :
    (name value : List ℕ) (t : HeaderTable)
    → IsValid t
    → length name + length value + 32 < 2 ^ 32
    → (t' : HeaderTable) × (kept : Bool) × (add name value t ≡ some (t', kept)) × IsValid t'
add-IsValid name value t v h = (
  fitted t.max_size (t.entries ++ (field name value ∷ [])),
  leb (length name + length value + 32) t.max_size,
  add-fit name value t v h,
  fitted-IsValid t.max_size (t.entries ++ (field name value ∷ [])) v.bounded,
)
