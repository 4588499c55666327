-- ===== src/Hpack/Table.antt =====
-- hpack/table.go: the dynamic table, its eviction, and the search of both tables. A method that
-- changes `*headerTable` returns the new table, and `none` stands for a panic: an index that is
-- out of range. The slices are copied in place by the source, which changes no content.
pub mod Eviction
pub mod Search
pub mod Find
use http.Prelude.{ℕ, zero, suc, ◌+◌, ◌-◌, ◌%◌, ◌^◌, Bool, true, false, not, ◌&&◌, ◌||◌, leb, ltb}
use http.Prelude.{◌==◌, if◌then◌else◌, List, [], ◌∷◌, ◌++◌, length, get_elem?, drop, reverse}
use http.Prelude.{Option, none, some, map_get}
use http.Hpack.Static.{HeaderField, field, header_field_size, strcmp, static_table, put_names}
use mathlib.Core.Option

pub record HeaderTable : Type 0 where
  pub entries : List HeaderField
  pub size : ℕ
  pub max_size : ℕ

-- `t.size -= HeaderFieldSize(...)` on uint32.
abbrev pub sub_u32 : ℕ → ℕ → ℕ
sub_u32 a b = (a + 2 ^ 32 - b) % 2 ^ 32

-- `for t.size > t.maxSize { x := t.data[0]; ... }`, the oldest entry first.
unfoldable pub evict : ℕ → ℕ → List HeaderField → Option (List HeaderField × ℕ)
evict max size [] = if ltb max size then none else some ([], size)
evict max size (x ∷ xs) =
    let rest = evict max (sub_u32 size (header_field_size x.name x.value)) xs in
    if ltb max size then rest else some (x ∷ xs, size)

abbrev evicted : HeaderTable → Option (List HeaderField × ℕ) → Option (HeaderTable × Bool)
evicted t none = none
evicted t (some (entries, size)) = some (record t { entries = entries; size = size }, true)

unfoldable pub set_max_size : ℕ → HeaderTable → Option (HeaderTable × Bool)
set_max_size max t =
    if max == t.max_size
    then some (t, false)
    else (if max == 0
        then some (record { entries = []; size = 0; max_size = max }, true)
        else evicted (record t { max_size = max }) (evict max t.size t.entries))

unfoldable pub add : List ℕ → List ℕ → HeaderTable → Option (HeaderTable × Bool)
add name value t =
    let hsize = header_field_size name value in
    if ltb t.max_size hsize
    then some (record t { entries = []; size = 0 }, false)
    else evicted t
        (evict t.max_size ((t.size + hsize) % 2 ^ 32) (t.entries ++ (field name value ∷ [])))

-- Both indices count from 1: the static table, then the dynamic one from its newest entry. `none`
-- is Go's `ok == false`; within the guard both slices are read in range.
unfoldable pub entry : ℕ → HeaderTable → Option HeaderField
entry i t =
    let statics = length static_table in
    if ltb 0 i && leb i (statics + length t.entries)
    then (if leb i statics
        then get_elem? static_table (i - 1)
        else get_elem? t.entries (length t.entries - (i - statics)))
    else none

unfoldable pub static_map : List ℕ → Option ℕ
unfolding put_names
static_map name = map_get name (put_names 1 static_table)

-- The loop of `index` at position `i`, over the entries from `i` on.
unfoldable pub index_loop : List ℕ → List ℕ → ℕ → ℕ → List HeaderField → ℕ × Bool
index_loop name value idx i [] = (idx, false)
index_loop name value idx i (x ∷ xs) =
    let rest = index_loop name value idx (i + 1) xs in
    if strcmp name x.name then (if strcmp value x.value then (i, true) else rest) else (idx, false)

-- The body of `index` behind its map lookup.
unfoldable pub index_from : List ℕ → List ℕ → Option ℕ → ℕ × Bool
unfolding index_loop
index_from name value none = (0, false)
index_from name value (some i) = index_loop name value i i (drop (i - 1) static_table)

-- `index` of the static table.
unfoldable pub index : List ℕ → List ℕ → ℕ × Bool
unfolding index_from static_map
index name value = index_from name value (static_map name)

-- The loop of the method `index`, over the entries from the newest back; `k` is `l - i`. It ends
-- with a comparison that failed, so its second result is then false.
unfoldable pub table_index_loop : List ℕ → List ℕ → ℕ → ℕ → List HeaderField → ℕ × Bool
table_index_loop name value idx k [] = (idx, false)
table_index_loop name value idx k (x ∷ xs) =
    let rest = table_index_loop name value (if idx == 0 then k else idx) (k + 1) xs in
    let skip = table_index_loop name value idx (k + 1) xs in
    if strcmp name x.name then (if strcmp value x.value then (k, true) else rest) else skip

unfoldable pub table_index : List ℕ → List ℕ → HeaderTable → ℕ × Bool
unfolding table_index_loop
table_index name value t = table_index_loop name value 0 1 (reverse t.entries)

-- What `find` makes of the two searches, the static one first.
abbrev pub find_from : ℕ × Bool → ℕ × Bool → ℕ × Bool
find_from (idx, true) q = (idx, true)
find_from (idx, false) (i, matched) =
    if matched || (idx == 0 && not (i == 0))
    then (i + length static_table, matched)
    else (idx, matched)

unfoldable pub find : List ℕ → List ℕ → HeaderTable → ℕ × Bool
find name value t = find_from (index name value) (table_index name value t)
