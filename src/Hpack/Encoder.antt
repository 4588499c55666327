-- ===== src/Hpack/Encoder.antt =====
-- hpack/hpack.go: `Encoder`. A method returns the new encoder; `none` stands for a panic of the
-- header table.
use http.Prelude.{ℕ, ◌-◌, ◌^◌, Bool, true, false, ltb, ◌==◌, if◌then◌else◌}
use http.Prelude.{List, [], Option, none, some}
use http.Hpack.Static.{header_field_size}
use http.Hpack.Table.{HeaderTable, set_max_size, add, index, find}
use http.Hpack.Literal.{
  indexed_true, indexed_false, indexed_never, HuffmanUse, huff_true, enc_literal, enc_indexed,
  enc_dynamic_table_size_update,
}

pub record Encoder : Type 0 where
  pub table : HeaderTable
  pub min_size : ℕ
  pub size_changed : Bool
  pub i : Bool
  pub h : HuffmanUse

abbrev pub max_uint32 : ℕ
max_uint32 = 2 ^ 32 - 1

unfoldable pub new_encoder : ℕ → Encoder
new_encoder max = record {
  table = record { entries = []; size = 0; max_size = max };
  min_size = max_uint32;
  size_changed = false;
  i = true;
  h = huff_true;
}

abbrev pub with_table : Encoder → Option (HeaderTable × Bool) → Option Encoder
with_table enc none = none
with_table enc (some (t, changed)) = some (record enc { table = t })

unfoldable pub set_max_header_table_size : ℕ → Encoder → Option Encoder
set_max_header_table_size max enc =
    let least = if ltb max enc.min_size then max else enc.min_size in
    with_table (record enc { min_size = least; size_changed = true }) (set_max_size max enc.table)

-- The block under `if enc.sizeChanged`.
unfoldable pub announce : Encoder → List ℕ → Encoder × List ℕ
announce enc dst =
    let least =
      if ltb enc.min_size enc.table.max_size
      then enc_dynamic_table_size_update dst enc.min_size
      else dst in
    if enc.size_changed
    then (
      record enc { size_changed = false; min_size = max_uint32 },
      enc_dynamic_table_size_update least enc.table.max_size,
    )
    else (enc, dst)

abbrev pub literal : Encoder → ℕ × List ℕ → Option (Encoder × ℕ × List ℕ)
literal enc (hsize, dst) = some (enc, hsize, dst)

abbrev pub added : Option Encoder → ℕ × List ℕ → Option (Encoder × ℕ × List ℕ)
added none r = none
added (some enc) r = literal enc r

-- The case `enc.table.maxSize == 0`.
abbrev pub static_only :
    Encoder → List ℕ → List ℕ → List ℕ → ℕ × Bool → Option (Encoder × ℕ × List ℕ)
static_only enc dst name value (idx, true) = some (enc, 0, enc_indexed dst idx)
static_only enc dst name value (idx, false) =
    literal enc (enc_literal dst name value indexed_false idx enc.h)

-- The default case.
abbrev pub both_tables :
    Encoder → List ℕ → List ℕ → List ℕ → ℕ × Bool → Option (Encoder × ℕ × List ℕ)
both_tables enc dst name value (idx, true) = some (enc, 0, enc_indexed dst idx)
both_tables enc dst name value (idx, false) =
    if enc.i
    then added (with_table enc (add name value enc.table))
        (enc_literal dst name value indexed_true idx enc.h)
    else literal enc (enc_literal dst name value indexed_false idx enc.h)

-- The `switch`.
unfoldable pub encode_field :
    Encoder → List ℕ → List ℕ → List ℕ → Bool → Option (Encoder × ℕ × List ℕ)
encode_field enc dst name value sensitive =
    if sensitive
    then literal enc (enc_literal dst name value indexed_never 0 enc.h)
    else (if enc.table.max_size == 0
        then static_only enc dst name value (index name value)
        else (if ltb enc.table.max_size (header_field_size name value)
            then literal enc (enc_literal dst name value indexed_false 0 enc.h)
            else both_tables enc dst name value (find name value enc.table)))

-- The size and the bytes.
unfoldable pub encode_header_field :
    Encoder → List ℕ → List ℕ → List ℕ → Bool → Option (Encoder × ℕ × List ℕ)
unfolding announce encode_field
encode_header_field enc dst name value sensitive =
    let (enc', dst') = announce enc dst in encode_field enc' dst' name value sensitive
