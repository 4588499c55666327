-- ===== src/Hpack/Decoder.antt =====
-- hpack/hpack.go: `Decoder` and `decoderState`. `state.data` is an argument and a result of the
-- functions that read it. A handler changes a state of its own, and may return an error. `none`
-- stands for a panic of the header table or of the Huffman code, and for a loop without a round left.
use http.Prelude.{ℕ, ◌+◌, ◌%◌, ◌^◌, Bool, true, false, ltb}
use http.Prelude.{if◌then◌else◌, List, [], length, Option, none, some}
use http.Hpack.Error.{DecodeError, truncated, bad_index_value}
use http.Hpack.Outcome.{Outcome, gives, ◌>>=◌, of_result, or_fail}
use http.Hpack.Static.{header_entry_overhead}
use http.Hpack.Table.{HeaderTable, set_max_size, entry}
use http.Hpack.Integer.{dec_integer}
use http.Hpack.Literal.{
  IndexType, indexed_true, indexed_false, indexed_never, literal_prefix, dec_string_literal,
}

pub record Decoder : Type 0 where
  pub table : HeaderTable
  pub max_size : ℕ
  pub max_size_limit : ℕ
  pub size_changed : Bool
  pub n : ℕ
  pub error : Option DecodeError
  pub b : List ℕ
  pub st : Bool

unfoldable pub new_decoder : ℕ → Decoder
new_decoder max = record {
  table = record { entries = []; size = 0; max_size = max };
  max_size = max;
  max_size_limit = max;
  size_changed = false;
  n = 0;
  error = none;
  b = [];
  st = false;
}

abbrev pub with_table : Decoder → Option (HeaderTable × Bool) → Option Decoder
with_table dec none = none
with_table dec (some (t, changed)) = some (record dec { table = t })

unfoldable pub set_max_header_table_size : ℕ → Decoder → Option Decoder
set_max_header_table_size max dec =
    if ltb max dec.max_size_limit
    then with_table (record dec { max_size = max; size_changed = true })
        (set_max_size max dec.table)
    else some (record dec { max_size = max })

abbrev some_if : Bool → DecodeError → Option DecodeError
some_if true e = some e
some_if false e = none

unfoldable pub reset : Decoder → Decoder × Option DecodeError
reset dec = (
  record dec { error = none; st = false; n = 0; b = [] },
  some_if (ltb 0 (length dec.b)) truncated,
)

-- A literal as it was read, with its size and the bytes behind it.
pub record Literal : Type 0 where
  pub name : List ℕ
  pub value : List ℕ
  pub hsize : ℕ
  pub rest : List ℕ

-- The name, by its index or as a string, and what it adds to the size.
unfoldable pub dec_name : HeaderTable → ℕ → List ℕ → Outcome (List ℕ × ℕ × List ℕ)
dec_name t idx input =
    let indexed = or_fail bad_index_value (entry idx t) >>= λ hf. gives (hf.name, 0, input) in
    let named = dec_string_literal input >>= λ r. gives (r.0, length r.0 % 2 ^ 32, r.1) in
    if ltb 0 idx then indexed else named

unfoldable pub read_literal : HeaderTable → IndexType → List ℕ → Outcome Literal
unfolding dec_name
read_literal t idx_type input = do
  (idx, rest) ← of_result (dec_integer (literal_prefix idx_type) input)
  (name, size, rest') ← dec_name t idx rest
  (value, rest'') ← dec_string_literal rest'
  let hsize = (size + (length value + header_entry_overhead) % 2 ^ 32) % 2 ^ 32
  gives (record { name = name; value = value; hsize = hsize; rest = rest'' })

abbrev pub is_true : IndexType → Bool
is_true indexed_true = true
is_true indexed_false = false
is_true indexed_never = false

abbrev pub is_never : IndexType → Bool
is_never indexed_true = false
is_never indexed_false = false
is_never indexed_never = true
