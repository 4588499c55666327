-- ===== src/Tests/Hpack.antt =====
-- hpack/table.go and hpack/hpack.go at concrete inputs.
use http.Prelude.{ℕ, ◌+◌, ◌*◌, ◌^◌, ◌<◌, ◌≤◌, ◌≡◌, refl, Bool, true, false, not, arith, ◌==◌, leb}
use http.Prelude.{List, [], ◌∷◌, ◌++◌, length, Option, none, some}
use http.Prelude.Results.{ok, err}
use http.Hpack.Error.{needs_more, integer_overflow}
use http.Hpack.Static.{field, strcmp, static_table, put_names}
use http.Hpack.Table.{
  HeaderTable, add, set_max_size, entry, find, index, index_from, static_map, index_loop,
  table_index, table_index_loop,
}
use http.Hpack.Table.Eviction.{IsValid, fitted, add-fit, set_max_size-fit}
use http.Hpack.Table.Find.{find-entry, find_complete}
use http.Hpack.Codes.{ascii_codes, other_codes}
use http.Hpack.Huffman.{
  huffman_code, or_last, put_loop, put_byte, encode_loop, huffman_encode, huffman_encoded_len,
}
use http.Hpack.Huffman.Length.{length-huffman_encode}
use http.Hpack.Tree.{root_children}
use http.Hpack.Huffman.Decode.{huffman_decode}
use http.Hpack.Huffman.Walk.{walk, IsSome}
use http.Hpack.Huffman.Machine.{byte_bits}
use http.Hpack.Huffman.Finish.{huffman_decode-walk, huffman_decode-IsSome}
use http.Hpack.Huffman.RoundTrip.{huffman_decode-huffman_encode}
use http.Hpack.Outcome.{gives}
use http.Hpack.Literal.{huff_true, enc_string_literal, dec_string_literal}
use http.Hpack.Literal.RoundTrip.{IsString, dec_string_literal-enc_string_literal}
use http.Hpack.Encoder.{Encoder, max_uint32}
use http.Hpack.Decoder.{Decoder, read_literal, dec_name}
use http.Hpack.Decode.{decode, checked, fields_loop, decode_field, dec_indexed, dec_literal}
use http.Hpack.Decode.Fragments.{resume, decode-append}
use http.Hpack.Sync.Blocks.{SentField, Ready, collect, encode_fields, decode-encode_fields}
use http.Hpack.Integer.{enc_integer, dec_integer, dec_loop}
use http.Hpack.Integer.RoundTrip.{encoding, groups, dec_integer-enc_integer}
use http.Hpack.Integer.Input.{dec_integer_bounds, dec_integer_truncated}

-- `a` and `bc`, a field of 35 bytes.
abbrev name_a : List ℕ
name_a = 97 ∷ []

abbrev value_bc : List ℕ
value_bc = 98 ∷ 99 ∷ []

-- A table with room for two such fields, which holds one.
abbrev one_field : HeaderTable
one_field = record { entries = field name_a value_bc ∷ []; size = 35; max_size = 75 }

one_field-IsValid : IsValid one_field
one_field-IsValid = record { sized = refl; within = omega arith; bounded = omega arith }

-- The second field has 41 bytes, and takes the place of the first.
abbrev value_long : List ℕ
value_long = 1 ∷ 2 ∷ 3 ∷ 4 ∷ 5 ∷ 6 ∷ 7 ∷ 8 ∷ []

add-fit_example :
    add name_a value_long one_field
    ≡ some (fitted 75 (field name_a value_bc ∷ field name_a value_long ∷ []), true)
add-fit_example = add-fit name_a value_long one_field one_field-IsValid (omega arith)

set_max_size-fit_example :
    set_max_size 34 one_field ≡ some (fitted 34 (field name_a value_bc ∷ []), not (34 == 75))
set_max_size-fit_example = set_max_size-fit 34 one_field one_field-IsValid

found : find name_a value_bc one_field ≡ (62, true)
unfolding find index index_from static_map index_loop table_index table_index_loop strcmp
    static_table put_names http.Prelude.map_get http.Prelude.str_eq
found = refl

find-entry_example : entry 62 one_field ≡ some (field name_a value_bc)
find-entry_example = find-entry name_a value_bc one_field found

found_name : find name_a value_long one_field ≡ (62, false)
unfolding find index index_from static_map index_loop table_index table_index_loop strcmp
    static_table put_names http.Prelude.map_get http.Prelude.str_eq
found_name = refl

at_62 : entry 62 one_field ≡ some (field name_a value_bc)
unfolding entry static_table
at_62 = refl

find_complete_example : (find name_a value_bc one_field).1 ≡ true
find_complete_example = find_complete 62 one_field (field name_a value_bc) at_62

-- 1337 behind the flags of an indexed field, with a prefix of 5 bits.
dec_integer-enc_integer_example :
    (code : List ℕ) × (enc_integer (1 ∷ []) (4 * 2 ^ 5) 5 1337 ≡ (1 ∷ []) ++ code)
    × (dec_integer 5 (code ++ (7 ∷ [])) ≡ ok (1337, 7 ∷ []))
dec_integer-enc_integer_example =
    dec_integer-enc_integer (1 ∷ []) (7 ∷ []) 4 5 1337 (omega arith) (omega arith)

read_1337 : dec_integer 5 (31 ∷ 154 ∷ 10 ∷ []) ≡ ok (1337, [])
unfolding dec_integer dec_loop
read_1337 = refl

dec_integer_bounds_example :
    (1337 < 2 ^ 63 + 2 ^ 5)
    × (length {A = ℕ} [] < length {A = ℕ} (31 ∷ 154 ∷ 10 ∷ []))
    × (length {A = ℕ} (31 ∷ 154 ∷ 10 ∷ []) ≤ length {A = ℕ} [] + 10)
dec_integer_bounds_example =
    dec_integer_bounds 5 (31 ∷ 154 ∷ 10 ∷ []) 1337 [] (omega arith) read_1337

-- Ten continuation bytes.
abbrev too_long : List ℕ
too_long = 31 ∷ 128 ∷ 128 ∷ 128 ∷ 128 ∷ 128 ∷ 128 ∷ 128 ∷ 128 ∷ 128 ∷ 128 ∷ []

too_long_err : dec_integer 5 too_long ≡ err integer_overflow
unfolding dec_integer dec_loop
too_long_err = refl

encoding_1337 : encoding 0 5 1337 ≡ (31 ∷ 154 ∷ []) ++ (10 ∷ [])
unfolding encoding groups
encoding_1337 = refl

dec_integer_truncated_example : dec_integer 5 (31 ∷ 154 ∷ []) ≡ err needs_more
dec_integer_truncated_example =
    dec_integer_truncated 0 5 1337 10 (31 ∷ 154 ∷ []) [] (omega arith) (omega arith) encoding_1337

-- "a:" takes five and seven bits, and four of the end of the string.
two_bytes : huffman_encode [] (97 ∷ 58 ∷ []) ≡ 29 ∷ 207 ∷ []
unfolding huffman_encode encode_loop put_byte put_loop or_last huffman_code ascii_codes other_codes
two_bytes = refl

length-huffman_encode_example :
    length {A = ℕ} (huffman_encode (7 ∷ []) (97 ∷ 58 ∷ [])) ≡ 1 + huffman_encoded_len (97 ∷ 58 ∷ [])
length-huffman_encode_example =
    length-huffman_encode (7 ∷ []) (97 ∷ 58 ∷ []) (omega arith, (omega arith, tt)) (omega arith)

-- "a:" with the padding of its code.
huffman_decode-walk_example :
    huffman_decode (7 ∷ []) (29 ∷ 207 ∷ [])
    ≡ walk 0 (7 ∷ []) root_children (byte_bits (29 ∷ 207 ∷ []))
huffman_decode-walk_example =
    huffman_decode-walk (7 ∷ []) (29 ∷ 207 ∷ []) (omega arith, (omega arith, tt))

huffman_decode-IsSome_example : IsSome (huffman_decode [] (255 ∷ 255 ∷ 255 ∷ 255 ∷ []))
huffman_decode-IsSome_example =
    huffman_decode-IsSome [] (255 ∷ 255 ∷ 255 ∷ 255 ∷ [])
      (omega arith, (omega arith, (omega arith, (omega arith, tt))))

huffman_decode-huffman_encode_example :
    huffman_decode [] (huffman_encode [] (97 ∷ 58 ∷ [])) ≡ some (97 ∷ 58 ∷ [])
huffman_decode-huffman_encode_example =
    huffman_decode-huffman_encode [] (97 ∷ 58 ∷ []) (omega arith, (omega arith, tt))

name_a-IsString : IsString name_a
name_a-IsString = ((omega arith, tt), omega arith)

value_bc-IsString : IsString value_bc
value_bc-IsString = ((omega arith, (omega arith, tt)), omega arith)

dec_string_literal-enc_string_literal_example :
    (code : List ℕ) × ((dst : List ℕ) → enc_string_literal dst value_bc huff_true ≡ dst ++ code)
    × ((rest : List ℕ) → dec_string_literal (code ++ rest) ≡ gives (value_bc, rest))
dec_string_literal-enc_string_literal_example =
    dec_string_literal-enc_string_literal value_bc huff_true value_bc-IsString

-- An encoder and a decoder with room for two fields, and three fields, one of them twice.
abbrev encoder : Encoder
encoder = record {
  table = one_field;
  min_size = max_uint32;
  size_changed = false;
  i = true;
  h = huff_true;
}

abbrev decoder : Decoder
decoder = record {
  table = one_field;
  max_size = 75;
  max_size_limit = 75;
  size_changed = false;
  n = 0;
  error = none;
  b = [];
  st = false;
}

abbrev sent : List SentField
sent =
    record { name = name_a; value = value_bc; sensitive = false }
    ∷ record { name = value_bc; value = name_a; sensitive = true }
    ∷ record { name = name_a; value = value_bc; sensitive = false }
    ∷ []

decode-encode_fields_example :
    (enc' : Encoder) × (dec' : Decoder) × (block : List ℕ) × (encode_fields encoder [] sent
      ≡ some (enc', block))
    × (decode (some collect) 0 block decoder [] ≡ some (dec', sent, none))
    × IsValid enc'.table
    × (enc'.size_changed ≡ false)
    × Ready dec' enc'.table
decode-encode_fields_example =
    decode-encode_fields encoder decoder sent one_field-IsValid refl
      (record { same = refl; no_error = refl; no_rest = refl; unchanged = refl })
      (
        (name_a-IsString, value_bc-IsString, omega arith),
        (
          (value_bc-IsString, name_a-IsString, omega arith),
          ((name_a-IsString, value_bc-IsString, omega arith), tt),
        ),
      )

-- An indexed field, and the first byte of a literal.
abbrev first_part : List ℕ
first_part = 190 ∷ 64 ∷ []

abbrev second_part : List ℕ
second_part = 1 ∷ 97 ∷ 1 ∷ 98 ∷ []

abbrev got_first : List SentField
got_first = record { name = name_a; value = value_bc; sensitive = false } ∷ []

first_decoded :
    decode (some collect) 0 first_part decoder []
    ≡ some (record decoder { b = 64 ∷ []; st = true }, got_first, none)
unfolding decode checked fields_loop decode_field dec_indexed dec_literal dec_integer entry
    static_table read_literal dec_string_literal dec_name
first_decoded = refl

decode-append_example :
    decode (some collect) 0 (first_part ++ second_part) decoder []
    ≡ resume (some collect) 0 second_part (decode (some collect) 0 first_part decoder [])
decode-append_example = decode-append (some collect) 0 first_part second_part decoder [] refl refl
