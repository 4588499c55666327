-- ===== src/Hpack/Sync.antt =====
-- hpack/hpack.go: a field that an `Encoder` writes, in the `Decoder` whose table is the same.
pub mod Fields
pub mod Blocks
use http.Prelude.{ℕ, ◌+◌, ◌-◌, ◌*◌, ◌^◌, ◌≤◌, ◌<◌, ◌≡◌, ◌≢◌, refl, ap, sym, ◌∙◌, arith}
use http.Prelude.{
  Bool, true, false, not, ◌&&◌, ◌||◌, leb, ltb, ◌==◌, if◌then◌else◌, inl, inr, Bool-cases,
}
use http.Prelude.{List, [], ◌∷◌, ◌++◌, length, get_elem?, Option, some}
use http.Prelude.Results.{ok}
use http.Hpack.Outcome.{gives}
use http.Hpack.Static.{HeaderField, field, static_table}
use http.Hpack.Table.{
  HeaderTable, entry, index, table_index, table_index_loop, find, find_from, add,
}
use http.Hpack.Table.Eviction.{IsValid, total, fitted, fitted-IsValid, add-fit}
use http.Hpack.Table.Find.{find-entry, find-entry_name}
use http.Hpack.Table.Search.{length-static_table}
use http.Hpack.Integer.{dec_integer}
use http.Hpack.Integer.RoundTrip.{encoding, enc_integer-encoding, dec_integer-encoding}
use http.Hpack.Literal.{
  IndexType, indexed_true, indexed_false, indexed_never, enc_literal, enc_indexed, literal_size,
}
use http.Hpack.Literal.RoundTrip.{IsString, encoding_first}
use http.Hpack.Literal.Field.{Named, Reads, read_literal-enc_literal}
use http.Hpack.Encoder.{Encoder, encode_field}
use http.Hpack.Decoder.{Decoder, read_literal, with_table, is_true, is_never}
use http.Hpack.Decode.{
  Handler, Step, call, handled, indexed_at, at_entry, literal_read, literal_handled, decode_field,
  dec_indexed, dec_literal,
}
use http.Hpack.Decode.Dispatch.{decode_field-indexed, decode_field-literal}

abbrev pub IsField : List ℕ → List ℕ → Type 0
IsField name value = IsString name × IsString value × (length name + length value + 32 < 2 ^ 32)

entry_bound :
    (i : ℕ) (t : HeaderTable) (x : HeaderField)
    → entry i t ≡ some x
    → (1 ≤ i) × (i ≤ 61 + length t.entries)
unfolding entry
entry_bound i t x h = ground (arith, length-static_table)

total-length : (xs : List HeaderField) → 32 * length xs ≤ total xs
total-length [] = omega arith
total-length (x ∷ xs) = omega (arith, total-length xs)

pub index_small :
    (i : ℕ) (t : HeaderTable) (x : HeaderField)
    → IsValid t
    → entry i t ≡ some x
    → (1 ≤ i) × (i < 2 ^ 63)
index_small i t x valid h =
    omega
      (arith, entry_bound i t x h, total-length t.entries, valid.sized, valid.within, valid.bounded)

-- With a bound of 0 there are static fields only.
find_from_none : (p : ℕ × Bool) → find_from p (0, false) ≡ p
find_from_none (idx, true) = refl
find_from_none (idx, false) = ground arith

no_entries : (xs : List HeaderField) → total xs ≡ 0 → xs ≡ []
no_entries [] h = refl
no_entries (x ∷ xs) h = absurd (omega arith)

pub find_static :
    (name value : List ℕ) (t : HeaderTable)
    → IsValid t
    → t.max_size ≡ 0
    → find name value t ≡ index name value
unfolding find table_index
find_static name value t valid h =
    let none_left : t.entries ≡ [] =
      no_entries t.entries (omega (arith, valid.sized, valid.within)) in
    rw none_left (find_from_none (index name value))

module _ {ℓ} (S : Type ℓ) where
  -- The code of one field: the decoder with the table `t` gives it to the handler, takes the table
  -- `t'`, and leaves what follows.
  abbrev pub Decodes : HeaderTable → HeaderTable → List ℕ → List ℕ → Bool → ℕ → List ℕ → Type ℓ
  Decodes t t' name value sensitive hsize code =
      (b : ℕ) × (tail : List ℕ) × (code ≡ b ∷ tail)
      × ((handle : Option (Handler S)) (dec : Decoder) (s : S) (rest : List ℕ)
          → dec.table ≡ t
          → decode_field handle b (b ∷ (tail ++ rest)) dec s
            ≡ some (
                handled (record dec { table = t'; st = true }) hsize rest
                  (call handle s name value sensitive)))

  pub literal-Decodes :
      (t : HeaderTable) (ty : IndexType) (name value : List ℕ) (hsize : ℕ) (code : List ℕ)
      → is_true ty ≡ false
      → Reads t ty name value hsize code
      → Decodes t t name value (is_never ty) hsize code
  unfolding dec_literal
  literal-Decodes t ty name value hsize code kept ((b, tail, first, lo, hi), read) = (
    b,
    tail,
    first,
    λ handle dec s rest same.
        decode_field-literal handle b (b ∷ (tail ++ rest)) dec s ty lo hi
        ∙ ap
            (λ u.
              literal_read handle ty (record dec { st = true }) s
                (read_literal u ty (b ∷ (tail ++ rest))))
            same
        ∙ ap (literal_read handle ty (record dec { st = true }) s)
            (sym (ap (λ c. read_literal t ty (c ++ rest)) first) ∙ read rest)
        ∙ rw kept (
            ap
              (λ u. some (
                handled (record dec { table = u; st = true }) hsize rest
                  (call handle s name value (is_never ty))))
              same),
  )

  pub indexed-Decodes :
      (t : HeaderTable) (name value : List ℕ) (idx : ℕ)
      → idx < 2 ^ 63
      → entry idx t ≡ some (field name value)
      → Decodes t t name value false 0 (encoding 1 7 idx)
  unfolding dec_indexed
  indexed-Decodes t name value idx small e =
      let (v, tail, low, first) = encoding_first 1 7 idx in
      (
        1 * 2 ^ 7 + v,
        tail,
        first,
        λ handle dec s rest same.
            decode_field-indexed handle (1 * 2 ^ 7 + v) ((1 * 2 ^ 7 + v) ∷ (tail ++ rest)) dec s
              (omega arith) (omega (arith, low))
            ∙ ap (λ r. some (indexed_at handle (record dec { st = true }) s r))
                (sym (ap (λ c. dec_integer 7 (c ++ rest)) first)
                  ∙ dec_integer-encoding 1 7 idx rest (omega arith) small)
            ∙ ap (λ u. some (at_entry handle (record dec { st = true }) s rest (entry idx u))) same
            ∙ ap (λ o. some (at_entry handle (record dec { st = true }) s rest o)) e
            ∙ ap
                (λ u. some (
                  handled (record dec { table = u; st = true }) 0 rest
                    (call handle s name value false)))
                same,
      )

  -- The literal of a field that joins the table.
  pub added-Decodes :
      (t : HeaderTable) (name value : List ℕ) (hsize : ℕ) (code : List ℕ)
      → IsValid t
      → IsField name value
      → Reads t indexed_true name value hsize code
      → Decodes t
          (fitted t.max_size (t.entries ++ (field name value ∷ [])))
          name
          value
          false
          hsize
          code
  unfolding dec_literal
  added-Decodes t name value hsize code valid (string1, string2, short)
        ((b, tail, first, lo, hi), read) =
      (
        b,
        tail,
        first,
        λ handle dec s rest same.
            decode_field-literal handle b (b ∷ (tail ++ rest)) dec s indexed_true lo hi
            ∙ ap
                (λ u.
                  literal_read handle indexed_true (record dec { st = true }) s
                    (read_literal u indexed_true (b ∷ (tail ++ rest))))
                same
            ∙ ap (literal_read handle indexed_true (record dec { st = true }) s)
                (sym (ap (λ c. read_literal t indexed_true (c ++ rest)) first) ∙ read rest)
            ∙ ap
                (λ o.
                  literal_handled handle indexed_true s
                    (record { name = name; value = value; hsize = hsize; rest = rest })
                    (with_table (record dec { st = true }) o))
                (ap (add name value) same ∙ add-fit name value t valid short),
      )

  -- `EncodeHeaderField` behind its size updates.
  abbrev pub Sends : Encoder → List ℕ → List ℕ → Bool → Type ℓ
  Sends enc name value sensitive =
      (t : HeaderTable) × (hsize : ℕ) × (code : List ℕ) × ((dst : List ℕ)
        → encode_field enc dst name value sensitive
          ≡ some (record enc { table = t }, hsize, dst ++ code))
      × IsValid t
      × (t.max_size ≡ enc.table.max_size)
      × Decodes enc.table t name value sensitive hsize code
