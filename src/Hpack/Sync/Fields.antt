-- ===== src/Hpack/Sync/Fields.antt =====
-- hpack/hpack.go: the cases of `EncodeHeaderField`, in the `Decoder` whose table is the same.
use http.Prelude.{ℕ, ◌≡◌, refl, ap, ◌∙◌, arith}
use http.Prelude.{Bool, true, false, ltb, ◌==◌, inl, inr, Bool-cases, dec_lt}
use http.Prelude.{List, [], ◌∷◌, ◌++◌, some}
use http.Hpack.Static.{field, header_field_size}
use http.Hpack.Table.{HeaderTable, entry, index, find, add}
use http.Hpack.Table.Eviction.{IsValid, fitted, fitted-IsValid, add-fit}
use http.Hpack.Table.Find.{find-entry, find-entry_name}
use http.Hpack.Integer.RoundTrip.{encoding, enc_integer-encoding}
use http.Hpack.Literal.{
  IndexType, indexed_true, indexed_false, indexed_never, enc_literal, enc_indexed, literal_size,
}
use http.Hpack.Literal.Field.{Named, read_literal-enc_literal}
use http.Hpack.Encoder.{Encoder, encode_field, literal, added, with_table, static_only, both_tables}
use http.Hpack.Decoder.{is_true, is_never}
use http.Hpack.Sync.{
  IsField, Sends, index_small, find_static, literal-Decodes, indexed-Decodes, added-Decodes,
}

find-Named :
    (name value : List ℕ) (t : HeaderTable) (idx : ℕ)
    → IsValid t
    → find name value t ≡ (idx, false)
    → Named t name idx
find-Named name value t idx valid h = elim (dec_lt 0 idx) [
  | yes pos ↦
      let (v, e) = find-entry_name name value t h (omega arith) in
      inr (pos, (index_small idx t (field name v) valid e).1, (v, e))
  | no none_found ↦ inl (omega arith)
]

module _ {ℓ} (S : Type ℓ) (enc : Encoder) (name value : List ℕ) (valid : IsValid enc.table)
    (allowed : IsField name value) where
  literal-Sends :
      (ty : IndexType) (idx : ℕ)
      → is_true ty ≡ false
      → Named enc.table name idx
      → ((dst : List ℕ)
          → encode_field enc dst name value (is_never ty)
            ≡ literal enc (enc_literal dst name value ty idx enc.h))
      → Sends S enc name value (is_never ty)
  literal-Sends ty idx kept named run =
      let (code, wrote, reads) =
        read_literal-enc_literal enc.table name value ty idx enc.h named allowed.0 allowed.1 in
      let hsize = literal_size name value idx in
      (
        enc.table,
        hsize,
        code,
        λ dst. run dst ∙ ap (literal enc) (wrote dst),
        valid,
        refl,
        literal-Decodes S enc.table ty name value hsize code kept reads,
      )

  indexed-Sends :
      (idx : ℕ)
      → entry idx enc.table ≡ some (field name value)
      → ((dst : List ℕ)
          → encode_field enc dst name value false ≡ some (enc, 0, enc_indexed dst idx))
      → Sends S enc name value false
  unfolding enc_indexed
  indexed-Sends idx e run =
      let (pos, small) = index_small idx enc.table (field name value) valid e in
      (
        enc.table,
        0,
        encoding 1 7 idx,
        λ dst.
            run dst
            ∙ ap (λ d. some (enc, 0, d)) (enc_integer-encoding dst 1 7 idx (omega arith) small),
        valid,
        refl,
        indexed-Decodes S enc.table name value idx small e,
      )

  added-Sends :
      (idx : ℕ)
      → Named enc.table name idx
      → ((dst : List ℕ)
          → encode_field enc dst name value false
            ≡ added
                (with_table enc (add name value enc.table))
                (enc_literal dst name value indexed_true idx enc.h))
      → Sends S enc name value false
  added-Sends idx named run =
      let (string1, string2, short) = allowed in
      let (code, wrote, reads) =
        read_literal-enc_literal enc.table name value indexed_true idx enc.h named string1
          string2 in
      let hsize = literal_size name value idx in
      let t = fitted enc.table.max_size (enc.table.entries ++ (field name value ∷ [])) in
      (
        t,
        hsize,
        code,
        λ dst.
            run dst
            ∙ ap (λ o. added (with_table enc o) (enc_literal dst name value indexed_true idx enc.h))
                (add-fit name value enc.table valid short)
            ∙ ap (literal (record enc { table = t })) (wrote dst),
        fitted-IsValid enc.table.max_size (enc.table.entries ++ (field name value ∷ []))
            valid.bounded,
        refl,
        added-Decodes S enc.table name value hsize code valid allowed reads,
      )

  static-Sends :
      (idx : ℕ) (matched : Bool)
      → find name value enc.table ≡ (idx, matched)
      → ((dst : List ℕ)
          → encode_field enc dst name value false ≡ static_only enc dst name value (idx, matched))
      → Sends S enc name value false
  static-Sends idx true e run = indexed-Sends idx (find-entry name value enc.table e) run
  static-Sends idx false e run =
      literal-Sends indexed_false idx refl (find-Named name value enc.table idx valid e) run

  both-Sends :
      (idx : ℕ) (matched : Bool)
      → find name value enc.table ≡ (idx, matched)
      → ((dst : List ℕ)
          → encode_field enc dst name value false ≡ both_tables enc dst name value (idx, matched))
      → Sends S enc name value false
  both-Sends idx true e run = indexed-Sends idx (find-entry name value enc.table e) run
  both-Sends idx false e run =
      let named = find-Named name value enc.table idx valid e in
      elim (Bool-cases enc.i) [
        | inl joins ↦ added-Sends idx named (λ dst. run dst ∙ rw joins refl)
        | inr stays ↦ literal-Sends indexed_false idx refl named (λ dst. run dst ∙ rw stays refl)
      ]

  -- Every case.
  pub encode_field-Sends : (sensitive : Bool) → Sends S enc name value sensitive
  unfolding encode_field
  encode_field-Sends true = literal-Sends indexed_never 0 refl (inl refl) (λ dst. refl)
  encode_field-Sends false = elim (Bool-cases (enc.table.max_size == 0)) [
    | inl no_table ↦
        let q = index name value in
        static-Sends q.0 q.1 (find_static name value enc.table valid (ground arith))
          (λ dst. rw no_table refl)
    | inr table ↦ elim (Bool-cases (ltb enc.table.max_size (header_field_size name value))) [
      | inl large ↦ literal-Sends indexed_false 0 refl (inl refl) (λ dst. rw (table, large) refl)
      | inr fits ↦
          let q = find name value enc.table in
          both-Sends q.0 q.1 refl (λ dst. rw (table, fits) refl)
    ]
  ]
