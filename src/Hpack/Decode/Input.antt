-- ===== src/Hpack/Decode/Input.antt =====
-- hpack/hpack.go: `decode` on an input, and on the same input with more bytes behind it.
use http.Prelude.{ℕ, ◌-◌, ◌%◌, ◌^◌, ◌≤◌, ◌<◌, ◌≡◌, refl, ap, ◌∙◌, arith}
use http.Prelude.{Bool, true, false, not, ltb, ◌==◌, if◌then◌else◌, inl, inr, Bool-cases, bit_and}
use http.Prelude.{List, ◌∷◌, ◌++◌, length, Option, none, some}
use http.Prelude.Results.{Result, ok, err}
use http.Hpack.Error.{DecodeError, header_table_size_update, bad_header_block}
use http.Hpack.Outcome.{Outcome, panics, fails, gives}
use http.Hpack.Static.{HeaderField}
use http.Hpack.Table.{set_max_size, add, entry}
use http.Hpack.Integer.{dec_integer}
use http.Hpack.Integer.Input.{dec_integer-append_ok, dec_integer-append_err, dec_integer_bounds}
use http.Hpack.Literal.{IndexType, indexed_true, indexed_false, indexed_never}
use http.Hpack.Literal.Extended.{Extended, Within}
use http.Hpack.Literal.Input.{
  literal_with_more, literal_left, read_literal-Extended, read_literal-Within,
}
use http.Hpack.Decoder.{Decoder, Literal, read_literal, is_true, with_table}
use http.Hpack.Decode.After.{
  needs_cases, Keeps, Kept, After, Branch, handled-After, literal_handled-After, with_table-Kept,
  started,
}
use http.Hpack.Decode.{
  Handler, Step, call, indexed_at, at_entry, literal_read, resize, resized, dec_indexed,
  dec_literal, dec_dynamic_table_size_update, decode_field,
}

if_Kept :
    (dec : Decoder) (c : Bool) (o : Option Decoder) (dec' : Decoder)
    → Kept dec o
    → Keeps dec dec'
    → Kept dec (if c then o else some dec')
if_Kept dec true o dec' x y = x
if_Kept dec false o dec' x y = y

module _ {ℓ} {S : Type ℓ} where
  literal_read-After :
      (f : List ℕ → Decoder → S → Option (Step S)) (input more : List ℕ) (dec : Decoder) (s : S)
      (handle : Option (Handler S)) (ty : IndexType) (o o' : Outcome Literal)
      → Extended (literal_with_more more) o o'
      → Within literal_left (length input - 1) o
      → 1 ≤ length input
      → f (input ++ more) dec s ≡ literal_read handle ty (record dec { st = true }) s o'
      → ((again : List ℕ) → f again (record dec { st = true }) s ≡ f again dec s)
      → After f input more dec s (literal_read handle ty (record dec { st = true }) s o)
  literal_read-After f input more dec s handle ty panics o' ext less some_bytes run again =
      run ∙ ap (literal_read handle ty (record dec { st = true }) s) ext
  literal_read-After f input more dec s handle ty (fails e) o' ext less some_bytes run again =
      elim (needs_cases e) [
        | inl cut ↦ inl (cut, refl, started dec, again)
        | inr other ↦ elim ext [
          | inl cut ↦ absurd (other cut)
          | inr same ↦
              inr (other, run ∙ ap (literal_read handle ty (record dec { st = true }) s) same)
        ]
      ]
  literal_read-After f input more dec s handle ty (gives lit) o' ext less some_bytes run again =
      let dec1 = record dec { st = true } in
      let added = with_table dec1 (add lit.name lit.value dec.table) in
      literal_handled-After f input more dec s handle ty lit
        (if is_true ty then added else some dec1) (run ∙ ap (literal_read handle ty dec1 s) ext)
        (omega arith)
        (if_Kept dec (is_true ty) added dec1
          (with_table-Kept dec dec1 (add lit.name lit.value dec.table) (started dec)) (started dec))

  dec_literal-Branch :
      (handle : Option (Handler S)) (ty : IndexType) → Branch (dec_literal handle ty)
  unfolding dec_literal
  dec_literal-Branch handle ty b input more dec s =
      literal_read-After (dec_literal handle ty) (b ∷ input) more dec s handle ty
        (read_literal dec.table ty (b ∷ input)) (read_literal dec.table ty ((b ∷ input) ++ more))
        (read_literal-Extended dec.table ty (b ∷ input) more)
        (read_literal-Within dec.table ty (b ∷ input)) (omega arith) refl (λ again. refl)

  entry-After :
      (f : List ℕ → Decoder → S → Option (Step S)) (input more : List ℕ) (dec : Decoder) (s : S)
      (handle : Option (Handler S)) (rest : List ℕ) (o : Option HeaderField)
      → f (input ++ more) dec s
        ≡ some (at_entry handle (record dec { st = true }) s (rest ++ more) o)
      → length rest < length input
      → After f input more dec s (some (at_entry handle (record dec { st = true }) s rest o))
  entry-After f input more dec s handle rest none run less = inr (λ h. cc, run)
  entry-After f input more dec s handle rest (some hf) run less =
      handled-After f input more dec s (record dec { st = true }) 0 rest
        (call handle s hf.name hf.value false) run less (started dec)

  abbrev reads_indexed : Option (Handler S) → List ℕ → Decoder → S → Option (Step S)
  reads_indexed handle input dec s = some (dec_indexed handle input dec s)

  indexed-After :
      (handle : Option (Handler S)) (input more : List ℕ) (dec : Decoder) (s : S)
      (r : Result DecodeError (ℕ × List ℕ))
      → dec_integer 7 input ≡ r
      → After
          (reads_indexed handle)
          input
          more
          dec
          s
          (some (indexed_at handle (record dec { st = true }) s r))
  unfolding dec_indexed
  indexed-After handle input more dec s (ok (idx, rest)) e =
      entry-After (reads_indexed handle) input more dec s handle rest (entry idx dec.table)
        (ap (λ r. some (indexed_at handle (record dec { st = true }) s r))
          (dec_integer-append_ok 7 input more idx rest e))
        (dec_integer_bounds 7 input idx rest (omega arith) e).1
  indexed-After handle input more dec s (err f) e = elim (needs_cases f) [
    | inl cut ↦ inl (cut, refl, started dec, λ again. refl)
    | inr other ↦ inr (
      other,
      ap (λ r. some (indexed_at handle (record dec { st = true }) s r))
          (dec_integer-append_err 7 input more f e other),
    )
  ]

  dec_indexed-Branch : (handle : Option (Handler S)) → Branch (reads_indexed handle)
  unfolding dec_indexed
  dec_indexed-Branch handle b input more dec s =
      indexed-After handle (b ∷ input) more dec s (dec_integer 7 (b ∷ input)) refl

  resized-After :
      (f : List ℕ → Decoder → S → Option (Step S)) (input more : List ℕ) (dec : Decoder) (s : S)
      (rest : List ℕ) (o : Option Decoder)
      → f (input ++ more) dec s ≡ resized s (rest ++ more) o
      → length rest < length input
      → Kept dec o
      → After f input more dec s (resized s rest o)
  resized-After f input more dec s rest none run less kept = run
  resized-After f input more dec s rest (some dec') run less kept = (run, less, kept)

  update_fresh :
      (input : List ℕ) (dec : Decoder) (s : S)
      → dec.st ≡ false
      → dec_dynamic_table_size_update input dec s ≡ resize dec s (dec_integer 5 input)
  unfolding dec_dynamic_table_size_update
  update_fresh input dec s h =
      ap
        (λ c.
          if c
          then some (dec, s, err header_table_size_update)
          else resize dec s (dec_integer 5 input))
        h

  update_late :
      (input : List ℕ) (dec : Decoder) (s : S)
      → dec.st ≡ true
      → dec_dynamic_table_size_update input dec s ≡ some (dec, s, err header_table_size_update)
  unfolding dec_dynamic_table_size_update
  update_late input dec s h =
      ap
        (λ c.
          if c
          then some (dec, s, err header_table_size_update)
          else resize dec s (dec_integer 5 input))
        h

  After-at :
      (f : List ℕ → Decoder → S → Option (Step S)) (input more : List ℕ) (dec : Decoder) (s : S)
      (o o' : Option (Step S))
      → o ≡ o'
      → After f input more dec s o'
      → After f input more dec s o
  After-at f input more dec s o o' e h = rw e h

  resize-After :
      (input more : List ℕ) (dec : Decoder) (s : S) (r : Result DecodeError (ℕ × List ℕ))
      → dec.st ≡ false
      → dec_integer 5 input ≡ r
      → After dec_dynamic_table_size_update input more dec s (resize dec s r)
  unfolding dec_dynamic_table_size_update
  resize-After input more dec s (ok (i, rest)) fresh e =
      let size = i % 2 ^ 32 in
      let dec' = record dec { max_size_limit = size; size_changed = false } in
      let run : dec_dynamic_table_size_update (input ++ more) dec s
          ≡ resize dec s (ok (i, rest ++ more)) =
        update_fresh (input ++ more) dec s fresh
        ∙ ap (resize dec s) (dec_integer-append_ok 5 input more i rest e) in
      elim (Bool-cases (ltb dec.max_size size))
        as (λ x.
          After dec_dynamic_table_size_update input more dec s (resize dec s (ok (i, rest)))) [
            | inl large ↦ rw large (inr (λ h. cc, run ∙ rw large refl))
            | inr fits ↦ rw fits (
                resized-After dec_dynamic_table_size_update input more dec s rest
                  (with_table dec' (set_max_size size dec.table)) (run ∙ rw fits refl)
                  (dec_integer_bounds 5 input i rest (omega arith) e).1
                  (with_table-Kept dec dec' (set_max_size size dec.table)
                    (record { same_b = refl; same_error = refl; still = λ h. refl })))
          ]
  resize-After input more dec s (err f) fresh e = elim (needs_cases f) [
    | inl cut ↦
        inl (cut, refl, record { same_b = refl; same_error = refl; still = λ h. h }, λ again. refl)
    | inr other ↦ inr (
      other,
      update_fresh (input ++ more) dec s fresh
          ∙ ap (resize dec s) (dec_integer-append_err 5 input more f e other),
    )
  ]

  update-Branch : Branch {S = S} dec_dynamic_table_size_update
  update-Branch b input more dec s =
      elim (Bool-cases dec.st)
        as (λ x.
          After dec_dynamic_table_size_update (b ∷ input) more dec s
            (dec_dynamic_table_size_update (b ∷ input) dec s)) [
              | inl late ↦
                  After-at dec_dynamic_table_size_update (b ∷ input) more dec s _ _
                    (update_late (b ∷ input) dec s late)
                    (inr (λ h. cc, update_late ((b ∷ input) ++ more) dec s late))
              | inr fresh ↦
                  After-at dec_dynamic_table_size_update (b ∷ input) more dec s _ _
                    (update_fresh (b ∷ input) dec s fresh)
                    (resize-After (b ∷ input) more dec s (dec_integer 5 (b ∷ input)) fresh refl)
            ]

  bad-Branch : Branch {S = S} (λ input dec s. some (dec, s, err bad_header_block))
  bad-Branch b input more dec s = inr (λ h. cc, refl)

  abbrev branch :
      Bool
      → (List ℕ → Decoder → S → Option (Step S))
      → (List ℕ → Decoder → S → Option (Step S))
      → List ℕ
      → Decoder
      → S
      → Option (Step S)
  branch c f g input dec s = if c then f input dec s else g input dec s

  if-Branch :
      (c : Bool) (f g : List ℕ → Decoder → S → Option (Step S))
      → Branch f
      → Branch g
      → Branch (branch c f g)
  if-Branch true f g x y = x
  if-Branch false f g x y = y

  -- `decode`, whatever the first byte.
  pub decode_field-Branch :
      (handle : Option (Handler S)) (first : ℕ) → Branch (decode_field handle first)
  unfolding decode_field
  decode_field-Branch handle first =
      let bad : List ℕ → Decoder → S → Option (Step S) =
        λ input dec s. some (dec, s, err bad_header_block) in
      let literal = dec_literal handle in
      let update_or = branch (bit_and first 224 == 32) dec_dynamic_table_size_update bad in
      let never_or = branch (bit_and first 240 == 16) (literal indexed_never) update_or in
      let false_or = branch (bit_and first 240 == 0) (literal indexed_false) never_or in
      let true_or = branch (bit_and first 192 == 64) (literal indexed_true) false_or in
      if-Branch (not (bit_and first 128 == 0)) (reads_indexed handle) true_or
        (dec_indexed-Branch handle)
        (if-Branch (bit_and first 192 == 64) (literal indexed_true) false_or
          (dec_literal-Branch handle indexed_true)
          (if-Branch (bit_and first 240 == 0) (literal indexed_false) never_or
            (dec_literal-Branch handle indexed_false)
            (if-Branch (bit_and first 240 == 16) (literal indexed_never) update_or
              (dec_literal-Branch handle indexed_never)
              (if-Branch (bit_and first 224 == 32) dec_dynamic_table_size_update bad update-Branch
                bad-Branch))))
