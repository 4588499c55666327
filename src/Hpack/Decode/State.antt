-- ===== src/Hpack/Decode/State.antt =====
-- hpack/hpack.go: what a handler keeps of its state, `Decode` keeps.
use http.Prelude.{ℕ, zero, suc, ◌+◌, ◌%◌, ◌^◌, Bool, true, false, not, ◌==◌, ltb}
use http.Prelude.{if◌then◌else◌, bit_and}
use http.Prelude.{List, [], ◌∷◌, Option, none, some}
use http.Prelude.Results.{Result, ok, err}
use http.Hpack.Error.{DecodeError, needs_more}
use http.Hpack.Outcome.{Outcome, panics, fails, gives}
use http.Hpack.Static.{HeaderField}
use http.Hpack.Table.{set_max_size, add, entry}
use http.Hpack.Integer.{dec_integer}
use http.Hpack.Literal.{IndexType}
use http.Hpack.Decoder.{Decoder, Literal, read_literal, is_true, is_never, with_table}
use http.Hpack.Decode.{
  Handler, Step, handled, at_entry, indexed_at, literal_handled, literal_read, resized, resize,
  dec_indexed, dec_literal, dec_dynamic_table_size_update, decode_field, after_error, after_field,
  fields_loop,
}

-- A property of the handler's state that the handler keeps is kept by the decoder.
module _ {ℓ κ} {S : Type ℓ} (P : S → Type κ) (handle : Handler S)
    (keeps : (s : S) (name value : List ℕ) (sensitive : Bool)
      → P s
      → P (handle s name value sensitive).0) where
  abbrev InStep : Option (Step S) → Type κ
  InStep none = Unit
  InStep (some (dec, s, r)) = P s

  abbrev pub InResult : Option (Decoder × S × Option DecodeError) → Type κ
  InResult none = Unit
  InResult (some (dec, s, e)) = P s

  handled-InStep :
      (dec : Decoder) (n : ℕ) (rest : List ℕ) (r : S × Option (List ℕ))
      → P r.0
      → InStep (some (handled dec n rest r))
  handled-InStep dec n rest (s, none) p = p
  handled-InStep dec n rest (s, some e) p = p

  entry-InStep :
      (dec : Decoder) (s : S) (rest : List ℕ) (o : Option HeaderField)
      → P s
      → InStep (some (at_entry (some handle) dec s rest o))
  entry-InStep dec s rest none p = p
  entry-InStep dec s rest (some hf) p =
      handled-InStep dec 0 rest (handle s hf.name hf.value false) (keeps s hf.name hf.value false p)

  indexed-InStep :
      (dec : Decoder) (s : S) (r : Result DecodeError (ℕ × List ℕ))
      → P s
      → InStep (some (indexed_at (some handle) dec s r))
  indexed-InStep dec s (ok (i, rest)) p = entry-InStep dec s rest (entry i dec.table) p
  indexed-InStep dec s (err e) p = p

  literal_handled-InStep :
      (ty : IndexType) (s : S) (lit : Literal) (o : Option Decoder)
      → P s
      → InStep (literal_handled (some handle) ty s lit o)
  literal_handled-InStep ty s lit none p = tt
  literal_handled-InStep ty s lit (some dec) p =
      handled-InStep dec lit.hsize lit.rest (handle s lit.name lit.value (is_never ty))
        (keeps s lit.name lit.value (is_never ty) p)

  literal_read-InStep :
      (ty : IndexType) (dec : Decoder) (s : S) (o : Outcome Literal)
      → P s
      → InStep (literal_read (some handle) ty dec s o)
  literal_read-InStep ty dec s panics p = tt
  literal_read-InStep ty dec s (fails e) p = p
  literal_read-InStep ty dec s (gives lit) p =
      literal_handled-InStep ty s lit
        (if is_true ty then with_table dec (add lit.name lit.value dec.table) else some dec) p

  resized-InStep : (s : S) (rest : List ℕ) (o : Option Decoder) → P s → InStep (resized s rest o)
  resized-InStep s rest none p = tt
  resized-InStep s rest (some dec) p = p

  if-InStep :
      (c : Bool) (o o' : Option (Step S)) → InStep o → InStep o' → InStep (if c then o else o')
  if-InStep true o o' p p' = p
  if-InStep false o o' p p' = p'

  resize-InStep :
      (dec : Decoder) (s : S) (r : Result DecodeError (ℕ × List ℕ)) → P s → InStep (resize dec s r)
  resize-InStep dec s (err e) p = p
  resize-InStep dec s (ok (i, rest)) p =
      let size = i % 2 ^ 32 in
      let dec' = record dec { max_size_limit = size; size_changed = false } in
      let o = resized s rest (with_table dec' (set_max_size size dec.table)) in
      if-InStep (ltb dec.max_size size) _ o p
        (resized-InStep s rest (with_table dec' (set_max_size size dec.table)) p)

  literal-InStep :
      (ty : IndexType) (input : List ℕ) (dec : Decoder) (s : S)
      → P s
      → InStep (dec_literal (some handle) ty input dec s)
  unfolding dec_literal
  literal-InStep ty input dec s p =
      literal_read-InStep ty (record dec { st = true }) s (read_literal dec.table ty input) p

  update-InStep :
      (input : List ℕ) (dec : Decoder) (s : S)
      → P s
      → InStep (dec_dynamic_table_size_update input dec s)
  unfolding dec_dynamic_table_size_update
  update-InStep input dec s p =
      if-InStep dec.st _ (resize dec s (dec_integer 5 input)) p
        (resize-InStep dec s (dec_integer 5 input) p)

  decode_field-InStep :
      (b : ℕ) (input : List ℕ) (dec : Decoder) (s : S)
      → P s
      → InStep (decode_field (some handle) b input dec s)
  unfolding decode_field dec_indexed
  decode_field-InStep b input dec s p =
      if-InStep (not (bit_and b 128 == 0)) _ _
        (indexed-InStep (record dec { st = true }) s (dec_integer 7 input) p)
        (if-InStep (bit_and b 192 == 64) _ _ (literal-InStep IndexType.indexed_true input dec s p) (
          if-InStep (bit_and b 240 == 0) _ _ (literal-InStep IndexType.indexed_false input dec s p)
            (if-InStep (bit_and b 240 == 16) _ _
              (literal-InStep IndexType.indexed_never input dec s p)
              (if-InStep (bit_and b 224 == 32) _ _ (update-InStep input dec s p) p))))

  after_error-InResult :
      (input : List ℕ) (dec : Decoder) (s : S) (e : DecodeError)
      → P s
      → InResult (after_error input dec s e)
  after_error-InResult input dec s needs_more p = p
  after_error-InResult input dec s _ p = p

  after_field-InResult :
      (input : List ℕ) (limit : ℕ)
      (next : List ℕ → Decoder → S → Option (Decoder × S × Option DecodeError))
      (o : Option (Step S))
      → InStep o
      → ((rest : List ℕ) (dec : Decoder) (s : S) → P s → InResult (next rest dec s))
      → InResult (after_field input limit next o)
  after_field-InResult input limit next none p later = tt
  after_field-InResult input limit next (some (dec, s, err e)) p later =
      after_error-InResult input dec s e p
  after_field-InResult input limit next (some (dec, s, ok (n, rest))) p later =
      let sum = (dec.n + n) % 2 ^ 32 in
      if-InResult (limit == 0) _ _ (later rest dec s p)
        (if-InResult (ltb limit sum) _ _ p (later rest (record dec { n = sum }) s p))
    where
      if-InResult :
          (c : Bool) (o o' : Option (Decoder × S × Option DecodeError))
          → InResult o
          → InResult o'
          → InResult (if c then o else o')
      if-InResult true o o' q q' = q
      if-InResult false o o' q q' = q'

  pub fields_loop-InResult :
      (rounds limit : ℕ) (input : List ℕ) (dec : Decoder) (s : S)
      → P s
      → InResult (fields_loop rounds (some handle) limit input dec s)
  unfolding fields_loop
  fields_loop-InResult rounds limit [] dec s p = p
  fields_loop-InResult zero limit (b ∷ input) dec s p = tt
  fields_loop-InResult (suc rounds) limit (b ∷ input) dec s p =
      after_field-InResult (b ∷ input) limit (fields_loop rounds (some handle) limit)
        (decode_field (some handle) b (b ∷ input) dec s) (decode_field-InStep b (b ∷ input) dec s p)
        (λ rest dec' s' p'. fields_loop-InResult rounds limit rest dec' s' p')
