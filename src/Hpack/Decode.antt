-- ===== src/Hpack/Decode.antt =====
-- hpack/hpack.go: `decoderState.decode`, which reads one header field or size update, and
-- `Decoder.Decode`, which reads as many as a block has. For the state and `none` see Hpack/Decoder.
pub mod Dispatch
pub mod After
pub mod Input
pub mod Loop
pub mod Fragments
pub mod State
pub mod Parts
use http.Prelude.{ℕ, zero, suc, ◌+◌, ◌-◌, ◌%◌, ◌^◌, Bool, true, false, not, ◌&&◌, ltb, ◌==◌}
use http.Prelude.{if◌then◌else◌, bit_and, List, [], ◌∷◌, ◌++◌, length, Option, none, some}
use http.Prelude.Results.{Result, ok, err}
use http.Hpack.Error.{
  DecodeError, header_fields_too_large, needs_more, header_table_size_update_required,
  header_table_size_update, bad_header_block, bad_header_table_size, bad_index_value, handler_error,
}
use http.Hpack.Outcome.{Outcome, panics, fails, gives}
use http.Hpack.Static.{HeaderField}
use http.Hpack.Table.{HeaderTable, set_max_size, add, entry}
use http.Hpack.Integer.{dec_integer}
use http.Hpack.Literal.{IndexType, indexed_true, indexed_false, indexed_never}
use http.Hpack.Decoder.{Decoder, Literal, read_literal, is_true, is_never, with_table}

-- `HeaderFieldHandler`, over the state `S` of its closure.
abbrev pub Handler {ℓ} : Type ℓ → Type ℓ
Handler S = S → List ℕ → List ℕ → Bool → S × Option (List ℕ)

-- The decoder and the handler's state, and an error, or a size and the bytes left.
abbrev pub Step {ℓ} : Type ℓ → Type ℓ
Step S = Decoder × S × Result DecodeError (ℕ × List ℕ)

-- The test of the first byte.
abbrev pub lacks_update : Decoder → List ℕ → Bool
lacks_update dec [] = false
lacks_update dec (b ∷ input) = dec.size_changed && not (bit_and b 224 == 32)

module _ {ℓ} {S : Type ℓ} where
  -- `if state.handle != nil { return state.handle(...) }`.
  abbrev pub call : Option (Handler S) → S → List ℕ → List ℕ → Bool → S × Option (List ℕ)
  call none s name value sensitive = (s, none)
  call (some handle) s name value sensitive = handle s name value sensitive

  abbrev pub handled : Decoder → ℕ → List ℕ → S × Option (List ℕ) → Step S
  handled dec hsize rest (s, none) = (dec, s, ok (hsize, rest))
  handled dec hsize rest (s, some e) = (dec, s, err (handler_error e))

  abbrev pub at_entry : Option (Handler S) → Decoder → S → List ℕ → Option HeaderField → Step S
  at_entry handle dec s rest none = (dec, s, err bad_index_value)
  at_entry handle dec s rest (some hf) = handled dec 0 rest (call handle s hf.name hf.value false)

  abbrev pub indexed_at :
      Option (Handler S) → Decoder → S → Result DecodeError (ℕ × List ℕ) → Step S
  indexed_at handle dec s (err e) = (dec, s, err e)
  indexed_at handle dec s (ok (idx, rest)) = at_entry handle dec s rest (entry idx dec.table)

  unfoldable pub dec_indexed : Option (Handler S) → List ℕ → Decoder → S → Step S
  dec_indexed handle input dec s =
      indexed_at handle (record dec { st = true }) s (dec_integer 7 input)

  abbrev pub literal_handled :
      Option (Handler S) → IndexType → S → Literal → Option Decoder → Option (Step S)
  literal_handled handle idx_type s lit none = none
  literal_handled handle idx_type s lit (some dec) =
      some (handled dec lit.hsize lit.rest (call handle s lit.name lit.value (is_never idx_type)))

  abbrev pub literal_read :
      Option (Handler S) → IndexType → Decoder → S → Outcome Literal → Option (Step S)
  literal_read handle idx_type dec s panics = none
  literal_read handle idx_type dec s (fails e) = some (dec, s, err e)
  literal_read handle idx_type dec s (gives lit) =
      let with_field = with_table dec (add lit.name lit.value dec.table) in
      literal_handled handle idx_type s lit (if is_true idx_type then with_field else some dec)

  unfoldable pub dec_literal :
      Option (Handler S) → IndexType → List ℕ → Decoder → S → Option (Step S)
  dec_literal handle idx_type input dec s =
      literal_read handle idx_type (record dec { st = true }) s
        (read_literal dec.table idx_type input)

  abbrev pub resized : S → List ℕ → Option Decoder → Option (Step S)
  resized s rest none = none
  resized s rest (some dec) = some (dec, s, ok (0, rest))

  -- The size is cut to uint32.
  abbrev pub resize : Decoder → S → Result DecodeError (ℕ × List ℕ) → Option (Step S)
  resize dec s (err e) = some (dec, s, err e)
  resize dec s (ok (i, rest)) =
      let size = i % 2 ^ 32 in
      let dec' = record dec { max_size_limit = size; size_changed = false } in
      if ltb dec.max_size size
      then some (dec, s, err bad_header_table_size)
      else resized s rest (with_table dec' (set_max_size size dec.table))

  unfoldable pub dec_dynamic_table_size_update : List ℕ → Decoder → S → Option (Step S)
  dec_dynamic_table_size_update input dec s =
      if dec.st
      then some (dec, s, err header_table_size_update)
      else resize dec s (dec_integer 5 input)

  -- The `switch` over the first byte `b`.
  unfoldable pub decode_field : Option (Handler S) → ℕ → List ℕ → Decoder → S → Option (Step S)
  unfolding dec_indexed dec_literal dec_dynamic_table_size_update
  decode_field handle b input dec s =
      if not (bit_and b 128 == 0)
      then some (dec_indexed handle input dec s)
      else (if bit_and b 192 == 64
          then dec_literal handle indexed_true input dec s
          else (if bit_and b 240 == 0
              then dec_literal handle indexed_false input dec s
              else (if bit_and b 240 == 16
                  then dec_literal handle indexed_never input dec s
                  else (if bit_and b 224 == 32
                      then dec_dynamic_table_size_update input dec s
                      else some (dec, s, err bad_header_block)))))

  abbrev pub after_error :
      List ℕ → Decoder → S → DecodeError → Option (Decoder × S × Option DecodeError)
  after_error input dec s needs_more = some (record dec { b = input }, s, none)
  after_error input dec s e = some (dec, s, some e)

  -- What `Decode` makes of one call of `decode` on `input`: it keeps the input where it was cut,
  -- ends with an error, or goes on.
  abbrev pub after_field :
      List ℕ
      → ℕ
      → (List ℕ → Decoder → S → Option (Decoder × S × Option DecodeError))
      → Option (Step S)
      → Option (Decoder × S × Option DecodeError)
  after_field input limit next none = none
  after_field input limit next (some (dec, s, err e)) = after_error input dec s e
  after_field input limit next (some (dec, s, ok (n, rest))) =
      let sum = (dec.n + n) % 2 ^ 32 in
      if limit == 0
      then next rest dec s
      else (if ltb limit sum
          then some (dec, s, some header_fields_too_large)
          else next rest (record dec { n = sum }) s)

  -- The loop. The first argument is fuel.
  unfoldable pub fields_loop :
      ℕ → Option (Handler S) → ℕ → List ℕ → Decoder → S → Option (Decoder × S × Option DecodeError)
  unfolding decode_field
  fields_loop rounds handle limit [] dec s = some (dec, s, none)
  fields_loop zero handle limit (b ∷ input) dec s = none
  fields_loop (suc rounds) handle limit (b ∷ input) dec s =
      after_field (b ∷ input) limit (fields_loop rounds handle limit)
        (decode_field handle b (b ∷ input) dec s)

  -- `if err != nil { dec.err = err }`.
  abbrev pub keep_error :
      Option (Decoder × S × Option DecodeError) → Option (Decoder × S × Option DecodeError)
  keep_error none = none
  keep_error (some (dec, s, none)) = some (dec, s, none)
  keep_error (some (dec, s, some e)) = some (record dec { error = some e }, s, some e)

  abbrev pub refused : DecodeError → Decoder → S → Option (Decoder × S × Option DecodeError)
  refused e dec s = some (record dec { error = some e }, s, some e)

  -- From the test on: `dec.b` is empty, and `input` not.
  unfoldable pub checked :
      Option (Handler S) → ℕ → List ℕ → Decoder → S → Option (Decoder × S × Option DecodeError)
  unfolding fields_loop
  checked handle limit input dec s =
      let run = keep_error (fields_loop (length input) handle limit input dec s) in
      if lacks_update dec input then refused header_table_size_update_required dec s else run

  abbrev pub unless :
      Option DecodeError
      → Decoder
      → S
      → Option (Decoder × S × Option DecodeError)
      → Option (Decoder × S × Option DecodeError)
  unless (some e) dec s run = some (dec, s, some e)
  unless none dec s run = run

  unfoldable pub decode :
      Option (Handler S) → ℕ → List ℕ → Decoder → S → Option (Decoder × S × Option DecodeError)
  unfolding checked
  decode handle limit [] dec s = some (dec, s, dec.error)
  decode handle limit (x ∷ block) dec s =
      unless dec.error dec s (checked handle limit (dec.b ++ (x ∷ block)) (record dec { b = [] }) s)
