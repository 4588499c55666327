-- ===== src/Wire/Fragments/EmptyName.antt =====
-- read.go and util.go: a header block with a field of an empty name.
use http.Prelude.{ℕ, ◌≡◌, refl, ap, sym, ◌∙◌, All, Bool, true, false}
use http.Prelude.{List, [], ◌∷◌, ◌++◌, length, Option, none, some}
use http.Frame.Frames.{Header}
use http.Headers.{add_header}
use http.Hpack.Table.Eviction.{IsValid}
use http.Hpack.Encoder.{Encoder}
use http.Hpack.Decoder.{Decoder}
use http.Hpack.Decode.{
  handled, after_field, decode_field, fields_loop, keep_error, checked, unless, decode,
}
use http.Hpack.Decode.Fragments.{resume, decode-append}
use http.Hpack.Decode.Loop.{lacks_nothing}
use http.Hpack.Sync.{IsField}
use http.Hpack.Sync.Fields.{encode_field-Sends}
use http.Hpack.Sync.Blocks.{
  SentField, Allowed, Ready, Accepts, Encodes, encode_fields, encode_fields-Encodes,
  decode-encode_block, encode_header_field_unchanged,
}
use http.Wire.Read.{fault}
use http.Wire.Fragments.{add_field, decoded}
use mathlib.Core.List.{append_assoc, append-nil}

abbrev pub empty_name : List ℕ → Bool → SentField
empty_name value sensitive = record { name = []; value = value; sensitive = sensitive }

-- One field that the handler panics on ends the loop.
decode_first :
    (limit b : ℕ) (rest : List ℕ) (dec dec1 : Decoder) (s : Option Header) (n : ℕ) (later : List ℕ)
    (e : List ℕ)
    → dec.error ≡ none
    → dec.b ≡ []
    → dec.size_changed ≡ false
    → decode_field (some add_field) b (b ∷ rest) dec s ≡ some (handled dec1 n later (none, some e))
    → decoded (decode (some add_field) limit (b ∷ rest) dec s) ≡ fault
unfolding decode checked fields_loop
decode_first limit b rest dec dec1 s n later e no_error no_rest still run =
    let input = b ∷ rest in
    ap
      (λ o. decoded (
        unless o dec s (checked (some add_field) limit (dec.b ++ input) (record dec { b = [] }) s)))
      no_error
    ∙ ap (λ l. decoded (checked (some add_field) limit (l ++ input) (record dec { b = [] }) s))
        no_rest
    ∙ ap (λ l. decoded (checked (some add_field) limit input (record dec { b = l }) s))
        (sym no_rest)
    ∙ rw (lacks_nothing dec input still) (
        ap
          (λ o. decoded (
            keep_error
              (after_field input limit (fields_loop (length rest) (some add_field) limit) o)))
          run)

decode_empty_first :
    (enc : Encoder) (dec : Decoder) (value : List ℕ) (sensitive : Bool) (limit : ℕ)
    → IsValid enc.table
    → enc.size_changed ≡ false
    → Ready dec enc.table
    → IsField [] value
    → (enc' : Encoder) × (code : List ℕ) × Encodes enc (empty_name value sensitive ∷ []) enc' code
      × ((h : Header) (rest : List ℕ)
          → decoded (decode (some add_field) limit (code ++ rest) dec (some h)) ≡ fault)
unfolding add_header
decode_empty_first enc dec value sensitive limit valid unchanged ready field =
    let (t, n, code, wrote, valid', bound, (b, tail, first, decodes)) =
      encode_field-Sends (Option Header) enc [] value valid field sensitive in
    (
      record enc { table = t },
      code,
      (
        record enc { table = t },
        n,
        code,
        [],
        λ dst. encode_header_field_unchanged enc dst [] value sensitive unchanged ∙ wrote dst,
        sym (append-nil code),
        (refl, refl),
      ),
      λ h rest.
          ap (λ c. decoded (decode (some add_field) limit (c ++ rest) dec (some h))) first
          ∙ decode_first limit b (tail ++ rest) dec (record dec { table = t; st = true }) (some h) n
              rest [] ready.no_error ready.no_rest ready.unchanged
              (decodes (some add_field) dec (some h) rest ready.same),
    )

Encodes-append :
    (fs gs : List SentField) (enc enc1 enc2 : Encoder) (block more : List ℕ)
    → Encodes enc fs enc1 block
    → Encodes enc1 gs enc2 more
    → Encodes enc (fs ++ gs) enc2 (block ++ more)
Encodes-append [] gs enc enc1 enc2 block more (same, empty) later = rw (same, empty) later
Encodes-append (f ∷ fs) gs enc enc1 enc2 block more (enc0, n, code, rest, wrote, parts, others)
      later =
    (
      enc0,
      n,
      code,
      rest ++ more,
      wrote,
      ap (λ b. b ++ more) parts ∙ append_assoc code rest more,
      Encodes-append fs gs enc0 enc1 enc2 rest more others later,
    )

-- A header block in which an `Encoder` puts a field of an empty name, behind any fields that
-- `Header.add` accepts and in front of anything, makes a `Decoder` that hands its fields to
-- `Header.add` panic. It holds between two blocks, for fields of bytes with sizes of 32 bits, where
-- the two have the same valid header table, with a bound below 2 ^ 31 and no change of it to
-- announce, and no limit.
pub decode-empty_name :
    (enc : Encoder) (dec : Decoder) (fs : List SentField) (value : List ℕ) (sensitive : Bool)
    (h h' : Header)
    → IsValid enc.table
    → enc.size_changed ≡ false
    → Ready dec enc.table
    → All Allowed fs
    → Accepts add_field (some h) fs (some h')
    → Allowed (empty_name value sensitive)
    → (enc' : Encoder) × (block : List ℕ) × (encode_fields enc []
          (fs ++ (empty_name value sensitive ∷ []))
        ≡ some (enc', block))
      × ((rest : List ℕ) → decoded (decode (some add_field) 0 (block ++ rest) dec (some h)) ≡ fault)
decode-empty_name enc dec fs value sensitive h h' valid unchanged ready allowed accepts field =
    let (enc1, dec1, block, wrote, run, valid', unchanged', ready') =
      decode-encode_block add_field enc dec fs (some h) (some h') valid unchanged ready allowed
        accepts in
    let (enc2, code, wrote', panic) =
      decode_empty_first enc1 dec1 value sensitive 0 valid' unchanged' ready' field in
    (
      enc2,
      block ++ code,
      encode_fields-Encodes (fs ++ (empty_name value sensitive ∷ [])) enc enc2 [] (block ++ code) (
          Encodes-append fs (empty_name value sensitive ∷ []) enc enc1 enc2 block code wrote
            wrote'),
      λ rest.
          ap (λ b. decoded (decode (some add_field) 0 b dec (some h)))
            (append_assoc block code rest)
          ∙ ap decoded (
              decode-append (some add_field) 0 block (code ++ rest) dec (some h) ready.no_error
                ready.unchanged)
          ∙ ap (λ r. decoded (resume (some add_field) 0 (code ++ rest) r)) run
          ∙ panic h' rest,
    )
