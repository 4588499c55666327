-- ===== src/Hpack/Sync/Blocks.antt =====
-- hpack/hpack.go: a block of header fields, from an `Encoder` to a `Decoder` whose table is the same.
use http.Prelude.{ℕ, zero, suc, ◌≤◌, ◌≡◌, refl, ap, sym, ◌∙◌, arith, All, length-append}
use http.Prelude.{Bool, true, false, if◌then◌else◌}
use http.Prelude.{List, [], ◌∷◌, ◌++◌, length, Option, none, some}
use http.Prelude.{◌-◌}
use http.Prelude.Results.{ok}
use http.Hpack.Error.{header_table_size_update_required}
use http.Hpack.Table.{HeaderTable}
use http.Hpack.Table.Eviction.{IsValid}
use http.Hpack.Encoder.{Encoder, announce, encode_field, encode_header_field}
use http.Hpack.Decoder.{Decoder}
use http.Hpack.Decode.{
  Handler, handled, after_field, decode_field, fields_loop, keep_error, refused, checked, unless,
  decode,
}
use http.Hpack.Sync.{IsField}
use http.Hpack.Decode.Loop.{lacks_nothing}
use http.Hpack.Sync.Fields.{encode_field-Sends}
use mathlib.Core.List.{append_assoc, append-nil}

-- The arguments of a call of `EncodeHeaderField`, and of a handler.
pub record SentField : Type 0 where
  pub name : List ℕ
  pub value : List ℕ
  pub sensitive : Bool

abbrev pub Allowed : SentField → Type 0
Allowed f = IsField f.name f.value

-- A handler that keeps the fields, in their order.
abbrev pub collect : Handler (List SentField)
collect s name value sensitive =
    (s ++ (record { name = name; value = value; sensitive = sensitive } ∷ []), none)

abbrev pub then_encode :
    (Encoder → List ℕ → Option (Encoder × List ℕ))
    → Option (Encoder × ℕ × List ℕ)
    → Option (Encoder × List ℕ)
then_encode next none = none
then_encode next (some (enc, n, dst)) = next enc dst

-- `EncodeHeaderField` for one field after the other.
unfoldable pub encode_fields : Encoder → List ℕ → List SentField → Option (Encoder × List ℕ)
unfolding encode_header_field
encode_fields enc dst [] = some (enc, dst)
encode_fields enc dst (f ∷ fs) =
    then_encode (λ enc' dst'. encode_fields enc' dst' fs)
      (encode_header_field enc dst f.name f.value f.sensitive)

-- Between two blocks: nothing is left of the last one, and no update of the table is due.
pub record Ready (dec : Decoder) (t : HeaderTable) : Type 0 where
  pub same : dec.table ≡ t
  pub no_error : dec.error ≡ none
  pub no_rest : dec.b ≡ []
  pub unchanged : dec.size_changed ≡ false

pub encode_header_field_unchanged :
    (enc : Encoder) (dst name value : List ℕ) (sensitive : Bool)
    → enc.size_changed ≡ false
    → encode_header_field enc dst name value sensitive ≡ encode_field enc dst name value sensitive
unfolding encode_header_field announce
encode_header_field_unchanged enc dst name value sensitive h = rw h refl

-- The code of a list of fields, which does not depend on what is in the buffer.
abbrev pub Encodes : Encoder → List SentField → Encoder → List ℕ → Type 0
Encodes enc [] enc' block = (enc ≡ enc') × (block ≡ [])
Encodes enc (f ∷ fs) enc' block =
    (enc1 : Encoder) × (n : ℕ) × (code : List ℕ) × (rest : List ℕ) × ((dst : List ℕ)
      → encode_header_field enc dst f.name f.value f.sensitive ≡ some (enc1, n, dst ++ code))
    × (block ≡ code ++ rest)
    × Encodes enc1 fs enc' rest

pub encode_fields-Encodes :
    (fs : List SentField) (enc enc' : Encoder) (dst block : List ℕ)
    → Encodes enc fs enc' block
    → encode_fields enc dst fs ≡ some (enc', dst ++ block)
unfolding encode_fields
encode_fields-Encodes [] enc enc' dst block (same, empty) =
    ap (λ d. some (enc, d)) (sym (append-nil dst) ∙ ap (◌++◌ dst) (sym empty))
    ∙ ap (λ e. some (e, dst ++ block)) same
encode_fields-Encodes (f ∷ fs) enc enc' dst block (enc1, n, code, rest, wrote, parts, later) =
    ap (then_encode (λ e d. encode_fields e d fs)) (wrote dst)
    ∙ encode_fields-Encodes fs enc1 enc' (dst ++ code) rest later
    ∙ ap (λ d. some (enc', d)) (append_assoc dst code rest ∙ ap (◌++◌ dst) (sym parts))

-- The handler takes all the fields, one after the other, and ends in the state `s'`.
abbrev pub Accepts : {S : Type 0} → Handler S → S → List SentField → S → Type 0
Accepts handle s [] s' = s ≡ s'
Accepts {S} handle s (f ∷ fs) s' =
    (s1 : S) × (handle s f.name f.value f.sensitive ≡ (s1, none)) × Accepts handle s1 fs s'

collect-Accepts : (s fs : List SentField) → Accepts collect s fs (s ++ fs)
collect-Accepts s [] = sym (append-nil s)
collect-Accepts s (f ∷ fs) =
    (s ++ (f ∷ []), refl, rw (append_assoc s (f ∷ []) fs) at (collect-Accepts (s ++ (f ∷ [])) fs))

module _ {S : Type 0} (handle : Handler S) where
  fields_loop_next :
      (rounds : ℕ) (b : ℕ) (input : List ℕ) (dec : Decoder) (s : S) (dec' : Decoder) (s' : S)
      (n : ℕ) (rest : List ℕ)
      → 1 ≤ rounds
      → decode_field (some handle) b (b ∷ input) dec s ≡ some (dec', s', ok (n, rest))
      → fields_loop rounds (some handle) 0 (b ∷ input) dec s
        ≡ fields_loop (rounds - 1) (some handle) 0 rest dec' s'
  unfolding fields_loop
  fields_loop_next zero b input dec s dec' s' n rest some_round e = absurd (omega arith)
  fields_loop_next (suc rounds) b input dec s dec' s' n rest some_round e =
      let less : suc rounds - 1 ≡ rounds = omega arith in
      ap (after_field (b ∷ input) 0 (fields_loop rounds (some handle) 0)) e
      ∙ ap (λ r. fields_loop r (some handle) 0 rest dec' s') (sym less)

  -- The code of a list of fields, and what the decoder's loop makes of it.
  abbrev Transfers : Encoder → Decoder → S → List SentField → S → Type 0
  Transfers enc dec s fs s' =
      (t : HeaderTable) × (block : List ℕ) × (dec' : Decoder) × Encodes enc fs
        (record enc { table = t }) block
      × IsValid t
      × Ready dec' t
      × ((rounds : ℕ)
          → length block ≤ rounds
          → fields_loop rounds (some handle) 0 block dec s ≡ some (dec', s', none))

  fields-Transfers :
      (fs : List SentField) (enc : Encoder) (dec : Decoder) (s s' : S)
      → IsValid enc.table
      → enc.size_changed ≡ false
      → Ready dec enc.table
      → All Allowed fs
      → Accepts handle s fs s'
      → Transfers enc dec s fs s'
  unfolding encode_fields fields_loop
  fields-Transfers [] enc dec s s' valid unchanged ready allowed same = (
    enc.table,
    [],
    dec,
    (refl, refl),
    valid,
    ready,
    λ rounds enough. ap (λ u. some (dec, u, none)) same,
  )
  fields-Transfers (f ∷ fs) enc dec s s' valid unchanged ready (allowed, others)
        (s1, took, accepts) =
      let (t1, hsize, code, wrote, valid1, bound, (b, tail, first, decodes)) =
        encode_field-Sends S enc f.name f.value valid allowed f.sensitive in
      let enc1 = record enc { table = t1 } in
      let dec1 = record dec { table = t1; st = true } in
      let ready1 : Ready dec1 t1 = record {
        same = refl;
        no_error = ready.no_error;
        no_rest = ready.no_rest;
        unchanged = ready.unchanged;
      } in
      let (t2, block, dec2, wrote2, valid2, ready2, run2) =
        fields-Transfers fs enc1 dec1 s1 s' valid1 unchanged ready1 others accepts in
      (
        t2,
        code ++ block,
        dec2,
        (
          enc1,
          hsize,
          code,
          block,
          λ dst.
              encode_header_field_unchanged enc dst f.name f.value f.sensitive unchanged
              ∙ wrote dst,
          refl,
          wrote2,
        ),
        valid2,
        ready2,
        λ rounds enough.
            let less : length block ≤ rounds - 1 =
              omega (arith, length-append code block, ap length first) in
            let some_round : 1 ≤ rounds =
              omega (arith, length-append code block, ap length first) in
            ap (λ c. fields_loop rounds (some handle) 0 (c ++ block) dec s) first
            ∙ fields_loop_next rounds b (tail ++ block) dec s dec1 s1 hsize block some_round (
                decodes (some handle) dec s block ready.same
                ∙ ap (λ r. some (handled dec1 hsize block r)) took)
            ∙ run2 (rounds - 1) less,
      )

  checked-fields_loop :
      (input : List ℕ) (dec dec' : Decoder) (s s' : S)
      → dec.size_changed ≡ false
      → fields_loop (length input) (some handle) 0 input dec s ≡ some (dec', s', none)
      → checked (some handle) 0 input dec s ≡ some (dec', s', none)
  unfolding checked
  checked-fields_loop input dec dec' s s' h run =
      ap
        (λ c.
          if c
          then refused header_table_size_update_required dec s
          else keep_error (fields_loop (length input) (some handle) 0 input dec s))
        (lacks_nothing dec input h)
      ∙ ap keep_error run

  decode-fields_loop :
      (block : List ℕ) (dec dec' : Decoder) (t : HeaderTable) (s s' : S)
      → Ready dec t
      → fields_loop (length block) (some handle) 0 block dec s ≡ some (dec', s', none)
      → decode (some handle) 0 block dec s ≡ some (dec', s', none)
  unfolding decode fields_loop
  decode-fields_loop [] dec dec' t s s' ready run = ap (λ e. some (dec, s, e)) ready.no_error ∙ run
  decode-fields_loop (x ∷ block) dec dec' t s s' ready run =
      ap
        (λ e.
          unless e dec s (checked (some handle) 0 (dec.b ++ (x ∷ block)) (record dec { b = [] }) s))
        ready.no_error
      ∙ ap (λ b. checked (some handle) 0 (b ++ (x ∷ block)) (record dec { b = [] }) s) ready.no_rest
      ∙ ap (λ b. checked (some handle) 0 (x ∷ block) (record dec { b = b }) s) (sym ready.no_rest)
      ∙ checked-fields_loop (x ∷ block) dec dec' s s' ready.unchanged run

  -- The fields of a block, for any handler that takes them.
  pub decode-encode_block :
      (enc : Encoder) (dec : Decoder) (fs : List SentField) (s s' : S)
      → IsValid enc.table
      → enc.size_changed ≡ false
      → Ready dec enc.table
      → All Allowed fs
      → Accepts handle s fs s'
      → (enc' : Encoder) × (dec' : Decoder) × (block : List ℕ) × Encodes enc fs enc' block
        × (decode (some handle) 0 block dec s ≡ some (dec', s', none))
        × IsValid enc'.table
        × (enc'.size_changed ≡ false)
        × Ready dec' enc'.table
  decode-encode_block enc dec fs s s' valid unchanged ready allowed accepts =
      let (t, block, dec', wrote, valid', ready', run) =
        fields-Transfers fs enc dec s s' valid unchanged ready allowed accepts in
      (
        record enc { table = t },
        dec',
        block,
        wrote,
        decode-fields_loop block dec dec' enc.table s s' ready (run (length block) (omega arith)),
        valid',
        unchanged,
        ready',
      )

pub same_code :
    (enc enc' : Encoder) (block block' : List ℕ)
    → ◌≡◌ {A = Option (Encoder × List ℕ)} (some (enc, block)) (some (enc', block'))
    → (enc ≡ enc') × (block ≡ block')
same_code enc enc' block block' e = (cc, cc)

-- A decoder with the table of an encoder.
abbrev beside : Encoder → Decoder
beside enc = record {
  table = enc.table;
  max_size = enc.table.max_size;
  max_size_limit = enc.table.max_size;
  size_changed = false;
  n = 0;
  error = none;
  b = [];
  st = false;
}

-- What is encoded into an empty buffer is appended to any other.
pub encode_fields_code :
    (enc enc' : Encoder) (fs : List SentField) (block : List ℕ)
    → IsValid enc.table
    → enc.size_changed ≡ false
    → All Allowed fs
    → encode_fields enc [] fs ≡ some (enc', block)
    → Encodes enc fs enc' block
encode_fields_code enc enc' fs block valid unchanged allowed codes =
    let ready : Ready (beside enc) enc.table = record {
      same = refl;
      no_error = refl;
      no_rest = refl;
      unchanged = refl;
    } in
    let (enc1, dec1, block1, wrote, decoded, valid', unchanged', ready') =
      decode-encode_block collect enc (beside enc) fs [] fs valid unchanged ready allowed
        (collect-Accepts [] fs) in
    let (same_enc, same_block) =
      same_code enc1 enc' block1 block
        (sym (encode_fields-Encodes fs enc enc1 [] block1 wrote) ∙ codes) in
    rw (same_enc, same_block) at wrote

-- Fields of bytes, with sizes of 32 bits, that an `Encoder` with a valid header table encodes one
-- after the other, with no change of its bound to announce, are handed over by a `Decoder` with the
-- same table, no limit and nothing left to read, all of them and in their order; the tables are the
-- same again, and so is the rest of the condition, so that the next block may follow. A table is
-- valid whose recorded size is that of its entries and within its bound, which is below 2 ^ 31.
pub decode-encode_fields :
    (enc : Encoder) (dec : Decoder) (fs : List SentField)
    → IsValid enc.table
    → enc.size_changed ≡ false
    → Ready dec enc.table
    → All Allowed fs
    → (enc' : Encoder) × (dec' : Decoder) × (block : List ℕ) × (encode_fields enc [] fs
        ≡ some (enc', block))
      × (decode (some collect) 0 block dec [] ≡ some (dec', fs, none))
      × IsValid enc'.table
      × (enc'.size_changed ≡ false)
      × Ready dec' enc'.table
decode-encode_fields enc dec fs valid unchanged ready allowed =
    let (enc', dec', block, wrote, decoded, valid', unchanged', ready') =
      decode-encode_block collect enc dec fs [] fs valid unchanged ready allowed
        (collect-Accepts [] fs) in
    (
      enc',
      dec',
      block,
      encode_fields-Encodes fs enc enc' [] block wrote,
      decoded,
      valid',
      unchanged',
      ready',
    )
