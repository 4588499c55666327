-- ===== src/Wire/Block/Whole.antt =====
-- write.go: a HEADERS or PUSH_PROMISE frame with its whole block.
use http.Prelude.{ℕ, ◌+◌, ◌-◌, ◌*◌, ◌%◌, ◌^◌, ◌<◌, ◌≡◌, refl, ap, sym, ◌∙◌, arith, All, false}
use http.Prelude.{◌==◌, if◌then◌else◌, Bool-cases, inl, inr, str_eq, str_eq_iff}
use http.Prelude.{List, [], ◌∷◌, ◌++◌, length, Option, none, some}
use http.Frame.Frames.{Header}
use http.Headers.{is_pseudo, header_len}
use http.Hpack.Encoder.{Encoder}
use http.Hpack.Table.Eviction.{IsValid}
use http.Hpack.Sync.Blocks.{SentField, Allowed, Encodes, encode_fields, encode_fields_code}
use http.Wire.Write.Control.{IsHealthy}
use http.Wire.Block.{
  Lead, BlockState, BlockWriter, Sent, ◌>>=◌, unlimited, values_at, pseudo_value, pseudo_loop,
  keys_loop, written_block, write_block,
}
use http.Wire.Block.Frames.{Frames, HasRoom, sent_to}
use http.Wire.Block.Keys.{
  plain_field, regular_fields, regular_len, MaySend, encoded, encode_value_lem, Encoded,
}
use http.Wire.Block.Loop.{encoded-SendsAll, keys_loop-SendsAll}
use mathlib.Core.List.{append_assoc, append-nil}

-- How often a key is in a list.
abbrev pub times : List ℕ → List (List ℕ) → ℕ
times key [] = 0
times key (k ∷ keys) = (if str_eq key k then 1 else 0) + times key keys

-- An order in which a map with the keys of `pseudoHeader` may be iterated.
abbrev pub IsOrder : List (List ℕ) → Type 0
IsOrder pseudo = (key : List ℕ) → times key pseudo ≡ (if is_pseudo key then 1 else 0)

-- No key twice.
abbrev pub Distinct : Header → Type 0
Distinct [] = Unit
Distinct ((key, values) ∷ h) = (values_at key h ≡ none) × Distinct h

abbrev pub IsSingle : Option (List (List ℕ)) → Type 0
IsSingle none = Unit
IsSingle (some []) = ⊥
IsSingle (some (v ∷ [])) = Unit
IsSingle (some (v ∷ v' ∷ values)) = ⊥

abbrev pub then_field : List ℕ → Option (List (List ℕ)) → List SentField → List SentField
then_field key none fs = fs
then_field key (some []) fs = fs
then_field key (some (v ∷ values)) fs = plain_field key v ∷ fs

-- The pseudo-header fields, in front of others.
abbrev pub then_pseudo : Header → List (List ℕ) → List SentField → List SentField
then_pseudo h [] fs = fs
then_pseudo h (key ∷ keys) fs = then_field key (values_at key h) (then_pseudo h keys fs)

-- The fields of a header map in the order in which they are encoded.
abbrev pub block_fields : (List ℕ → List ℕ) → List (List ℕ) → Header → List SentField
block_fields unicode pseudo h = then_pseudo h pseudo (regular_fields unicode h)

abbrev size_of : Option (List (List ℕ)) → ℕ
size_of none = 0
size_of (some values) = length values

abbrev pub pseudo_len : Header → List (List ℕ) → ℕ
pseudo_len h [] = 0
pseudo_len h (key ∷ keys) = size_of (values_at key h) + pseudo_len h keys

values_at_head :
    (key k : List ℕ) (values : List (List ℕ)) (h : Header)
    → values_at key h ≡ none
    → size_of (if str_eq key k then some values else values_at k h)
      ≡ (if str_eq key k then length values else 0) + size_of (values_at k h)
values_at_head key k values h fresh = elim (Bool-cases (str_eq key k)) [
  | inl same ↦
      let e : key ≡ k = (str_eq_iff key k).0 same in
      let gone : values_at k h ≡ none = rw e at fresh in rw (same, gone) (omega arith)
  | inr other ↦ rw other (omega arith)
]

pseudo_len_head :
    (key : List ℕ) (values : List (List ℕ)) (h : Header) (keys : List (List ℕ))
    → values_at key h ≡ none
    → pseudo_len ((key, values) ∷ h) keys ≡ length values * times key keys + pseudo_len h keys
pseudo_len_head key values h [] fresh = omega arith
pseudo_len_head key values h (k ∷ keys) fresh =
    let rest = pseudo_len_head key values h keys fresh in
    let first = values_at_head key k values h fresh in
    elim (Bool-cases (str_eq key k)) [
      | inl same ↦ rw same (grind (arith, first, rest))
      | inr other ↦ rw other (grind (arith, first, rest))
    ]

-- `Len` counts the values of the pseudo-header fields and the others.
header_len_parts :
    (pseudo : List (List ℕ)) (h : Header)
    → IsOrder pseudo
    → Distinct h
    → header_len h ≡ pseudo_len h pseudo + regular_len h
unfolding header_len
header_len_parts pseudo [] order distinct = no_values pseudo
  where
    no_values : (keys : List (List ℕ)) → 0 ≡ pseudo_len [] keys + 0
    no_values [] = refl
    no_values (k ∷ keys) = omega (arith, no_values keys)
header_len_parts pseudo ((key, values) ∷ h) order (fresh, distinct) =
    let rest = header_len_parts pseudo h order distinct in
    let first = pseudo_len_head key values h pseudo fresh in
    elim (Bool-cases (is_pseudo key)) [
      | inl yes_pseudo ↦
          let once : times key pseudo ≡ 1 = order key ∙ rw yes_pseudo refl in
          rw (yes_pseudo, first, once) (omega (arith, rest))
      | inr regular ↦
          let never : times key pseudo ≡ 0 = order key ∙ rw regular refl in
          rw (regular, first, never) (omega (arith, rest))
    ]

-- One key of `pseudoHeader`, by what the map has for it.
value-Encoded :
    (key : List ℕ) (o : Option (List (List ℕ))) (fs more : List SentField) (n : ℕ)
    (next : BlockState → Sent) (s : BlockState) (enc' : Encoder) (block : List ℕ)
    → IsSingle o
    → Encodes s.encoder (then_field key o more) enc' block
    → ((t : BlockState) (rest : List ℕ)
        → Encodes t.encoder more enc' rest
        → Encoded next fs n enc' rest t)
    → Encoded (λ t. pseudo_value key next t o) fs (size_of o + n) enc' block s
value-Encoded key none fs more n next s enc' block single codes later =
    let (enc1, code, rest, written, run, parts, codes') = later s block codes in
    (
      enc1,
      code,
      rest,
      written,
      run ∙ ap (λ (r : ℕ). some (encoded s enc1 code written r, none)) (omega arith),
      parts,
      codes',
    )
value-Encoded key (some []) fs more n next s enc' block single codes later = absurd single
value-Encoded key (some (v ∷ [])) fs more n next s enc' block single
      (enc0, hsize, code0, rest0, wrote, parts0, codes) later =
    let s0 = encoded s enc0 code0 ((s.written + hsize) % 2 ^ 32) (s.remaining - 1) in
    let (enc1, code, rest, written, run, parts, codes') = later s0 rest0 codes in
    let less : s.remaining - 1 - n ≡ s.remaining - (length (v ∷ []) + n) = omega arith in
    (
      enc1,
      code0 ++ code,
      rest,
      written,
      ap (unlimited next) (encode_value_lem key v s enc0 hsize code0 wrote)
          ∙ run
          ∙ ap
              (λ b. some (
                record s0 {
                  encoder = enc1;
                  buf = b;
                  written = written;
                  remaining = s.remaining - 1 - n;
                },
                none,
              ))
              (append_assoc s.buf code0 code)
          ∙ ap (λ r. some (encoded s enc1 (code0 ++ code) written r, none)) less,
      parts0 ∙ ap (◌++◌ code0) parts ∙ sym (append_assoc code0 code rest),
      codes',
    )
value-Encoded key (some (v ∷ v' ∷ values)) fs more n next s enc' block single codes later =
    absurd single

pub pseudo_loop-Encoded :
    (h : Header) (keys : List (List ℕ)) (fs : List SentField) (s : BlockState) (enc' : Encoder)
    (block : List ℕ)
    → All (λ key. IsSingle (values_at key h)) keys
    → Encodes s.encoder (then_pseudo h keys fs) enc' block
    → Encoded (pseudo_loop h keys) fs (pseudo_len h keys) enc' block s
unfolding pseudo_loop
pseudo_loop-Encoded h [] fs s enc' block single codes = (
  s.encoder,
  [],
  block,
  s.written,
  ap (λ b. some (record s { buf = b }, none)) (sym (append-nil s.buf))
      ∙ ap (λ (r : ℕ). some (encoded s s.encoder [] s.written r, none)) (omega arith),
  refl,
  codes,
)
pseudo_loop-Encoded h (key ∷ keys) fs s enc' block (single, others) codes =
    value-Encoded key (values_at key h) fs (then_pseudo h keys fs) (pseudo_len h keys)
      (pseudo_loop h keys) s enc' block single codes
      (λ t rest codes'. pseudo_loop-Encoded h keys fs t enc' rest others codes')

-- What is asked of a header map: no key twice, one value at most for each pseudo-header field, and
-- another key, all of which may be sent and have a value.
pub record IsSendable (pseudo : List (List ℕ)) (h : Header) : Type 0 where
  pub order : IsOrder pseudo
  pub distinct : Distinct h
  pub single : All (λ key. IsSingle (values_at key h)) pseudo
  pub may : All MaySend h
  pub some_field : 0 < regular_len h

-- On a writer that takes every byte, has no limit for the header list, a valid header table, with a
-- bound below 2 ^ 31 and no change of it to announce, the header block of a HEADERS or PUSH_PROMISE
-- frame is sent as a list of frames: their fragments make up the block that the encoder gives for
-- the fields, no payload exceeds the writer's frame size, all but the first are CONTINUATION
-- frames, and the last one alone has END_HEADERS. The encoder is left as the fields leave it. It
-- holds for header fields of bytes with sizes of 32 bits and a block below 2 ^ 32 bytes, where what
-- stands in front of it fits a frame; the keys of the map are distinct, one of them is no
-- pseudo-header field, those have a value each and do not start with a colon, and a pseudo-header
-- field has one value.
pub write_block-Frames :
    (unicode : List ℕ → List ℕ) (pseudo : List (List ℕ)) (k : Lead) (h : Header) (b : BlockWriter)
    (enc' : Encoder) (block : List ℕ)
    → IsSendable pseudo h
    → HasRoom k b.writer.max_frame_size
    → IsHealthy b.writer
    → b.max_header_list_size ≡ 0
    → IsValid b.encoder.table
    → b.encoder.size_changed ≡ false
    → All Allowed (block_fields unicode pseudo h)
    → encode_fields b.encoder [] (block_fields unicode pseudo h) ≡ some (enc', block)
    → length block < 2 ^ 32
    → (bytes : List ℕ) × (write_block unicode pseudo k h b
        ≡ some (record b { writer = sent_to b.writer bytes; encoder = enc' }, none))
      × Frames k b.writer.max_frame_size false block bytes
unfolding write_block
write_block-Frames unicode pseudo k h b enc' block sendable fits healthy no_limit valid unchanged
      allowed encoded_as short =
    let codes : Encodes b.encoder (block_fields unicode pseudo h) enc' block =
      encode_fields_code b.encoder enc' (block_fields unicode pseudo h) block valid unchanged
        allowed encoded_as in
    let s : BlockState = record {
      writer = b.writer;
      encoder = b.encoder;
      buf = [];
      written = 0;
      remaining = header_len h;
      first_sent = false;
    } in
    let count = header_len_parts pseudo h sendable.order sendable.distinct in
    let (enc1, code, rest, written, run, parts, later) =
      pseudo_loop-Encoded h pseudo (regular_fields unicode h) s enc' block sendable.single codes in
    let s1 = encoded s enc1 code written (header_len h - pseudo_len h pseudo) in
    let (bytes, written', run', frames) =
      encoded-SendsAll k s enc1 enc' code rest block written (header_len h - pseudo_len h pseudo)
        (keys_loop unicode k 0 h s1)
        (pseudo_loop h pseudo s >>= keys_loop unicode k b.max_header_list_size h)
        (ap (λ limit. pseudo_loop h pseudo s >>= keys_loop unicode k limit h) no_limit
          ∙ ap (λ r. r >>= keys_loop unicode k 0 h) run)
        parts
        (keys_loop-SendsAll unicode k h s1 enc' rest sendable.may fits healthy
          (omega (arith, count)) sendable.some_field later
          (omega (arith, ap (λ (l : List ℕ). length l) parts, short))) in
    let some_values : (header_len h == 0) ≡ false = ground (arith, count, sendable.some_field) in
    (bytes, rw some_values (ap (written_block b) run'), frames)
