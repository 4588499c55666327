-- ===== src/Wire/Block/Keys.antt =====
-- write.go: the loops over the header map, which encode its fields and send the block.
use http.Prelude.{ℕ, ◌+◌, ◌-◌, ◌%◌, ◌^◌, ◌<◌, ◌≡◌, ◌⊎◌, refl, ap, sym, ◌∙◌, arith, All, true, false}
use http.Prelude.{◌||◌, ◌==◌, if◌then◌else◌, inl, inr}
use http.Prelude.{List, [], ◌∷◌, ◌++◌, length, none, some}
use http.Frame.Frames.{Header}
use http.Headers.{is_pseudo, starts_pseudo}
use http.Headers.Keys.{canonical_key}
use http.Hpack.Encoder.{Encoder, encode_header_field}
use http.Hpack.Sync.Blocks.{SentField, Encodes}
use http.Wire.Block.{
  Lead, BlockState, Sent, ◌>>=◌, counted, checked, encode_value, values_loop, flush, keys_loop,
}
use mathlib.Core.List.{append_assoc, append-nil}

abbrev pub plain_field : List ℕ → List ℕ → SentField
plain_field key value = record { name = key; value = value; sensitive = false }

-- The fields of a key, in front of others.
abbrev pub then_fields : List ℕ → List (List ℕ) → List SentField → List SentField
then_fields key [] fs = fs
then_fields key (v ∷ values) fs = plain_field key v ∷ then_fields key values fs

-- The fields of the keys that are not pseudo-header fields, as they are encoded.
abbrev pub regular_fields : (List ℕ → List ℕ) → Header → List SentField
regular_fields unicode [] = []
regular_fields unicode ((key, values) ∷ h) =
    let rest = regular_fields unicode h in
    if is_pseudo key then rest else then_fields (canonical_key unicode key) values rest

abbrev pub regular_len : Header → ℕ
regular_len [] = 0
regular_len ((key, values) ∷ h) = (if is_pseudo key then 0 else length values) + regular_len h

-- A key that may be sent: another one than the pseudo-header fields does not start like them, and
-- has a value.
abbrev pub MaySend : List ℕ × List (List ℕ) → Type 0
MaySend (key, values) =
    (is_pseudo key ≡ true)
    ⊎ ((is_pseudo key ≡ false)
        × ((length key == 0 || starts_pseudo key) ≡ false)
        × (0 < length values))

-- The state after `code` was appended to the buffer.
abbrev pub encoded : BlockState → Encoder → List ℕ → ℕ → ℕ → BlockState
encoded s enc code written remaining = record s {
  encoder = enc;
  buf = s.buf ++ code;
  written = written;
  remaining = remaining;
}

pub encode_value_lem :
    (key value : List ℕ) (s : BlockState) (enc : Encoder) (n : ℕ) (code : List ℕ)
    → ((dst : List ℕ)
        → encode_header_field s.encoder dst key value false ≡ some (enc, n, dst ++ code))
    → encode_value key value s
      ≡ some (encoded s enc code ((s.written + n) % 2 ^ 32) (s.remaining - 1))
unfolding encode_value
encode_value_lem key value s enc n code wrote = ap (counted s) (wrote s.buf)

-- The loop over the values of a key, where no limit is set.
abbrev pub Encoded :
    (BlockState → Sent) → List SentField → ℕ → Encoder → List ℕ → BlockState → Type 0
Encoded loop fs n enc' block s =
    (enc1 : Encoder) × (code : List ℕ) × (rest : List ℕ) × (written : ℕ) × (loop s
      ≡ some (encoded s enc1 code written (s.remaining - n), none))
    × (block ≡ code ++ rest)
    × Encodes enc1 fs enc' rest

pub values_loop-Encoded :
    (key : List ℕ) (values : List (List ℕ)) (fs : List SentField) (s : BlockState) (enc' : Encoder)
    (block : List ℕ)
    → Encodes s.encoder (then_fields key values fs) enc' block
    → Encoded (values_loop 0 key values) fs (length values) enc' block s
unfolding values_loop
values_loop-Encoded key [] fs s enc' block e = (
  s.encoder,
  [],
  block,
  s.written,
  ap (λ b. some (record s { buf = b }, none)) (sym (append-nil s.buf))
      ∙ ap (λ (r : ℕ). some (encoded s s.encoder [] s.written r, none)) (omega arith),
  refl,
  e,
)
values_loop-Encoded key (v ∷ values) fs s enc' block (enc0, n, code0, rest0, wrote, parts, later) =
    let s0 = encoded s enc0 code0 ((s.written + n) % 2 ^ 32) (s.remaining - 1) in
    let (enc1, code, rest, written, run, parts', later') =
      values_loop-Encoded key values fs s0 enc' rest0 later in
    let less : s.remaining - 1 - length values ≡ s.remaining - length (v ∷ values) = omega arith in
    (
      enc1,
      code0 ++ code,
      rest,
      written,
      ap (checked 0 (values_loop 0 key values)) (encode_value_lem key v s enc0 n code0 wrote)
          ∙ run
          ∙ ap
              (λ b. some (
                record s0 {
                  encoder = enc1;
                  buf = b;
                  written = written;
                  remaining = s.remaining - 1 - length values;
                },
                none,
              ))
              (append_assoc s.buf code0 code)
          ∙ ap (λ r. some (encoded s enc1 (code0 ++ code) written r, none)) less,
      parts ∙ ap (◌++◌ code0) parts' ∙ sym (append_assoc code0 code rest),
      later',
    )

-- Only pseudo-header fields are left.
pub no_fields :
    (unicode : List ℕ → List ℕ) (h : Header)
    → All MaySend h
    → regular_len h ≡ 0
    → regular_fields unicode h ≡ []
no_fields unicode [] may e = refl
no_fields unicode ((key, values) ∷ h) (inl pseudo, may) e =
    rw pseudo (no_fields unicode h may (ground (arith, e)))
no_fields unicode ((key, values) ∷ h) (inr (regular, named, some_value), may) e =
    absurd (ground (arith, e))

pub keys_loop_idle :
    (unicode : List ℕ → List ℕ) (k : Lead) (h : Header) (s : BlockState)
    → All MaySend h
    → regular_len h ≡ 0
    → keys_loop unicode k 0 h s ≡ some (s, none)
unfolding keys_loop
keys_loop_idle unicode k [] s may e = refl
keys_loop_idle unicode k ((key, values) ∷ h) s (inl pseudo, may) e =
    rw pseudo (keys_loop_idle unicode k h s may (ground (arith, e)))
keys_loop_idle unicode k ((key, values) ∷ h) s (inr (regular, named, some_value), may) e =
    absurd (ground (arith, e))

pub keys_loop_next :
    (unicode : List ℕ → List ℕ) (k : Lead) (key : List ℕ) (values : List (List ℕ)) (h : Header)
    (s : BlockState)
    → is_pseudo key ≡ false
    → (length key == 0 || starts_pseudo key) ≡ false
    → keys_loop unicode k 0 ((key, values) ∷ h) s
      ≡ (values_loop 0 (canonical_key unicode key) values s >>= flush k >>= keys_loop unicode k 0 h)
unfolding keys_loop
keys_loop_next unicode k key values h s regular named = rw (regular, named) refl
