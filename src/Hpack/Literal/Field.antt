-- ===== src/Hpack/Literal/Field.antt =====
-- hpack/hpack.go: the literals of header fields, as `encLiteral` writes them and the decoder reads
-- them.
use http.Prelude.{ℕ, ◌+◌, ◌*◌, ◌%◌, ◌^◌, ◌≤◌, ◌<◌, ◌≡◌, ◌⊎◌, refl, ap, sym, ◌∙◌, arith}
use http.Prelude.{
  true, false, ltb, ◌==◌, if◌then◌else◌, inl, inr, List, [], ◌∷◌, ◌++◌, length, some,
}
use http.Hpack.Error.{bad_index_value}
use http.Prelude.Results.{ok}
use http.Hpack.Outcome.{gives, or_fail, ◌>>=◌}
use http.Hpack.Static.{field}
use http.Hpack.Table.{HeaderTable, entry}
use http.Hpack.Integer.{enc_integer, dec_integer}
use http.Hpack.Integer.RoundTrip.{encoding, enc_integer-encoding, dec_integer-encoding}
use http.Hpack.Literal.{
  IndexType, indexed_true, indexed_false, indexed_never, HuffmanUse, literal_mask, literal_prefix,
  literal_size, enc_literal, enc_string_literal,
}
use http.Hpack.Literal.RoundTrip.{IsString, encoding_first, dec_string_literal-enc_string_literal}
use http.Hpack.Decoder.{dec_name, read_literal}
use mathlib.Core.List.{append_assoc, append-nil}

-- No index, or that of a field of the name.
abbrev pub Named : HeaderTable → List ℕ → ℕ → Type 0
Named t name idx =
    (idx ≡ 0) ⊎ ((1 ≤ idx) × (idx < 2 ^ 63) × ((v : List ℕ) × (entry idx t ≡ some (field name v))))

abbrev flags : IndexType → ℕ
flags indexed_true = 1
flags indexed_false = 0
flags indexed_never = 1

mask_flags : (ty : IndexType) → literal_mask ty ≡ flags ty * 2 ^ literal_prefix ty
mask_flags indexed_true = refl
mask_flags indexed_false = refl
mask_flags indexed_never = refl

prefix_le : (ty : IndexType) → literal_prefix ty ≤ 8
prefix_le indexed_true = omega arith
prefix_le indexed_false = omega arith
prefix_le indexed_never = omega arith

-- What the encoder appends for the name.
dec_name-code :
    (t : HeaderTable) (name : List ℕ) (idx : ℕ) (h : HuffmanUse)
    → Named t name idx
    → IsString name
    → (code : List ℕ) × ((dst : List ℕ)
        → (if idx == 0 then enc_string_literal dst name h else dst) ≡ dst ++ code)
      × ((rest : List ℕ)
          → dec_name t idx (code ++ rest)
            ≡ gives (name, (if idx == 0 then length name % 2 ^ 32 else 0), rest))
unfolding dec_name
dec_name-code t name idx h (inl e) valid =
    let (code, wrote, read) = dec_string_literal-enc_string_literal name h valid in
    rw e
      (code, wrote, λ rest. ap (λ o. o >>= λ r. gives (r.0, length r.0 % 2 ^ 32, r.1)) (read rest))
dec_name-code t name idx h (inr (pos, small, (v, e))) valid =
    let test : (idx == 0) ≡ false = ground arith in
    let test' : ltb 0 idx ≡ true = ground arith in
    rw (test, test')
      (
        [],
        λ dst. sym (append-nil dst),
        λ rest. ap (λ o. or_fail bad_index_value o >>= λ hf. gives (hf.name, 0, rest)) e,
      )

-- What was written is read back, whatever follows: its first byte says which kind of literal it is.
abbrev pub Reads : HeaderTable → IndexType → List ℕ → List ℕ → ℕ → List ℕ → Type 0
Reads t ty name value hsize code =
    ((b : ℕ) × (tail : List ℕ) × (code ≡ b ∷ tail)
      × (literal_mask ty ≤ b)
      × (b < literal_mask ty + 2 ^ literal_prefix ty))
    × ((rest : List ℕ)
        → read_literal t ty (code ++ rest)
          ≡ gives (record { name = name; value = value; hsize = hsize; rest = rest }))

pub read_literal-enc_literal :
    (t : HeaderTable) (name value : List ℕ) (ty : IndexType) (idx : ℕ) (h : HuffmanUse)
    → Named t name idx
    → IsString name
    → IsString value
    → (code : List ℕ) × ((dst : List ℕ)
        → enc_literal dst name value ty idx h ≡ (literal_size name value idx, dst ++ code))
      × Reads t ty name value (literal_size name value idx) code
unfolding enc_literal read_literal
read_literal-enc_literal t name value ty idx h named valid valid' =
    let small : idx < 2 ^ 63 = ground arith in
    let q = flags ty in
    let n = literal_prefix ty in
    let (v, tail, low, first) = encoding_first q n idx in
    let (code1, wrote1, read1) = dec_name-code t name idx h named valid in
    let (code2, wrote2, read2) = dec_string_literal-enc_string_literal value h valid' in
    let start : (dst : List ℕ) → enc_integer dst (literal_mask ty) n idx ≡ dst ++ encoding q n idx =
      λ dst.
        ap (λ m. enc_integer dst m n idx) (mask_flags ty)
        ∙ enc_integer-encoding dst q n idx (prefix_le ty) small in
    let code = encoding q n idx ++ (code1 ++ code2) in
    let wrote : (dst : List ℕ)
        → enc_string_literal
            (if idx == 0
              then enc_string_literal (enc_integer dst (literal_mask ty) n idx) name h
              else enc_integer dst (literal_mask ty) n idx)
            value h
          ≡ dst ++ code =
      λ dst.
        ap (λ d. enc_string_literal (if idx == 0 then enc_string_literal d name h else d) value h)
          (start dst)
        ∙ ap (λ d. enc_string_literal d value h) (wrote1 (dst ++ encoding q n idx))
        ∙ wrote2 ((dst ++ encoding q n idx) ++ code1)
        ∙ append_assoc (dst ++ encoding q n idx) code1 code2
        ∙ append_assoc dst (encoding q n idx) (code1 ++ code2) in
    (
      code,
      λ dst. ap (λ d. (literal_size name value idx, d)) (wrote dst),
      (
        (
          q * 2 ^ n + v,
          tail ++ (code1 ++ code2),
          ap (λ c. c ++ (code1 ++ code2)) first,
          omega (arith, mask_flags ty),
          omega (arith, mask_flags ty, low),
        ),
        λ rest.
            let int : dec_integer n (code ++ rest) ≡ ok (idx, code1 ++ (code2 ++ rest)) =
              ap (dec_integer n) (
                append_assoc (encoding q n idx) (code1 ++ code2) rest
                ∙ ap (◌++◌ (encoding q n idx)) (append_assoc code1 code2 rest))
              ∙ dec_integer-encoding q n idx (code1 ++ (code2 ++ rest)) (prefix_le ty) small in
            rw (int, read1 (code2 ++ rest), read2 rest) refl,
      ),
    )
