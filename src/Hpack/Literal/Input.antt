-- ===== src/Hpack/Literal/Input.antt =====
-- hpack/hpack.go: how the decoder reads a string literal and a literal field from an input, and from
-- the same input with more bytes behind it.
use http.Prelude.{ℕ, ◌-◌, ◌%◌, ◌^◌, ◌≤◌, ◌≡◌, refl, arith}
use http.Prelude.{Bool, true, false, not, ltb, ◌==◌, if◌then◌else◌, inl, inr, Bool-cases, bit_and}
use http.Prelude.{
  List, [], ◌∷◌, ◌++◌, length, length-append, length-drop, take, drop, take-append_le,
  drop-append_le, Option, none, some,
}
use http.Prelude.Results.{Result, ok, err}
use http.Hpack.Error.{DecodeError, bad_index_value}
use http.Hpack.Outcome.{Outcome, gives, ◌>>=◌, of_result, or_panic, or_fail}
use http.Hpack.Static.{HeaderField}
use http.Hpack.Table.{HeaderTable, entry}
use http.Hpack.Integer.{dec_integer}
use http.Hpack.Huffman.Decode.{huffman_decode}
use http.Hpack.Literal.{
  IndexType, indexed_true, indexed_false, indexed_never, literal_prefix, string_at,
  dec_string_literal,
}
use http.Hpack.Decoder.{Literal, dec_name, read_literal}
use http.Hpack.Literal.Extended.{
  Extended, bind-Extended, Within, bind-Within, with_more, left, dec_integer-Extended,
  dec_integer-Within,
}

abbrev content_of : Bool → ℕ × List ℕ → Outcome (List ℕ × List ℕ)
content_of h (l, rest) = string_at h (ok (l, rest))

string_at_bind :
    (h : Bool) (r : Result DecodeError (ℕ × List ℕ))
    → string_at h r ≡ (of_result r >>= content_of h)
string_at_bind h (ok (l, rest)) = refl
string_at_bind h (err e) = refl

decoded-Extended :
    (more rest : List ℕ) (o : Option (List ℕ))
    → Extended
        (with_more more)
        (or_panic o >>= λ s. gives (s, rest))
        (or_panic o >>= λ s. gives (s, rest ++ more))
decoded-Extended more rest none = refl
decoded-Extended more rest (some s) = refl

by_flag :
    (more : List ℕ) (h : Bool) (o o' p p' : Outcome (List ℕ × List ℕ))
    → Extended (with_more more) o o'
    → Extended (with_more more) p p'
    → Extended (with_more more) (if h then o else p) (if h then o' else p')
by_flag more true o o' p p' x y = x
by_flag more false o o' p p' x y = y

content_of-Extended :
    (h : Bool) (l : ℕ) (rest more : List ℕ)
    → Extended (with_more more) (content_of h (l, rest)) (content_of h (l, rest ++ more))
content_of-Extended h l rest more = elim (Bool-cases (ltb (length rest) l)) [
  | inl short ↦ rw short (inl refl)
  | inr long ↦
      let enough : l ≤ length rest = ground arith in
      let long' : ltb (length (rest ++ more)) l ≡ false = ground (arith, length-append rest more) in
      rw (long, long', take-append_le l rest more enough, drop-append_le l rest more enough)
        (by_flag more h _ _ _ _
          (decoded-Extended more (drop l rest) (huffman_decode [] (take l rest))) refl)
]

dec_string_literal-Extended :
    (input more : List ℕ)
    → Extended (with_more more) (dec_string_literal input) (dec_string_literal (input ++ more))
unfolding dec_string_literal
dec_string_literal-Extended [] more = inl refl
dec_string_literal-Extended (b ∷ input) more =
    let h = not (bit_and b 128 == 0) in
    rw
      (
        string_at_bind h (dec_integer 7 (b ∷ input)),
        string_at_bind h (dec_integer 7 (b ∷ (input ++ more))),
      )
      (bind-Extended (with_more more) (with_more more) (of_result (dec_integer 7 (b ∷ input)))
        (of_result (dec_integer 7 (b ∷ (input ++ more)))) (content_of h)
        (dec_integer-Extended 7 (b ∷ input) more) (λ q. content_of-Extended h q.0 q.1 more))

decoded-Within :
    (bound : ℕ) (rest : List ℕ) (o : Option (List ℕ))
    → length rest ≤ bound
    → Within left bound (or_panic o >>= λ s. gives (s, rest))
decoded-Within bound rest none h = tt
decoded-Within bound rest (some s) h = h

content_of-Within :
    (h : Bool) (l bound : ℕ) (rest : List ℕ)
    → length rest ≤ bound
    → Within left bound (content_of h (l, rest))
content_of-Within h l bound rest enough =
    let less : length (drop l rest) ≤ bound = omega (arith, length-drop l rest) in
    elim (Bool-cases (ltb (length rest) l)) [
      | inl short ↦ rw short tt
      | inr long ↦ elim (Bool-cases h) [
        | inl coded ↦
            rw (long, coded)
              (decoded-Within bound (drop l rest) (huffman_decode [] (take l rest)) less)
        | inr plain ↦ rw (long, plain) less
      ]
    ]

dec_string_literal-Within : (input : List ℕ) → Within left (length input) (dec_string_literal input)
unfolding dec_string_literal
dec_string_literal-Within [] = tt
dec_string_literal-Within (b ∷ input) =
    let h = not (bit_and b 128 == 0) in
    rw (string_at_bind h (dec_integer 7 (b ∷ input))) (
      bind-Within left left (length (b ∷ input) - 1) (length (b ∷ input))
        (of_result (dec_integer 7 (b ∷ input))) (content_of h)
        (dec_integer-Within 7 (b ∷ input) (omega arith))
        (λ q less. content_of-Within h q.0 (length (b ∷ input)) q.1 (omega (arith, less))))

abbrev pub name_with_more : List ℕ → List ℕ × ℕ × List ℕ → List ℕ × ℕ × List ℕ
name_with_more more (name, size, rest) = (name, size, rest ++ more)

abbrev name_left : List ℕ × ℕ × List ℕ → ℕ
name_left (name, size, rest) = length rest

entry-Extended :
    (more input : List ℕ) (o : Option HeaderField)
    → Extended
        (name_with_more more)
        (or_fail bad_index_value o >>= λ hf. gives (hf.name, 0, input))
        (or_fail bad_index_value o >>= λ hf. gives (hf.name, 0, input ++ more))
entry-Extended more input none = inr refl
entry-Extended more input (some hf) = refl

dec_name-Extended :
    (t : HeaderTable) (idx : ℕ) (input more : List ℕ)
    → Extended (name_with_more more) (dec_name t idx input) (dec_name t idx (input ++ more))
unfolding dec_name
dec_name-Extended t idx input more = elim (Bool-cases (ltb 0 idx)) [
  | inl indexed ↦ rw indexed (entry-Extended more input (entry idx t))
  | inr named ↦ rw named (
      bind-Extended (with_more more) (name_with_more more) (dec_string_literal input)
        (dec_string_literal (input ++ more)) (λ r. gives (r.0, length r.0 % 2 ^ 32, r.1))
        (dec_string_literal-Extended input more) (λ r. refl))
]

entry-Within :
    (input : List ℕ) (o : Option HeaderField)
    → Within name_left
        (length input)
        (or_fail bad_index_value o >>= λ hf. gives (hf.name, 0, input))
entry-Within input none = tt
entry-Within input (some hf) = omega arith

dec_name-Within :
    (t : HeaderTable) (idx : ℕ) (input : List ℕ)
    → Within name_left (length input) (dec_name t idx input)
unfolding dec_name
dec_name-Within t idx input = elim (Bool-cases (ltb 0 idx)) [
  | inl indexed ↦ rw indexed (entry-Within input (entry idx t))
  | inr named ↦ rw named (
      bind-Within left name_left (length input) (length input) (dec_string_literal input)
        (λ r. gives (r.0, length r.0 % 2 ^ 32, r.1)) (dec_string_literal-Within input)
        (λ r less. less))
]

abbrev pub literal_with_more : List ℕ → Literal → Literal
literal_with_more more lit = record lit { rest = lit.rest ++ more }

abbrev pub literal_left : Literal → ℕ
literal_left lit = length lit.rest

pub read_literal-Extended :
    (t : HeaderTable) (ty : IndexType) (input more : List ℕ)
    → Extended
        (literal_with_more more)
        (read_literal t ty input)
        (read_literal t ty (input ++ more))
unfolding read_literal
read_literal-Extended t ty input more =
    bind-Extended (with_more more) (literal_with_more more) _ _ _
      (dec_integer-Extended (literal_prefix ty) input more)
      (λ i.
        bind-Extended (name_with_more more) (literal_with_more more) _ _ _
          (dec_name-Extended t i.0 i.1 more)
          (λ n.
            bind-Extended (with_more more) (literal_with_more more) _ _ _
              (dec_string_literal-Extended n.2 more) (λ v. refl)))

prefix_le : (ty : IndexType) → literal_prefix ty ≤ 8
prefix_le indexed_true = omega arith
prefix_le indexed_false = omega arith
prefix_le indexed_never = omega arith

pub read_literal-Within :
    (t : HeaderTable) (ty : IndexType) (input : List ℕ)
    → Within literal_left (length input - 1) (read_literal t ty input)
unfolding read_literal
read_literal-Within t ty input =
    bind-Within left literal_left (length input - 1) (length input - 1) _ _
      (dec_integer-Within (literal_prefix ty) input (prefix_le ty))
      (λ i less.
        bind-Within name_left literal_left (length i.1) (length input - 1) _ _
          (dec_name-Within t i.0 i.1)
          (λ n less1.
            bind-Within left literal_left (length n.2) (length input - 1) _ _
              (dec_string_literal-Within n.2) (λ v less2. omega (arith, less, less1, less2))))
