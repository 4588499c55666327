-- ===== src/Wire/Fragments/Loop.antt =====
-- read.go: the loop over a header block, which decodes it in parts as large as the buffer.
use http.Prelude.{ℕ, zero, suc, ◌-◌, ◌≤◌, ◌<◌, ◌≡◌, refl, ap, sym, ◌∙◌, arith, Bool, false, ltb}
use http.Prelude.{if◌then◌else◌, Option-cases, inl, inr}
use http.Prelude.{
  List, [], ◌∷◌, ◌++◌, length, length-append, length-drop, take, drop, take-drop, take-append_le,
  drop-append_le, Option, none, some,
}
use http.Frame.Frames.{Header}
use http.Hpack.Error.{DecodeError}
use http.Hpack.Decoder.{Decoder}
use http.Hpack.Decode.{decode}
use http.Hpack.Decode.State.{InResult}
use http.Hpack.Decode.Parts.{decode-Parts, decode-InResult}
use http.Wire.Read.{Read, got, ◌>>=◌}
use http.Wire.Fragments.{FrameReader, add_field, decoded, fragment_loop}

panicked :
    (s : Option Header) (name value : List ℕ) (sensitive : Bool)
    → s ≡ none
    → (add_field s name value sensitive).0 ≡ none
panicked s name value sensitive e = rw e refl

result_panicked :
    (o : Option (Decoder × Option Header × Option DecodeError)) (dec : Decoder) (h : Header)
    (e : Option DecodeError)
    → InResult (λ s. s ≡ none) add_field panicked o
    → o ≡ some (dec, some h, e)
    → ⊥
result_panicked none dec h e p run = cc
result_panicked (some (dec1, s1, e1)) dec h e p run = cc

-- A state with which a block can be decoded is not that of a panic.
pub not_panicked :
    (limit : ℕ) (block : List ℕ) (dec dec' : Decoder) (s : Option Header) (h' : Header)
    → dec.error ≡ none
    → dec.size_changed ≡ false
    → decode (some add_field) limit block dec s ≡ some (dec', some h', none)
    → (h : Header) × (s ≡ some h)
not_panicked limit block dec dec' s h' no_error still run = elim (Option-cases s) [
  | inl gone ↦ absurd (
      result_panicked (decode (some add_field) limit block dec s) dec' h' none
        (decode-InResult add_field limit (λ s. s ≡ none) panicked block dec s no_error still gone)
        run)
  | inr there ↦ there
]

-- The part of the input that a round decodes.
abbrev chunk_of : FrameReader → ℕ → ℕ
chunk_of r n = if ltb r.buf_size n then r.buf_size else n

chunk_of_lem :
    (r : FrameReader) (n : ℕ) → 0 < r.buf_size → 0 < n → (0 < chunk_of r n) × (chunk_of r n ≤ n)
chunk_of_lem r n h k = ground arith

fragment_loop_step :
    (rounds n : ℕ) (r : FrameReader) (src : List ℕ) (dec dec1 : Decoder) (h h1 : Header)
    → chunk_of r (suc n) ≤ length src
    → decode (some add_field) r.max_header_list_size (take (chunk_of r (suc n)) src) dec (some h)
      ≡ some (dec1, some h1, none)
    → fragment_loop (suc rounds) r (suc n) src dec h
      ≡ fragment_loop rounds r (suc n - chunk_of r (suc n)) (drop (chunk_of r (suc n)) src) dec1 h1
unfolding fragment_loop
fragment_loop_step rounds n r src dec dec1 h h1 enough run =
    let long : ltb (length src) (chunk_of r (suc n)) ≡ false = ground (arith, enough) in
    rw long (
      ap
        (λ o. decoded o >>= λ d.
          fragment_loop rounds r (suc n - chunk_of r (suc n)) (drop (chunk_of r (suc n)) src) d.0
            d.1)
        run)

nothing_decoded :
    (dec dec' : Decoder) (h h' : Header) (e : Option DecodeError) (rest : List ℕ)
    → ◌≡◌ {A = Option (Decoder × Option Header × Option DecodeError)}
        (some (dec, some h, e))
        (some (dec', some h', none))
    → ◌≡◌ {A = Read (Decoder × Header × List ℕ)} (got (dec, h, rest)) (got (dec', h', rest))
nothing_decoded dec dec' h h' e rest same = cc

pub fragment_loop-decode :
    (rounds : ℕ) (r : FrameReader) (block rest : List ℕ) (dec dec' : Decoder) (h h' : Header)
    → length block ≤ rounds
    → 0 < r.buf_size
    → dec.error ≡ none
    → dec.size_changed ≡ false
    → decode (some add_field) r.max_header_list_size block dec (some h) ≡ some (dec', some h', none)
    → fragment_loop rounds r (length block) (block ++ rest) dec h ≡ got (dec', h', rest)
unfolding fragment_loop decode
fragment_loop-decode rounds r [] rest dec dec' h h' enough buf no_error still run =
    nothing_decoded dec dec' h h' dec.error rest run
fragment_loop-decode zero r (x ∷ block) rest dec dec' h h' enough buf no_error still run =
    absurd (omega arith)
fragment_loop-decode (suc rounds) r (x ∷ block) rest dec dec' h h' enough buf no_error still run =
    let whole = x ∷ block in
    let c = chunk_of r (length whole) in
    let (some_bytes, within) = chunk_of_lem r (length whole) buf (omega arith) in
    let (dec1, s1, first, second, no_error1, still1) =
      decode-Parts add_field r.max_header_list_size (take c whole) (drop c whole) dec dec' (some h)
        (some h') no_error still
        (ap (λ b. decode (some add_field) r.max_header_list_size b dec (some h))
            (sym (take-drop c whole))
          ∙ run) in
    let (h1, there) =
      not_panicked r.max_header_list_size (drop c whole) dec1 dec' s1 h' no_error1 still1 second in
    let left : length whole - c ≡ length (drop c whole) = omega (arith, length-drop c whole) in
    fragment_loop_step rounds (length block) r (whole ++ rest) dec dec1 h h1
      (omega (arith, length-append whole rest, within))
      (ap (λ b. decode (some add_field) r.max_header_list_size b dec (some h))
          (take-append_le c whole rest within)
        ∙ first
        ∙ ap (λ s. some (dec1, s, none)) there)
    ∙ ap (λ (n : ℕ). fragment_loop rounds r n (drop c (whole ++ rest)) dec1 h1) left
    ∙ ap (λ src. fragment_loop rounds r (length (drop c whole)) src dec1 h1)
        (drop-append_le c whole rest within)
    ∙ fragment_loop-decode rounds r (drop c whole) rest dec1 dec' h1 h'
        (omega (arith, left, some_bytes, enough)) buf no_error1 still1
        (ap (λ s. decode (some add_field) r.max_header_list_size (drop c whole) dec1 s) (sym there)
          ∙ second)
