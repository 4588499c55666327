-- ===== src/Hpack/Decode/After.antt =====
-- hpack/hpack.go: what the result of reading a field says about longer inputs.
use http.Prelude.{ℕ, ◌<◌, ◌≡◌, ◌≢◌, ◌⊎◌, refl}
use http.Prelude.{Bool, true, false, inl, inr}
use http.Prelude.{List, ◌∷◌, ◌++◌, length, Option, none, some}
use http.Prelude.Results.{ok, err}
use http.Hpack.Error.{
  DecodeError, header_fields_too_large, needs_more, header_table_size_update_required,
  header_table_size_update, truncated, bad_header_block, bad_header_table_size, bad_index_value,
  integer_overflow, handler_error,
}
use http.Hpack.Table.{HeaderTable}
use http.Hpack.Literal.{IndexType}
use http.Hpack.Literal.Input.{literal_with_more}
use http.Hpack.Decoder.{Decoder, Literal, is_never, with_table}
use http.Hpack.Decode.{Handler, Step, call, handled, literal_handled}

pub needs_cases : (e : DecodeError) → (e ≡ needs_more) ⊎ (e ≢ needs_more)
needs_cases header_fields_too_large = inr (λ h. cc)
needs_cases needs_more = inl refl
needs_cases header_table_size_update_required = inr (λ h. cc)
needs_cases header_table_size_update = inr (λ h. cc)
needs_cases truncated = inr (λ h. cc)
needs_cases bad_header_block = inr (λ h. cc)
needs_cases bad_header_table_size = inr (λ h. cc)
needs_cases bad_index_value = inr (λ h. cc)
needs_cases integer_overflow = inr (λ h. cc)
needs_cases (handler_error m) = inr (λ h. cc)

-- What `decode` does not change of a decoder.
pub record Keeps (dec dec' : Decoder) : Type 0 where
  pub same_b : dec'.b ≡ dec.b
  pub same_error : dec'.error ≡ dec.error
  pub still : dec.size_changed ≡ false → dec'.size_changed ≡ false

-- A decoder, where there is one, keeps that.
abbrev pub Kept : Decoder → Option Decoder → Type 0
Kept dec none = Unit
Kept dec (some dec') = Keeps dec dec'

pub with_table-Kept :
    (dec dec' : Decoder) (o : Option (HeaderTable × Bool))
    → Keeps dec dec'
    → Kept dec (with_table dec' o)
with_table-Kept dec dec' none keeps = tt
with_table-Kept dec dec' (some (t, changed)) keeps = record {
  same_b = keeps.same_b;
  same_error = keeps.same_error;
  still = keeps.still;
}

pub started : (dec : Decoder) → Keeps dec (record dec { st = true })
started dec = record { same_b = refl; same_error = refl; still = λ h. h }

module _ {ℓ} {S : Type ℓ} where
  -- What follows from the result on `input` for a function that reads a field: more bytes are left
  -- over, a panic or an error is the same with them, and where bytes are missing the call can be
  -- repeated.
  abbrev pub After :
      (List ℕ → Decoder → S → Option (Step S))
      → List ℕ
      → List ℕ
      → Decoder
      → S
      → Option (Step S)
      → Type ℓ
  After f input more dec s none = f (input ++ more) dec s ≡ none
  After f input more dec s (some (dec', s', ok (n, rest))) =
      (f (input ++ more) dec s ≡ some (dec', s', ok (n, rest ++ more)))
      × (length rest < length input)
      × Keeps dec dec'
  After f input more dec s (some (dec', s', err e)) =
      ((e ≡ needs_more)
        × (s' ≡ s)
        × Keeps dec dec'
        × ((again : List ℕ) → f again dec' s ≡ f again dec s))
      ⊎ ((e ≢ needs_more) × (f (input ++ more) dec s ≡ some (dec', s', err e)))

  abbrev pub Branch : (List ℕ → Decoder → S → Option (Step S)) → Type ℓ
  Branch f =
      (b : ℕ) (input more : List ℕ) (dec : Decoder) (s : S)
      → After f (b ∷ input) more dec s (f (b ∷ input) dec s)

  pub handled-After :
      (f : List ℕ → Decoder → S → Option (Step S)) (input more : List ℕ) (dec : Decoder) (s : S)
      (dec' : Decoder) (hsize : ℕ) (rest : List ℕ) (r : S × Option (List ℕ))
      → f (input ++ more) dec s ≡ some (handled dec' hsize (rest ++ more) r)
      → length rest < length input
      → Keeps dec dec'
      → After f input more dec s (some (handled dec' hsize rest r))
  handled-After f input more dec s dec' hsize rest (s', none) e less keeps = (e, less, keeps)
  handled-After f input more dec s dec' hsize rest (s', some m) e less keeps = inr (λ h. cc, e)

  pub literal_handled-After :
      (f : List ℕ → Decoder → S → Option (Step S)) (input more : List ℕ) (dec : Decoder) (s : S)
      (handle : Option (Handler S)) (ty : IndexType) (lit : Literal) (o : Option Decoder)
      → f (input ++ more) dec s ≡ literal_handled handle ty s (literal_with_more more lit) o
      → length lit.rest < length input
      → Kept dec o
      → After f input more dec s (literal_handled handle ty s lit o)
  literal_handled-After f input more dec s handle ty lit none e less keeps = e
  literal_handled-After f input more dec s handle ty lit (some dec') e less keeps =
      handled-After f input more dec s dec' lit.hsize lit.rest
        (call handle s lit.name lit.value (is_never ty)) e less keeps
