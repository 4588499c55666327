-- ===== src/Hpack/Literal/Extended.antt =====
-- hpack/hpack.go: an outcome on an input, and that on the same input with more bytes behind it.
use http.Prelude.{ℕ, ◌-◌, ◌≤◌, ◌≡◌, ◌⊎◌, refl, ap, arith}
use http.Prelude.{inl, inr}
use http.Prelude.{List, ◌++◌, length}
use http.Prelude.Results.{Result, ok, err}
use http.Hpack.Error.{DecodeError, needs_more, integer_overflow}
use http.Hpack.Outcome.{Outcome, panics, fails, gives, ◌>>=◌, of_result}
use http.Hpack.Integer.{dec_integer}
use http.Hpack.Integer.Input.{
  dec_integer-append_ok, dec_integer-append_err, dec_integer_bounds, dec_integer_errors,
}

-- The second outcome is that of the longer input: a value is extended, a panic stays, and so does an
-- error unless it asks for more.
abbrev pub Extended {ℓ} : {A : Type ℓ} → (A → A) → Outcome A → Outcome A → Type ℓ
Extended ext panics o' = o' ≡ panics
Extended ext (fails e) o' = (e ≡ needs_more) ⊎ (o' ≡ fails e)
Extended ext (gives a) o' = o' ≡ gives (ext a)

pub bind-Extended {ℓ κ} :
    {A : Type ℓ} {B : Type κ} (ext : A → A) (ext' : B → B) (o o' : Outcome A) (k : A → Outcome B)
    → Extended ext o o'
    → ((a : A) → Extended ext' (k a) (k (ext a)))
    → Extended ext' (o >>= k) (o' >>= k)
bind-Extended ext ext' panics o' k h next = ap (λ x. x >>= k) h
bind-Extended ext ext' (fails e) o' k (inl more) next = inl more
bind-Extended ext ext' (fails e) o' k (inr same) next = inr (ap (λ x. x >>= k) same)
bind-Extended ext ext' (gives a) o' k h next = rw h (next a)

-- A value of at most the size given.
abbrev pub Within {ℓ} : {A : Type ℓ} → (A → ℕ) → ℕ → Outcome A → Type 0
Within size bound panics = Unit
Within size bound (fails e) = Unit
Within size bound (gives a) = size a ≤ bound

pub bind-Within {ℓ κ} :
    {A : Type ℓ} {B : Type κ} (size : A → ℕ) (size' : B → ℕ) (bound bound' : ℕ) (o : Outcome A)
    (k : A → Outcome B)
    → Within size bound o
    → ((a : A) → size a ≤ bound → Within size' bound' (k a))
    → Within size' bound' (o >>= k)
bind-Within size size' bound bound' panics k h next = tt
bind-Within size size' bound bound' (fails e) k h next = tt
bind-Within size size' bound bound' (gives a) k h next = next a h

-- More bytes behind those that are left.
abbrev pub with_more {ℓ} : {A : Type ℓ} → List ℕ → A × List ℕ → A × List ℕ
with_more more (a, rest) = (a, rest ++ more)

abbrev pub left {ℓ} : {A : Type ℓ} → A × List ℕ → ℕ
left (a, rest) = length rest

integer_result :
    (n : ℕ) (input more : List ℕ) (r : Result DecodeError (ℕ × List ℕ))
    → dec_integer n input ≡ r
    → Extended (with_more more) (of_result r) (of_result (dec_integer n (input ++ more)))
integer_result n input more (ok (i, rest)) h =
    ap of_result (dec_integer-append_ok n input more i rest h)
integer_result n input more (err e) h = elim (dec_integer_errors n input e h) [
  | inl cut ↦ inl cut
  | inr large ↦
      inr (ap of_result (dec_integer-append_err n input more e h (λ cut. absurd (ne large cut))))
]
  where
    ne : e ≡ integer_overflow → e ≡ needs_more → ⊥
    ne p q = cc

pub dec_integer-Extended :
    (n : ℕ) (input more : List ℕ)
    → Extended
        (with_more more)
        (of_result (dec_integer n input))
        (of_result (dec_integer n (input ++ more)))
dec_integer-Extended n input more = integer_result n input more (dec_integer n input) refl

integer_left :
    (n : ℕ) (input : List ℕ) (r : Result DecodeError (ℕ × List ℕ))
    → n ≤ 8
    → dec_integer n input ≡ r
    → Within left (length input - 1) (of_result r)
integer_left n input (ok (i, rest)) h e = omega (arith, dec_integer_bounds n input i rest h e)
integer_left n input (err f) h e = tt

pub dec_integer-Within :
    (n : ℕ) (input : List ℕ)
    → n ≤ 8
    → Within left (length input - 1) (of_result (dec_integer n input))
dec_integer-Within n input h = integer_left n input (dec_integer n input) h refl
