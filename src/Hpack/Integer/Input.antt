-- ===== src/Hpack/Integer/Input.antt =====
-- hpack/hpack.go: `decInteger` on any input, whole or cut, well formed or not.
use http.Prelude.{ℕ, ◌+◌, ◌-◌, ◌*◌, ◌%◌, ◌^◌, ◌≤◌, ◌<◌, ◌≡◌, refl, ◌≢◌, ◌⊎◌, inl, inr}
use http.Prelude.{bit_and, List, [], ◌∷◌, ◌++◌, length, length-append, arith}
use http.Prelude.Bits.{bit_and_ones, two_pow_mono}
use http.Prelude.Results.{Result, ok, err}
use http.Hpack.Error.{DecodeError, needs_more, integer_overflow}
use http.Hpack.Integer.{dec_loop, dec_integer}
use http.Hpack.Integer.RoundTrip.{encoding, dec_integer-encoding, shift_up}
use native.Mathlib.Nat.{one-le-pow}
use mathlib.Core.List.{append-nil}

-- `i'` of the loop.
abbrev step : ℕ → ℕ → ℕ → ℕ
step i m b = (i + bit_and b 127 * 2 ^ m % 2 ^ 64) % 2 ^ 64

dec_loop-append_ok :
    (i m : ℕ) (src more : List ℕ) (v : ℕ) (rest : List ℕ)
    → dec_loop i m src ≡ ok (v, rest)
    → dec_loop i m (src ++ more) ≡ ok (v, rest ++ more)
unfolding dec_loop
dec_loop-append_ok i m [] more v rest h = cc
dec_loop-append_ok i m (b ∷ bs) more v rest h =
    ground (arith, dec_loop-append_ok (step i m b) (m + 7) bs more v rest)

dec_loop-append_err :
    (i m : ℕ) (src more : List ℕ) (e : DecodeError)
    → dec_loop i m src ≡ err e
    → e ≢ needs_more
    → dec_loop i m (src ++ more) ≡ err e
unfolding dec_loop
dec_loop-append_err i m [] more e h ne = absurd (ne (cc))
dec_loop-append_err i m (b ∷ bs) more e h ne =
    ground (arith, dec_loop-append_err (step i m b) (m + 7) bs more e)

-- A number that `decInteger` reads from an input it reads from every longer one too, and leaves the
-- additional bytes behind those it left before.
pub dec_integer-append_ok :
    (n : ℕ) (src more : List ℕ) (v : ℕ) (rest : List ℕ)
    → dec_integer n src ≡ ok (v, rest)
    → dec_integer n (src ++ more) ≡ ok (v, rest ++ more)
unfolding dec_integer
dec_integer-append_ok n [] more v rest h = cc
dec_integer-append_ok n (b ∷ bs) more v rest h =
    ground (arith, dec_loop-append_ok (bit_and b (2 ^ n - 1)) 0 bs more v rest)

-- An error of `decInteger` other than the request for more input is final: more bytes give the same
-- error.
pub dec_integer-append_err :
    (n : ℕ) (src more : List ℕ) (e : DecodeError)
    → dec_integer n src ≡ err e
    → e ≢ needs_more
    → dec_integer n (src ++ more) ≡ err e
unfolding dec_integer
dec_integer-append_err n [] more e h ne = absurd (ne (cc))
dec_integer-append_err n (b ∷ bs) more e h ne =
    ground (arith, dec_loop-append_err (bit_and b (2 ^ n - 1)) 0 bs more e)

low_group_le : (b p : ℕ) → bit_and b 127 * p ≤ 127 * p
low_group_le b p = grind (arith, bit_and_ones 7 b)

step_bound :
    (bound i m b : ℕ) → m ≤ 56 → bound < 256 → i < bound + 2 ^ m → step i m b < bound + 2 ^ (m + 7)
step_bound bound i m b hm hb hi =
    omega (arith, shift_up m, low_group_le b (2 ^ m), two_pow_mono (m + 7) 63 (omega arith))

-- After `j` bytes the shift is 7 * j; no step wraps.
dec_loop_bounds :
    (bound i m j : ℕ) (src : List ℕ) (v : ℕ) (rest : List ℕ)
    → m ≡ 7 * j
    → j ≤ 8
    → bound < 256
    → i < bound + 2 ^ m
    → dec_loop i m src ≡ ok (v, rest)
    → (v < bound + 2 ^ 63) × (length rest < length src) × (length src + j ≤ length rest + 9)
unfolding dec_loop
dec_loop_bounds bound i m j [] v rest hm hj hb hi h = cc
dec_loop_bounds bound i m j (b ∷ bs) v rest hm hj hb hi h = ground (
  arith,
  step_bound bound i m b,
  two_pow_mono (m + 7) 63,
  dec_loop_bounds bound (step i m b) (m + 7) (j + 1) bs v rest,
)

-- A number that `decInteger` reads behind a prefix of at most 8 bits is below 2 ^ 63 + 2 ^ n, and
-- its code has from 1 to 10 bytes.
pub dec_integer_bounds :
    (n : ℕ) (src : List ℕ) (v : ℕ) (rest : List ℕ)
    → n ≤ 8
    → dec_integer n src ≡ ok (v, rest)
    → (v < 2 ^ 63 + 2 ^ n) × (length rest < length src) × (length src ≤ length rest + 10)
unfolding dec_integer
dec_integer_bounds n [] v rest hn h = cc
dec_integer_bounds n (b ∷ bs) v rest hn h =
    let bound = 2 ^ n - 1 in
    ground (
      arith,
      two_pow_mono n 8,
      one-le-pow n 2,
      bit_and_ones n b,
      dec_loop_bounds bound (bit_and b bound) 0 0 bs v rest,
    )

Result-cases {ℓ} :
    {A : Type ℓ} (r : Result DecodeError A)
    → ((a : A) × (r ≡ ok a)) ⊎ ((e : DecodeError) × (r ≡ err e))
Result-cases (ok a) = inl (a, refl)
Result-cases (err e) = inr (e, refl)

dec_loop_errors :
    (i m : ℕ) (src : List ℕ) (e : DecodeError)
    → dec_loop i m src ≡ err e
    → (e ≡ needs_more) ⊎ (e ≡ integer_overflow)
unfolding dec_loop
dec_loop_errors i m [] e h = inl (cc)
dec_loop_errors i m (b ∷ bs) e h = ground (arith, dec_loop_errors (step i m b) (m + 7) bs e)

pub dec_integer_errors :
    (n : ℕ) (src : List ℕ) (e : DecodeError)
    → dec_integer n src ≡ err e
    → (e ≡ needs_more) ⊎ (e ≡ integer_overflow)
unfolding dec_integer
dec_integer_errors n [] e h = inl (cc)
dec_integer_errors n (b ∷ bs) e h = ground (arith, dec_loop_errors (bit_and b (2 ^ n - 1)) 0 bs e)

-- Every proper prefix of the code of a number below 2 ^ 63, behind any flags and a prefix of at
-- most 8 bits, makes `decInteger` ask for more input.
pub dec_integer_truncated :
    (q n i x : ℕ) (front back : List ℕ)
    → n ≤ 8
    → i < 2 ^ 63
    → encoding q n i ≡ front ++ (x ∷ back)
    → dec_integer n front ≡ err needs_more
dec_integer_truncated q n i x front back hn hi e = elim (Result-cases (dec_integer n front)) [
  | inl ((v, rest), r) ↦ ground (
    arith,
    whole,
    dec_integer-append_ok n front (x ∷ back) v rest r,
    length-append rest (x ∷ back),
  )
  | inr (f, r) ↦ elim (dec_integer_errors n front f r) [
    | inl short ↦ rw short at r
    | inr long ↦
        absurd (cc (whole, rw long at (dec_integer-append_err n front (x ∷ back) f r (λ p. cc))))
  ]
]
  where
    whole : dec_integer n (front ++ (x ∷ back)) ≡ ok (i, [])
    whole = rw (append-nil, e) at (dec_integer-encoding q n i [] hn hi)
