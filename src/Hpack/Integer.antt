-- ===== src/Hpack/Integer.antt =====
-- hpack/hpack.go: integers with an n-bit prefix. `uint64` is a number below 2 ^ 64 and wraps.
pub mod RoundTrip
pub mod Input
use http.Prelude.{ℕ, ◌+◌, ◌-◌, ◌*◌, ◌/◌, ◌%◌, ◌^◌, ◌<◌, bit_and, bit_or, leb, ltb, ◌==◌}
use http.Prelude.{if◌then◌else◌, List, [], ◌∷◌, ◌++◌, dec_lt, arith}
use http.Prelude.Order.{lt_wf}
use http.Prelude.Results.{Result, ok, err}
use http.Hpack.Error.{DecodeError, needs_more, integer_overflow}
use mathlib.Core.Logic.{dite}
use mathlib.Core.WellFounded.{Acc}

pub shift_falls : (i : ℕ) → 127 < i → i / 128 < i
shift_falls i h = omega arith

-- `for i >= 128 { dst = append(dst, byte((i&0x7f)|0x80)); i >>= 7 }` and the last byte.
unfoldable pub enc_groups : List ℕ → (i : ℕ) → Acc ◌<◌ i → List ℕ
enc_groups dst i (Acc.intro _ smaller) =
    dite (dec_lt 127 i)
      (λ more.
        enc_groups (dst ++ ((bit_or (bit_and i 0x7f) 0x80 % 256) ∷ [])) (i / 128)
          (smaller _ (shift_falls i more)))
      (λ _. dst ++ ((i % 256) ∷ []))

unfoldable pub enc_integer : List ℕ → ℕ → ℕ → ℕ → List ℕ
enc_integer dst mask n i =
    let bound = 2 ^ n - 1 in
    if ltb i bound
    then dst ++ (bit_or mask (i % 256) ∷ [])
    else enc_groups (dst ++ (bit_or mask (bound % 256) ∷ [])) (i - bound) (lt_wf.apply (i - bound))

-- The loop over the bytes left, with `i` and `m` so far.
unfoldable pub dec_loop : ℕ → ℕ → List ℕ → Result DecodeError (ℕ × List ℕ)
dec_loop i m [] = err needs_more
dec_loop i m (b ∷ rest) =
    let i' = (i + bit_and b 127 * 2 ^ m % 2 ^ 64) % 2 ^ 64 in
    let more = dec_loop i' (m + 7) rest in
    if bit_and b 128 == 0
    then ok (i', rest)
    else (if leb 63 (m + 7) then err integer_overflow else more)

-- The value and the bytes behind it. What an error leaves of the input is not modelled: the callers
-- go back to the whole input (`errNeedsMore`) or read no more of it.
unfoldable pub dec_integer : ℕ → List ℕ → Result DecodeError (ℕ × List ℕ)
unfolding dec_loop
dec_integer n [] = err needs_more
dec_integer n (b ∷ rest) =
    let bound = 2 ^ n - 1 in
    let i = bit_and b bound in if ltb i bound then ok (i, rest) else dec_loop i 0 rest
