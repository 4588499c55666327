-- ===== src/Hpack/Integer/RoundTrip.antt =====
-- hpack/hpack.go: `encInteger` against `decInteger`.
use http.Prelude.{ℕ, zero, suc, ◌+◌, ◌-◌, ◌*◌, ◌/◌, ◌%◌, ◌^◌, ◌≤◌, ◌<◌, ◌≡◌, ap}
use http.Prelude.{bit_and, bit_or, ltb, if◌then◌else◌, List, [], ◌∷◌, ◌++◌, arith}
use http.Prelude.Bits.{
  bit_or_fields, bit_or_fields_swap, bit_and_ones, bit_and_bit, bit_and_low_field,
}
use http.Prelude.Order.{lt_wf}
use http.Prelude.Results.{ok}
use http.Hpack.Integer.{enc_groups, enc_integer, dec_loop, dec_integer}
use mathlib.Core.List.{append_assoc}
use mathlib.Core.WellFounded.{Acc}
use native.Mathlib.Nat.{div-add-mod, one-le-pow, pow-le-pow_right}
use native.Mathlib.Numerals.{towards_suc}

-- The groups of seven bits, the lowest first, in plain arithmetic; `k` groups may follow the first.
unfoldable pub groups : ℕ → ℕ → List ℕ
groups zero i = i ∷ []
groups (suc k) i =
    let rest = groups k (i / 128) in if ltb 127 i then (i % 128 + 128) ∷ rest else i ∷ []

inner_group : (i : ℕ) → bit_or (bit_and i 0x7f) 0x80 % 256 ≡ i % 128 + 128
inner_group i =
    let low : bit_and i 0x7f ≡ i % 128 = bit_and_ones 7 i in
    rw low (omega (arith, bit_or_fields_swap 7 1 (i % 128) (omega arith)))

enc_groups-eq :
    (k : ℕ) (dst : List ℕ) (i : ℕ) (w : Acc ◌<◌ i)
    → i < 128 ^ suc k
    → enc_groups dst i w ≡ dst ++ groups k i
unfolding enc_groups groups
enc_groups-eq zero dst i (Acc.intro _ smaller) h = ground arith
enc_groups-eq (suc k) dst i (Acc.intro _ smaller) h = grind (
  arith,
  inner_group i,
  λ (w : Acc ◌<◌ (i / 128)).
      enc_groups-eq k (dst ++ ((i % 128 + 128) ∷ [])) (i / 128) w (omega arith),
  append_assoc dst ((i % 128 + 128) ∷ []) (groups k (i / 128)),
)

pub shift_up : (m : ℕ) → 2 ^ (m + 7) ≡ 128 * 2 ^ m
shift_up m = simp towards_suc (omega arith)

regroup : (v m : ℕ) → v * 2 ^ m ≡ v % 128 * 2 ^ m + v / 128 * 2 ^ (m + 7)
regroup v m =
    omega (
      arith,
      ap (λ (t : ℕ). t * 2 ^ m) (div-add-mod v 128),
      ap (λ (t : ℕ). v / 128 * t) (shift_up m),
    )

last_group :
    (g i m : ℕ) (rest : List ℕ)
    → g < 128
    → i + g * 2 ^ m < 2 ^ 64
    → dec_loop i m (g ∷ rest) ≡ ok (i + g * 2 ^ m, rest)
unfolding dec_loop
last_group g i m rest hg fits = ground (arith, bit_and_ones 7 g, bit_and_bit 7 g)

next_group :
    (g i m : ℕ) (rest : List ℕ)
    → g < 128
    → m < 56
    → i + g * 2 ^ m < 2 ^ 64
    → dec_loop i m ((g + 128) ∷ rest) ≡ dec_loop (i + g * 2 ^ m) (m + 7) rest
unfolding dec_loop
next_group g i m rest hg hm fits = ground (arith, bit_and_ones 7 (g + 128), bit_and_bit 7 (g + 128))

dec_loop-groups :
    (k v i m : ℕ) (rest : List ℕ)
    → v < 128 ^ suc k
    → m + 7 * k ≤ 56
    → i + v * 2 ^ m < 2 ^ 64
    → dec_loop i m (groups k v ++ rest) ≡ ok (i + v * 2 ^ m, rest)
unfolding groups
dec_loop-groups zero v i m rest hv hm fits = last_group v i m rest hv fits
dec_loop-groups (suc k) v i m rest hv hm fits = ground (
  arith,
  last_group v i m rest,
  regroup v m,
  next_group (v % 128) i m (groups k (v / 128) ++ rest),
  dec_loop-groups k (v / 128) (i + v % 128 * 2 ^ m) (m + 7) rest (omega arith),
)

-- An encoder's first byte has flags above the n bits of the prefix.
prefix_bits : (n q v : ℕ) → v < 2 ^ n → bit_and (bit_or (q * 2 ^ n) v) (2 ^ n - 1) ≡ v
prefix_bits n q v h = rw (bit_or_fields n q v h) (bit_and_low_field n q v h)

-- The encoding of `i` behind the flags `q` of its first byte, in plain arithmetic.
unfoldable pub encoding : ℕ → ℕ → ℕ → List ℕ
unfolding groups
encoding q n i =
    let bound = 2 ^ n - 1 in
    if ltb i bound
    then bit_or (q * 2 ^ n) i ∷ []
    else bit_or (q * 2 ^ n) bound ∷ groups 8 (i - bound)

pub enc_integer-encoding :
    (dst : List ℕ) (q n i : ℕ)
    → n ≤ 8
    → i < 2 ^ 63
    → enc_integer dst (q * 2 ^ n) n i ≡ dst ++ encoding q n i
unfolding enc_integer encoding
enc_integer-encoding dst q n i hn hi =
    let bound = 2 ^ n - 1 in
    let first : List ℕ = bit_or (q * 2 ^ n) bound ∷ [] in
    ground (
      arith,
      pow-le-pow_right {n = 2} (omega arith) hn,
      one-le-pow n 2,
      enc_groups-eq 8 (dst ++ first) (i - bound) (lt_wf.apply (i - bound)),
      append_assoc dst first (groups 8 (i - bound)),
    )

pub dec_integer-encoding :
    (q n i : ℕ) (rest : List ℕ)
    → n ≤ 8
    → i < 2 ^ 63
    → dec_integer n (encoding q n i ++ rest) ≡ ok (i, rest)
unfolding dec_integer encoding
dec_integer-encoding q n i rest hn hi =
    let bound = 2 ^ n - 1 in
    ground (
      arith,
      pow-le-pow_right {n = 2} (omega arith) hn,
      one-le-pow n 2,
      prefix_bits n q i,
      prefix_bits n q bound (omega (arith, one-le-pow n 2)),
      dec_loop-groups 8 (i - bound) bound 0 rest,
    )

-- For a prefix of at most 8 bits, any flags above it and a number below 2 ^ 63, `encInteger`
-- appends a code to its buffer, and `decInteger` reads that number from the code and leaves just
-- the bytes that follow it.
pub dec_integer-enc_integer :
    (dst rest : List ℕ) (q n i : ℕ)
    → n ≤ 8
    → i < 2 ^ 63
    → (code : List ℕ) × (enc_integer dst (q * 2 ^ n) n i ≡ dst ++ code)
      × (dec_integer n (code ++ rest) ≡ ok (i, rest))
dec_integer-enc_integer dst rest q n i hn hi =
    (encoding q n i, enc_integer-encoding dst q n i hn hi, dec_integer-encoding q n i rest hn hi)
