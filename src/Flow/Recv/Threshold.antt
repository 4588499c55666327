-- ===== src/Flow/Recv/Threshold.antt =====
-- flow_control.go: the threshold of `windowUpdate`, computed in 32-bit floating point.
use http.Prelude.{ℕ, ◌+◌, ◌*◌, ◌/◌, ◌%◌, ◌^◌, ◌≤◌, ◌<◌, ◌≡◌, arith, dec_lt}
use http.Flow.Recv.{round_even, float32, threshold}
use native.Mathlib.Nat.{div-add-mod, mod-lt}

parity_le : (q m : ℕ) → q % 2 * m ≤ m
parity_le q m = grind arith

round_even_near :
    (n m : ℕ) → 0 < m → (2 * round_even n m ≤ 2 * n + m) × (2 * n ≤ 2 * round_even n m + m)
unfolding round_even
round_even_near n m h =
    ground (arith, div-add-mod n m, mod-lt n h, parity_le (n / m) m, parity_le (n / m + 1) m)

-- Above 2 ^ 24 the conversion is off by at most 64, the half of its coarsest unit.
pub float32_near : (n : ℕ) → n < 2 ^ 31 → (float32 n ≤ n + 64) × (n ≤ float32 n + 64)
unfolding float32
float32_near n h = ground (
  arith,
  round_even_near n 2,
  round_even_near n 4,
  round_even_near n 8,
  round_even_near n 16,
  round_even_near n 32,
  round_even_near n 64,
  round_even_near n 128,
)

float32_exact : (n : ℕ) → n < 2 ^ 24 → float32 n ≡ n
unfolding float32
float32_exact n h = ground arith

-- For a positive bound below 2 ^ 31 the threshold of `windowUpdate`, computed in 32-bit floating
-- point, is below the bound, and twice the threshold is at most 64 above and at most 65 below the
-- bound.
pub threshold_lem :
    (n : ℕ)
    → 0 < n
    → n < 2 ^ 31
    → (threshold n < n) × (2 * threshold n ≤ n + 64) × (n ≤ 2 * threshold n + 65)
unfolding threshold
threshold_lem n lo hi = elim (dec_lt n (2 ^ 24)) [
  | yes p ↦ omega (arith, float32_exact n p)
  | no p ↦ omega (arith, float32_near n hi)
]
