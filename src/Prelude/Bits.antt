-- ===== src/Prelude/Bits.antt =====
-- `&` with a low mask, `|` of disjoint fields and single bits, as arithmetic at every width.
use Prim.Native.Nat.{ℕ, zero, suc, ◌+◌, ◌-◌, ◌*◌, ◌/◌, ◌%◌, ◌^◌, ◌≤◌, ◌<◌, min, max}
use Prim.Native.Nat.{bit_and, bit_or, bit_xor, digits, bitwise}
use Prim.Native.Nat.{bit_and-bitwise, bit_or-bitwise, bit_xor-bitwise, differ}
use mathlib.Core.Path.{◌≡◌, refl, sym, ap, ◌∙◌}
use mathlib.Core.Logic.{◌↔◌}
use native.Mathlib.Nat.{pow-suc, one-le-pow, pow-le-pow_right, le_refl}
use native.Mathlib.Omega.{arith}

-- `bitwise` is a recursion on binary digits that is bounded by its first number.
module _ (rest : ℕ → ℕ) (digit : ℕ → ℕ → ℕ) where
  digits_at_zero : (n y : ℕ) → digits rest digit n 0 y ≡ rest y
  digits_at_zero zero y = refl
  digits_at_zero (suc n) y = refl

  -- Two bounds that are large enough give the same.
  digits_enough : (n m x y : ℕ) → x ≤ n → x ≤ m → digits rest digit n x y ≡ digits rest digit m x y
  digits_enough n m zero y below below' = digits_at_zero n y ∙ sym (digits_at_zero m y)
  digits_enough zero m (suc x) y below below' = absurd (omega arith)
  digits_enough (suc n) zero (suc x) y below below' = absurd (omega arith)
  digits_enough (suc n) (suc m) (suc x) y below below' =
      rw (digits_enough n m (suc x / 2) (y / 2) (omega arith) (omega arith))

  low_digit :
      (x y : ℕ)
      → bitwise rest digit (suc x) y
        ≡ bitwise rest digit (suc x / 2) (y / 2) * 2 + digit (suc x % 2) (y % 2)
  low_digit x y =
      let half : suc x / 2 ≤ x = omega arith in
      omega (arith, digits_enough x (suc x / 2) (suc x / 2) (y / 2) half (le_refl (suc x / 2)))

pub bit_or-digit : (x y : ℕ) → bit_or x y ≡ bit_or (x / 2) (y / 2) * 2 + max (x % 2) (y % 2)
bit_or-digit zero y = simp bit_or-bitwise (omega arith)
bit_or-digit (suc x) y = simp bit_or-bitwise (low_digit (λ b. b) max x y)

pub bit_and-digit : (x y : ℕ) → bit_and x y ≡ bit_and (x / 2) (y / 2) * 2 + min (x % 2) (y % 2)
bit_and-digit zero y = simp bit_and-bitwise (omega arith)
bit_and-digit (suc x) y = simp bit_and-bitwise (low_digit (λ b. 0) min x y)

or_zero : (k a : ℕ) → a ≤ k → bit_or a 0 ≡ a
or_zero k zero h = refl
or_zero zero (suc a) h = absurd (omega arith)
or_zero (suc k) (suc a) h =
    omega (arith, bit_or-digit (suc a) 0, or_zero k (suc a / 2) (omega arith))

pub bit_or-zero : (a : ℕ) → bit_or a 0 ≡ a
bit_or-zero a = or_zero a a (le_refl a)

and_zero : (bound x : ℕ) → x ≤ bound → bit_and x 0 ≡ 0
and_zero bound zero below = refl
and_zero zero (suc x) below = absurd (omega arith)
and_zero (suc bound) (suc x) below =
    let halved = and_zero bound (suc x / 2) (omega arith) in
    omega (arith, halved, bit_and-digit (suc x) 0)

pub bit_and-zero : (a : ℕ) → bit_and a 0 ≡ 0
bit_and-zero a = and_zero a a (le_refl a)

pub two_pow_mono : (a b : ℕ) → a ≤ b → 2 ^ a ≤ 2 ^ b
two_pow_mono a b h = pow-le-pow_right {n = 2} (omega arith) h

pub double_pow : (q k : ℕ) → q * 2 ^ suc k ≡ 2 * (q * 2 ^ k)
double_pow q k = omega (arith, ap (λ (t : ℕ). q * t) (pow-suc 2 k))

-- A field above bit `k` and one below it do not meet.
pub bit_or_fields : (k q r : ℕ) → r < 2 ^ k → bit_or (q * 2 ^ k) r ≡ q * 2 ^ k + r
bit_or_fields zero q r h = ground (arith, bit_or-zero q)
bit_or_fields (suc k) q r h =
    ground (
      arith,
      bit_or-digit (q * 2 ^ suc k) r,
      double_pow q k,
      bit_or_fields k q (r / 2) (omega arith),
    )

-- The same with the fields in the other order.
pub bit_or_fields_swap : (k q r : ℕ) → r < 2 ^ k → bit_or r (q * 2 ^ k) ≡ q * 2 ^ k + r
bit_or_fields_swap zero q zero h = simp bit_or-bitwise (omega arith)
bit_or_fields_swap zero q (suc r) h = absurd (omega arith)
bit_or_fields_swap (suc k) q r h = ground (
  arith,
  bit_or-digit r (q * 2 ^ suc k),
  double_pow q k,
  bit_or_fields_swap k q (r / 2) (omega arith),
)

pub bit_and_low_field : (k q r : ℕ) → r < 2 ^ k → bit_and (q * 2 ^ k + r) (2 ^ k - 1) ≡ r
bit_and_low_field zero q r h = rw bit_and-zero (omega arith)
bit_and_low_field (suc k) q r h = ground (
  arith,
  bit_and-digit (q * 2 ^ suc k + r) (2 ^ suc k - 1),
  double_pow q k,
  pow-suc 2 k,
  bit_and_low_field k q (r / 2) (omega arith),
)

-- A mask of `k` ones.
pub bit_and_ones : (k a : ℕ) → bit_and a (2 ^ k - 1) ≡ a % 2 ^ k
bit_and_ones k a = ground (arith, one-le-pow k 2, bit_and_low_field k (a / 2 ^ k) (a % 2 ^ k))

and_bit : (k q r : ℕ) → r < 2 ^ k → bit_and (q * 2 ^ k + r) (2 ^ k) ≡ q % 2 * 2 ^ k
and_bit zero q r h =
    let e : q * 2 ^ 0 + r ≡ q = omega arith in
    rw e (omega (arith, bit_and-digit q 1, bit_and-zero (q / 2)))
and_bit (suc k) q r h = ground (
  arith,
  bit_and-digit (q * 2 ^ suc k + r) (2 ^ suc k),
  double_pow q k,
  double_pow (q % 2) k,
  pow-suc 2 k,
  one-le-pow k 2,
  and_bit k q (r / 2) (omega arith),
)

-- The bit number `k` alone.
pub bit_and_bit : (k a : ℕ) → bit_and a (2 ^ k) ≡ a / 2 ^ k % 2 * 2 ^ k
bit_and_bit k a = ground (arith, one-le-pow k 2, and_bit k (a / 2 ^ k) (a % 2 ^ k))

pub bit_xor-digit : (a b : ℕ) → bit_xor a b ≡ bit_xor (a / 2) (b / 2) * 2 + differ (a % 2) (b % 2)
bit_xor-digit zero b = simp bit_xor-bitwise (omega arith)
bit_xor-digit (suc a) b = simp bit_xor-bitwise (low_digit (λ y. y) differ a b)

differ-eq : (a b : ℕ) → differ a b ≡ 0 → a ≡ b
differ-eq zero b h = sym h
differ-eq (suc a) zero h = h
differ-eq (suc a) (suc b) h = ap suc (differ-eq a b h)

differ_self : (a : ℕ) → differ a a ≡ 0
differ_self zero = refl
differ_self (suc a) = differ_self a

xor_eq : (k a b : ℕ) → a ≤ k → b ≤ k → bit_xor a b ≡ 0 → a ≡ b
xor_eq zero zero zero p q h = refl
xor_eq zero (suc a) b p q h = absurd (omega arith)
xor_eq zero zero (suc b) p q h = absurd (omega arith)
xor_eq (suc k) a b p q h = omega (
  arith,
  bit_xor-digit a b,
  differ-eq (a % 2) (b % 2) (omega (arith, bit_xor-digit a b)),
  xor_eq k (a / 2) (b / 2) (omega arith) (omega arith) (omega (arith, bit_xor-digit a b)),
)

xor_self : (k a : ℕ) → a ≤ k → bit_xor a a ≡ 0
xor_self zero zero h = refl
xor_self zero (suc a) h = absurd (omega arith)
xor_self (suc k) a h =
    omega (arith, bit_xor-digit a a, differ_self (a % 2), xor_self k (a / 2) (omega arith))

-- `a ^ b` is zero for equal numbers only.
pub bit_xor_zero_iff : (a b : ℕ) → (bit_xor a b ≡ 0) ↔ (a ≡ b)
bit_xor_zero_iff a b =
    (xor_eq (a + b) a b (omega arith) (omega arith), λ e. rw e (xor_self b b (le_refl b)))

or_parts : (k a b : ℕ) → a ≤ k → b ≤ k → bit_or a b ≡ 0 → (a ≡ 0) × (b ≡ 0)
or_parts zero a b p q h = omega arith
or_parts (suc k) a b p q h =
    let (e, f) =
      or_parts k (a / 2) (b / 2) (omega arith) (omega arith) (omega (arith, bit_or-digit a b)) in
    omega (arith, bit_or-digit a b)

-- `a | b` is zero for zeros only.
pub bit_or_zero_iff : (a b : ℕ) → (bit_or a b ≡ 0) ↔ ((a ≡ 0) × (b ≡ 0))
bit_or_zero_iff a b = (or_parts (a + b) a b (omega arith) (omega arith), λ e. rw (e.0, e.1) refl)
