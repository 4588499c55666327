-- ===== src/Prelude/BitStrings.antt =====
-- Numbers as strings of bits, the highest first.
use http.Prelude.Tests.{◌==◌, if◌then◌else◌}
use http.Prelude.Lists.{length, take, replicate}
use Prim.Native.Nat.{ℕ, zero, suc, ◌+◌, ◌*◌, ◌/◌, ◌%◌, ◌^◌, ◌≤◌, ◌<◌}
use mathlib.Core.Path.{◌≡◌, refl, sym, ap, ◌∙◌}
use mathlib.Core.Bool.{Bool, true, false}
use mathlib.Core.List.{List, [], ◌∷◌, ◌++◌}
use native.Mathlib.Nat.{
  add-mul, mul-lt-mul_of_pos_right, zero-div, mod-lt, mod-eq_of_lt, add-mul-mod_self_right, pow-suc,
  one-le-pow, div-div-eq-div-mul, add-mul-div_right, mod-add-div', mul_assoc, mul_comm,
}
use http.Prelude.Bits.{double_pow}
use native.Mathlib.Omega.{arith}
use native.Mathlib.Decide.{dec_lt}

-- The low `k` bits of a number.
unfoldable pub bits : ℕ → ℕ → List Bool
bits zero n = []
bits (suc k) n = (n / 2 ^ k % 2 == 1) ∷ bits k n

-- The number of a string of bits, behind the number `acc`.
unfoldable pub number : ℕ → List Bool → ℕ
number acc [] = acc
number acc (b ∷ p) = number (2 * acc + (if b then 1 else 0)) p

pub length-bits : (k n : ℕ) → length (bits k n) ≡ k
unfolding bits
length-bits zero n = refl
length-bits (suc k) n = ap suc (length-bits k n)

pub pow_add : (a b : ℕ) → 2 ^ (a + b) ≡ 2 ^ b * 2 ^ a
pow_add zero b = let e : zero + b ≡ b = omega arith in rw e (omega arith)
pow_add (suc a) b =
    let e : suc a + b ≡ suc (a + b) = omega arith in
    rw (e, pow-suc 2 (a + b), pow_add a b, pow-suc 2 a) (mul_assoc (2 ^ b) (2 ^ a) 2)

pub bits-add : (a b n : ℕ) → bits (a + b) n ≡ bits a (n / 2 ^ b) ++ bits b n
unfolding bits
bits-add zero b n = let e : zero + b ≡ b = omega arith in rw e refl
bits-add (suc a) b n =
    let e : suc a + b ≡ suc (a + b) = omega arith in
    rw (e, pow_add a b, div-div-eq-div-mul n (2 ^ b) (2 ^ a))
      (ap (◌∷◌ (n / (2 ^ b * 2 ^ a) % 2 == 1)) (bits-add a b n))

pub bits_shifted : (k n q : ℕ) → bits k (n + q * 2 ^ k) ≡ bits k n
unfolding bits
bits_shifted zero n q = refl
bits_shifted (suc k) n q =
    let e : n + q * 2 ^ suc k ≡ n + q * 2 * 2 ^ k =
      (let p : 2 ^ suc k ≡ 2 ^ k * 2 = pow-suc 2 k in
        let c : 2 ^ k * 2 ≡ 2 * 2 ^ k = omega arith in
        rw (p, c, sym (mul_assoc q 2 (2 ^ k))) refl) in
    let d : (n + q * 2 * 2 ^ k) / 2 ^ k ≡ n / 2 ^ k + q * 2 =
      add-mul-div_right n (q * 2) (one-le-pow k 2 (omega arith)) in
    let m : (n / 2 ^ k + q * 2) % 2 ≡ n / 2 ^ k % 2 = omega arith in
    rw (e, d, m) (ap (◌∷◌ (n / 2 ^ k % 2 == 1)) (bits_shifted k n (q * 2)))

-- The bits above the first `k` do not matter.
pub bits-mod : (k d n : ℕ) → bits k (n % 2 ^ (d + k)) ≡ bits k n
bits-mod k d n =
    let q = n / 2 ^ (d + k) in
    let e : n % 2 ^ (d + k) + q * 2 ^ d * 2 ^ k ≡ n =
      rw (mul_assoc q (2 ^ d) (2 ^ k), mul_comm (2 ^ d) (2 ^ k), sym (pow_add d k))
        (mod-add-div' n (2 ^ (d + k))) in
    sym (bits_shifted k (n % 2 ^ (d + k)) (q * 2 ^ d)) ∙ ap (bits k) e

pub bits-low : (k n : ℕ) → bits k (n % 2 ^ k) ≡ bits k n
bits-low k n = let e : k ≡ 0 + k = omega arith in ap (λ i. bits k (n % 2 ^ i)) e ∙ bits-mod k 0 n

pub bits-zero : (k : ℕ) → bits k 0 ≡ replicate k false
unfolding bits
bits-zero zero = refl
bits-zero (suc k) = rw (bits-zero k, zero-div (2 ^ k)) refl

take_all_false : (m j : ℕ) → take m (replicate (m + j) false) ≡ replicate m false
take_all_false zero j = refl
take_all_false (suc m) j =
    let e : suc m + j ≡ suc (m + j) = omega arith in rw e (ap (◌∷◌ false) (take_all_false m j))

-- The beginning of a string and a part of what follows.
pub take-append_add {ℓ} :
    {A : Type ℓ} (xs ys : List A) (m : ℕ) → take (length xs + m) (xs ++ ys) ≡ xs ++ take m ys
take-append_add [] ys m = let e : 0 + m ≡ m = omega arith in ap (λ i. take i ys) e
take-append_add (x ∷ xs) ys m =
    let e : suc (length xs) + m ≡ suc (length xs + m) = omega arith in
    rw e (ap (◌∷◌ x) (take-append_add xs ys m))

-- Zeros that fill a string up.
pub take-replicate :
    (p : List Bool) (m j : ℕ)
    → take (length p + m) (p ++ replicate (m + j) false) ≡ p ++ replicate m false
take-replicate p m j =
    take-append_add p (replicate (m + j) false) m ∙ ap (◌++◌ p) (take_all_false m j)

pub number-append : (acc : ℕ) (p q : List Bool) → number acc (p ++ q) ≡ number (number acc p) q
unfolding number
number-append acc [] q = refl
number-append acc (b ∷ p) q = number-append (2 * acc + (if b then 1 else 0)) p q

pub number_bounds :
    (acc : ℕ) (p : List Bool)
    → (acc * 2 ^ length p ≤ number acc p) × (number acc p < (acc + 1) * 2 ^ length p)
unfolding number
number_bounds acc [] = omega arith
number_bounds acc (true ∷ p) =
    let n = length p in
    omega (arith, double_pow acc n, double_pow (acc + 1) n, number_bounds (2 * acc + 1) p)
number_bounds acc (false ∷ p) =
    let n = length p in
    omega (arith, double_pow acc n, double_pow (acc + 1) n, number_bounds (2 * acc + 0) p)

low_bit : (n : ℕ) → (if n % 2 == 1 then 1 else 0) ≡ n % 2
low_bit n = ground arith

pub shift_mod : (k m c : ℕ) → c * 2 ^ m % 2 ^ (k + m) ≡ c % 2 ^ k * 2 ^ m
shift_mod k m c =
    let r = c % 2 ^ k in
    let q = c / 2 ^ k in
    let whole : r * 2 ^ m + q * (2 ^ m * 2 ^ k) ≡ c * 2 ^ m =
      rw
        (
          mul_comm (2 ^ m) (2 ^ k),
          sym (mul_assoc q (2 ^ k) (2 ^ m)),
          sym (add-mul r (q * 2 ^ k) (2 ^ m)),
        )
        (ap (λ x. x * 2 ^ m) (mod-add-div' c (2 ^ k))) in
    let small : r * 2 ^ m < 2 ^ m * 2 ^ k = rw (mul_comm (2 ^ m) (2 ^ k)) (
      mul-lt-mul_of_pos_right (mod-lt c (one-le-pow k 2 (omega arith)))
        (one-le-pow m 2 (omega arith))) in
    ap (λ x. x % 2 ^ (k + m)) (sym whole)
    ∙ ap (λ x. (r * 2 ^ m + q * (2 ^ m * 2 ^ k)) % x) (pow_add k m)
    ∙ add-mul-mod_self_right (r * 2 ^ m) q (2 ^ m * 2 ^ k)
    ∙ mod-eq_of_lt small

-- The bit above the first `k`.
mod_next : (k n : ℕ) → n % 2 ^ suc k ≡ n / 2 ^ k % 2 * 2 ^ k + n % 2 ^ k
mod_next k n =
    let q = n / 2 ^ k in
    let r = n % 2 ^ k in
    let small : r < 2 ^ k = mod-lt n (one-le-pow k 2 (omega arith)) in
    let bound : q % 2 * 2 ^ k ≤ 2 ^ k = elim (dec_lt (q % 2) 1) [
      | yes h ↦ let e : q % 2 ≡ 0 = omega arith in rw e (omega arith)
      | no h ↦ let e : q % 2 ≡ 1 = omega arith in rw e (omega arith)
    ] in
    let whole : q % 2 * 2 ^ k + r + q / 2 * 2 ^ suc k ≡ n = omega (
      arith,
      mod-add-div' n (2 ^ k),
      double_pow (q / 2) k,
      ap (λ x. x * 2 ^ k) (mod-add-div' q 2),
    ) in
    ap (λ x. x % 2 ^ suc k) (sym whole)
    ∙ add-mul-mod_self_right (q % 2 * 2 ^ k + r) (q / 2) (2 ^ suc k)
    ∙ mod-eq_of_lt (omega (arith, pow-suc 2 k))

pub number-bits : (acc k n : ℕ) → number acc (bits k n) ≡ acc * 2 ^ k + n % 2 ^ k
unfolding number bits
number-bits acc zero n = omega arith
number-bits acc (suc k) n =
    let q = n / 2 ^ k in
    let e : n % 2 ^ suc k ≡ q % 2 * 2 ^ k + n % 2 ^ k = mod_next k n in
    ap (λ t. number (2 * acc + t) (bits k n)) (low_bit q)
    ∙ number-bits (2 * acc + q % 2) k n
    ∙ omega (arith, e, double_pow acc k)
