-- ===== src/Common/Bits.antt =====
-- `x & (2 ^ k - 1)` and `x & !(2 ^ k - 1)`, by which the array flavour takes a stamp apart.
use Prim.Native.Nat.{
  ℕ, zero, suc, ◌+◌, ◌-◌, ◌*◌, ◌/◌, ◌%◌, ◌^◌, ◌≤◌, ◌<◌, min, bit_and, digits, bit_and-bitwise,
}
use mathlib.Core.Path.{◌≡◌, ap}
use native.Mathlib.Nat.{pow-suc, one-le-pow}
use native.Mathlib.Omega.{arith}

-- The definition behind the native operation, with a count of digits of its own.
abbrev and_fuel : ℕ → ℕ → ℕ → ℕ
and_fuel n a b = digits (λ b. zero) min n a b

-- Any count from the number itself on gives the same.
and_fuel_lem : (k n a b : ℕ) → n ≤ k → a ≤ n → and_fuel n a b ≡ bit_and a b
and_fuel_lem k zero zero b p q = omega (arith, bit_and-bitwise 0 b)
and_fuel_lem k zero (suc a) b p q = absurd (omega arith)
and_fuel_lem k (suc n) zero b p q = omega (arith, bit_and-bitwise 0 b)
and_fuel_lem zero (suc n) (suc a) b p q = absurd (omega arith)
and_fuel_lem (suc k) (suc n) (suc a) b p q = omega (
  arith,
  bit_and-bitwise (suc a) b,
  and_fuel_lem k n (suc a / 2) (b / 2) (omega arith) (omega arith),
  and_fuel_lem k a (suc a / 2) (b / 2) (omega arith) (omega arith),
)

-- The lowest digit apart from the rest.
bit_and-digit : (a b : ℕ) → bit_and a b ≡ bit_and (a / 2) (b / 2) * 2 + min (a % 2) (b % 2)
bit_and-digit zero b = omega (arith, bit_and-bitwise 0 b, bit_and-bitwise 0 (b / 2))
bit_and-digit (suc a) b = omega (
  arith,
  bit_and-bitwise (suc a) b,
  and_fuel_lem a a (suc a / 2) (b / 2) (omega arith) (omega arith),
)

bit_and-zero_le : (n a : ℕ) → a ≤ n → bit_and a 0 ≡ 0
bit_and-zero_le n zero p = omega (arith, bit_and-bitwise 0 0)
bit_and-zero_le zero (suc a) p = absurd (omega arith)
bit_and-zero_le (suc n) (suc a) p =
    omega (arith, bit_and-digit (suc a) 0, bit_and-zero_le n (suc a / 2) (omega arith))

mul-pow-suc : (q k : ℕ) → q * 2 ^ suc k ≡ 2 * (q * 2 ^ k)
mul-pow-suc q k = omega (arith, ap (λ (t : ℕ). q * t) (pow-suc 2 k))

-- Below the mask.
pub bit_and_low : (k q r : ℕ) → r < 2 ^ k → bit_and (q * 2 ^ k + r) (2 ^ k - 1) ≡ r
bit_and_low zero q r h = omega (arith, bit_and-zero_le (q * 1 + r) (q * 1 + r) (omega arith))
bit_and_low (suc k) q r h = ground (
  arith,
  bit_and-digit (q * 2 ^ suc k + r) (2 ^ suc k - 1),
  mul-pow-suc q k,
  pow-suc 2 k,
  one-le-pow k 2,
  bit_and_low k q (r / 2) (omega (arith, pow-suc 2 k)),
)

-- Above it.
pub bit_and_high :
    (k q m r : ℕ) → r < 2 ^ k → bit_and (q * 2 ^ k + r) (m * 2 ^ k) ≡ bit_and q m * 2 ^ k
bit_and_high zero q m r h =
    let e : q * 1 + r ≡ q = omega arith in
    let f : m * 1 ≡ m = omega arith in rw (e, f) (omega arith)
bit_and_high (suc k) q m r h = ground (
  arith,
  bit_and-digit (q * 2 ^ suc k + r) (m * 2 ^ suc k),
  mul-pow-suc q k,
  mul-pow-suc m k,
  mul-pow-suc (bit_and q m) k,
  pow-suc 2 k,
  bit_and_high k q m (r / 2) (omega (arith, pow-suc 2 k)),
)
