-- ===== src/Common/Word.antt =====
-- `usize` on a 64-bit machine: wrapping arithmetic, complement, `next_power_of_two`.
use Prim.Native.Nat.{ℕ, zero, suc, ◌+◌, ◌-◌, ◌*◌, ◌%◌, ◌^◌, ◌≤◌, ◌<◌}
use mathlib.Core.Path.{◌≡◌, refl, ap}
use native.Mathlib.Decide.{dec_lt}
use native.Mathlib.Nat.{mod-eq_of_lt, mod_self, mul-le-mul_right, mul_comm}
use native.Mathlib.Omega.{arith}
use crossbeam_channel.Common.Tests.{leb, if◌then◌else◌}

-- 2 ^ 64
abbrev pub word : ℕ
word = 0x1_0000_0000_0000_0000

abbrev pub wrapping_add : ℕ → ℕ → ℕ
wrapping_add a b = (a + b) % word

abbrev pub wrapping_sub : ℕ → ℕ → ℕ
wrapping_sub a b = (a + word - b) % word

abbrev pub wrapping_mul : ℕ → ℕ → ℕ
wrapping_mul a b = (a * b) % word

-- `!a`
abbrev pub bit_not : ℕ → ℕ
bit_not a = word - 1 - a

-- The exponent of the least power of two from 2 ^ k on that is not below `n`, in at most `fuel`
-- doublings.
unfoldable pub power_from : ℕ → ℕ → ℕ → ℕ
power_from zero k n = k
power_from (suc fuel) k n =
    let rest = power_from fuel (suc k) n in if leb n (2 ^ k) then k else rest

-- `n.next_power_of_two()` is 2 to this power.
unfoldable pub next_power : ℕ → ℕ
unfolding power_from
next_power n = power_from 64 0 n

-- It is found, and no smaller power would do.
power_from_least :
    (fuel k j n : ℕ)
    → n ≤ 2 ^ j
    → k ≤ j
    → j ≤ k + fuel
    → (n ≤ 2 ^ power_from fuel k n) × (power_from fuel k n ≤ j)
unfolding power_from
power_from_least zero k j n h p q = let e : j ≡ k = omega arith in (rw e at h, omega arith)
power_from_least (suc fuel) k j n h p q = elim (dec_lt k j) [
  | yes lt ↦ ground (arith, power_from_least fuel (suc k) j n h)
  | no ge ↦ let e : j ≡ k = omega arith in let h' : n ≤ 2 ^ k = rw e at h in ground arith
]

pub next_power_least : (n j : ℕ) → n ≤ 2 ^ j → j ≤ 64 → (n ≤ 2 ^ next_power n) × (next_power n ≤ j)
unfolding next_power
next_power_least n j h p = power_from_least 64 0 j n h (omega arith) (omega arith)

-- Adding one lap to a stamp `{ lap: r, index: i }`, where `laps` laps make up a word.
pub wrapping_add-lap :
    (lap laps r i : ℕ)
    → lap * laps ≡ word
    → i < lap
    → r < laps
    → wrapping_add (r * lap + i) lap ≡ ((r + 1) % laps) * lap + i
wrapping_add-lap lap laps r i w hi hr = elim (dec_lt (r + 1) laps) [
  | yes p ↦
      let b : (r + 2) * lap ≤ laps * lap = mul-le-mul_right lap (omega arith) in
      let c : r * lap + i + lap < word = omega (arith, mul_comm lap laps) in
      rw (mod-eq_of_lt p, mod-eq_of_lt c) (omega arith)
  | no p ↦
      let e : r + 1 ≡ laps = omega arith in
      let z : (r + 1) % laps ≡ 0 = rw (e, mod_self) refl in
      let b : (r + 1) * lap ≡ laps * lap = ap (λ (t : ℕ). t * lap) e in
      let c : r * lap + i + lap ≡ word + i = omega (arith, mul_comm lap laps) in
      let d : i < word = grind arith in rw z (omega arith)
]
