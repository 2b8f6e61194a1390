-- ===== src/Flavors/Array/Stamp.antt =====
-- The stamps of src/flavors/array.rs: an index into the buffer and a lap, packed into one `usize`.
use Prim.Native.Nat.{bit_and}
use native.Mathlib.Nat.{
  mod-lt, mod-add-mod, pow-suc, one-le-pow, mul_comm, div-eq_of_lt, mul-add-div_right,
}
use crossbeam_channel.Common.{
  ℕ, zero, suc, ◌+◌, ◌-◌, ◌*◌, ◌/◌, ◌%◌, ◌^◌, ◌≤◌, ◌<◌, ◌≡◌, refl, ap, ◌∙◌, arith, ltb,
  if◌then◌else◌,
}
use crossbeam_channel.Common.Word.{word, wrapping_add, wrapping_mul, bit_not, wrapping_add-lap}
use crossbeam_channel.Common.Bits.{bit_and_low, bit_and_high}

-- `x & (one_lap - 1)`
unfoldable pub index_of : ℕ → ℕ → ℕ
index_of one_lap x = bit_and x (one_lap - 1)

-- `x & !(one_lap - 1)`
unfoldable pub lap_of : ℕ → ℕ → ℕ
lap_of one_lap x = bit_and x (bit_not (one_lap - 1))

-- The head or the tail after a claim of the slot that it names.
unfoldable pub advance : ℕ → ℕ → ℕ → ℕ
advance cap one_lap x =
    if ltb (index_of one_lap x + 1) cap
    then x + 1
    else wrapping_add (lap_of one_lap x) (wrapping_mul one_lap 2)

-- What `with_capacity` makes sure of: the capacity fits one lap of 2 ^ k, and two bits are left.
pub record Fits (cap k : ℕ) : Type 0 where
  pub positive : 0 < cap
  pub within : cap ≤ 2 ^ k
  pub small : k ≤ 62

-- How many laps a word counts.
abbrev pub laps : ℕ → ℕ
laps k = 2 ^ (64 - k)

two_pow-add : (a b : ℕ) → 2 ^ a * 2 ^ b ≡ 2 ^ (a + b)
two_pow-add a zero = let e : a + 0 ≡ a = omega arith in rw e (omega arith)
two_pow-add a (suc b) =
    let e : a + suc b ≡ suc (a + b) = omega arith in
    rw e
      (omega (arith, ap (λ (t : ℕ). 2 ^ a * t) (pow-suc 2 b), pow-suc 2 (a + b), two_pow-add a b))

pub lap-mul-laps : (k : ℕ) → k ≤ 62 → 2 ^ k * laps k ≡ word
lap-mul-laps k h = let e : k + (64 - k) ≡ 64 = omega arith in two_pow-add k (64 - k) ∙ rw e refl

-- There are at least four laps, and their number is even.
pub laps_even : (k : ℕ) → k ≤ 62 → (laps k ≡ 2 * 2 ^ (63 - k)) × (2 ≤ 2 ^ (63 - k))
laps_even k h =
    let e : 64 - k ≡ suc (63 - k) = omega arith in
    let f : 63 - k ≡ suc (62 - k) = omega arith in
    (
      rw e (omega (arith, pow-suc 2 (63 - k))),
      rw f (omega (arith, pow-suc 2 (62 - k), one-le-pow (62 - k) 2)),
    )

-- The stamp `{ lap: q, index: i }`, the lap counted modulo the number of laps.
abbrev pub stamp : ℕ → ℕ → ℕ → ℕ
stamp k q i = q % laps k * 2 ^ k + i

laps_pos : (k : ℕ) → k ≤ 62 → 0 < laps k
laps_pos k h = omega (arith, laps_even k h)

lap_mask : (k : ℕ) → k ≤ 62 → bit_not (2 ^ k - 1) ≡ (laps k - 1) * 2 ^ k
lap_mask k h =
    let m = laps k - 1 in
    let e : laps k ≡ m + 1 = omega (arith, laps_pos k h) in
    omega (
      arith,
      ap (λ (t : ℕ). t * 2 ^ k) e,
      lap-mul-laps k h,
      mul_comm (2 ^ k) (laps k),
      one-le-pow k 2,
    )

module _ (k q i : ℕ) (small : k ≤ 62) (low : i < 2 ^ k) where
  pub index_of-stamp : index_of (2 ^ k) (stamp k q i) ≡ i
  unfolding index_of
  index_of-stamp = bit_and_low k (q % laps k) i low

  pub lap_of-stamp : lap_of (2 ^ k) (stamp k q i) ≡ q % laps k * 2 ^ k
  unfolding lap_of
  lap_of-stamp =
      rw (lap_mask k small, bit_and_high k (q % laps k) (laps k - 1) i low)
        (ap (λ (t : ℕ). t * 2 ^ k) whole)
    where
      drop_zero : 0 * laps k + q % laps k ≡ q % laps k
      drop_zero = omega arith

      whole : bit_and (q % laps k) (laps k - 1) ≡ q % laps k
      whole = rw drop_zero at (bit_and_low (64 - k) 0 (q % laps k) (mod-lt q (laps_pos k small)))

  -- One lap more.
  pub stamp-suc : wrapping_add (stamp k q i) (2 ^ k) ≡ stamp k (q + 1) i
  stamp-suc = rw (
    wrapping_add-lap (2 ^ k) (laps k) (q % laps k) i (lap-mul-laps k small) low
        (mod-lt q (laps_pos k small)),
    mod-add-mod,
  )

  pub stamp-lap : stamp k q i / 2 ^ k ≡ q % laps k
  stamp-lap =
      rw (mul-add-div_right (one-le-pow k 2 (omega arith)) (q % laps k) i, div-eq_of_lt low)
        (omega arith)
