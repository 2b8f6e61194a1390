-- ===== src/Flavors/Array/Position.antt =====
-- The positions behind the stamps of src/flavors/array.rs. The messages of a channel are counted
-- from 0 on without a bound; the message at position `p` is the one that lap `p / cap` puts into
-- slot `p % cap`.
use native.Mathlib.Nat.{
  mod-eq-sub-mod, div-add-mod, mul-add-div_right, mul-add-mod_self_right, div-eq_of_lt,
  mul-le-mul_right, mod-lt, mod-eq_of_lt, mod-add-mod, div-add-mod', add-div_right, add-mod_right,
}
use native.Mathlib.Decide.{dec_lt}
use crossbeam_channel.Common.{
  ℕ, ◌+◌, ◌-◌, ◌*◌, ◌/◌, ◌%◌, ◌^◌, ◌≤◌, ◌<◌, ◌≡◌, ◌≢◌, refl, ap, sym, ◌∙◌, arith, ◌⊎◌, inl, inr,
  ltb_of_lt, ltb_of_le,
}
use crossbeam_channel.Common.Word.{wrapping_add, wrapping_mul}
use crossbeam_channel.Flavors.Array.Stamp.{
  index_of, advance, Fits, laps, laps_even, stamp, index_of-stamp, lap_of-stamp, stamp-suc,
  stamp-lap,
}

-- The stamp of a slot that waits for the message at `p`, and of the tail that comes to it.
unfoldable pub send_stamp : ℕ → ℕ → ℕ → ℕ
send_stamp k cap p = stamp k (2 * (p / cap)) (p % cap)

-- The stamp of a slot that holds the message at `p`, and of the head that comes to it.
unfoldable pub recv_stamp : ℕ → ℕ → ℕ → ℕ
recv_stamp k cap p = stamp k (2 * (p / cap) + 1) (p % cap)

divmod_unique : (cap a i : ℕ) → i < cap → ((a * cap + i) / cap ≡ a) × ((a * cap + i) % cap ≡ i)
divmod_unique cap a i h = (
  rw (mul-add-div_right {m = cap} (omega arith) a i, div-eq_of_lt h) (omega arith),
  rw (mul-add-mod_self_right, mod-eq_of_lt h) refl,
)

-- The position after `p`, in the same lap or at the start of the next.
pub position-suc_same :
    (cap p : ℕ) → p % cap + 1 < cap → ((p + 1) / cap ≡ p / cap) × ((p + 1) % cap ≡ p % cap + 1)
position-suc_same cap p h =
    let e : p + 1 ≡ p / cap * cap + (p % cap + 1) = omega (arith, div-add-mod' p cap) in
    rw e (divmod_unique cap (p / cap) (p % cap + 1) h)

pub position-suc_next :
    (cap p : ℕ) → 0 < cap → cap ≤ p % cap + 1 → ((p + 1) / cap ≡ p / cap + 1) × ((p + 1) % cap ≡ 0)
position-suc_next cap p h0 h =
    let e : p + 1 ≡ (p / cap + 1) * cap + 0 = omega (arith, div-add-mod' p cap, mod-lt p h0) in
    rw e (divmod_unique cap (p / cap + 1) 0 h0)

-- The slot `n` positions after that of `h`, at most one time round.
pub slot-add :
    (cap h n : ℕ)
    → n ≤ cap
    → 0 < cap
    → (((h + n) % cap ≡ h % cap + n) × (h % cap + n < cap))
      ⊎ (((h + n) % cap ≡ h % cap + n - cap) × (cap ≤ h % cap + n))
slot-add cap h n le pos = elim (dec_lt (h % cap + n) cap) [
  | yes lt ↦ inl (sym (mod-add-mod h cap n) ∙ mod-eq_of_lt lt, lt)
  | no ge ↦ inr (
    sym (mod-add-mod h cap n)
        ∙ mod-eq-sub-mod {n = h % cap + n} {m = cap} (omega arith)
        ∙ mod-eq_of_lt {n = h % cap + n - cap} {m = cap} (omega (arith, mod-lt h pos)),
    omega arith,
  )
]

-- Positions less than `cap` apart have different slots.
pub slot-ne : (cap p q : ℕ) → p < q → q < p + cap → p % cap ≢ q % cap
slot-ne cap p q h h' e = elim (dec_lt (p / cap) (q / cap)) [
  | yes lt ↦ omega (arith, div-add-mod' p cap, div-add-mod' q cap, mul-le-mul_right cap lt)
  | no ge ↦
      let le : q / cap ≤ p / cap = omega arith in
      omega (arith, div-add-mod' p cap, div-add-mod' q cap, mul-le-mul_right cap le)
]

laps-parity : (k x : ℕ) → k ≤ 62 → x % laps k % 2 ≡ x % 2
laps-parity k x h =
    omega (arith, div-add-mod x (laps k), ap (λ (t : ℕ). t * (x / laps k)) (laps_even k h).0)

-- Adding fewer than `m`, but not nothing, changes the remainder by `m`.
pub mod-ne-add : (m x d : ℕ) → 0 < d → d < m → (x + d) % m ≢ x % m
mod-ne-add m x d h h' e = elim (dec_lt (x % m + d) m) [
  | yes lt ↦ omega (arith, mod-add-mod x m d, mod-eq_of_lt lt)
  | no ge ↦ omega (
    arith,
    mod-add-mod x m d,
    mod-eq-sub-mod {n = x % m + d} {m = m} (omega arith),
    mod-lt x {m = m} (omega arith),
    mod-eq_of_lt {n = x % m + d - m} {m = m} (omega (arith, mod-lt x {m = m} (omega arith))),
  )
]

module _ (cap k : ℕ) (fits : Fits cap k) where
  pub low : (p : ℕ) → p % cap < 2 ^ k
  low p = omega (arith, fits.within, mod-lt p fits.positive)

  pub index_of-send_stamp : (p : ℕ) → index_of (2 ^ k) (send_stamp k cap p) ≡ p % cap
  unfolding send_stamp recv_stamp
  index_of-send_stamp p = index_of-stamp k _ _ fits.small (low p)

  pub index_of-recv_stamp : (p : ℕ) → index_of (2 ^ k) (recv_stamp k cap p) ≡ p % cap
  unfolding send_stamp recv_stamp
  index_of-recv_stamp p = index_of-stamp k _ _ fits.small (low p)

  -- A slot that has been written holds the message.
  pub send_stamp-add-lap : (p : ℕ) → wrapping_add (send_stamp k cap p) (2 ^ k) ≡ recv_stamp k cap p
  unfolding send_stamp recv_stamp
  send_stamp-add-lap p = stamp-suc k (2 * (p / cap)) (p % cap) fits.small (low p)

  -- A slot that has been read waits for the message one capacity on.
  pub recv_stamp-add-lap :
      (p : ℕ) → wrapping_add (recv_stamp k cap p) (2 ^ k) ≡ send_stamp k cap (p + cap)
  unfolding send_stamp recv_stamp
  recv_stamp-add-lap p =
      rw
        (
          stamp-suc k (2 * (p / cap) + 1) (p % cap) fits.small (low p),
          add-div_right p fits.positive,
          add-mod_right,
        )
        (ap (λ (t : ℕ). t % laps k * 2 ^ k + p % cap) (omega arith))

  -- `advance` on any lap.
  advance-stamp_same :
      (q i : ℕ) → i + 1 < cap → advance cap (2 ^ k) (stamp k q i) ≡ stamp k q (i + 1)
  unfolding advance
  advance-stamp_same q i h =
      rw (index_of-stamp k q i fits.small (omega (arith, fits.within)), ltb_of_lt h) (omega arith)

  advance-stamp_next :
      (q i : ℕ) → i < cap → cap ≤ i + 1 → advance cap (2 ^ k) (stamp k q i) ≡ stamp k (q + 2) 0
  unfolding advance
  advance-stamp_next q i hi h =
      rw
        (
          index_of-stamp k q i fits.small (omega (arith, fits.within)),
          ltb_of_le h,
          lap_of-stamp k q i fits.small (omega (arith, fits.within)),
        )
        two
    where
      pos : 0 < 2 ^ k
      pos = omega (arith, fits.positive, fits.within)

      two : wrapping_add (q % laps k * 2 ^ k) (wrapping_mul (2 ^ k) 2) ≡ stamp k (q + 2) 0
      two =
          let e : q + 1 + 1 ≡ q + 2 = omega arith in
          let s2 = rw e at (stamp-suc k (q + 1) 0 fits.small pos) in
          omega (arith, stamp-suc k q 0 fits.small pos, s2)

  -- Head and tail advance by one position.
  pub advance-send_stamp :
      (p : ℕ) → advance cap (2 ^ k) (send_stamp k cap p) ≡ send_stamp k cap (p + 1)
  unfolding send_stamp recv_stamp
  advance-send_stamp p = elim (dec_lt (p % cap + 1) cap) [
    | yes h ↦
        rw ((position-suc_same cap p h).0, (position-suc_same cap p h).1) (advance-stamp_same _ _ h)
    | no h ↦
        let e : 2 * (p / cap) + 2 ≡ 2 * (p / cap + 1) = omega arith in
        let next = position-suc_next cap p fits.positive (omega arith) in
        rw (next.0, next.1, ← e) (advance-stamp_next _ _ (mod-lt p fits.positive) (omega arith))
  ]

  pub advance-recv_stamp :
      (p : ℕ) → advance cap (2 ^ k) (recv_stamp k cap p) ≡ recv_stamp k cap (p + 1)
  unfolding send_stamp recv_stamp
  advance-recv_stamp p = elim (dec_lt (p % cap + 1) cap) [
    | yes h ↦
        rw ((position-suc_same cap p h).0, (position-suc_same cap p h).1) (advance-stamp_same _ _ h)
    | no h ↦
        let e : 2 * (p / cap) + 1 + 2 ≡ 2 * (p / cap + 1) + 1 = omega arith in
        let next = position-suc_next cap p fits.positive (omega arith) in
        rw (next.0, next.1, ← e) (advance-stamp_next _ _ (mod-lt p fits.positive) (omega arith))
  ]

  -- The laps of the two kinds of stamp have different parities.
  pub send_stamp-parity : (p : ℕ) → send_stamp k cap p / 2 ^ k % 2 ≡ 0
  unfolding send_stamp recv_stamp
  send_stamp-parity p =
      rw (stamp-lap k (2 * (p / cap)) (p % cap) fits.small (low p), laps-parity k _ fits.small)
        (omega arith)

  pub recv_stamp-parity : (p : ℕ) → recv_stamp k cap p / 2 ^ k % 2 ≡ 1
  unfolding send_stamp recv_stamp
  recv_stamp-parity p =
      rw (stamp-lap k (2 * (p / cap) + 1) (p % cap) fits.small (low p), laps-parity k _ fits.small)
        (omega arith)

  pub send-ne-recv : (p q : ℕ) → send_stamp k cap p ≢ recv_stamp k cap q
  unfolding send_stamp recv_stamp
  send-ne-recv p q e =
      omega (arith, send_stamp-parity p, recv_stamp-parity q, ap (λ (t : ℕ). t / 2 ^ k % 2) e)

  -- Within one capacity, the stamp shows the position.
  pub recv_stamp-injective :
      (p q : ℕ) → p ≤ q → q ≤ p + cap → recv_stamp k cap p ≡ recv_stamp k cap q → p ≡ q
  unfolding send_stamp recv_stamp
  recv_stamp-injective p q h h' e = elim (dec_lt p q) [
    | no ge ↦ omega arith
    | yes lt ↦ elim (dec_lt q (p + cap)) [
      | yes near ↦ absurd (slot-ne cap p q lt near same_slot)
      | no far ↦
          let end : q ≡ p + cap = omega arith in
          let two_laps : 2 * (q / cap) + 1 ≡ 2 * (p / cap) + 1 + 2 =
            rw (end, add-div_right p fits.positive) (omega arith) in
          absurd (
            mod-ne-add (laps k) (2 * (p / cap) + 1) 2 (omega arith) four_laps
              (rw (← two_laps) (sym same_lap)))
    ]
  ]
    where
      four_laps : 2 < laps k
      four_laps = omega (arith, laps_even k fits.small)

      same_slot : p % cap ≡ q % cap
      same_slot = sym (index_of-recv_stamp p) ∙ ap (index_of (2 ^ k)) e ∙ index_of-recv_stamp q

      same_lap : (2 * (p / cap) + 1) % laps k ≡ (2 * (q / cap) + 1) % laps k
      same_lap =
          sym (stamp-lap k _ _ fits.small (low p))
          ∙ ap (λ (t : ℕ). t / 2 ^ k) e
          ∙ stamp-lap k _ _ fits.small (low q)

  pub send_stamp-injective :
      (p q : ℕ) → p ≤ q → q ≤ p + cap → send_stamp k cap p ≡ send_stamp k cap q → p ≡ q
  send_stamp-injective p q h h' e =
      recv_stamp-injective p q h h'
        (sym (send_stamp-add-lap p) ∙ ap (λ t. wrapping_add t (2 ^ k)) e ∙ send_stamp-add-lap q)

  -- In either order.
  pub recv_stamp-near :
      (p q : ℕ) → p ≤ q + cap → q ≤ p + cap → recv_stamp k cap p ≡ recv_stamp k cap q → p ≡ q
  recv_stamp-near p q h h' e = elim (dec_lt q p) [
    | yes lt ↦ sym (recv_stamp-injective q p (omega arith) h (sym e))
    | no ge ↦ recv_stamp-injective p q (omega arith) h' e
  ]

  pub send_stamp-near :
      (p q : ℕ) → p ≤ q + cap → q ≤ p + cap → send_stamp k cap p ≡ send_stamp k cap q → p ≡ q
  send_stamp-near p q h h' e = elim (dec_lt q p) [
    | yes lt ↦ sym (send_stamp-injective q p (omega arith) h (sym e))
    | no ge ↦ send_stamp-injective p q (omega arith) h' e
  ]
