-- ===== src/Flavors/Array/Init.antt =====
-- `with_capacity` of src/flavors/array.rs: when it panics, and the channel that it makes.
use native.Mathlib.Nat.{zero-mod, mod-eq_of_lt, div-eq_of_lt}
use crossbeam_channel.Common.{
  ℕ, zero, suc, ◌+◌, ◌*◌, ◌^◌, ◌≤◌, ◌<◌, ◌≡◌, ◌⊎◌, ◌↔◌, refl, ap, sym, ◌∙◌, arith, false, [], none,
  some, length, get_elem?,
}
use crossbeam_channel.Common.Word.{next_power, next_power_least}
use crossbeam_channel.Flavors.Array.Stamp.{Fits, laps, laps_even}
use crossbeam_channel.Flavors.Array.Position.{send_stamp, recv_stamp}
use crossbeam_channel.Flavors.Array.Chan.{Channel, cap_limit, init_slots, initial, with_capacity}
use crossbeam_channel.Flavors.Array.Holds.{Holds}

length-init_slots : (A : Type 0) (i n : ℕ) → length (init_slots {A = A} i n) ≡ n
unfolding init_slots
length-init_slots A i zero = refl
length-init_slots A i (suc n) = ap suc (length-init_slots A (i + 1) n)

get_elem?-init_slots :
    (A : Type 0) (i n j : ℕ)
    → j < n
    → get_elem? (init_slots {A = A} i n) j ≡ some (record { stamp = i + j; msg = none })
unfolding init_slots
get_elem?-init_slots A i zero j h = absurd (omega arith)
get_elem?-init_slots A i (suc n) zero h =
    ap (λ t. some (record { stamp = t; msg = none })) (omega arith)
get_elem?-init_slots A i (suc n) (suc j) h =
    get_elem?-init_slots A (i + 1) n j (omega arith)
    ∙ ap (λ t. some (record { stamp = t; msg = none })) (omega arith)

capacity-Fits : (cap : ℕ) → 0 < cap → cap ≤ cap_limit → Fits cap (next_power cap)
capacity-Fits cap pos limit =
    let least = next_power_least cap 62 (omega arith) (omega arith) in
    record { positive = pos; within = least.0; small = least.1 }

first_lap : (cap k p : ℕ) → p < cap → send_stamp k cap p ≡ p
unfolding send_stamp
first_lap cap k p h = rw (div-eq_of_lt h, mod-eq_of_lt h) (rw zero-mod (omega arith))

first_head : (cap k : ℕ) → Fits cap k → recv_stamp k cap 0 ≡ 2 ^ k
unfolding recv_stamp
first_head cap k f =
    rw (div-eq_of_lt f.positive, mod-eq_of_lt f.positive, mod-eq_of_lt one) (omega arith)
  where
    one : 2 * 0 + 1 < laps k
    one = omega (arith, laps_even k f.small)

pub initial-Holds :
    (A : Type 0) (cap : ℕ)
    → 0 < cap
    → cap ≤ cap_limit
    → Holds {A = A} (next_power cap) 0 [] (initial cap)
initial-Holds A cap pos limit =
    let fits = capacity-Fits cap pos limit in
    record {
      lap = refl;
      fits = fits;
      size = length-init_slots A 0 cap;
      room = omega arith;
      head_at = sym (first_head cap _ fits);
      tail_at = sym (first_lap cap _ 0 pos);
      full_at = λ j x e. cc;
      free_at = λ j le lt.
          let z : 0 + j ≡ j = omega arith in
          rw (z, mod-eq_of_lt lt, first_lap cap (next_power cap) j lt)
            (get_elem?-init_slots A 0 cap j lt
              ∙ ap (λ t. some (record { stamp = t; msg = none })) z);
    }

-- `with_capacity` panics exactly for a capacity of 0 and for one above the limit, a quarter of the
-- largest `usize`.
pub with_capacity-panics :
    (A : Type 0) (cap : ℕ) → (with_capacity {A = A} cap ≡ none) ↔ ((cap ≡ 0) ⊎ (cap_limit < cap))
unfolding with_capacity
with_capacity-panics A cap = (λ e. ground arith, λ e. ground arith)

-- `with_capacity` with a capacity that is positive and at most the limit makes a connected
-- channel that holds no message and has the capacity asked for.
pub with_capacity-Holds :
    (A : Type 0) (cap : ℕ)
    → 0 < cap
    → cap ≤ cap_limit
    → (c : Channel A) × (with_capacity cap ≡ some c)
      × Holds (next_power cap) 0 [] c
      × (c.cap ≡ cap)
      × (c.is_disconnected ≡ false)
unfolding with_capacity
with_capacity-Holds A cap pos limit =
    (initial cap, ground arith, initial-Holds A cap pos limit, refl, refl)
