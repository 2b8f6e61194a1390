-- ===== src/Flavors/Array/QueryLaws.antt =====
-- `len`, `is_empty`, `is_full` and `drop` of src/flavors/array.rs on a channel that holds a queue.
use native.Mathlib.Nat.{mod-lt}
use native.Mathlib.Decide.{ℕ_discrete}
use crossbeam_channel.Common.{
  ℕ, zero, suc, ◌+◌, ◌%◌, ◌≡◌, refl, ap, sym, ◌∙◌, arith, List, [], ◌∷◌, some, ◌==◌, length,
  get_elem?, eqb_of_eq, eqb_of_ne,
}
use crossbeam_channel.Flavors.Array.Position.{
  send_stamp, recv_stamp, recv_stamp-injective, send_stamp-injective, slot-add,
}
use crossbeam_channel.Flavors.Array.Chan.{Channel}
use crossbeam_channel.Flavors.Array.Query.{len, is_empty, is_full, drop_loop, drop}
use crossbeam_channel.Flavors.Array.Holds.{Holds}
use crossbeam_channel.Flavors.Array.Facts.{tail_index, head_index, tail_lap, head_lap}

module _ {A : Type 0} {k h : ℕ} {q : List A} {c : Channel A} (v : Holds k h q c) where
  -- `is_empty` is true exactly if there are no messages.
  pub is_empty-eq : is_empty c ≡ (length q == 0)
  unfolding is_empty
  is_empty-eq = elim (ℕ_discrete (length q) 0) [
    | yes e ↦
        rw (eqb_of_eq e)
          (eqb_of_eq (tail_lap v ∙ ap (recv_stamp k c.cap) (omega arith) ∙ sym v.head_at))
    | no n ↦ rw (eqb_of_ne n) (
        eqb_of_ne λ e. n (
          same (
            recv_stamp-injective c.cap k v.fits h (h + length q) (omega arith)
              (omega (arith, v.room)) (sym v.head_at ∙ sym e ∙ tail_lap v))))
  ]
    where
      same : h ≡ h + length q → length q ≡ 0
      same e = omega arith

  pub is_full-eq : is_full c ≡ (length q == c.cap)
  unfolding is_full
  is_full-eq = elim (ℕ_discrete (length q) c.cap) [
    | yes e ↦
        rw (eqb_of_eq e)
          (eqb_of_eq (head_lap v ∙ ap (λ n. send_stamp k c.cap (h + n)) (sym e) ∙ sym v.tail_at))
    | no n ↦ rw (eqb_of_ne n) (
        eqb_of_ne λ e. n (
          full (
            send_stamp-injective c.cap k v.fits (h + length q) (h + c.cap) (omega (arith, v.room))
              (omega arith) (sym v.tail_at ∙ sym e ∙ head_lap v))))
  ]
    where
      full : h + length q ≡ h + c.cap → length q ≡ c.cap
      full e = omega arith

  -- On a channel that holds a queue, `len` counts the messages, whether or not they go round the
  -- end of the buffer.
  pub len-length : len c ≡ length q
  unfolding len is_empty
  len-length = ground (
    arith,
    head_index v,
    tail_index v,
    v.room,
    v.fits.positive,
    slot-add c.cap h (length q) v.room v.fits.positive,
    mod-lt h v.fits.positive,
    is_empty-eq,
  )

  drop_loop-from :
      (n i : ℕ) (r : List A)
      → i + n ≡ length q
      → length r ≡ n
      → ((j : ℕ) → get_elem? r j ≡ get_elem? q (i + j))
      → drop_loop c (h % c.cap) i n ≡ some r
  unfolding drop_loop
  drop_loop-from zero i [] e l g = refl
  drop_loop-from zero i (x ∷ r) e l g = absurd (omega arith)
  drop_loop-from (suc n) i [] e l g = absurd (omega arith)
  drop_loop-from (suc n) i (x ∷ r) e l g = ground (
    arith,
    slot-add c.cap h i (omega (arith, v.room)) v.fits.positive,
    v.full_at i x here,
    drop_loop-from n (i + 1) r (omega arith) (omega arith) rest,
  )
    where
      here : get_elem? q i ≡ some x
      here = let z : i + 0 ≡ i = omega arith in rw z at (sym (g 0))

      rest : (j : ℕ) → get_elem? r j ≡ get_elem? q (i + 1 + j)
      rest j = let z : i + suc j ≡ i + 1 + j = omega arith in rw z at (g (suc j))

  -- On a channel that holds a queue, `drop` drops every message that the channel holds, once and
  -- in order, and nothing else.
  pub drop-eq : drop c ≡ some q
  unfolding drop
  drop-eq =
      rw (len-length, head_index v)
        (drop_loop-from (length q) 0 q (omega arith) refl
          (λ j. let z : 0 + j ≡ j = omega arith in rw z refl))
