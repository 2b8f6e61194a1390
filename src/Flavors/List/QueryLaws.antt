-- ===== src/Flavors/List/QueryLaws.antt =====
-- `len`, `is_empty` and `drop` of src/flavors/list.rs on a channel that holds a queue.
use native.Mathlib.Decide.{ℕ_discrete}
use crossbeam_channel.Common.{
  ℕ, zero, suc, ◌+◌, ◌-◌, ◌*◌, ◌/◌, ◌%◌, ◌≤◌, ◌<◌, ◌≡◌, ◌≢◌, refl, sym, arith, true, ◌==◌, List, [],
  ◌∷◌, some, length, get_elem?,
}
use crossbeam_channel.Common.Word.{word, wrapping_sub}
use crossbeam_channel.Flavors.List.Chan.{Block, Channel, slot_at}
use crossbeam_channel.Flavors.List.Query.{len, is_empty, drop_loop, drop}
use crossbeam_channel.Flavors.List.Cells.{cell, offset_lem, add_lem}
use crossbeam_channel.Flavors.List.Holds.{Holds, link_of}

-- The `n` numbers from `i` on.
abbrev pub numbers : ℕ → ℕ → List ℕ
numbers i zero = []
numbers i (suc n) = i ∷ numbers (i + 1) n

module _ {A : Type 0} {h : ℕ} {q : List A} {c : Channel A} (v : Holds h q c)
    (small : length q < word) where
  -- `len` counts the messages, if they are fewer than 2 ^ 64, also when the indices wrap around.
  pub len-eq : len c ≡ length q
  unfolding len
  len-eq = rw (v.head_at, v.tail_at) (omega (arith, small))

  pub is_empty-eq : is_empty c ≡ (length q == 0)
  unfolding is_empty
  is_empty-eq = ground (arith, v.head_at, v.tail_at, small)

  -- What a round of `drop` finds.
  at_position :
      (i : ℕ) (x : A)
      → get_elem? q i ≡ some x
      → i < length q
      → (b : Block A) × (c.blocks ((h + i) / 32) ≡ some b)
        × (wrapping_sub ((h + i) % word) b.start_index ≡ (h + i) % 32)
        × (b.next ≡ link_of ((h + length q) / 32) ((h + i) / 32))
        × (get_elem? b.slots ((h + i) % 32) ≡ some (record { msg = some x; ready = true }))
  unfolding cell
  at_position i x e lt =
      let (b, found, w) = v.block_at ((h + i) / 32) (omega arith) (omega arith) in
      let p : 32 * ((h + i) / 32) + (h + i) % 32 ≡ h + i = omega arith in
      let z : h + i - h ≡ i = omega arith in
      (
        b,
        found,
        rw w.start (offset_lem (h + i)),
        w.link,
        ground (arith, w.slot_at ((h + i) % 32) (omega arith), p, z, e),
      )

  drop_loop-from :
      (rounds i : ℕ) (r : List A)
      → length r ≤ rounds
      → i + length r ≡ length q
      → ((j : ℕ) → get_elem? r j ≡ get_elem? q (i + j))
      → drop_loop c rounds ((h + i) % word) (some ((h + i) / 32))
        ≡ some (r, numbers ((h + i) / 32) ((h + length q) / 32 + 1 - (h + i) / 32))
  unfolding drop_loop slot_at
  drop_loop-from zero i [] m l g =
      let at_end : h + i ≡ h + length q = omega arith in
      let one : (h + length q) / 32 + 1 - (h + length q) / 32 ≡ 1 = omega arith in
      rw (at_end, one) (ground (arith, v.tail_at))
  drop_loop-from zero i (x ∷ r) m l g = absurd (omega arith)
  drop_loop-from (suc rounds) i [] m l g =
      let at_end : h + i ≡ h + length q = omega arith in
      let one : (h + length q) / 32 + 1 - (h + length q) / 32 ≡ 1 = omega arith in
      let (b, found, w) = v.block_at ((h + length q) / 32) (omega arith) (omega arith) in
      rw (at_end, one) (ground (arith, v.tail_at, found))
  drop_loop-from (suc rounds) i (x ∷ r) m l g =
      let (b, found, offset, next, slot) = at_position i x here (omega arith) in
      let rest =
        drop_loop-from rounds (i + 1) r (omega arith) (omega arith)
          (λ j. let z : i + suc j ≡ i + 1 + j = omega arith in rw z at (g (suc j))) in
      let more : (h + i) % word ≢ (h + length q) % word = omega (arith, small) in
      let after : h + (i + 1) ≡ h + i + 1 = omega arith in
      let rest' = rw (after, ← add_lem (h + i)) at rest in
      elim (ℕ_discrete ((h + i) % 32) 31) [
        | yes last ↦
            let up : (h + i + 1) / 32 ≡ (h + i) / 32 + 1 = omega arith in
            let some_next : b.next ≡ some ((h + i) / 32 + 1) = ground (arith, next) in
            let count : (h + length q) / 32 + 1 - (h + i) / 32
                ≡ suc ((h + length q) / 32 + 1 - ((h + i) / 32 + 1)) =
              omega arith in
            rw count (ground (arith, v.tail_at, found, offset, some_next, slot, rw up at rest'))
        | no within ↦
            let same : (h + i + 1) / 32 ≡ (h + i) / 32 = omega arith in
            ground (arith, v.tail_at, found, offset, slot, rw same at rest')
      ]
    where
      here : get_elem? q i ≡ some x
      here = let z : i + 0 ≡ i = omega arith in rw z at (sym (g 0))

  -- On a channel that holds a queue of fewer than 2 ^ 64 messages, `drop` drops every message,
  -- once and in order, and destroys every block from that of the head to that of the tail once,
  -- if its loop may take a round for each message.
  pub drop-numbers :
      (rounds : ℕ)
      → length q ≤ rounds
      → drop rounds c ≡ some (q, numbers (h / 32) ((h + length q) / 32 + 1 - h / 32))
  unfolding drop
  drop-numbers rounds m =
      let z : h + 0 ≡ h = omega arith in
      rw (v.head_at, v.head_in)
        (rw z at (
          drop_loop-from rounds 0 q m (omega arith)
            (λ j. let y : 0 + j ≡ j = omega arith in rw y refl)))
