-- ===== src/Flavors/Array/Facts.antt =====
-- What the tests of src/flavors/array.rs compute to on a channel that holds a queue.
use native.Mathlib.Nat.{add-mod_right}
use crossbeam_channel.Common.{
  ℕ, ◌+◌, ◌%◌, ◌<◌, ◌≡◌, refl, ap, ◌∙◌, arith, List, ◌∷◌, some, length, get_elem?,
}
use crossbeam_channel.Common.Word.{wrapping_add}
use crossbeam_channel.Flavors.Array.Stamp.{index_of, advance}
use crossbeam_channel.Flavors.Array.Position.{
  send_stamp, recv_stamp, index_of-send_stamp, index_of-recv_stamp, send_stamp-add-lap,
  recv_stamp-add-lap, advance-send_stamp, advance-recv_stamp,
}
use crossbeam_channel.Flavors.Array.Chan.{Channel}
use crossbeam_channel.Flavors.Array.Holds.{Holds, free_slot, full_slot}

module _ {A : Type 0} {k h : ℕ} {q : List A} {c : Channel A} (v : Holds k h q c) where
  pub tail_index : index_of c.one_lap c.tail ≡ (h + length q) % c.cap
  tail_index = simp (v.lap, v.tail_at) (index_of-send_stamp c.cap k v.fits (h + length q))

  pub head_index : index_of c.one_lap c.head ≡ h % c.cap
  head_index = simp (v.lap, v.head_at) (index_of-recv_stamp c.cap k v.fits h)

  pub tail_advance : advance c.cap c.one_lap c.tail ≡ send_stamp k c.cap (h + length q + 1)
  tail_advance = simp (v.lap, v.tail_at) (advance-send_stamp c.cap k v.fits (h + length q))

  pub head_advance : advance c.cap c.one_lap c.head ≡ recv_stamp k c.cap (h + 1)
  head_advance = simp (v.lap, v.head_at) (advance-recv_stamp c.cap k v.fits h)

  pub tail_lap : wrapping_add c.tail c.one_lap ≡ recv_stamp k c.cap (h + length q)
  tail_lap = simp (v.lap, v.tail_at) (send_stamp-add-lap c.cap k v.fits (h + length q))

  pub head_lap : wrapping_add c.head c.one_lap ≡ send_stamp k c.cap (h + c.cap)
  head_lap = simp (v.lap, v.head_at) (recv_stamp-add-lap c.cap k v.fits h)

  -- The slot that the tail names is free if there is room.
  pub tail_slot_free :
      length q < c.cap
      → get_elem? c.buffer ((h + length q) % c.cap) ≡ some (free_slot k c.cap (h + length q))
  tail_slot_free lt = v.free_at (length q) (omega arith) lt

  -- The slot that the head names is free if the queue is empty.
  pub head_slot_free : length q ≡ 0 → get_elem? c.buffer (h % c.cap) ≡ some (free_slot k c.cap h)
  head_slot_free e =
      let z : h + 0 ≡ h = omega arith in rw z at (v.free_at 0 (omega arith) v.fits.positive)

-- And holds the first message if it is not.
pub head_slot_full :
    {A : Type 0} {k h : ℕ} {x : A} {q : List A} {c : Channel A}
    → Holds k h (x ∷ q) c
    → get_elem? c.buffer (h % c.cap) ≡ some (full_slot k c.cap h x)
head_slot_full {h = h} {x = x} v = let z : h + 0 ≡ h = omega arith in rw z at (v.full_at 0 x refl)

-- If the queue is full the tail has come round to the slot of the head.
pub tail-eq-head_of_full :
    {A : Type 0} {k h : ℕ} {q : List A} {c : Channel A}
    → Holds k h q c
    → length q ≡ c.cap
    → ((h + length q) % c.cap ≡ h % c.cap) × (c.tail ≡ send_stamp k c.cap (h + c.cap))
tail-eq-head_of_full {k = k} {h = h} {c = c} v e =
    (rw e (add-mod_right h c.cap), v.tail_at ∙ ap (λ n. send_stamp k c.cap (h + n)) e)
