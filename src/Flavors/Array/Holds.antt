-- ===== src/Flavors/Array/Holds.antt =====
-- When a channel of src/flavors/array.rs holds a queue of messages, with no operation half done.
use crossbeam_channel.Common.{ℕ, ◌+◌, ◌%◌, ◌^◌, ◌≤◌, ◌<◌, ◌≡◌, List, none, some, length, get_elem?}
use crossbeam_channel.Flavors.Array.Stamp.{Fits}
use crossbeam_channel.Flavors.Array.Position.{send_stamp, recv_stamp}
use crossbeam_channel.Flavors.Array.Chan.{Slot, Channel}

module _ {A : Type 0} where
  -- The slot that waits for the message at position `p`, and the slot that holds it.
  abbrev pub free_slot : ℕ → ℕ → ℕ → Slot A
  free_slot k cap p = record { stamp = send_stamp k cap p; msg = none }

  abbrev pub full_slot : ℕ → ℕ → ℕ → A → Slot A
  full_slot k cap p x = record { stamp = recv_stamp k cap p; msg = some x }

  -- The messages `q` stand at the positions from `h` on; one lap is 2 ^ k.
  pub record Holds (k h : ℕ) (q : List A) (c : Channel A) : Type 0 where
    pub lap : c.one_lap ≡ 2 ^ k
    pub fits : Fits c.cap k
    pub size : length c.buffer ≡ c.cap
    pub room : length q ≤ c.cap
    pub head_at : c.head ≡ recv_stamp k c.cap h
    pub tail_at : c.tail ≡ send_stamp k c.cap (h + length q)
    pub full_at :
        (j : ℕ) (x : A)
        → get_elem? q j ≡ some x
        → get_elem? c.buffer ((h + j) % c.cap) ≡ some (full_slot k c.cap (h + j) x)
    pub free_at :
        (j : ℕ)
        → length q ≤ j
        → j < c.cap
        → get_elem? c.buffer ((h + j) % c.cap) ≡ some (free_slot k c.cap (h + j))
