-- ===== src/Flavors/Array/Query.antt =====
-- The queries of the channel of src/flavors/array.rs, and its end.
use crossbeam_channel.Common.{
  ℕ, zero, suc, ◌+◌, ◌-◌, Bool, true, ltb, ◌==◌, if◌then◌else◌, List, [], ◌∷◌, Option, none, some,
  get_elem?,
}
use crossbeam_channel.Common.Word.{wrapping_add}
use crossbeam_channel.Context.{Contexts}
use crossbeam_channel.Waker.Sync
use crossbeam_channel.Flavors.Array.Stamp.{index_of}
use crossbeam_channel.Flavors.Array.Chan.{Channel}

module _ {A : Type 0} where
  -- The loop returns in its first round, since no other thread moves the tail between its loads.
  unfoldable pub len : Channel A → ℕ
  len c =
      let hix = index_of c.one_lap c.head in
      let tix = index_of c.one_lap c.tail in
      if ltb hix tix
      then tix - hix
      else if ltb tix hix
      then c.cap - hix + tix
      else if wrapping_add c.tail c.one_lap == c.head
      then 0
      else c.cap

  unfoldable pub capacity : Channel A → Option ℕ
  capacity c = some c.cap

  unfoldable pub is_empty : Channel A → Bool
  is_empty c = wrapping_add c.tail c.one_lap == c.head

  unfoldable pub is_full : Channel A → Bool
  is_full c = wrapping_add c.head c.one_lap == c.tail

  unfoldable pub disconnect : Channel A → Contexts → Channel A × Contexts
  disconnect c cxs = if c.is_disconnected then (c, cxs) else (
    record c { is_disconnected = true },
    Sync.disconnect c.receivers (Sync.disconnect c.senders cxs),
  )

  -- The message that is dropped in place at an index: none if there is none to drop.
  abbrev pub msg_at : Channel A → ℕ → Option A
  msg_at c index = elim (get_elem? c.buffer index) [ none ↦ none | some slot ↦ slot.msg ]

  -- The loop of `drop` from `i` on, for `n` rounds; none if it drops what is not a message.
  unfoldable pub drop_loop : Channel A → ℕ → ℕ → ℕ → Option (List A)
  drop_loop c hix i zero = some []
  drop_loop c hix i (suc n) =
      let rest = drop_loop c hix (i + 1) n in
      let index = if ltb (hix + i) c.cap then hix + i else hix + i - c.cap in
      elim (msg_at c index) [
        | none ↦ none
        | some msg ↦ elim rest [ none ↦ none | some msgs ↦ some (msg ∷ msgs) ]
      ]

  -- The messages that `drop` drops, in order.
  unfoldable pub drop : Channel A → Option (List A)
  unfolding drop_loop len
  drop c = drop_loop c (index_of c.one_lap c.head) 0 (len c)
