-- ===== src/Flavors/List/Query.antt =====
-- The queries of the channel of src/flavors/list.rs, its end, and its handles for `select`.
use crossbeam_channel.Common.{
  ℕ, zero, suc, ◌+◌, Bool, true, false, ◌==◌, if◌then◌else◌, List, [], ◌∷◌, ◌++◌, Option, none,
  some,
}
use crossbeam_channel.Common.Word.{wrapping_add, wrapping_sub}
use crossbeam_channel.Context.{Contexts}
use crossbeam_channel.Waker.Sync
use crossbeam_channel.Flavors.List.Chan.{Channel, Slot, block_cap, slot_at}

module _ {A : Type 0} where
  -- The loop returns in its first round, since no other thread moves the tail between its loads.
  unfoldable pub len : Channel A → ℕ
  len c = wrapping_sub c.tail_index c.head_index

  unfoldable pub capacity : Channel A → Option ℕ
  capacity c = none

  unfoldable pub is_empty : Channel A → Bool
  is_empty c = c.head_index == c.tail_index

  unfoldable pub is_full : Channel A → Bool
  is_full c = false

  unfoldable pub disconnect : Channel A → Contexts → Channel A × Contexts
  disconnect c cxs =
      if c.is_disconnected
      then (c, cxs)
      else (record c { is_disconnected = true }, Sync.disconnect c.receivers cxs)

  abbrev msg_of : Option (Slot A) → Option A
  msg_of none = none
  msg_of (some slot) = slot.msg

  -- The loop of `drop` with the block that is destroyed after it: the messages that are dropped and
  -- the blocks that are destroyed, in order. None: the rounds are over, or the loop drops what is not
  -- a message or reads through a null or dangling pointer.
  unfoldable pub drop_loop : Channel A → ℕ → ℕ → Option ℕ → Option (List A × List ℕ)
  unfolding slot_at
  drop_loop c zero head_index head_ptr =
      if head_index == c.tail_index
      then some ([], elim head_ptr [ none ↦ [] | some ptr ↦ ptr ∷ [] ])
      else none
  drop_loop c (suc rounds) head_index none =
      if head_index == c.tail_index then some ([], []) else none
  drop_loop c (suc rounds) head_index (some ptr) = elim (c.blocks ptr) [
    | none ↦ none
    | some head ↦
        let offset = wrapping_sub head_index head.start_index in
        let is_last = offset + 1 == block_cap in
        let next_ptr : Option ℕ = if is_last then head.next else some ptr in
        let rest = drop_loop c rounds (wrapping_add head_index 1) next_ptr in
        let destroyed : List ℕ = if is_last then ptr ∷ [] else [] in
        if head_index == c.tail_index
        then some ([], ptr ∷ [])
        else elim (msg_of (slot_at c ptr offset)) [
          | none ↦ none
          | some msg ↦ elim rest [
            | none ↦ none
            | some (msgs, ptrs) ↦ some (msg ∷ msgs, destroyed ++ ptrs)
          ]
        ]
  ]

  unfoldable pub drop : ℕ → Channel A → Option (List A × List ℕ)
  unfolding drop_loop
  drop rounds c = drop_loop c rounds c.head_index (some c.head_block)
