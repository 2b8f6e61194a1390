-- ===== src/Flavors/List/Holds.antt =====
-- When a channel of src/flavors/list.rs holds a queue of messages, with no operation half done.
use crossbeam_channel.Common.{
  ℕ, ◌+◌, ◌/◌, ◌%◌, ◌≤◌, ◌≡◌, ltb, if◌then◌else◌, List, Option, none, some, length,
}
use crossbeam_channel.Common.Word.{word}
use crossbeam_channel.Flavors.List.Chan.{Block, Channel}
use crossbeam_channel.Flavors.List.Cells.{cell, IsBlock}

-- The block after `j` when `last` is the last one. Blocks are numbered as they are allocated.
abbrev pub link_of : ℕ → ℕ → Option ℕ
link_of last j = if ltb j last then some (j + 1) else none

module _ {A : Type 0} where
  -- The messages `q` stand at the positions from `h` on, in the blocks from that of the first
  -- message to that of the next message to be sent.
  pub record Holds (h : ℕ) (q : List A) (c : Channel A) : Type 0 where
    pub head_at : c.head_index ≡ h % word
    pub tail_at : c.tail_index ≡ (h + length q) % word
    pub head_in : c.head_block ≡ h / 32
    pub tail_in : c.tail_block ≡ (h + length q) / 32
    pub next_fresh : c.fresh ≡ (h + length q) / 32 + 1
    pub block_at :
        (j : ℕ)
        → h / 32 ≤ j
        → j ≤ (h + length q) / 32
        → (b : Block A) × (c.blocks j ≡ some b)
          × IsBlock (link_of ((h + length q) / 32) j) (cell h q) j b
