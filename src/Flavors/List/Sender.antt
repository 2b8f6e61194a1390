-- ===== src/Flavors/List/Sender.antt =====
-- `Sender` of src/flavors/list.rs as a `SelectHandle`: `try`, `retry` and `accept` all start to send.
use crossbeam_channel.Common.{ℕ, Bool, not, List, Option}
use crossbeam_channel.Flavors.List.Chan.{ListToken, Channel, start_send}

module _ {A : Type 0} where
  unfoldable pub try : List Bool → ListToken → Channel A → Option (Bool × ListToken × Channel A)
  try rounds token c = start_send rounds token c

  -- It registers nothing, since there is always room.
  unfoldable pub register : Channel A → Bool
  register c = not c.is_disconnected

  unfoldable pub state : Channel A → ℕ
  state c = c.head_index
