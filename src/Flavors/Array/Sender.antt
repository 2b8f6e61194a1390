-- ===== src/Flavors/Array/Sender.antt =====
-- `Sender` of src/flavors/array.rs as a `SelectHandle`: `try`, `retry` and `accept` all start to send.
use crossbeam_channel.Common.{ℕ, Bool, not, ◌&&◌, List, Option}
use crossbeam_channel.Waker.Sync
use crossbeam_channel.Flavors.Array.Chan.{ArrayToken, Channel, start_send}
use crossbeam_channel.Flavors.Array.Query.{is_full}

module _ {A : Type 0} where
  unfoldable pub try : List Bool → ArrayToken → Channel A → Option (Bool × ArrayToken × Channel A)
  try rounds token c = start_send rounds token c

  unfoldable pub register : ℕ → ℕ → Channel A → Bool × Channel A
  register oper cx c =
      let c' : Channel A = record c { senders = Sync.register oper cx c.senders } in
      (is_full c' && not c'.is_disconnected, c')

  unfoldable pub unregister : ℕ → Channel A → Channel A
  unregister oper c = record c { senders = (Sync.unregister oper c.senders).1 }

  unfoldable pub state : Channel A → ℕ
  state c = c.head
